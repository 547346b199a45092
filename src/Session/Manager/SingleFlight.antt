-- ===== src/Session/Manager/SingleFlight.antt =====
-- Logins are coalesced (pkg/hstong/session.go), as long as no Logout overlaps them.
use hstongapi4go.Common.{
  ℕ, ◌+◌, ◌≡◌, ◌≤◌, refl, String, none, some, List, [], ◌∷◌, arith, get_elem?, set, All,
  Option-cases, inl, inr,
}
use hstongapi4go.Errs.{GoError}
use hstongapi4go.Session.Manager.{
  Call, logout_asked, logging_out, relogin, Manager, Answer, advance, run,
}
use hstongapi4go.Session.Manager.Count.{
  in_flight, flights, expected, flights-set, flights-get, All-get, All-set,
}

-- Every kind of call but Logout.
abbrev pub NoLogout : Call → Type 0
NoLogout logout_asked = ⊥
NoLogout logging_out = ⊥
NoLogout _ = Unit

module _ (password : String) (encrypt_error : String → GoError) where
  -- One step moves the machine and the call together.
  advance-balance :
      (m : Manager) (c : Call) (a : Answer)
      → NoLogout c
      → in_flight c ≤ expected m.state
      → let (m', c') = advance password encrypt_error m c a in
        expected m'.state + in_flight c ≡ expected m.state + in_flight c'
  unfolding advance
  advance-balance m (relogin cause) a n w = ground arith
  advance-balance m c a n w = ground arith

  advance-NoLogout :
      (m : Manager) (c : Call) (a : Answer)
      → NoLogout c
      → NoLogout (advance password encrypt_error m c a).1
  unfolding advance
  advance-NoLogout m (relogin cause) a n = ground arith
  advance-NoLogout m c a n = ground arith

  pub run-none :
      (m : Manager) (calls : List Call) (i : ℕ) (a : Answer) (rest : List (ℕ × Answer))
      → get_elem? calls i ≡ none
      → run password encrypt_error m calls ((i, a) ∷ rest) ≡ run password encrypt_error m calls rest
  unfolding run
  run-none m calls i a rest h = rw (h, run) refl

  pub run-some :
      (m : Manager) (calls : List Call) (i : ℕ) (a : Answer) (rest : List (ℕ × Answer)) (c : Call)
      → get_elem? calls i ≡ some c
      → let (m', c') = advance password encrypt_error m c a in
        run password encrypt_error m calls ((i, a) ∷ rest)
        ≡ run password encrypt_error m' (set calls i c') rest
  unfolding run
  run-some m calls i a rest c h = rw (h, run) refl

  -- From a start in which one login is under way if the machine is logging in and none otherwise,
  -- whatever the schedule and whatever the Gateway answers, at most one login is under way among
  -- any calls of Login, EnsureLoggedIn and ReLogin, and one is exactly while the machine is
  -- logging in. No Logout is among the calls.
  pub single_flight :
      (m : Manager) (calls : List Call) (schedule : List (ℕ × Answer))
      → flights calls ≡ expected m.state
      → All NoLogout calls
      → let (m', calls') = run password encrypt_error m calls schedule in
        (flights calls' ≤ 1) × (flights calls' ≡ expected m'.state)
  unfolding run
  single_flight m calls [] e n = (ground arith, e)
  single_flight m calls ((i, a) ∷ rest) e n = elim (Option-cases (get_elem? calls i)) [
    | inl h ↦ rw (run-none m calls i a rest h) (single_flight m calls rest e n)
    | inr (c, h) ↦
        let (m', c') = advance password encrypt_error m c a in
        let mine = All-get NoLogout calls i c h n in
        let moved = flights-set calls i c c' h in
        let there = flights-get calls i c h in
        let balance = advance-balance m c a mine (omega arith) in
        rw (run-some m calls i a rest c h) (
          single_flight m' (set calls i c') rest (omega arith)
            (All-set NoLogout calls i c' (advance-NoLogout m c a mine) n))
  ]
