-- ===== src/Session/Manager/Coalesced.antt =====
-- Concurrent calls of EnsureLoggedIn share one login (pkg/hstong/session.go).
use hstongapi4go.Common.{
  ℕ, ◌+◌, ◌≡◌, ◌≤◌, String, none, some, List, [], ◌∷◌, arith, get_elem?, set, All, Option-cases,
  inl, inr,
}
use hstongapi4go.Errs.{GoError, nil_error}
use hstongapi4go.Session.Machine.{State, logged_out}
use hstongapi4go.Session.Manager.{
  Call, ensuring, ensure_waits, calling, returned, Manager, Answer, do_login, advance, run,
}
use hstongapi4go.Session.Manager.Count.{All-get, All-set}

-- A call of EnsureLoggedIn that has not failed.
abbrev pub IsEnsure : Call → Type 0
IsEnsure ensuring = Unit
IsEnsure ensure_waits = Unit
IsEnsure calling = Unit
IsEnsure (returned e) = e ≡ nil_error
IsEnsure _ = ⊥

-- The login that a step begins.
abbrev pub begins : Call → Call → ℕ
begins calling _ = 0
begins _ calling = 1
begins _ _ = 0

abbrev room : State → ℕ
room logged_out = 1
room _ = 0

module _ (password : String) (encrypt_error : String → GoError) where
  -- The logins that a schedule begins.
  unfoldable pub begun : Manager → List Call → List (ℕ × Answer) → ℕ
  begun m calls [] = 0
  begun m calls ((i, a) ∷ rest) = elim (get_elem? calls i) [
    | none ↦ begun m calls rest
    | some c ↦
        let next = advance password encrypt_error m c a in
        begins c next.1 + begun next.0 (set calls i next.1) rest
  ]

  abbrev pub Succeeds : ℕ × Answer → Type 0
  Succeeds s = do_login password encrypt_error s.1 ≡ nil_error

  advance-IsEnsure :
      (m : Manager) (c : Call) (a : Answer)
      → m.login_err ≡ nil_error
      → do_login password encrypt_error a ≡ nil_error
      → IsEnsure c
      → let (m', c') = advance password encrypt_error m c a in
        (m'.login_err ≡ nil_error) × (begins c c' + room m'.state ≤ room m.state) × IsEnsure c'
  unfolding advance
  advance-IsEnsure m ensuring a n s e = ground arith
  advance-IsEnsure m ensure_waits a n s e = ground arith
  advance-IsEnsure m calling a n s e = rw s (ground arith)
  advance-IsEnsure m (returned x) a n s e = ground arith
  advance-IsEnsure m _ a n s e = absurd e

  coalesce :
      (m : Manager) (calls : List Call) (schedule : List (ℕ × Answer))
      → m.login_err ≡ nil_error
      → All IsEnsure calls
      → All Succeeds schedule
      → (begun m calls schedule ≤ room m.state)
        × All IsEnsure (run password encrypt_error m calls schedule).1
  unfolding begun run
  coalesce m calls [] n e s = (ground arith, e)
  coalesce m calls ((i, a) ∷ rest) n e s = elim (Option-cases (get_elem? calls i)) [
    | inl h ↦ rw (h, begun, run) (coalesce m calls rest n e s.1)
    | inr (c, h) ↦
        let (m', c') = advance password encrypt_error m c a in
        let (n', r, e') = advance-IsEnsure m c a n s.0 (All-get IsEnsure calls i c h e) in
        let (few, ok) =
          coalesce m' (set calls i c') rest n' (All-set IsEnsure calls i c' e' e) s.1 in
        rw (h, begun, run) (omega arith, ok)
  ]

  -- Any number of concurrent calls of EnsureLoggedIn, in any interleaving, begin at most one login
  -- between them when logins succeed, and every one that returns, returns nil. The manager holds
  -- no login error at the start.
  pub IsEnsure-coalesced :
      (m : Manager) (calls : List Call) (schedule : List (ℕ × Answer))
      → m.login_err ≡ nil_error
      → All IsEnsure calls
      → All Succeeds schedule
      → (begun m calls schedule ≤ 1) × All IsEnsure (run password encrypt_error m calls schedule).1
  IsEnsure-coalesced m calls schedule n e s =
      let (few, ok) = coalesce m calls schedule n e s in (ground arith, ok)
