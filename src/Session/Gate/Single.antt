-- ===== src/Session/Gate/Single.antt =====
-- Logins of one account are coalesced (pkg/services/session.go), Logouts among them or not.
use hstongapi4go.Common.{
  ℕ, ◌+◌, ◌≡◌, ◌≤◌, refl, Option, none, some, List, [], ◌∷◌, arith, get_elem?, set, Bool-cases,
  Option-cases, inl, inr,
}
use hstongapi4go.Common.Bytes.{Bytes}
use hstongapi4go.Common.Text.{bytes_eq, eq_of_bytes_eq}
use hstongapi4go.Common.Table.{find, find-put, find-remove}
use hstongapi4go.Errs.{GoError}
use hstongapi4go.Session.Gate.{
  Service, Event, Call, leading, calling, saved, settling, publishing, login_asked, starting,
  establishing, following, logout_asked, logging_out, returned, begin_by, follow_by, lead_by,
  start_by, saved_by, call_by, login_by, logout_by, logged_out_by, publish, save_token, advance,
  run,
}
use hstongapi4go.Session.Gate.Flights.{leads, leaders, under_way, leaders-set, leads-get}

module _ (encrypt_error : GoError) where
  begin_by-balance :
      (a b : Bytes) (o : Option ℕ) (g : Service)
      → find b g.pending ≡ o
      → under_way (find a (begin_by b o g).0.pending)
        ≡ under_way (find a g.pending) + leads a (begin_by b o g).1
  unfolding begin_by
  begin_by-balance a b (some k) g h = omega arith
  begin_by-balance a b none g h = rw (find-put) (elim (Bool-cases (bytes_eq b a)) [
    | inl e ↦ rw (e, ← eq_of_bytes_eq b a e, h) refl
    | inr e ↦ rw e (omega arith)
  ])

  -- One step moves the table of attempts and the call together.
  advance-balance :
      (a : Bytes) (g : Service) (c : Call) (x : Event)
      → leads a c ≤ under_way (find a g.pending)
      → let (g', c') = advance encrypt_error g c x in
        under_way (find a g'.pending) + leads a c ≡ under_way (find a g.pending) + leads a c'
  unfolding advance begin_by follow_by lead_by start_by saved_by call_by login_by logout_by
      logged_out_by publish save_token
  advance-balance a g (login_asked b p) x w = ground arith
  advance-balance a g (starting b) x w = ground arith
  advance-balance a g (establishing b) x w =
      omega (arith, begin_by-balance a b (find b g.pending) g refl)
  advance-balance a g (following b k) x w = ground arith
  advance-balance a g (leading b k) x w = ground arith
  advance-balance a g (calling b k) x w = ground arith
  advance-balance a g (saved b k) x w = ground arith
  advance-balance a g (settling b k o) x w = ground arith
  advance-balance a g (publishing b k o) x w = ground (arith, find-remove b g.pending a)
  advance-balance a g (logout_asked b) x w = ground arith
  advance-balance a g (logging_out b) x w = ground arith
  advance-balance a g (returned o) x w = refl

  pub run-none :
      (g : Service) (calls : List Call) (i : ℕ) (x : Event) (rest : List (ℕ × Event))
      → get_elem? calls i ≡ none
      → run encrypt_error g calls ((i, x) ∷ rest) ≡ run encrypt_error g calls rest
  unfolding run
  run-none g calls i x rest h = rw (h, run) refl

  pub run-some :
      (g : Service) (calls : List Call) (i : ℕ) (x : Event) (rest : List (ℕ × Event)) (c : Call)
      → get_elem? calls i ≡ some c
      → let (g', c') = advance encrypt_error g c x in
        run encrypt_error g calls ((i, x) ∷ rest) ≡ run encrypt_error g' (set calls i c') rest
  unfolding run
  run-some g calls i x rest c h = rw (h, run) refl

  -- Among any calls of Login and Logout of the session service, however they interleave and
  -- whatever the Gateway answers, at most one call at a time leads the login of an account, from
  -- the gate to its publication, and one does exactly while the gate has an attempt of that
  -- account under way. From a start at which that is so, with the sessions in memory.
  pub one_leader :
      (a : Bytes) (g : Service) (calls : List Call) (schedule : List (ℕ × Event))
      → leaders a calls ≡ under_way (find a g.pending)
      → let (g', calls') = run encrypt_error g calls schedule in
        (leaders a calls' ≤ 1) × (leaders a calls' ≡ under_way (find a g'.pending))
  unfolding run
  one_leader a g calls [] e = (ground arith, e)
  one_leader a g calls ((i, x) ∷ rest) e = elim (Option-cases (get_elem? calls i)) [
    | inl h ↦ rw (run-none g calls i x rest h) (one_leader a g calls rest e)
    | inr (c, h) ↦
        let (g', c') = advance encrypt_error g c x in
        let moved = leaders-set a calls i c c' h in
        let there = leads-get a calls i c h in
        let balance = advance-balance a g c x (omega arith) in
        rw (run-some g calls i x rest c h) (one_leader a g' (set calls i c') rest (omega arith))
  ]
