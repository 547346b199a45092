-- ===== src/Session/Manager/Logout.antt =====
-- A Logout that overlaps a login (pkg/hstong/session.go): its answer sets the machine to logged-out
-- whatever the machine does meanwhile.
use hstongapi4go.Common.{
  ℕ, ◌+◌, ◌≡◌, ◌≢◌, refl, ap, ◌∙◌, String, true, some, List, [], ◌∷◌, arith, get_elem?, set,
  get_elem?-set_self, get_elem?-set_ne,
}
use hstongapi4go.Errs.{GoError, nil_error}
use hstongapi4go.Session.Machine.{logged_out}
use hstongapi4go.Session.Manager.{
  Call, ensuring, ensure_waits, logging_out, calling, returned, Manager, Answer, advance, run,
}
use hstongapi4go.Session.Manager.Count.{flights, flights-set}
use hstongapi4go.Session.Manager.SingleFlight.{run-some}

abbrev pub accepted : Answer
accepted = record { error = nil_error; success = true }

module _ (password : String) (encrypt_error : String → GoError) where
  -- The machine after the logout's answer.
  abbrev idle : Manager
  idle = record { state = logged_out; login_err = nil_error }

  -- The logout's answer, and then one step of another call.
  overlapped :
      (m : Manager) (calls : List Call) (i j : ℕ) (a : Answer) (c : Call)
      → i ≢ j
      → get_elem? calls i ≡ some logging_out
      → get_elem? calls j ≡ some c
      → let (m', c') = advance password encrypt_error idle c a in
        run password encrypt_error m calls ((i, accepted) ∷ (j, a) ∷ [])
        ≡ (m', set (set calls i (returned nil_error)) j c')
  unfolding run advance
  overlapped m calls i j a c ne hi hj =
      run-some password encrypt_error m calls i accepted ((j, a) ∷ []) logging_out hi
      ∙ run-some password encrypt_error idle (set calls i (returned nil_error)) j a [] c
          (get_elem?-set_ne calls i j (returned nil_error) ne ∙ hj)

  -- When a Logout is answered while other logins are under way, the next EnsureLoggedIn begins one
  -- login more, whatever the number under way: a login that is in flight does not stop it.
  pub logout_breaks_single_flight :
      (m : Manager) (calls : List Call) (i j : ℕ) (a : Answer)
      → i ≢ j
      → get_elem? calls i ≡ some logging_out
      → get_elem? calls j ≡ some ensuring
      → flights (run password encrypt_error m calls ((i, accepted) ∷ (j, a) ∷ [])).1
        ≡ flights calls + 1
  unfolding advance
  logout_breaks_single_flight m calls i j a ne hi hj =
      let calls' = set calls i (returned nil_error) in
      let there = get_elem?-set_ne calls i j (returned nil_error) ne ∙ hj in
      ap (λ x. flights x.1) (overlapped m calls i j a ensuring ne hi hj)
      ∙ omega (
        arith,
        flights-set calls i logging_out (returned nil_error) hi,
        flights-set calls' j ensuring calling there,
      )

  -- When a Logout is answered while an EnsureLoggedIn waits for a login, the waiting call returns
  -- nil, although the machine is logged out.
  pub waiter_told_logged_in :
      (m : Manager) (calls : List Call) (i j : ℕ) (a : Answer)
      → i ≢ j
      → get_elem? calls i ≡ some logging_out
      → get_elem? calls j ≡ some ensure_waits
      → let (m', calls') = run password encrypt_error m calls ((i, accepted) ∷ (j, a) ∷ []) in
        (get_elem? calls' j ≡ some (returned nil_error)) × (m'.state ≡ logged_out)
  unfolding advance
  waiter_told_logged_in m calls i j a ne hi hj =
      let there = get_elem?-set_ne calls i j (returned nil_error) ne ∙ hj in
      rw (overlapped m calls i j a ensure_waits ne hi hj)
        (get_elem?-set_self (set calls i (returned nil_error)) j (returned nil_error) there, refl)
