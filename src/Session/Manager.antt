-- ===== src/Session/Manager.antt =====
-- pkg/hstong/session.go: the session manager. A call of the manager is a thread that runs from one
-- critical section to the next; a schedule says which thread goes on and what the Gateway answers
-- it. A thread that waits on the condition is woken by being scheduled again.
pub mod Count
pub mod SingleFlight
pub mod Coalesced
pub mod Logout
use hstongapi4go.Common.{
  ℕ, suc, ◌+◌, String, Bool, true, false, not, Option, none, some, List, [], ◌∷◌, get_elem?, set,
  str_eq, if◌then◌else◌,
}
use hstongapi4go.Errs.{GoError, nil_error, typed, new_error, wrap, relogin_required}
use hstongapi4go.Session.Machine.{
  State, logged_out, logging_in, logged_in, begin_login, login_succeeded, login_failed, logout,
}

-- Where a call stands. `ensuring`, `logging` and `relogging` wait for the mutex or on the condition,
-- `ensure_waits` is the inner wait of EnsureLoggedIn, `calling` has a login under way and
-- `logging_out` a logout.
pub data Call : Type 0 where
  logging ensuring ensure_waits relogging logout_asked logging_out calling : Call
  relogin : GoError → Call
  returned : GoError → Call

pub record Manager : Type 0 where
  pub state : State
  pub login_err : GoError

-- The Gateway's answer: the error of the call, nil if there is none, and the body's `success`.
pub record Answer : Type 0 where
  pub error : GoError
  pub success : Bool

abbrev pub op_trade_login : String
op_trade_login = "trade/TradeLogin"

abbrev pub is_nil : GoError → Bool
is_nil nil_error = true
is_nil _ = false

module _ (password : String) (encrypt_error : String → GoError) where
  answered : Answer → GoError
  answered a =
      if not (is_nil a.error)
      then a.error
      else if a.success
      then nil_error
      else new_error "" op_trade_login "trade login was rejected"

  -- `doLogin`; the encryption of the password is a parameter.
  unfoldable pub do_login : Answer → GoError
  unfolding answered
  do_login a =
      if str_eq password ""
      then new_error "" op_trade_login "trade password is not configured"
      else if is_nil (encrypt_error password)
      then answered a
      else wrap (encrypt_error password) "" op_trade_login "encrypt trade password"

  -- The second critical section of `finishLogin`.
  publish : Manager → GoError → Manager
  publish m nil_error = record { state = login_succeeded m.state; login_err = nil_error }
  publish m e = record { state = login_failed m.state; login_err = e }

  -- `BeginLogin`, and what follows its two results.
  begin : Manager → Call → Manager × Call
  begin m otherwise =
      let (state, won) = begin_login m.state in
      if won then (record m { state = state }, calling) else (m, otherwise)

  -- `Login` and the wait in front of it.
  login_by : State → Manager → Manager × Call
  unfolding begin
  login_by logging_in m = (m, logging)
  login_by _ m =
      begin (record m { state = logout m.state })
        (returned (new_error "" op_trade_login "session login is already in progress"))

  ensure_by : State → Manager → Manager × Call
  unfolding begin
  ensure_by logged_in m = (m, returned nil_error)
  ensure_by logging_in m = (m, ensure_waits)
  ensure_by logged_out m = begin m ensure_waits

  waits_by : State → Manager → Manager × Call
  waits_by logging_in m = (m, ensure_waits)
  waits_by _ m = (m, returned m.login_err)

  -- `ReLogin` with a cause that requires it: the wait, the discard, and then EnsureLoggedIn.
  relogin_by : State → Manager → Manager × Call
  relogin_by logging_in m = (m, relogging)
  relogin_by _ m = (record m { state = logout m.state }, ensuring)

  -- `Logout`: nothing is sent unless a session is believed to exist.
  logout_by : State → Manager → Manager × Call
  logout_by logged_in m = (m, logging_out)
  logout_by _ m = (m, returned nil_error)

  logged_out_by : Answer → Manager → Manager × Call
  logged_out_by a m =
      if not (is_nil a.error)
      then (m, returned a.error)
      else (record { state = logout m.state; login_err = nil_error }, returned nil_error)

  -- One step of a call.
  unfoldable pub advance : Manager → Call → Answer → Manager × Call
  unfolding publish login_by ensure_by waits_by relogin_by logout_by logged_out_by
  advance m logging a = login_by m.state m
  advance m ensuring a = ensure_by m.state m
  advance m ensure_waits a = waits_by m.state m
  advance m relogging a = relogin_by m.state m
  advance m (relogin cause) a =
      if relogin_required cause then (m, relogging) else (m, returned nil_error)
  advance m logout_asked a = logout_by m.state m
  advance m logging_out a = logged_out_by a m
  advance m calling a = let e = do_login a in (publish m e, returned e)
  advance m (returned e) a = (m, returned e)

  -- The calls under way, and a schedule of them.
  unfoldable pub run : Manager → List Call → List (ℕ × Answer) → Manager × List Call
  run m calls [] = (m, calls)
  run m calls ((i, a) ∷ rest) = elim (get_elem? calls i) [
    | none ↦ run m calls rest
    | some c ↦ let next = advance m c a in run next.0 (set calls i next.1) rest
  ]
