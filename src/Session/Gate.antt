-- ===== src/Session/Gate.antt =====
-- pkg/services/session.go over internal/auth: the session service with its store in memory. A call is a
-- thread that runs from one critical section to the next; a schedule names the thread that goes on
-- and what it meets. The gate lets one login of an account at a time into `Authenticator.Login`, so
-- that one's own flights (internal/auth/token_manager.go) never meet and are not modelled.
pub mod Flights
pub mod Single
use hstongapi4go.Common.{
  ℕ, zero, suc, ◌+◌, ◌-◌, String, Bool, true, false, not, Option, none, some, List, [], ◌∷◌, ◌++◌,
  length, get_elem?, set, ltb, leb, if◌then◌else◌,
}
use hstongapi4go.Common.Bytes.{Bytes}
use hstongapi4go.Common.Table.{find, put, remove}
use hstongapi4go.Errs.{GoError, nil_error, opaque, new_error, Category, account, category_of}
use hstongapi4go.Resilience.Retry.{is_nil}
use hstongapi4go.Domain.Symbol.{is_empty}
use hstongapi4go.Services.Push.Keys.{trim_space}
use hstongapi4go.Services.Validation.{status_invalid_param}

abbrev op_trade_login : String
op_trade_login = "trade/TradeLogin"

abbrev op_trade_logout : String
op_trade_logout = "trade/TradeLogout"

-- In seconds: `defaultTokenTTL` and `defaultRefreshWindow`.
abbrev pub default_token_ttl : ℕ
default_token_ttl = 10800

abbrev pub default_refresh_window : ℕ
default_refresh_window = 600

-- `Session` of internal/auth/session.go.
pub record Session : Type 0 where
  pub token : Bytes
  pub account_id : Bytes
  pub expiry : ℕ
  pub refresh_at : ℕ

abbrev pub is_expired : ℕ → Session → Bool
is_expired now s = leb s.expiry now

abbrev pub should_refresh : ℕ → Session → Bool
should_refresh now s = leb s.refresh_at now

-- What a login ends with.
pub record Outcome : Type 0 where
  pub session : Session
  pub error : GoError

abbrev pub no_session : Session
no_session = record { token = []; account_id = []; expiry = 0; refresh_at = 0 }

abbrev pub failed : GoError → Outcome
failed e = record { session = no_session; error = e }

abbrev pub held : Session → Outcome
held s = record { session = s; error = nil_error }

-- The store, the gate's attempts under way by account, and each attempt made, with its outcome once it
-- is published.
pub record Service : Type 0 where
  pub sessions : List (Bytes × Session)
  pub pending : List (Bytes × ℕ)
  pub attempts : List (Option Outcome)

-- Where a call stands. `calling` has the login request under way, `saved` has kept the token, and
-- `settling` and `publishing` have the outcome of the attempt.
pub data Call : Type 0 where
  login_asked : Bytes → Bytes → Call
  starting establishing : Bytes → Call
  following leading calling saved : Bytes → ℕ → Call
  settling publishing : Bytes → ℕ → Outcome → Call
  logout_asked logging_out : Bytes → Call
  returned : Outcome → Call

-- What a step meets: the clock, the error of the context if the call gives up waiting, and the answer of
-- the Gateway.
pub record Event : Type 0 where
  pub now : ℕ
  pub ctx_err : Option GoError
  pub error : GoError
  pub success : Option Bool
  pub token : Bytes

-- `TradeSessionAcceptedFromDTO`.
abbrev accepted_by : Option Bool → Bytes → Bool
accepted_by none token = not (is_empty token)
accepted_by (some b) token = b

-- `sessionUnusable`.
abbrev is_account : Category → Bool
is_account account = true
is_account _ = false

unfoldable pub session_unusable : GoError → Bool
session_unusable nil_error = false
session_unusable e = is_account (category_of e)

abbrev err_session_not_stored : GoError
err_session_not_stored = opaque "session_not_stored"

-- `Login` after the attempt: the error, or a session that names an account.
abbrev pub finished : Outcome → Outcome
finished o =
    if not (is_nil o.error)
    then failed o.error
    else if is_empty o.session.account_id
    then failed (
        new_error "" op_trade_login
          "the session store did not return the session that was just established")
    else o

-- The session in the store, unless it is due for a refresh: `liveSession`.
abbrev live_of : ℕ → Option Session → Option Session
live_of now none = none
live_of now (some s) = if should_refresh now s then none else some s

unfoldable pub live_session : Bytes → ℕ → Service → Option Session
live_session a now g = live_of now (find a g.sessions)

-- `SaveToken`.
unfoldable pub save_token : Bytes → Bytes → ℕ → Service → Service
save_token a token now g = record g {
  sessions =
      put a
        (record {
          token = token;
          account_id = a;
          expiry = now + default_token_ttl;
          refresh_at = now + (default_token_ttl - default_refresh_window);
        })
        g.sessions;
}

-- `loginGate.begin`.
begin_by : Bytes → Option ℕ → Service → Service × Call
begin_by a (some k) g = (g, following a k)
begin_by a none g = (
  record g { pending = put a (length g.attempts) g.pending; attempts = g.attempts ++ (none ∷ []) },
  leading a (length g.attempts),
)

-- The select of a follower.
follow_by : Bytes → ℕ → Option GoError → Option (Option Outcome) → Call
follow_by a k (some e) o = returned (failed e)
follow_by a k none (some (some o)) = returned (finished o)
follow_by a k none o = following a k

-- `lead`: the session that is there by now, or a login.
lead_by : Bytes → ℕ → Option Session → Call
lead_by a k (some s) = settling a k (held s)
lead_by a k none = calling a k

start_by : Bytes → Option Session → Call
start_by a (some s) = returned (held s)
start_by a none = establishing a

saved_by : Bytes → ℕ → Option Session → Call
saved_by a k (some s) = settling a k (held s)
saved_by a k none = settling a k (failed err_session_not_stored)

module _ (encrypt_error : GoError) where
  -- `Authenticator.Login` up to `SaveToken`; the encryption of the password is a parameter.
  call_by : Bytes → ℕ → Event → Service → Service × Call
  call_by a k x g =
      if not (is_nil encrypt_error)
      then (g, settling a k (failed encrypt_error))
      else if not (is_nil x.error)
      then (g, settling a k (failed x.error))
      else if accepted_by x.success x.token
      then (save_token a x.token x.now g, saved a k)
      else (g, settling a k (failed (new_error "" op_trade_login "trade login was rejected")))

  -- `Login` before it looks at the store.
  login_by : Bytes → Bytes → Call
  login_by a password =
      if is_empty a
      then returned
          (failed (new_error status_invalid_param op_trade_login "accountID must not be empty"))
      else if is_empty (trim_space password)
      then returned (
          failed (new_error status_invalid_param op_trade_login "trade password must not be empty"))
      else starting a

  logout_by : Bytes → Option Session → Call
  logout_by a o =
      if is_empty a
      then returned
          (failed (new_error status_invalid_param op_trade_logout "accountID must not be empty"))
      else elim o [ none ↦ returned (held no_session) | some s ↦ logging_out a ]

  logged_out_by : Bytes → Event → Service → Service × Call
  logged_out_by a x g =
      if not (is_nil x.error)
      then (g, returned (failed x.error))
      else if accepted_by x.success x.token
      then (record g { sessions = remove a g.sessions }, returned (held no_session))
      else (g, returned (failed (new_error "" op_trade_logout "trade logout was rejected")))

  -- `publish`, and what `Login` returns.
  publish : Bytes → ℕ → Outcome → Service → Service × Call
  publish a k o g = (
    record g { pending = remove a g.pending; attempts = set g.attempts k (some o) },
    returned (finished o),
  )

  -- One step of a call.
  unfoldable pub advance : Service → Call → Event → Service × Call
  unfolding begin_by follow_by lead_by start_by saved_by call_by login_by logout_by logged_out_by
      publish
  advance g (login_asked a password) x = (g, login_by a password)
  advance g (starting a) x = (g, start_by a (live_session a x.now g))
  advance g (establishing a) x = begin_by a (find a g.pending) g
  advance g (following a k) x = (g, follow_by a k x.ctx_err (get_elem? g.attempts k))
  advance g (leading a k) x = (g, lead_by a k (live_session a x.now g))
  advance g (calling a k) x = call_by a k x g
  advance g (saved a k) x = (g, saved_by a k (find a g.sessions))
  advance g (settling a k o) x = (
    if session_unusable o.error then record g { sessions = remove a g.sessions } else g,
    publishing a k o,
  )
  advance g (publishing a k o) x = publish a k o g
  advance g (logout_asked a) x = (g, logout_by a (find a g.sessions))
  advance g (logging_out a) x = logged_out_by a x g
  advance g (returned o) x = (g, returned o)

  -- The calls under way, and a schedule of them.
  unfoldable pub run : Service → List Call → List (ℕ × Event) → Service × List Call
  run g calls [] = (g, calls)
  run g calls ((i, x) ∷ rest) = elim (get_elem? calls i) [
    | none ↦ run g calls rest
    | some c ↦ let next = advance g c x in run next.0 (set calls i next.1) rest
  ]
