-- ===== src/Examples/Session.antt =====
-- The session manager at concrete schedules (pkg/hstong/session.go).
use hstongapi4go.Session.Gate
use hstongapi4go.Session.Gate.Flights.{leaders, under_way}
use hstongapi4go.Session.Gate.Single.{one_leader}
use hstongapi4go.Common.Table.{find}
use hstongapi4go.Common.Text.{codes}
use hstongapi4go.Common.{
  true, ℕ, ◌+◌, String, ◌≡◌, refl, ◌≤◌, none, some, List, [], ◌∷◌, arith, All,
}
use hstongapi4go.Errs.{GoError, nil_error}
use hstongapi4go.Session.Machine.{logged_out, logging_in}
use hstongapi4go.Session.Manager.{
  Call, ensuring, ensure_waits, calling, logging_out, Manager, Answer, do_login, run,
}
use hstongapi4go.Session.Manager.Count.{flights, expected}
use hstongapi4go.Session.Manager.SingleFlight.{single_flight}
use hstongapi4go.Session.Manager.Coalesced.{IsEnsure, begun, IsEnsure-coalesced}
use hstongapi4go.Session.Manager.Logout.{accepted, logout_breaks_single_flight}

abbrev no_error : String → GoError
no_error p = nil_error

abbrev start : Manager
start = record { state = logged_out; login_err = nil_error }

abbrev two_ensure : List Call
two_ensure = ensuring ∷ ensuring ∷ []

abbrev schedule : List (ℕ × Answer)
schedule = (0, accepted) ∷ (1, accepted) ∷ (0, accepted) ∷ (1, accepted) ∷ []

no_flights : flights two_ensure ≡ expected start.state
no_flights = refl

single_flight_example :
    let (m', calls') = run "pw" no_error start two_ensure schedule in
    (flights calls' ≤ 1) × (flights calls' ≡ expected m'.state)
single_flight_example =
    single_flight "pw" no_error start two_ensure schedule no_flights (tt, (tt, tt))

accepted_succeeds : do_login "pw" no_error accepted ≡ nil_error
unfolding do_login
accepted_succeeds = refl

IsEnsure-coalesced_example :
    (begun "pw" no_error start two_ensure schedule ≤ 1)
    × All IsEnsure (run "pw" no_error start two_ensure schedule).1
IsEnsure-coalesced_example =
    IsEnsure-coalesced "pw" no_error start two_ensure schedule refl (tt, (tt, tt))
      (accepted_succeeds, (accepted_succeeds, (accepted_succeeds, (accepted_succeeds, tt))))

-- A login in flight, a logout in flight and a caller of EnsureLoggedIn.
abbrev busy : Manager
busy = record { state = logging_in; login_err = nil_error }

abbrev overlapping : List Call
overlapping = calling ∷ logging_out ∷ ensuring ∷ []

logout_breaks_single_flight_example :
    flights (run "pw" no_error busy overlapping ((1, accepted) ∷ (2, accepted) ∷ [])).1
    ≡ flights overlapping + 1
logout_breaks_single_flight_example =
    logout_breaks_single_flight "pw" no_error busy overlapping 1 2 accepted (λ e. ground arith) refl
      refl

abbrev waiting : List Call
waiting = calling ∷ logging_out ∷ ensure_waits ∷ []

-- Two logins of one account and a logout, and a schedule that interleaves them.
abbrev gate_calls : List Gate.Call
gate_calls =
    Gate.login_asked (codes "A1") (codes "pw")
    ∷ Gate.login_asked (codes "A1") (codes "pw")
    ∷ Gate.logout_asked (codes "A1")
    ∷ []

abbrev gate_event : Gate.Event
gate_event = record {
  now = 100;
  ctx_err = none;
  error = nil_error;
  success = some true;
  token = codes "t";
}

abbrev gate_schedule : List (ℕ × Gate.Event)
gate_schedule =
    (0, gate_event)
    ∷ (1, gate_event)
    ∷ (0, gate_event)
    ∷ (1, gate_event)
    ∷ (1, gate_event)
    ∷ (0, gate_event)
    ∷ (1, gate_event)
    ∷ (2, gate_event)
    ∷ []

abbrev new_service : Gate.Service
new_service = record { sessions = []; pending = []; attempts = [] }

nobody_leads : leaders (codes "A1") gate_calls ≡ under_way (find (codes "A1") new_service.pending)
unfolding find
nobody_leads = refl

one_leader_example :
    let out = Gate.run nil_error new_service gate_calls gate_schedule in
    (leaders (codes "A1") out.1 ≤ 1)
    × (leaders (codes "A1") out.1 ≡ under_way (find (codes "A1") out.0.pending))
one_leader_example =
    one_leader nil_error (codes "A1") new_service gate_calls gate_schedule nobody_leads
