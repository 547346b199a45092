-- ===== src/Examples/Push.antt =====
-- The push client's queues, delays, connections and topics at concrete inputs (internal/push).
use hstongapi4go.Common.{
  none, ◌==◌, if◌then◌else◌, ℕ, ◌+◌, ◌/◌, min, ◌≡◌, refl, true, false, some, List, [], ◌∷◌, arith,
}
use hstongapi4go.Common.Int.{ℤ, pos, negsuc}
use hstongapi4go.Push.Queue.{Handlers, dispatch}
use hstongapi4go.Push.Queue.Drop.{Sent, dispatch_lem}
use hstongapi4go.Push.Backoff.{new_delays, with_reconnect, backoff_after}
use hstongapi4go.Push.Backoff.Bounds.{Bounded, backoff-bounds}
use hstongapi4go.Push.Connection.{
  new_client, Step, connect_dial, connect_store, close, run_dial, run_store, step, run,
  connect_dialled, connect_stored, closing,
}
use hstongapi4go.Push.Connection.Owned.{connect_close_no_leak, run_dial_leaks}
use hstongapi4go.Push.Freshness.{observe_all, new_monitor, check, Activity}
use hstongapi4go.Push.Freshness.History.{verdict, of_topic, check-observe_all}

abbrev full : List ℕ
full = 1 ∷ 2 ∷ []

abbrev handlers : Handlers ℕ
handlers t = if t == 1 then some full else none

dispatch_lem_example :
    (after : List ℕ) × (dispatch 1 0 1 (some 9) handlers 1 ≡ some after)
    × Sent 64 (1 + 0 + 1) 9 full after
    × (dispatch 1 0 1 (some 9) handlers 5 ≡ handlers 5)
dispatch_lem_example = dispatch_lem 1 0 1 5 9 handlers full refl (λ e. omega arith) (omega arith)

abbrev three : List ℕ
three = 1 ∷ 2 ∷ 3 ∷ []

abbrev opts : List (ℤ × ℤ)
opts = (pos 100, pos 40) ∷ (negsuc 0, pos 900) ∷ []

opts_min : (new_delays opts).min_reconnect ≡ pos 100
unfolding new_delays with_reconnect
opts_min = refl

opts_max : (new_delays opts).max_reconnect ≡ pos 900
unfolding new_delays
opts_max = refl

backoff-bounds_example : Bounded (min 100 (900 / 2)) 900 (
    backoff_after (5 ∷ 77 ∷ 3 ∷ []) (new_delays opts).min_reconnect (new_delays opts).max_reconnect)
backoff-bounds_example =
    backoff-bounds opts (5 ∷ 77 ∷ 3 ∷ []) 100 900 opts_min opts_max (omega arith)

-- A Close between the dial of a Connect and its second lock.
abbrev overtaken : List Step
overtaken = connect_dial 4 ∷ close ∷ connect_store 4 ∷ []

overtaken_closed : (run overtaken (new_client false)).closed ≡ true
unfolding run step connect_dialled connect_stored closing
overtaken_closed = refl

overtaken_idle : (run overtaken (new_client false)).connecting 4 ≡ false
unfolding run step connect_dialled connect_stored closing
overtaken_idle = refl

connect_close_no_leak_example : (run overtaken (new_client false)).opened 4 ≡ false
connect_close_no_leak_example =
    connect_close_no_leak false overtaken 4 (refl, (refl, (refl, tt))) overtaken_closed
      overtaken_idle

abbrev leaking : List Step
leaking = run_dial 4 ∷ close ∷ run_store 4 ∷ []

run_dial_leaks_example :
    ((run leaking (new_client false)).closed ≡ true)
    × ((run leaking (new_client false)).conn ≡ some 4)
    × ((run leaking (new_client false)).opened 4 ≡ true)
    × (closing (run leaking (new_client false)) ≡ run leaking (new_client false))
run_dial_leaks_example = run_dial_leaks (new_client false) 4 refl refl refl

abbrev activity : List Activity
activity = (10, pos 1, 5) ∷ (12, pos 2, 0) ∷ (20, pos 1, 3) ∷ []

check-observe_all_example :
    check 25 (pos 1) (observe_all activity (new_monitor (pos 8)))
    ≡ verdict 25 (new_monitor (pos 8)).tol (pos 1) (of_topic (pos 1) activity)
check-observe_all_example = check-observe_all (pos 8) (pos 1) 25 activity
