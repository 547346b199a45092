-- ===== src/Services/Registry/Spec.antt =====
-- What the registry of pkg/services/push.go promises: one request for the first open subscription of a
-- key and one when the last of them goes, whatever the tables inside are.
pub mod Owners
pub mod Refines
pub mod Served
use hstongapi4go.Common.{
  ℕ, ◌≡◌, Bool, true, false, not, ◌&&◌, ◌||◌, Option, none, some, List, [], ◌∷◌, ◌++◌, get_elem?,
  set, if◌then◌else◌,
}
use hstongapi4go.Common.Int.{ℤ}
use hstongapi4go.Common.Bytes.{Bytes}
use hstongapi4go.Errs.{GoError}
use hstongapi4go.Resilience.Retry.{is_nil}
use hstongapi4go.Services.Push.Keys.{Security, canonical_push_key}
use hstongapi4go.Services.Push.Topics.{notify_type_for_topic}
use hstongapi4go.Services.Registry.{
  Subscription, Entry, Registry, Gateway, key_of, copy_and_validate_securities,
  subscribe_under_lock, cancel_local, cancel_remote,
}
use hstongapi4go.Services.Registry.Laws.{owns}

-- Calls, one after the other.
pub data Call : Type 0 where
  subscribe_call : ℤ → List (Option Security) → Call
  cancel_call : ℕ → Call

abbrev pub empty_registry : Registry
empty_registry = record { made = []; entries = []; by_key = λ k. []; closed = false }

abbrev pub is_open_for : Bytes → List Subscription → Bool
is_open_for key [] = false
is_open_for key (s ∷ made) = owns (some s) key || is_open_for key made

module _ {W : Type 0} (gateway : Gateway W) where
  abbrev settled : Registry × Option Entry → W → Registry × W
  settled out w = (out.0, (cancel_remote gateway out.1 w).1)

  abbrev step : Call → Registry × W → Registry × W
  step (subscribe_call topic sec) rw' =
      let out = subscribe_under_lock gateway topic sec rw'.0 rw'.1 in (out.registry, out.world)
  step (cancel_call i) rw' = settled (cancel_local i rw'.0) rw'.1

  unfoldable pub run_calls : List Call → Registry × W → Registry × W
  run_calls [] rw' = rw'
  run_calls (c ∷ cs) rw' = run_calls cs (step c rw')

-- The specification keeps the subscriptions alone, and asks the Gateway by key.
pub record KeyGateway (W : Type 0) : Type 0 where
  pub subscribe_key : Bytes → W → GoError × W
  pub unsubscribe_key : Bytes → W → GoError × W

-- A Gateway to which an instrument list is a set.
pub record IsByKey {W : Type 0} (gateway : Gateway W) (by : KeyGateway W) : Type 0 where
  pub subscribed :
      (topic : ℤ) (ss : List Security) (w : W)
      → gateway.subscribe topic ss w ≡ by.subscribe_key (canonical_push_key topic ss) w
  pub unsubscribed :
      (topic : ℤ) (ss : List Security) (w : W)
      → gateway.unsubscribe topic ss w ≡ by.unsubscribe_key (canonical_push_key topic ss) w

module _ {W : Type 0} (by : KeyGateway W) where
  abbrev with_new : ℤ → ℕ → List Security → List Subscription → List Subscription
  with_new topic t ss made =
      made ++ (record { topic = topic; msg_type = t; securities = ss; closed = false } ∷ [])

  abbrev spec_subscribe :
      ℤ → Option ℕ → Option (List Security) → List Subscription × W → List Subscription × W
  spec_subscribe topic none ss d = d
  spec_subscribe topic (some t) none d = d
  spec_subscribe topic (some t) (some ss) d =
      let asked = by.subscribe_key (canonical_push_key topic ss) d.1 in
      if is_open_for (canonical_push_key topic ss) d.0
      then (with_new topic t ss d.0, d.1)
      else if is_nil asked.0
      then (with_new topic t ss d.0, asked.1)
      else (d.0, asked.1)

  abbrev spec_cancel : ℕ → Option Subscription → List Subscription × W → List Subscription × W
  spec_cancel i none d = d
  spec_cancel i (some s) d =
      let made = set d.0 i (record s { closed = true }) in
      if s.closed
      then d
      else if is_open_for (key_of s) made
      then (made, d.1)
      else (made, (by.unsubscribe_key (key_of s) d.1).1)

  abbrev spec_step : Call → List Subscription × W → List Subscription × W
  spec_step (subscribe_call topic sec) d =
      spec_subscribe topic (notify_type_for_topic topic) (copy_and_validate_securities sec) d
  spec_step (cancel_call i) d = spec_cancel i (get_elem? d.0 i) d

  unfoldable pub run_spec : List Call → List Subscription × W → List Subscription × W
  run_spec [] d = d
  run_spec (c ∷ cs) d = run_spec cs (spec_step c d)
