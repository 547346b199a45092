-- ===== src/Examples/Desks.antt =====
-- The push subscriptions of the services at concrete inputs (pkg/services/push.go).
use hstongapi4go.Services.Push.Stream.Unrouted.{Stray, new_ids}
use hstongapi4go.Common.{String}
use hstongapi4go.Common.{
  ℕ, ◌+◌, ◌≡◌, ◌≤◌, refl, Bool, true, false, ◌||◌, Option, none, some, List, [], ◌∷◌, length, ltb,
  get_elem?, arith, if◌then◌else◌,
}
use mathlib.Core.List.{Perm, Permᴰ}
use hstongapi4go.Common.Int.{pos}
use hstongapi4go.Common.Bytes.{Bytes}
use hstongapi4go.Common.Text.{bytes_eq_refl, codes, bytes_eq, contains}
use hstongapi4go.Common.Table.{count, find, put, remove, erase}
use hstongapi4go.Errs.{nil_error}
use hstongapi4go.Services.Push.Keys.{
  Security, canonical_push_key, sort, insert, join, security_keys, distinct_keys,
  normalise_routing_key,
}
use hstongapi4go.Services.Push.Keys.Sorted.{canonical_push_key-Perm}
use hstongapi4go.Services.Registry.{
  Registry, Gateway, market_targets, subscribe_under_lock, copy_and_validate_securities, locked,
  join_entry, attach, cancel_local, detach_locked,
}
use hstongapi4go.Services.Push.Topics.{notify_type_for_topic}
use hstongapi4go.Services.Validation.{bytes_less}
use hstongapi4go.Common.Decimal.{itoa, digits}
use hstongapi4go.Services.Registry.Index.{one_if}
use hstongapi4go.Services.Registry.Laws.{IsSound}
use hstongapi4go.Services.Registry.Targets.{wants, market_targets_lem}
use hstongapi4go.Services.Registry.Spec.{
  Call, subscribe_call, cancel_call, empty_registry, is_open_for, run_calls, run_spec, KeyGateway,
  IsByKey,
}
use hstongapi4go.Services.Registry.Spec.Refines.{run_calls-refines, run_calls-IsSound}
use hstongapi4go.Services.Registry.Spec.Served.{Serves, open-served}
use hstongapi4go.Services.Push.Delivery.{Update}
use hstongapi4go.Services.Push.Delivery.Backlog.{
  Event, arrives, takes, new_run, one_more, run_events, run_events_lem,
}
use hstongapi4go.Services.Push.Delivery.Late.{Arrival}
use hstongapi4go.Services.Push.Orders.{
  OrderGateway, subscribe_orders_under_lock, join_orders, cancel_order, release_order,
  shutdown_order, unsubscribe_last,
}
use hstongapi4go.Services.Push.Orders.Counting.{
  OrderCall, subscribe_orders, cancel_orders, new_desk, run_orders, is_live, IsCounted, Pushes,
  run_orders-IsCounted, live-pushed,
}

abbrev pub tencent : Security
tencent = record { code = codes "00700.HK"; data_type = pos 10000 }

abbrev pub hsbc : Security
hsbc = record { code = codes "00005"; data_type = pos 10000 }

both_ways : Perm (tencent ∷ hsbc ∷ []) (hsbc ∷ tencent ∷ [])
both_ways = ∣ Permᴰ.swap refl refl ∣₁

canonical_push_key-Perm_example :
    canonical_push_key (pos 11) (tencent ∷ hsbc ∷ [])
    ≡ canonical_push_key (pos 11) (hsbc ∷ tencent ∷ [])
canonical_push_key-Perm_example =
    canonical_push_key-Perm (pos 11) (tencent ∷ hsbc ∷ []) (hsbc ∷ tencent ∷ []) both_ways

-- A Gateway that accepts everything; its world is the set of the keys that it serves.
abbrev pub Served : Type 0
Served = Bytes → Bool

abbrev pub by_key : KeyGateway Served
by_key = record {
  subscribe_key = λ k w. (nil_error, λ x. bytes_eq k x || w x);
  unsubscribe_key = λ k w. (nil_error, λ x. if bytes_eq k x then false else w x);
}

abbrev pub gateway : Gateway Served
gateway = record {
  subscribe = λ t ss. by_key.subscribe_key (canonical_push_key t ss);
  unsubscribe = λ t ss. by_key.unsubscribe_key (canonical_push_key t ss);
}

pub by_key_gateway : IsByKey gateway by_key
by_key_gateway = record { subscribed = λ t ss w. refl; unsubscribed = λ t ss w. refl }

or_true : (b : Bool) → (b || true) ≡ true
or_true true = refl
or_true false = refl

-- In it a key shares instruments with itself alone.
pub by_key-Serves : Serves by_key (λ w x. w x) bytes_eq
by_key-Serves = record {
  asked = λ k w e. rw (bytes_eq_refl k) refl;
  kept = λ k x w h. rw h (or_true (bytes_eq k x));
  stopped = λ k x w o h. rw o h;
}

abbrev pub nothing : Served
nothing x = false

-- Two subscriptions of one list, and the first leaves.
abbrev pub calls : List Call
calls =
    subscribe_call (pos 11) (some tencent ∷ some hsbc ∷ [])
    ∷ subscribe_call (pos 11) (some hsbc ∷ some tencent ∷ [])
    ∷ cancel_call 0
    ∷ []

abbrev after : Registry × Served
after = run_calls gateway calls (empty_registry, nothing)

run_calls-refines_example : (after.0.made, after.1) ≡ run_spec by_key calls ([], nothing)
run_calls-refines_example = run_calls-refines gateway by_key by_key_gateway calls nothing

run_calls-IsSound_example : IsSound after.0
run_calls-IsSound_example = run_calls-IsSound gateway by_key by_key_gateway calls nothing

market_targets_lem_example :
    count 1 (market_targets (codes " 00700") (codes "00005.hk") after.0)
    ≡ one_if (wants after.0 1 (codes " 00700") || wants after.0 1 (codes "00005.hk"))
market_targets_lem_example =
    market_targets_lem (codes " 00700") (codes "00005.hk") after.0 1 run_calls-IsSound_example

abbrev pub key : Bytes
key = canonical_push_key (pos 11) (hsbc ∷ tencent ∷ [])

still_open : is_open_for key after.0.made ≡ true
unfolding run_calls subscribe_under_lock notify_type_for_topic copy_and_validate_securities locked
    join_entry attach cancel_local detach_locked canonical_push_key sort insert bytes_less join itoa
    digits find put remove erase bytes_eq security_keys distinct_keys normalise_routing_key
still_open = refl

open-served_example : after.1 key ≡ true
open-served_example =
    open-served by_key (λ w x. w x) bytes_eq by_key-Serves gateway by_key_gateway calls nothing key
      (λ k x p q b. b) still_open

abbrev fill : Option ℕ → Update
fill time = record { type_ = 1; id = codes "00700"; security_code = []; time = time; stamp = none }

abbrev events : List Event
events =
    arrives 1 (fill none)
    ∷ arrives 2 (fill none)
    ∷ arrives 3 (fill none)
    ∷ takes 1
    ∷ arrives 4 (fill none)
    ∷ []

run_events_lem_example :
    let s = run_events 2 events new_run in
    (s.taken + length s.feed.updates + s.feed.dropped ≡ 4)
    × (length s.feed.updates ≤ 2)
    × (s.reports ≡ one_more (ltb 0 s.feed.dropped) 0)
run_events_lem_example = run_events_lem 2 events (omega arith) (omega arith)

abbrev at_time : ℕ → Arrival
at_time t = record { now = t; gap1 = 0; gap2 = 0; update = fill (some t) }

abbrev frames : List Arrival
frames = at_time 5 ∷ at_time 7 ∷ at_time 6 ∷ at_time 8 ∷ []

-- A Gateway whose world tells if the order push is on.
abbrev order_gateway : OrderGateway Bool
order_gateway = record {
  subscribe_orders = λ account w. (nil_error, true);
  unsubscribe_orders = λ account w. (nil_error, false);
}

order_gateway-Pushes : Pushes order_gateway (λ w. w)
order_gateway-Pushes = record { accepted = λ account w. refl }

abbrev order_calls : List OrderCall
order_calls = subscribe_orders (codes "A1") ∷ subscribe_orders (codes "A2") ∷ cancel_orders 0 ∷ []

run_orders-IsCounted_example : IsCounted (run_orders order_gateway order_calls (new_desk, false)).0
run_orders-IsCounted_example = run_orders-IsCounted order_gateway order_calls false

second_live :
    is_live (get_elem? (run_orders order_gateway order_calls (new_desk, false)).0.made 1) ≡ true
unfolding run_orders subscribe_orders_under_lock join_orders cancel_order release_order
    shutdown_order unsubscribe_last erase
second_live = refl

live-pushed_example : (run_orders order_gateway order_calls (new_desk, false)).1 ≡ true
live-pushed_example =
    live-pushed order_gateway (λ w. w) order_gateway-Pushes order_calls false 1 second_live

abbrev stray : String → Stray
stray id = record { gap1 = 0; gap2 = 0; id = codes id; security_code = codes id }

abbrev strays : List Stray
strays = stray "00700.HK" ∷ stray "00005.HK" ∷ stray "00700.HK" ∷ []

few_ids : new_ids [] strays ≡ 2
unfolding contains bytes_eq
few_ids = refl
