-- ===== src/Services/Registry/Reconnect.antt =====
-- The reconnect and the closing of pkg/services/push.go: `onReconnect`, `resubscribeAll`, `killEntry` and
-- `closeAll`. No other call comes in between, so the entries that `resubscribeAll` copied are still
-- those of the registry when `killEntry` is called with one. A report is what it names.
pub mod Tables
pub mod Ready
pub mod Renewal
pub mod Restored
pub mod Closed
use hstongapi4go.Common.{
  ℕ, ◌≡◌, Bool, true, false, not, ◌&&◌, ◌||◌, Option, none, some, List, [], ◌∷◌, ◌++◌, get_elem?,
  set, if◌then◌else◌,
}
use hstongapi4go.Common.Bytes.{Bytes}
use hstongapi4go.Common.Table.{remove}
use hstongapi4go.Errs.{GoError, nil_error}
use hstongapi4go.Resilience.Retry.{is_nil}
use hstongapi4go.Services.Validation.{bytes_less}
use hstongapi4go.Services.Push.Keys.{security_keys, canonical_push_key}
use hstongapi4go.Services.Push.Stream.{StreamError, reconnected, subscription_lost}
use hstongapi4go.Services.Push.Orders.{Desk, OrderGateway, kill_orders}
use hstongapi4go.Services.Registry.{Subscription, Entry, Registry, Gateway, remove_from_index}

abbrev pub entry_key : Entry → Bytes
entry_key e = canonical_push_key e.topic e.securities

abbrev unrouted : Option Subscription → ℕ → (Bytes → List ℕ) → Bytes → List ℕ
unrouted none i index = index
unrouted (some s) i index = remove_from_index (security_keys s.securities) i index

-- The loop of `killEntry` over the routing index.
unfoldable pub unroute_all : List ℕ → List Subscription → (Bytes → List ℕ) → Bytes → List ℕ
unroute_all [] made index = index
unroute_all (i ∷ is) made index = unroute_all is made (unrouted (get_elem? made i) i index)

abbrev pub shut_one : ℕ → Option Subscription → List Subscription → List Subscription
shut_one i none made = made
shut_one i (some s) made = set made i (record s { closed = true })

-- `shutdown` of each.
unfoldable pub shut_all : List ℕ → List Subscription → List Subscription
shut_all [] made = made
shut_all (i ∷ is) made = shut_all is (shut_one i (get_elem? made i) made)

-- `killEntry` up to its request.
unfoldable pub kill_entry : Entry → Registry → Registry
kill_entry e r = record r {
  made = shut_all e.subs r.made;
  entries = remove (entry_key e) r.entries;
  by_key = unroute_all e.subs r.made r.by_key;
}

-- The entries that the Gateway accepted.
unfoldable pub accepted : List (Bytes × Entry) → List Entry
accepted [] = []
accepted ((k, e) ∷ m) = if e.subscribed then e ∷ accepted m else accepted m

-- `sort.Slice` by key.
unfoldable pub insert_entry : Entry → List Entry → List Entry
insert_entry e [] = e ∷ []
insert_entry e (d ∷ ds) =
    if bytes_less (entry_key d) (entry_key e) then d ∷ insert_entry e ds else e ∷ d ∷ ds

unfoldable pub sort_entries : List Entry → List Entry
sort_entries [] = []
sort_entries (e ∷ es) = insert_entry e (sort_entries es)

pub record Outcome (W : Type 0) : Type 0 where
  pub registry : Registry
  pub reports : List StreamError
  pub world : W

pub record OrderOutcome (W : Type 0) : Type 0 where
  pub desk : Desk
  pub reports : List StreamError
  pub world : W

abbrev pub lost_if : Bool → Bytes → List StreamError → List StreamError
lost_if true key reports = subscription_lost key ∷ reports
lost_if false key reports = reports

module _ {W : Type 0} where
  abbrev pub reported : List StreamError → Outcome W → Outcome W
  reported es o = record o { reports = es ++ o.reports }

  -- The loop of `resubscribeAll` over the entries, each request one attempt.
  unfoldable pub resubscribe_keys : Gateway W → List Entry → Registry → W → Outcome W
  resubscribe_keys gateway [] r w = record { registry = r; reports = []; world = w }
  resubscribe_keys gateway (e ∷ es) r w =
      let asked = gateway.subscribe e.topic e.securities w in
      let stopped = gateway.unsubscribe e.topic e.securities asked.1 in
      let kept = resubscribe_keys gateway es r asked.1 in
      let killed = resubscribe_keys gateway es (kill_entry e r) stopped.1 in
      if is_nil asked.0
      then kept
      else reported
          (subscription_lost (entry_key e) ∷ lost_if (not (is_nil stopped.0)) (entry_key e) [])
          killed

  unfoldable pub resubscribe_all : Gateway W → Registry → W → Outcome W
  resubscribe_all gateway r w = resubscribe_keys gateway (sort_entries (accepted r.entries)) r w

  -- The part of `resubscribeAll` for the order push.
  unfoldable pub resubscribe_orders : Option (OrderGateway W) → Desk → W → OrderOutcome W
  resubscribe_orders none d w = record { desk = d; reports = []; world = w }
  resubscribe_orders (some gateway) d w =
      let asked = gateway.subscribe_orders d.trade_account w in
      if not d.trade_on
      then record { desk = d; reports = []; world = w }
      else if is_nil asked.0
      then record { desk = d; reports = []; world = asked.1 }
      else record {
        desk = kill_orders d;
        reports = subscription_lost d.trade_account ∷ [];
        world = asked.1;
      }

  -- `onReconnect`, for the registry.
  unfoldable pub on_reconnect : Gateway W → Registry → W → Outcome W
  on_reconnect gateway r w =
      if r.closed
      then record { registry = r; reports = []; world = w }
      else reported (reconnected ∷ []) (resubscribe_all gateway r w)

-- The subscriptions of all entries.
unfoldable pub all_subs : List (Bytes × Entry) → List ℕ
all_subs [] = []
all_subs ((k, e) ∷ m) = e.subs ++ all_subs m

-- `Close`, for the registry: the flag, and `closeAll` once the read loop has ended.
unfoldable pub close_all : Registry → Registry
close_all r = record r {
  made = shut_all (all_subs r.entries) r.made;
  entries = [];
  by_key = λ k. [];
  closed = true;
}
