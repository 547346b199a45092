-- ===== src/Services/Registry.antt =====
-- The registry of market subscriptions in pkg/services/push.go: `Subscribe`, `Cancel` and the routing
-- of an update. A subscription is a number, its place among those made. A step is what runs under the
-- subscription lock; `Cancel` sends its request after it.
pub mod Index
pub mod Spec
pub mod Targets
pub mod Laws
pub mod Reconnect
use hstongapi4go.Common.{
  ℕ, Bool, true, false, not, ◌&&◌, ◌||◌, Option, none, some, String, List, [], ◌∷◌, ◌++◌, ◌==◌,
  length, get_elem?, set, ltb, if◌then◌else◌,
}
use hstongapi4go.Common.Int.{ℤ}
use hstongapi4go.Common.Bytes.{Bytes}
use hstongapi4go.Common.Text.{bytes_eq}
use hstongapi4go.Common.Table.{find, put, remove, count, erase}
use hstongapi4go.Errs.{GoError, nil_error, opaque, new_error}
use hstongapi4go.Resilience.Retry.{is_nil}
use hstongapi4go.Domain.Symbol.{is_empty}
use hstongapi4go.Services.Validation.{status_invalid_param}
use hstongapi4go.Services.Push.Keys.{
  Security, security_keys, update_routing_keys, canonical_push_key,
}
use hstongapi4go.Services.Push.Topics.{notify_type_for_topic}

abbrev op_push_subscribe : String
op_push_subscribe = "push.Subscribe"

abbrev pub err_push_closed : GoError
err_push_closed = opaque "services: push orchestration is closed"

-- `Subscription`, apart from what delivery changes.
pub record Subscription : Type 0 where
  pub topic : ℤ
  pub msg_type : ℕ
  pub securities : List Security
  pub closed : Bool

-- `pushEntry`.
pub record Entry : Type 0 where
  pub topic : ℤ
  pub securities : List Security
  pub subs : List ℕ
  pub subscribed : Bool

pub record Registry : Type 0 where
  pub made : List Subscription
  pub entries : List (Bytes × Entry)
  pub by_key : Bytes → List ℕ
  pub closed : Bool

-- `TopicSubscriber`: the two requests.
pub record Gateway (W : Type 0) : Type 0 where
  pub subscribe : ℤ → List Security → W → GoError × W
  pub unsubscribe : ℤ → List Security → W → GoError × W

abbrev pub key_of : Subscription → Bytes
key_of s = canonical_push_key s.topic s.securities

-- `copyAndValidateSecurities`; a nil pointer is `none`.
copied : List (Option Security) → Option (List Security)
copied [] = some []
copied (none ∷ ss) = none
copied (some s ∷ ss) = elim (copied ss) [
  | none ↦ none
  | some cs ↦ if is_empty s.code then none else some (s ∷ cs)
]

unfoldable pub copy_and_validate_securities : List (Option Security) → Option (List Security)
unfolding copied
copy_and_validate_securities [] = none
copy_and_validate_securities (s ∷ ss) = copied (s ∷ ss)

abbrev pub at_key : Bytes → List ℕ → (Bytes → List ℕ) → Bytes → List ℕ
at_key k bucket index x = if bytes_eq k x then bucket else index x

-- `attachLocked`, over the keys of the entry.
unfoldable pub attach : List Bytes → ℕ → (Bytes → List ℕ) → Bytes → List ℕ
attach [] i index = index
attach (k ∷ ks) i index = attach ks i (at_key k (index k ++ (i ∷ [])) index)

-- `removeFromIndexLocked`, over the keys of the entry; an empty bucket is no bucket.
unfoldable pub remove_from_index : List Bytes → ℕ → (Bytes → List ℕ) → Bytes → List ℕ
remove_from_index [] i index = index
remove_from_index (k ∷ ks) i index = remove_from_index ks i (at_key k (erase i (index k)) index)

pub record Reply (W : Type 0) : Type 0 where
  pub error : GoError
  pub subscription : Option ℕ
  pub registry : Registry
  pub world : W

-- What `Subscribe` does with its entry, new or found.
unfoldable pub join_entry : ℤ → ℕ → List Security → Bytes → Entry → Registry → Registry
join_entry topic msg_type ss key entry r =
    let i = length r.made in
    record r {
      made =
          r.made
          ++ (record { topic = topic; msg_type = msg_type; securities = ss; closed = false } ∷ []);
      entries = put key (record entry { subs = entry.subs ++ (i ∷ []) }) r.entries;
      by_key = attach (security_keys entry.securities) i r.by_key;
    }

abbrev pub new_entry : ℤ → List Security → Entry
new_entry topic ss = record { topic = topic; securities = ss; subs = []; subscribed = true }

abbrev refused : {W : Type 0} → GoError → Registry → W → Reply W
refused e r w = record { error = e; subscription = none; registry = r; world = w }

abbrev granted : {W : Type 0} → ℕ → Registry → W → Reply W
granted i r w = record { error = nil_error; subscription = some i; registry = r; world = w }

module _ {W : Type 0} (gateway : Gateway W) where
  -- `Subscribe` under the lock.
  abbrev pub with_entry : ℤ → ℕ → List Security → Registry → W → Option Entry → Reply W
  with_entry topic t ss r w (some entry) =
      granted (length r.made) (join_entry topic t ss (canonical_push_key topic ss) entry r) w
  with_entry topic t ss r w none =
      let asked = gateway.subscribe topic ss w in
      if is_nil asked.0
      then granted (length r.made)
          (join_entry topic t ss (canonical_push_key topic ss) (new_entry topic ss) r) asked.1
      else refused asked.0 r asked.1

  unfoldable pub locked : ℤ → ℕ → List Security → Registry → W → Reply W
  locked topic t ss r w =
      if r.closed
      then refused err_push_closed r w
      else with_entry topic t ss r w (find (canonical_push_key topic ss) r.entries)

  abbrev with_type : ℤ → Option ℕ → Option (List Security) → Registry → W → Reply W
  with_type topic none ss r w =
      refused (new_error status_invalid_param op_push_subscribe "topic has no push payload") r w
  with_type topic (some t) none r w =
      refused (new_error status_invalid_param op_push_subscribe "bad securities") r w
  with_type topic (some t) (some ss) r w = locked topic t ss r w

  -- `subscribeUnderLock`.
  unfoldable pub subscribe_under_lock : ℤ → List (Option Security) → Registry → W → Reply W
  subscribe_under_lock topic sec r w =
      with_type topic (notify_type_for_topic topic) (copy_and_validate_securities sec) r w

  -- The request of `Cancel`, if the entry went.
  unfoldable pub cancel_remote : Option Entry → W → GoError × W
  cancel_remote none w = (nil_error, w)
  cancel_remote (some e) w =
      if e.subscribed then gateway.unsubscribe e.topic e.securities w else (nil_error, w)

-- `detachLocked` of a subscription whose entry is there, when those left in the entry are known.
leave : Bytes → Entry → List ℕ → (Bytes → List ℕ) → Registry → Registry × Option Entry
leave key entry [] index r =
    (record r { entries = remove key r.entries; by_key = index }, some (record entry { subs = [] }))
leave key entry (x ∷ xs) index r = (
  record r { entries = put key (record entry { subs = x ∷ xs }) r.entries; by_key = index },
  none,
)

detach_by : ℕ → Bytes → Registry → Option Entry → Registry × Option Entry
unfolding leave
detach_by i key r none = (r, none)
detach_by i key r (some entry) =
    leave key entry (erase i entry.subs)
      (remove_from_index (security_keys entry.securities) i r.by_key) r

unfoldable pub detach_locked : ℕ → Subscription → Registry → Registry × Option Entry
unfolding detach_by
detach_locked i s r = detach_by i (key_of s) r (find (key_of s) r.entries)

abbrev shut : ℕ → Subscription → Registry → Registry
shut i s r = record r { made = set r.made i (record s { closed = true }) }

-- `Cancel` up to its request: the registration goes, and the channel closes.
cancel_sub : ℕ → Option Subscription → Registry → Registry × Option Entry
cancel_sub i none r = (r, none)
cancel_sub i (some s) r =
    let out = detach_locked i s r in if s.closed then (r, none) else (shut i s out.0, out.1)

unfoldable pub cancel_local : ℕ → Registry → Registry × Option Entry
unfolding cancel_sub
cancel_local i r = cancel_sub i (get_elem? r.made i) r

-- The loop of `dispatchMarket` over one bucket: a subscription is a target once.
unfoldable pub add_targets : List ℕ → List ℕ → List ℕ
add_targets [] targets = targets
add_targets (i ∷ bucket) targets =
    let kept = add_targets bucket targets in
    let more = add_targets bucket (targets ++ (i ∷ [])) in
    if ltb 0 (count i targets) then kept else more

unfoldable pub targets_of : (Bytes → List ℕ) → List Bytes → List ℕ → List ℕ
targets_of index [] targets = targets
targets_of index (k ∷ ks) targets = targets_of index ks (add_targets (index k) targets)

-- The subscriptions that `dispatchMarket` delivers an update to.
unfoldable pub market_targets : Bytes → Bytes → Registry → List ℕ
market_targets id security_code r = targets_of r.by_key (update_routing_keys id security_code) []
