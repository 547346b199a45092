-- ===== src/Services/Push/Delivery.antt =====
-- `deliver` of a market and of an order subscription in pkg/services/push.go. A channel is the list of
-- what it holds; `gap1` and `gap2` are what its reader takes between the three selects. A time is a
-- number, `none` the zero time. The counters are uint64.
pub mod Backlog
pub mod Late
use hstongapi4go.Common.{
  ℕ, ◌+◌, ◌%◌, Bool, true, false, not, Option, none, some, List, [], ◌∷◌, length, ltb, ◌==◌,
  if◌then◌else◌,
}
use hstongapi4go.Common.Bytes.{Bytes}
use hstongapi4go.Push.Queue.{enqueue}

-- domain.PushUpdate, with what `eventTimestamp` reads from its event.
pub record Update : Type 0 where
  pub type_ : ℕ
  pub id : Bytes
  pub security_code : Bytes
  pub time : Option ℕ
  pub stamp : Option Bytes

abbrev pub word : ℕ
word = 18446744073709551616

-- The fields of `Subscription` that delivery changes.
pub record Feed : Type 0 where
  pub updates : List Update
  pub closed : Bool
  pub dropped : ℕ
  pub out_of_order : ℕ
  pub last_seen : ℕ
  pub last_update : Bytes
  pub last_wire : Option ℕ

abbrev pub new_feed : Feed
new_feed = record {
  updates = [];
  closed = false;
  dropped = 0;
  out_of_order = 0;
  last_seen = 0;
  last_update = [];
  last_wire = none;
}

-- `isClosed` and `shutdown`.
unfoldable pub shutdown : Feed → Feed
shutdown f = record f { closed = true }

-- The count of the losses after a send to a channel with this many entries.
abbrev pub counted : ℕ → ℕ → ℕ → ℕ
counted cap held dropped = if ltb held cap then dropped else (dropped + 1) % word

-- The comparison of the wire times, and whether it is the first that is late.
wire_against : Option ℕ → Option ℕ → Feed → Feed × Bool
wire_against none last f = (f, false)
wire_against (some t) none f = (record f { last_wire = some t }, false)
wire_against (some t) (some l) f =
    let n = (f.out_of_order + 1) % word in
    if ltb t l
    then (record f { out_of_order = n }, n == 1)
    else (record f { last_wire = some t }, false)

unfoldable pub wire_checked : Option ℕ → Feed → Feed × Bool
unfolding wire_against
wire_checked t f = wire_against t f.last_wire f

abbrev or_stamp : Option Bytes → Bytes → Bytes
or_stamp none old = old
or_stamp (some s) old = s

-- `Subscription.deliver`, and whether it reports an update that is out of order.
unfoldable pub deliver : ℕ → ℕ → ℕ → ℕ → Update → Feed → Feed × Bool
deliver cap gap1 gap2 now u f =
    let checked = wire_checked u.time f in
    if f.closed then (f, false) else (
      record checked.0 {
        last_seen = now;
        last_update = or_stamp u.stamp f.last_update;
        updates = enqueue cap gap1 gap2 u f.updates;
        dropped = counted cap (length f.updates) f.dropped;
      },
      checked.1,
    )

-- The fields of `OrderSubscription` that delivery changes.
pub record OrderFeed : Type 0 where
  pub updates : List Update
  pub closed : Bool
  pub dropped : ℕ
  pub backlog_raised : Bool
  pub last_seen : ℕ

abbrev pub new_order_feed : OrderFeed
new_order_feed = record {
  updates = [];
  closed = false;
  dropped = 0;
  backlog_raised = false;
  last_seen = 0;
}

-- `OrderSubscription.deliver`, and whether it reports a backlog.
unfoldable pub deliver_order : ℕ → ℕ → ℕ → ℕ → Update → OrderFeed → OrderFeed × Bool
deliver_order cap gap1 gap2 now u f =
    let full = not (ltb (length f.updates) cap) in
    if f.closed then (f, false) else (
      record f {
        last_seen = now;
        updates = enqueue cap gap1 gap2 u f.updates;
        dropped = counted cap (length f.updates) f.dropped;
        backlog_raised = if full then true else f.backlog_raised;
      },
      if full then not f.backlog_raised else false,
    )
