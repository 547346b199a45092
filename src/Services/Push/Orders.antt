-- ===== src/Services/Push/Orders.antt =====
-- The session-wide order push of pkg/services/push.go: `SubscribeOrders` and the `Cancel` of an order
-- subscription, in the pieces that the lock makes of them. `trade_subs` is an int.
pub mod Counting
use hstongapi4go.Common.{
  ℕ, zero, suc, ◌+◌, String, Bool, true, false, not, Option, none, some, List, [], ◌∷◌, ◌++◌,
  length, get_elem?, set, if◌then◌else◌,
}
use hstongapi4go.Common.Int.{ℤ, pos, negsuc}
use hstongapi4go.Common.Bytes.{Bytes}
use hstongapi4go.Common.Table.{erase}
use hstongapi4go.Errs.{GoError, nil_error, new_error}
use hstongapi4go.Resilience.Retry.{is_nil}
use hstongapi4go.Domain.Symbol.{is_empty}
use hstongapi4go.Services.Validation.{status_invalid_param}
use hstongapi4go.Services.Registry.{err_push_closed}

abbrev op_push_subscribe_orders : String
op_push_subscribe_orders = "push.SubscribeOrders"

-- The order subscriptions made, by their number: whether each is closed; and the live ones.
pub record Desk : Type 0 where
  pub made : List Bool
  pub orders : List ℕ
  pub trade_on : Bool
  pub trade_subs : ℤ
  pub trade_account : Bytes
  pub closed : Bool

-- `OrderPushSubscriber`.
pub record OrderGateway (W : Type 0) : Type 0 where
  pub subscribe_orders : Bytes → W → GoError × W
  pub unsubscribe_orders : Bytes → W → GoError × W

abbrev pub plus_one : ℤ → ℤ
plus_one (pos n) = pos (n + 1)
plus_one (negsuc zero) = pos 0
plus_one (negsuc (suc n)) = negsuc n

abbrev pub minus_one : ℤ → ℤ
minus_one (pos zero) = negsuc 0
minus_one (pos (suc n)) = pos n
minus_one (negsuc n) = negsuc (n + 1)

abbrev pub is_positive : ℤ → Bool
is_positive (pos zero) = false
is_positive (pos (suc n)) = true
is_positive (negsuc n) = false

pub record OrderReply (W : Type 0) : Type 0 where
  pub error : GoError
  pub desk : Desk
  pub world : W

abbrev pub answer : {W : Type 0} → GoError → Desk → W → OrderReply W
answer e d w = record { error = e; desk = d; world = w }

-- What `SubscribeOrders` does once the push is on.
unfoldable pub join_orders : Desk → Desk
join_orders d = record d {
  made = d.made ++ (false ∷ []);
  orders = d.orders ++ (length d.made ∷ []);
  trade_subs = plus_one d.trade_subs;
}

module _ {W : Type 0} (gateway : OrderGateway W) where
  abbrev pub switched : Bytes → Desk → W → OrderReply W
  switched account d w =
      let asked = gateway.subscribe_orders account w in
      if d.trade_on
      then answer nil_error (join_orders d) w
      else if is_nil asked.0
      then answer nil_error (join_orders (record d { trade_on = true; trade_account = account }))
          asked.1
      else answer asked.0 d asked.1

  -- `subscribeOrdersUnderLock`.
  unfoldable pub subscribe_orders_under_lock : Bytes → Desk → W → OrderReply W
  subscribe_orders_under_lock account d w =
      if is_empty account
      then answer
          (new_error status_invalid_param op_push_subscribe_orders "accountID must not be empty") d
          w
      else if d.closed
      then answer err_push_closed d w
      else switched account d w

  -- The request of `Cancel`: for the account, if it was the last.
  unfoldable pub unsubscribe_last : Option Bytes → W → GoError × W
  unsubscribe_last none w = (nil_error, w)
  unsubscribe_last (some account) w = gateway.unsubscribe_orders account w

-- `Cancel` under the lock, for a subscription that is not closed: the account to unsubscribe, if it was
-- the last.
unfoldable pub release_order : ℕ → Desk → Desk × Option Bytes
release_order i d =
    let left = minus_one d.trade_subs in
    let d' = record d { orders = erase i d.orders; trade_subs = left } in
    if is_positive left then (d', none) else (record d' { trade_on = false }, some d.trade_account)

-- `shutdown`, which follows without the lock.
unfoldable pub shutdown_order : ℕ → Desk → Desk
shutdown_order i d = record d { made = set d.made i true }

-- `Cancel` up to its request; one that is closed, or is not there, changes nothing.
cancel_made : ℕ → Option Bool → Desk → Desk × Option Bytes
cancel_made i none d = (d, none)
cancel_made i (some true) d = (d, none)
cancel_made i (some false) d = let out = release_order i d in (shutdown_order i out.0, out.1)

unfoldable pub cancel_order : ℕ → Desk → Desk × Option Bytes
unfolding cancel_made
cancel_order i d = cancel_made i (get_elem? d.made i) d

-- `killOrders`.
closed_all : List ℕ → List Bool → List Bool
closed_all [] made = made
closed_all (i ∷ is) made = closed_all is (set made i true)

unfoldable pub kill_orders : Desk → Desk
unfolding closed_all
kill_orders d = record d {
  made = closed_all d.orders d.made;
  orders = [];
  trade_on = false;
  trade_subs = pos 0;
}
