-- ===== src/Services/Push/Orders/Counting.antt =====
-- The order push of pkg/services/push.go is on exactly while an order subscription is live.
use hstongapi4go.Common.{
  ℕ, zero, suc, ◌+◌, ◌≡◌, refl, ap, ◌∙◌, sym, Bool, true, false, not, ◌&&◌, ◌||◌, Option, none,
  some, List, [], ◌∷◌, ◌++◌, ◌==◌, length, get_elem?, set, arith, ltb, if◌then◌else◌, Bool-cases,
  inl, inr, ==_iff, length-append,
}
use hstongapi4go.Common.Int.{pos}
use hstongapi4go.Common.Bytes.{Bytes}
use hstongapi4go.Common.Table.{erase, count}
use hstongapi4go.Resilience.Retry.{is_nil}
use hstongapi4go.Domain.Symbol.{is_empty}
use hstongapi4go.Services.Registry.{err_push_closed}
use hstongapi4go.Services.Validation.{status_invalid_param}
use hstongapi4go.Errs.{nil_error, new_error}
use hstongapi4go.Services.Registry.Index.{one_if, count-add, count-erase_any}
use hstongapi4go.Services.Registry.Laws.{get_elem?-snoc, get_elem?-length, get_elem?-set}
use hstongapi4go.Services.Push.Orders.{
  Desk, OrderGateway, OrderReply, join_orders, subscribe_orders_under_lock, unsubscribe_last,
  release_order, shutdown_order, cancel_order, cancel_made, answer, op_push_subscribe_orders,
  kill_orders, closed_all, is_positive, minus_one,
}

pub data OrderCall : Type 0 where
  subscribe_orders : Bytes → OrderCall
  cancel_orders : ℕ → OrderCall
  -- The Gateway refused to enable the push again after a reconnect.
  lose_orders : OrderCall

abbrev pub new_desk : Desk
new_desk = record {
  made = [];
  orders = [];
  trade_on = false;
  trade_subs = pos 0;
  trade_account = [];
  closed = false;
}

module _ {W : Type 0} (gateway : OrderGateway W) where
  abbrev released : Desk × Option Bytes → W → Desk × W
  released out w = (out.0, (unsubscribe_last gateway out.1 w).1)

  abbrev pub order_step : OrderCall → Desk × W → Desk × W
  order_step (subscribe_orders account) s =
      let out = subscribe_orders_under_lock gateway account s.0 s.1 in (out.desk, out.world)
  order_step (cancel_orders i) s = released (cancel_order i s.0) s.1
  order_step lose_orders s = (kill_orders s.0, s.1)

  unfoldable pub run_orders : List OrderCall → Desk × W → Desk × W
  run_orders [] s = s
  run_orders (c ∷ cs) s = run_orders cs (order_step c s)

abbrev pub is_live : Option Bool → Bool
is_live none = false
is_live (some closed) = not closed

-- The live subscriptions are the open ones, each once; they are counted; and the push is on while there
-- is one.
pub record IsCounted (d : Desk) : Type 0 where
  pub live : (i : ℕ) → count i d.orders ≡ one_if (is_live (get_elem? d.made i))
  pub counted : d.trade_subs ≡ pos (length d.orders)
  pub switched_on : d.trade_on ≡ not (is_empty d.orders)

not_empty : (xs : List ℕ) (x : ℕ) → is_empty (xs ++ (x ∷ [])) ≡ false
not_empty [] x = refl
not_empty (y ∷ ys) x = refl

joined :
    (d : Desk) (on : Bool) (account : Bytes)
    → IsCounted d
    → on ≡ true
    → IsCounted (join_orders (record d { trade_on = on; trade_account = account }))
unfolding join_orders
joined d on account c h = record {
  live = λ i.
      rw (count-add, get_elem?-snoc)
        (elim (Bool-cases (length d.made == i)) [
          | inl e ↦
              let absent : get_elem? d.made i ≡ none =
                rw (← (==_iff _ i).0 e) (get_elem?-length d.made) in
              rw e (omega (arith, c.live i ∙ ap (λ o. one_if (is_live o)) absent))
          | inr e ↦ rw e (omega (arith, c.live i))
        ]);
  counted = rw c.counted (ap pos (omega (arith, length-append d.orders (length d.made ∷ []))));
  switched_on = rw (not_empty d.orders (length d.made)) h;
}

some_live : (i : ℕ) (xs : List ℕ) → count i xs ≡ 1 → not (is_empty xs) ≡ true
unfolding count
some_live i [] h = absurd (omega arith)
some_live i (x ∷ xs) h = refl

erased_length : (i : ℕ) (xs : List ℕ) → count i xs ≡ 1 → length xs ≡ length (erase i xs) + 1
unfolding erase count
erased_length i [] h = absurd (omega arith)
erased_length i (x ∷ xs) h = ground (arith, erased_length i xs)

positive_lem : (xs : List ℕ) → is_positive (pos (length xs)) ≡ not (is_empty xs)
positive_lem [] = refl
positive_lem (x ∷ xs) = refl

left_over : (m n : ℕ) → m ≡ n + 1 → minus_one (pos m) ≡ pos n
left_over zero n h = absurd (omega arith)
left_over (suc m) n h = ap pos (omega arith)

-- Only the one that goes is live no more.
left_live :
    (d : Desk) (i : ℕ)
    → get_elem? d.made i ≡ some false
    → IsCounted d
    → (j : ℕ) → count j (erase i d.orders) ≡ one_if (is_live (get_elem? (set d.made i true) j))
left_live d i known c j =
    rw (count-erase_any, get_elem?-set d.made i j true false known, c.live j)
      (elim (Bool-cases (i == j)) [
        | inl e ↦ rw (e, ← (==_iff i j).0 e, known) (omega arith)
        | inr e ↦ rw e (omega arith)
      ])

live_set :
    (made : List Bool) (o i : ℕ)
    → is_live (get_elem? (set made o true) i) ≡ (is_live (get_elem? made i) && not (o == i))
live_set [] o i = refl
live_set (m ∷ made) zero zero = ground arith
live_set (m ∷ made) zero (suc i) = ground arith
live_set (m ∷ made) (suc o) zero = ground arith
live_set (m ∷ made) (suc o) (suc i) = ground (arith, live_set made o i)

cancelled :
    (d : Desk) (i : ℕ) (o : Option Bool)
    → get_elem? d.made i ≡ o
    → IsCounted d
    → IsCounted (cancel_made i o d).0
unfolding cancel_made release_order shutdown_order
cancelled d i none known c = c
cancelled d i (some true) known c = c
cancelled d i (some false) known c =
    let one : count i d.orders ≡ 1 = c.live i ∙ ap (λ o. one_if (is_live o)) known in
    let fewer : minus_one d.trade_subs ≡ pos (length (erase i d.orders)) =
      ap minus_one c.counted ∙ left_over _ _ (erased_length i d.orders one) in
    let positive : is_positive (minus_one d.trade_subs) ≡ not (is_empty (erase i d.orders)) =
      ap is_positive fewer ∙ positive_lem (erase i d.orders) in
    elim (Bool-cases (is_positive (minus_one d.trade_subs))) [
      | inl p ↦ rw p (record {
        live = left_live d i known c;
        counted = fewer;
        switched_on = c.switched_on ∙ some_live i d.orders one ∙ sym p ∙ positive;
      })
      | inr p ↦
          rw p (record {
            live = left_live d i known c;
            counted = fewer;
            switched_on = sym p ∙ positive;
          })
    ]

closed_all_live :
    (os : List ℕ) (made : List Bool) (i : ℕ)
    → is_live (get_elem? (closed_all os made) i)
      ≡ (is_live (get_elem? made i) && not (ltb 0 (count i os)))
unfolding closed_all count
closed_all_live [] made i = ground arith
closed_all_live (o ∷ os) made i =
    ground (arith, closed_all_live os (set made o true) i, live_set made o i)

lost :
    (d : Desk)
    → IsCounted d
    → (i : ℕ) → count i [] ≡ one_if (is_live (get_elem? (closed_all d.orders d.made) i))
unfolding count
lost d c i = rw (closed_all_live d.orders d.made i) (ground (arith, c.live i))

step-IsCounted :
    {W : Type 0} (gateway : OrderGateway W) (call : OrderCall) (s : Desk × W)
    → IsCounted s.0
    → IsCounted (order_step gateway call s).0
unfolding subscribe_orders_under_lock cancel_order kill_orders
step-IsCounted gateway (subscribe_orders account) s c =
    tested (is_empty account) s.0.closed s.0.trade_on
      (is_nil (gateway.subscribe_orders account s.1).0) refl
  where
    tested :
        (a b on ok : Bool)
        → on ≡ s.0.trade_on
        → IsCounted
            (if a
              then answer
                  (new_error status_invalid_param op_push_subscribe_orders
                    "accountID must not be empty")
                  s.0
                  s.1
              else if b
              then answer err_push_closed s.0 s.1
              else if on
              then answer nil_error (join_orders s.0) s.1
              else if ok
              then answer nil_error
                  (join_orders (record s.0 { trade_on = true; trade_account = account }))
                  (gateway.subscribe_orders account s.1).1
              else answer
                  (gateway.subscribe_orders account s.1).0
                  s.0
                  (gateway.subscribe_orders account s.1).1).desk
    tested true b on ok e = c
    tested false true on ok e = c
    tested false false true ok e = joined s.0 s.0.trade_on s.0.trade_account c (sym e)
    tested false false false true e = joined s.0 true account c refl
    tested false false false false e = c
step-IsCounted gateway (cancel_orders i) s c = cancelled s.0 i (get_elem? s.0.made i) refl c
step-IsCounted gateway lose_orders s c = record {
  live = λ i. lost s.0 c i;
  counted = refl;
  switched_on = refl;
}

run-IsCounted :
    {W : Type 0} (gateway : OrderGateway W) (calls : List OrderCall) (s : Desk × W)
    → IsCounted s.0
    → IsCounted (run_orders gateway calls s).0
unfolding run_orders
run-IsCounted gateway [] s c = c
run-IsCounted gateway (call ∷ calls) s c =
    run-IsCounted gateway calls (order_step gateway call s) (step-IsCounted gateway call s c)

-- After any calls of SubscribeOrders, Cancel and killOrders, one after the other from a new
-- orchestration, the list of order subscriptions holds the open ones, each once, tradeSubs is
-- their number, and tradeOn holds exactly while there is one.
pub run_orders-IsCounted :
    {W : Type 0} (gateway : OrderGateway W) (calls : List OrderCall) (w : W)
    → IsCounted (run_orders gateway calls (new_desk, w)).0
unfolding count
run_orders-IsCounted gateway calls w =
    run-IsCounted gateway calls (new_desk, w)
      (record { live = λ i. refl; counted = refl; switched_on = refl })

-- What the Gateway documents: it pushes once it accepted the request, and a refusal changes
-- nothing.
pub record Pushes {W : Type 0} (gateway : OrderGateway W) (is_on : W → Bool) : Type 0 where
  pub accepted :
      (account : Bytes) (w : W)
      → is_on (gateway.subscribe_orders account w).1
        ≡ (is_nil (gateway.subscribe_orders account w).0 || is_on w)

module _ {W : Type 0} (gateway : OrderGateway W) (is_on : W → Bool)
    (laws : Pushes gateway is_on) where
  abbrev Agrees : Desk × W → Type 0
  Agrees s = s.0.trade_on ≡ true → is_on s.1 ≡ true

  step-Agrees : (call : OrderCall) (s : Desk × W) → Agrees s → Agrees (order_step gateway call s)
  unfolding subscribe_orders_under_lock cancel_order cancel_made release_order shutdown_order
      kill_orders unsubscribe_last join_orders
  step-Agrees lose_orders s h e = absurd (cc)
  step-Agrees (cancel_orders i) s h e = gone (get_elem? s.0.made i) e
    where
      gone : (o : Option Bool) → Agrees (released gateway (cancel_made i o s.0) s.1)
      gone none = h
      gone (some true) = h
      gone (some false) = elim (Bool-cases (is_positive (minus_one s.0.trade_subs))) [
        | inl p ↦ rw p h
        | inr p ↦ rw p (λ e. absurd (cc))
      ]
  step-Agrees (subscribe_orders account) s h e =
      tested (is_empty account) s.0.closed s.0.trade_on
        (is_nil (gateway.subscribe_orders account s.1).0) refl refl e
    where
      reply : Bool → Bool → Bool → Bool → OrderReply W
      reply a b on ok =
          if a
          then answer
              (new_error status_invalid_param op_push_subscribe_orders
                "accountID must not be empty")
              s.0 s.1
          else if b
          then answer err_push_closed s.0 s.1
          else if on
          then answer nil_error (join_orders s.0) s.1
          else if ok
          then answer nil_error
              (join_orders (record s.0 { trade_on = true; trade_account = account }))
              (gateway.subscribe_orders account s.1).1
          else answer (gateway.subscribe_orders account s.1).0 s.0
              (gateway.subscribe_orders account s.1).1

      tested :
          (a b on ok : Bool)
          → on ≡ s.0.trade_on
          → ok ≡ is_nil (gateway.subscribe_orders account s.1).0
          → Agrees ((reply a b on ok).desk, (reply a b on ok).world)
      tested true b on ok t y = h
      tested false true on ok t y = h
      tested false false true ok t y = h
      tested false false false true t y =
          λ x. laws.accepted account s.1 ∙ ap (λ n. n || is_on s.1) (sym y)
      tested false false false false t y = λ x. absurd (cc)

  run-Agrees :
      (calls : List OrderCall) (s : Desk × W) → Agrees s → Agrees (run_orders gateway calls s)
  unfolding run_orders
  run-Agrees [] s h = h
  run-Agrees (call ∷ calls) s h =
      run-Agrees calls (order_step gateway call s) (step-Agrees call s h)

  -- After any such calls, while an order subscription is open the Gateway pushes order updates.
  -- For a Gateway that pushes once it accepted a subscription and that a refused one does not
  -- change.
  pub live-pushed :
      (calls : List OrderCall) (w : W) (i : ℕ)
      → is_live (get_elem? (run_orders gateway calls (new_desk, w)).0.made i) ≡ true
      → is_on (run_orders gateway calls (new_desk, w)).1 ≡ true
  live-pushed calls w i h =
      let c = run_orders-IsCounted gateway calls w in
      let one = c.live i ∙ ap one_if h in
      run-Agrees calls (new_desk, w) (λ e. absurd (cc)) (c.switched_on ∙ some_live i _ one)
