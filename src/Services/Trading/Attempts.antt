-- ===== src/Services/Trading/Attempts.antt =====
-- How often an operation on orders reaches the transport (pkg/services/trading.go, client/client.go).
use hstongapi4go.Common.{
  ℕ, ◌+◌, ◌≤◌, String, ◌≡◌, refl, Bool, true, false, not, ◌&&◌, Option, none, some, List, arith,
  Bool-cases, inl, inr,
}
use hstongapi4go.Common.Bytes.{Bytes}
use hstongapi4go.Common.Text.{contains, bytes_eq, trim_suffix, has_suffix}
use hstongapi4go.Errs.{GoError, wrapped}
use hstongapi4go.Resilience.Retry.{Env, is_mutation, strip_alias_suffix}
use hstongapi4go.Client.Routes.{validate}
use hstongapi4go.Client.Execute.{Config, Store}
use hstongapi4go.Client.Execute.Once.{Counts, execute_mutation_once}
use hstongapi4go.Client.Calls.{Executor, client, client_do, err_client_closed, err_unknown_route}
use hstongapi4go.Domain.Symbol.{is_empty}
use hstongapi4go.Domain.Price.{Decimals, Price, ValueError}
use hstongapi4go.Services.Validation.{Order, Resolver, resolve_tick_for_price, op_entrust}
use hstongapi4go.Services.Validation.Accepts.{
  passes, passes->>>, acceptable, accepts_lem, on_tick, in_lots, price_checked, quantity_checked,
}
use hstongapi4go.Services.Wire.{Body}
use hstongapi4go.Services.Trading.{
  send, required, entrust, cancel_entrust, batch_cancel_entrust, change_entrust,
  change_entrust_symbol, op_cancel_entrust, op_batch_cancel_entrust, op_change_entrust,
  route_trade_entrust, route_trade_cancel_entrust, route_trade_batch_cancel_entrust,
  route_trade_change_entrust,
}

abbrev pub count : Bool → ℕ
count true = 1
count false = 0

-- What a service counts on: a call to a mutation route returns, and makes one attempt at most.
pub record Single {B W : Type 0} (executor : Executor B W) (made : W → ℕ) : Type 0 where
  pub single :
      (op : String) (route : Bytes) (body : B) (w : W)
      → is_mutation route ≡ true
      → (e : GoError) × (w' : W) × (executor.do_ op route body w ≡ some (e, w'))
        × (made w' ≤ made w + 1)

-- An operation that makes an attempt only if the test holds, and then one at most.
abbrev pub Attempts : {W : Type 0} → (W → ℕ) → W → Bool → Option (GoError × W) → Type 0
Attempts {W} made w test r =
    (e : GoError) × (w' : W) × (r ≡ some (e, w')) × (made w' ≤ made w + count test)

passes-required :
    (op message : String) (id : Bytes) → passes (required op message id) ≡ not (is_empty id)
passes-required op message id = elim (Bool-cases (is_empty id)) [
  | inl e ↦ rw e refl
  | inr e ↦ rw e refl
]

mutations :
    (is_mutation route_trade_entrust ≡ true)
    × (is_mutation route_trade_cancel_entrust ≡ true)
    × (is_mutation route_trade_batch_cancel_entrust ≡ true)
    × (is_mutation route_trade_change_entrust ≡ true)
unfolding is_mutation contains bytes_eq strip_alias_suffix trim_suffix has_suffix
mutations = (refl, refl, refl, refl)

module _ {D W : Type 0} (dec : Decimals D) (describe : ValueError → String)
    (executor : Executor Body W) (made : W → ℕ) (laws : Single executor made) where
  send-Attempts :
      (refusal : Option GoError) (op : String) (route : Bytes) (body : Body) (w : W) (test : Bool)
      → is_mutation route ≡ true
      → passes refusal ≡ test
      → Attempts made w test (send dec describe executor refusal op route body w)
  send-Attempts none op route body w true m p = laws.single op route body w m
  send-Attempts none op route body w false m p = absurd (cc)
  send-Attempts (some e) op route body w test m p = (e, w, refl, omega arith)

  pub entrust-Attempts :
      (now account : Bytes) (r : Resolver D) (o : Order D) (w : W)
      → Attempts made w
          (not (is_empty account) && acceptable dec describe now o r)
          (entrust dec describe executor now account r o w)
  unfolding entrust
  entrust-Attempts now account r o w =
      send-Attempts _ op_entrust route_trade_entrust _ w _ mutations.0
        (rw (passes->>>, passes-required, accepts_lem) refl)

  pub cancel_entrust-Attempts :
      (account id : Bytes) (w : W)
      → Attempts made w
          (not (is_empty account) && not (is_empty id))
          (cancel_entrust dec describe executor account id w)
  unfolding cancel_entrust
  cancel_entrust-Attempts account id w =
      send-Attempts _ op_cancel_entrust route_trade_cancel_entrust _ w _ mutations.1
        (rw (passes->>>, passes-required, passes-required) refl)

  pub batch_cancel_entrust-Attempts :
      (account : Bytes) (ids : List Bytes) (w : W)
      → Attempts made w
          (not (is_empty account))
          (batch_cancel_entrust dec describe executor account ids w)
  unfolding batch_cancel_entrust
  batch_cancel_entrust-Attempts account ids w =
      send-Attempts _ op_batch_cancel_entrust route_trade_batch_cancel_entrust _ w _ mutations.2
        (passes-required _ _ account)

  pub change_entrust-Attempts :
      (account id : Bytes) (r : Resolver D) (price : Price D) (q : D) (w : W)
      → Attempts made w
          (not (is_empty account)
            && (not (is_empty id)
                && (on_tick dec describe
                      (resolve_tick_for_price dec describe price r change_entrust_symbol)
                      price.dec
                    && in_lots dec describe (r.schedule_for change_entrust_symbol) q)))
          (change_entrust dec describe executor account id r price q w)
  unfolding change_entrust
  change_entrust-Attempts account id r price q w =
      send-Attempts _ op_change_entrust route_trade_change_entrust _ w _ mutations.3 (
        rw
          (
            passes->>>,
            passes->>>,
            passes->>>,
            passes-required,
            passes-required,
            price_checked dec describe price r change_entrust_symbol,
            quantity_checked dec describe q r change_entrust_symbol,
          )
          refl)

-- The SDK's own client is such an executor, whatever breakers, rate limiter and retry policy it has,
-- closed or not.
module _ {B W : Type 0} (env : Env W) (clock : W → ℕ) (transport_do : B → Bytes → W → GoError × W)
    (cfg : Config W) (closed : Store × W → Bool) (made : W → ℕ)
    (laws : (body : B) → Counts env (transport_do body) cfg.rate_limiter made) where
  pub client-Single : Single (client env clock transport_do cfg closed) (λ sw. made sw.1)
  unfolding client_do
  client-Single = record { single = one }
    where
      one :
          (op : String) (route : Bytes) (body : B) (sw : Store × W)
          → is_mutation route ≡ true
          → (e : GoError) × (sw' : Store × W) × (client_do env clock transport_do cfg closed op
                route body sw
              ≡ some (e, sw'))
            × (made sw'.1 ≤ made sw.1 + 1)
      one op route body sw m = elim (Bool-cases (closed sw)) [
        | inl c ↦ (wrapped op err_client_closed, sw, rw c refl, omega arith)
        | inr c ↦ elim (Bool-cases (validate route)) [
          | inr v ↦ (wrapped "" err_unknown_route, sw, rw (c, v) refl, omega arith)
          | inl v ↦
              (let (d, same, few) =
                  execute_mutation_once env clock (transport_do body) op cfg route made (laws body)
                    sw.0 sw.1 m in
                (d.error, (d.store, d.world), rw (c, v, same) refl, few))
        ]
      ]

module _ {D W : Type 0} (dec : Decimals D) (describe : ValueError → String) (env : Env W)
    (clock : W → ℕ) (transport_do : Body → Bytes → W → GoError × W) (cfg : Config W)
    (closed : Store × W → Bool) (made : W → ℕ)
    (laws : (body : Body) → Counts env (transport_do body) cfg.rate_limiter made) where
  abbrev sdk : Executor Body (Store × W)
  sdk = client env clock transport_do cfg closed

  abbrev tries : Store × W → ℕ
  tries sw = made sw.1

  single : Single sdk tries
  single = client-Single env clock transport_do cfg closed made laws

  -- Entrust through the SDK's client returns. It makes no attempt if the account is empty or the
  -- order is not acceptable, and at most one otherwise, whatever breakers, rate limiter and retry
  -- policy are configured, whether or not the client is closed, and whatever the transport, the
  -- context and the timer answer.
  -- In a world that counts the runs of the transport, to which the rate limiter's wait and the
  -- context add none.
  pub entrust_once :
      (now account : Bytes) (r : Resolver D) (o : Order D) (sw : Store × W)
      → Attempts tries sw
          (not (is_empty account) && acceptable dec describe now o r)
          (entrust dec describe sdk now account r o sw)
  entrust_once = entrust-Attempts dec describe sdk tries single

  -- ChangeEntrust through the SDK's client returns. It makes no attempt unless the account and the
  -- order's identifier are given, the new price is on the tick and the new quantity whole lots of
  -- a Hong Kong stock, and at most one then, whatever the client's configuration and whatever the
  -- transport answers.
  -- In a world that counts the runs of the transport, to which the rate limiter's wait and the
  -- context add none.
  pub change_entrust_once :
      (account id : Bytes) (r : Resolver D) (price : Price D) (q : D) (sw : Store × W)
      → Attempts tries sw
          (not (is_empty account)
            && (not (is_empty id)
                && (on_tick dec describe
                      (resolve_tick_for_price dec describe price r change_entrust_symbol)
                      price.dec
                    && in_lots dec describe (r.schedule_for change_entrust_symbol) q)))
          (change_entrust dec describe sdk account id r price q sw)
  change_entrust_once = change_entrust-Attempts dec describe sdk tries single

  -- CancelEntrust and BatchCancelEntrust through the SDK's client return. They make no attempt
  -- without an account and, for the first, an order's identifier, and at most one otherwise,
  -- whatever the client's configuration and whatever the transport answers.
  -- In a world that counts the runs of the transport, to which the rate limiter's wait and the
  -- context add none.
  pub cancel_once :
      (account id : Bytes) (ids : List Bytes) (sw : Store × W)
      → Attempts tries sw
          (not (is_empty account) && not (is_empty id))
          (cancel_entrust dec describe sdk account id sw)
        × Attempts tries sw
            (not (is_empty account))
            (batch_cancel_entrust dec describe sdk account ids sw)
  cancel_once account id ids sw = (
    cancel_entrust-Attempts dec describe sdk tries single account id sw,
    batch_cancel_entrust-Attempts dec describe sdk tries single account ids sw,
  )
