-- ===== src/Services/Algo/Attempts.antt =====
-- How often an operation on algorithm orders reaches the transport (pkg/services/algo.go,
-- client/client.go).
use hstongapi4go.Common.{
  ℕ, String, ◌≡◌, refl, Bool, true, false, not, ◌&&◌, Option, none, some, arith, str_eq,
}
use hstongapi4go.Common.Bytes.{Bytes}
use hstongapi4go.Common.Text.{codes, contains, bytes_eq, trim_suffix, has_suffix}
use hstongapi4go.Errs.{GoError}
use hstongapi4go.Resilience.Retry.{Env, is_mutation, strip_alias_suffix}
use hstongapi4go.Client.Execute.Once.{Counts}
use hstongapi4go.Client.Execute.{Config, Store}
use hstongapi4go.Client.Calls.{Executor, client}
use hstongapi4go.Domain.Symbol.{is_empty}
use hstongapi4go.Domain.Price.{Decimals, ValueError}
use hstongapi4go.Services.Push.Keys.{trim_space}
use hstongapi4go.Services.Validation.{one_of}
use hstongapi4go.Services.Validation.Accepts.{passes, passes->>>}
use hstongapi4go.Services.Trading.Attempts.{Single, Attempts, client-Single}
use hstongapi4go.Services.Checks.{sent}
use hstongapi4go.Services.Algo.{
  AlgoBody, AlgoAddOrderRequest, AlgoChangeOrderRequest, AlgoActionRequest, algo_exchanges,
  algo_actions, add_order, change_order, cancel_order, algo_cancel_entrust, action_order,
  op_algo_add_order, op_algo_change_order, op_algo_cancel_order, op_algo_cancel_entrust,
  op_algo_action_order, algo_validate_order_id, algo_validate_entrust_id,
  algo_validate_exchange_type, algo_validate_strategy, algo_validate_action,
}
use hstongapi4go.Services.Algo.Accepts.{
  passes-unless, is_addable, is_change, add_order_checks_lem, change_order_checks_lem,
}

mutations :
    (is_mutation (codes "/trade/AlgoAddOrder") ≡ true)
    × (is_mutation (codes "/trade/AlgoChangeOrder") ≡ true)
    × (is_mutation (codes "/trade/AlgoCancelOrder") ≡ true)
    × (is_mutation (codes "/trade/AlgoCancelEntrust") ≡ true)
    × (is_mutation (codes "/trade/AlgoActionOrder") ≡ true)
unfolding is_mutation contains bytes_eq strip_alias_suffix trim_suffix has_suffix
mutations = (refl, refl, refl, refl, refl)

pub sent-Attempts :
    {B W : Type 0} (executor : Executor B W) (made : W → ℕ)
    → Single executor made
    → (refusal : Option GoError) (op : String) (route : Bytes) (body : B) (w : W) (test : Bool)
    → is_mutation route ≡ true
    → passes refusal ≡ test
    → Attempts made w test (sent executor refusal op route body w)
sent-Attempts executor made laws none op route body w true m p = laws.single op route body w m
sent-Attempts executor made laws none op route body w false m p = absurd (cc)
sent-Attempts executor made laws (some e) op route body w test m p = (e, w, refl, omega arith)

-- What the operations on an order that is there ask for.
abbrev pub is_cancel : Bytes → Bytes → String → Bool
is_cancel account id exchange =
    not (is_empty account) && (not (is_empty (trim_space id)) && one_of exchange algo_exchanges)

abbrev pub is_entrust_cancel : Bytes → Bytes → Bytes → String → Bool
is_entrust_cancel account id entrust exchange =
    not (is_empty account)
    && (not (is_empty (trim_space id))
        && (not (is_empty (trim_space entrust)) && one_of exchange algo_exchanges))

abbrev pub is_action : Bytes → AlgoActionRequest → Bool
is_action account r =
    not (is_empty account)
    && (not (is_empty (trim_space r.order_id))
        && (not (str_eq r.target_strategy "")
            && (one_of r.exchange_type algo_exchanges && one_of r.action algo_actions)))

module _ {W : Type 0} (env : Env W) (clock : W → ℕ)
    (transport_do : AlgoBody → Bytes → W → GoError × W) (cfg : Config W) (closed : Store × W → Bool)
    (made : W → ℕ)
    (laws : (body : AlgoBody) → Counts env (transport_do body) cfg.rate_limiter made) where
  abbrev sdk : Executor AlgoBody (Store × W)
  sdk = client env clock transport_do cfg closed

  abbrev tries : Store × W → ℕ
  tries sw = made sw.1

  single : Single sdk tries
  single = client-Single env clock transport_do cfg closed made laws

  -- AddOrder and ChangeOrder through the SDK's client return. They make no attempt unless the
  -- account is given and the order meets an independent list of conditions, among them a positive
  -- quantity, a price that is not negative, times of day and a share from 1 to 99 where they are
  -- given, and at most one otherwise, whatever the client's configuration and whatever the
  -- transport answers.
  -- In a world that counts the runs of the transport, to which the rate limiter's wait and the
  -- context add none.
  pub algo_orders_once :
      {D : Type 0} (dec : Decimals D) (describe : ValueError → String) (account : Bytes)
      (order : AlgoAddOrderRequest D) (change : AlgoChangeOrderRequest D) (sw : Store × W)
      → Attempts tries sw
          (not (is_empty account) && is_addable dec describe order)
          (add_order sdk dec describe account order sw)
        × Attempts tries sw
            (not (is_empty account) && is_change dec describe change)
            (change_order sdk dec describe account change sw)
  unfolding add_order change_order
  algo_orders_once dec describe account order change sw = (
    sent-Attempts sdk tries single _ op_algo_add_order _ _ sw _ mutations.0
        (add_order_checks_lem dec describe account order),
    sent-Attempts sdk tries single _ op_algo_change_order _ _ sw _ mutations.1
        (change_order_checks_lem dec describe account change),
  )

  -- CancelOrder, CancelEntrust and ActionOrder through the SDK's client return. They make no
  -- attempt unless the account and the identifiers hold text and the exchange, the strategy and
  -- the action are among those allowed, and at most one otherwise, whatever the client's
  -- configuration and whatever the transport answers.
  -- In a world that counts the runs of the transport, to which the rate limiter's wait and the
  -- context add none.
  pub algo_actions_once :
      (account id entrust : Bytes) (exchange : String) (action : AlgoActionRequest) (sw : Store × W)
      → Attempts tries sw (is_cancel account id exchange) (cancel_order sdk account id exchange sw)
        × Attempts tries sw
            (is_entrust_cancel account id entrust exchange)
            (algo_cancel_entrust sdk account id entrust exchange sw)
        × Attempts tries sw (is_action account action) (action_order sdk account action sw)
  unfolding cancel_order algo_cancel_entrust action_order algo_validate_order_id
      algo_validate_entrust_id algo_validate_exchange_type algo_validate_strategy
      algo_validate_action
  algo_actions_once account id entrust exchange action sw = (
    sent-Attempts sdk tries single _ op_algo_cancel_order _ _ sw _ mutations.2
        (simp (passes->>>, passes-unless)),
    sent-Attempts sdk tries single _ op_algo_cancel_entrust _ _ sw _ mutations.3
        (simp (passes->>>, passes-unless)),
    sent-Attempts sdk tries single _ op_algo_action_order _ _ sw _ mutations.4
        (simp (passes->>>, passes-unless)),
  )
