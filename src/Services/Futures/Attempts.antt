-- ===== src/Services/Futures/Attempts.antt =====
-- How often an operation on futures orders reaches the transport (pkg/services/futures.go,
-- client/client.go).
use hstongapi4go.Common.{ℕ, String, ◌≡◌, refl, Bool, true, not, ◌&&◌}
use hstongapi4go.Common.Bytes.{Bytes}
use hstongapi4go.Common.Text.{codes, contains, bytes_eq, trim_suffix, has_suffix}
use hstongapi4go.Errs.{GoError}
use hstongapi4go.Resilience.Retry.{Env, is_mutation, strip_alias_suffix}
use hstongapi4go.Client.Execute.Once.{Counts}
use hstongapi4go.Client.Execute.{Config, Store}
use hstongapi4go.Client.Calls.{Executor, client}
use hstongapi4go.Domain.Symbol.{is_empty}
use hstongapi4go.Domain.Price.{Decimals, ValueError}
use hstongapi4go.Services.Push.Keys.{trim_space}
use hstongapi4go.Services.Validation.Accepts.{passes->>>}
use hstongapi4go.Services.Trading.Attempts.{Single, Attempts, client-Single}
use hstongapi4go.Services.Checks.{is_code}
use hstongapi4go.Services.Algo.Accepts.{passes-unless}
use hstongapi4go.Services.Algo.Attempts.{sent-Attempts}
use hstongapi4go.Services.Futures.{
  FuturesBody, FuturesOrderRequest, FuturesModifyRequest, futures_entrust, futures_modify_entrust,
  futures_cancel_entrust, futures_validate_entrust_id, op_futures_entrust,
  op_futures_modify_entrust, op_futures_cancel_entrust,
}
use hstongapi4go.Services.Futures.Accepts.{
  is_order, is_modification, entrust_checks_lem, modify_checks_lem, stock_code_lem,
}

mutations :
    (is_mutation (codes "/trade/FuturesEntrust") ≡ true)
    × (is_mutation (codes "/trade/FuturesModifyEntrust") ≡ true)
    × (is_mutation (codes "/trade/FuturesCancelEntrust") ≡ true)
unfolding is_mutation contains bytes_eq strip_alias_suffix trim_suffix has_suffix
mutations = (refl, refl, refl)

module _ {W : Type 0} (env : Env W) (clock : W → ℕ)
    (transport_do : FuturesBody → Bytes → W → GoError × W) (cfg : Config W)
    (closed : Store × W → Bool) (made : W → ℕ)
    (laws : (body : FuturesBody) → Counts env (transport_do body) cfg.rate_limiter made) where
  abbrev sdk : Executor FuturesBody (Store × W)
  sdk = client env clock transport_do cfg closed

  abbrev tries : Store × W → ℕ
  tries sw = made sw.1

  single : Single sdk tries
  single = client-Single env clock transport_do cfg closed made laws

  -- Entrust, ModifyEntrust and CancelEntrust of the futures service through the SDK's client
  -- return. They make no attempt unless the account is given and the order meets an independent
  -- list of conditions, among them a side that buys or sells, a positive quantity, a price that is
  -- not negative, and a date where the kind of validity asks for one or one is given, and at most
  -- one otherwise, whatever the client's configuration and whatever the transport answers.
  -- In a world that counts the runs of the transport, to which the rate limiter's wait and the
  -- context add none.
  pub futures_orders_once :
      {D : Type 0} (dec : Decimals D) (describe : ValueError → String) (account id code : Bytes)
      (order : FuturesOrderRequest D) (change : FuturesModifyRequest D) (sw : Store × W)
      → Attempts tries sw
          (not (is_empty account) && is_order dec describe order)
          (futures_entrust sdk dec describe account order sw)
        × Attempts tries sw
            (not (is_empty account) && is_modification dec describe change)
            (futures_modify_entrust sdk dec describe account change sw)
        × Attempts tries sw
            (not (is_empty account) && (not (is_empty (trim_space id)) && is_code code))
            (futures_cancel_entrust sdk account id code sw)
  unfolding futures_entrust futures_modify_entrust futures_cancel_entrust
      futures_validate_entrust_id
  futures_orders_once dec describe account id code order change sw = (
    sent-Attempts sdk tries single _ op_futures_entrust _ _ sw _ mutations.0
        (entrust_checks_lem dec describe account order),
    sent-Attempts sdk tries single _ op_futures_modify_entrust _ _ sw _ mutations.1
        (modify_checks_lem dec describe account change),
    sent-Attempts sdk tries single _ op_futures_cancel_entrust _ _ sw _ mutations.2
        (simp (passes->>>, passes-unless, stock_code_lem)),
  )
