-- ===== src/Services/Algo/Accepts.antt =====
-- Which algorithm orders pass the checks (pkg/services/algo.go).
use hstongapi4go.Common.{
  ◌≡◌, refl, String, Bool, true, false, not, ◌&&◌, ◌||◌, [], ◌∷◌, arith, ltb, leb, length, str_eq,
  Bool-cases, inl, inr,
}
use hstongapi4go.Common.Bytes.{Bytes}
use hstongapi4go.Common.Text.{codes}
use hstongapi4go.Domain.Symbol.{is_empty}
use hstongapi4go.Domain.Price.{Decimals, Price, ValueError, validate}
use hstongapi4go.Services.Push.Keys.{trim_space}
use hstongapi4go.Services.Validation.{one_of}
use hstongapi4go.Services.Validation.Accepts.{passes, passes->>>}
use hstongapi4go.Services.Checks.{
  unless, is_digit, digits_shaped, digit_of, two, is_code, parses_time,
}
use hstongapi4go.Services.Algo.{
  AlgoStrategyParam, AlgoAddOrderRequest, AlgoChangeOrderRequest, algo_exchanges, algo_sides,
  algo_entrust_types, algo_session_types, algo_sensitivities, is_minus, has_non_zero,
  algo_validate_stock_code, algo_validate_exchange_type, algo_validate_direction,
  algo_validate_order_type, algo_validate_session_type, algo_validate_strategy,
  algo_validate_required_sensitivity, algo_validate_optional_sensitivity, algo_validate_time_shaped,
  algo_validate_interval, algo_validate_order_id, algo_validate_order_price, price_refusal,
  algo_validate_order_quantity, algo_validate_required_max_volume, algo_validate_max_volume,
  algo_validate_optional_quantity, algo_validate_optional_money, algo_validate_qty_percent,
  algo_validate_strategy_param_times, add_order_checks, change_order_checks,
}

pub passes-unless : (b : Bool) (op message : String) → passes (unless b op message) ≡ b
passes-unless true op m = refl
passes-unless false op m = refl

pub stock_code_lem :
    (op : String) (code : Bytes) → passes (algo_validate_stock_code op code) ≡ is_code code
unfolding algo_validate_stock_code is_code
stock_code_lem op code = ground arith

-- A time of day, or none.
abbrev pub is_time : Bytes → Bool
is_time t = is_empty t || parses_time t

times_lem :
    {D : Type 0} (op : String) (p : AlgoStrategyParam D)
    → passes (algo_validate_strategy_param_times op p)
      ≡ (is_time p.orig_start_time && is_time p.orig_end_time)
unfolding algo_validate_strategy_param_times algo_validate_time_shaped
times_lem op p = ground arith

-- One or two digits, of a number from 1 to 99.
abbrev pub is_percent : Bytes → Bool
is_percent [] = false
is_percent (a ∷ []) = is_digit a && leb 1 (digit_of a)
is_percent (a ∷ b ∷ []) = (is_digit a && is_digit b) && leb 1 (two a b)
is_percent (a ∷ b ∷ c ∷ bs) = false

percent_digits :
    (ds : Bytes)
    → (digits_shaped ds && not (ltb 2 (length ds) || not (has_non_zero ds))) ≡ is_percent ds
unfolding digits_shaped
percent_digits [] = refl
percent_digits (a ∷ []) = ground arith
percent_digits (a ∷ b ∷ []) = ground arith
percent_digits (a ∷ b ∷ c ∷ ds) = ground arith

module _ {D : Type 0} (dec : Decimals D) (describe : ValueError → String) where
  abbrev pub is_more_than_zero : D → Bool
  is_more_than_zero d = dec.is_positive d && not (dec.is_zero d)

  abbrev pub is_share : D → Bool
  is_share d = dec.is_zero d || (not (dec.is_negative d) && is_percent (codes (dec.to_string d)))

  -- What both operations ask of the parameters of the strategy.
  unfoldable pub is_param : AlgoStrategyParam D → Bool
  is_param p =
      not (dec.is_negative p.min_amount)
      && (not (dec.is_negative p.show_qty) && (is_share p.qty_percent && not (is_minus p.interval)))

  abbrev pub has_times : AlgoStrategyParam D → Bool
  has_times p = is_time p.orig_start_time && is_time p.orig_end_time

  unfoldable pub is_addable : AlgoAddOrderRequest D → Bool
  is_addable o =
      is_code o.stock_code
      && (one_of o.exchange_type algo_exchanges
          && (one_of o.order_type algo_entrust_types
              && (not (dec.is_negative o.price.dec)
                  && (is_more_than_zero o.quantity
                      && (one_of o.side algo_sides
                          && (not (str_eq o.target_strategy "")
                              && (one_of o.session_type algo_session_types
                                  && (is_more_than_zero o.strategy_param.max_volume
                                      && (one_of o.strategy_param.sensitivity algo_sensitivities
                                          && (has_times o.strategy_param
                                              && is_param o.strategy_param))))))))))

  unfoldable pub is_change : AlgoChangeOrderRequest D → Bool
  is_change o =
      not (is_empty (trim_space o.order_id))
      && (is_code o.stock_code
          && (one_of o.exchange_type algo_exchanges
              && (not (dec.is_negative o.price.dec)
                  && (is_more_than_zero o.quantity
                      && ((str_eq o.strategy_param.sensitivity ""
                            || one_of o.strategy_param.sensitivity algo_sensitivities)
                          && (has_times o.strategy_param
                              && (not (dec.is_negative o.strategy_param.max_volume)
                                  && is_param o.strategy_param)))))))

  price_lem :
      (op : String) (p : Price D)
      → passes (algo_validate_order_price dec describe op p) ≡ not (dec.is_negative p.dec)
  unfolding algo_validate_order_price price_refusal validate
  price_lem op p = elim (Bool-cases (dec.is_negative p.dec)) [
    | inl n ↦ rw n refl
    | inr n ↦ rw n refl
  ]

  share_lem : (op : String) (d : D) → passes (algo_validate_qty_percent dec op d) ≡ is_share d
  unfolding algo_validate_qty_percent
  share_lem op d = ground (arith, percent_digits (codes (dec.to_string d)))

  -- The sensitivity of a change may be missing.
  sensitivity_lem :
      (s : String)
      → not (not (str_eq s "") && not (one_of s algo_sensitivities))
        ≡ (str_eq s "" || one_of s algo_sensitivities)
  sensitivity_lem s = ground arith

  pub add_order_checks_lem :
      (account : Bytes) (o : AlgoAddOrderRequest D)
      → passes (add_order_checks dec describe account o) ≡ (not (is_empty account) && is_addable o)
  unfolding add_order_checks is_addable is_param algo_validate_exchange_type algo_validate_direction
      algo_validate_order_type algo_validate_session_type algo_validate_strategy
      algo_validate_required_sensitivity algo_validate_interval algo_validate_order_quantity
      algo_validate_required_max_volume algo_validate_optional_quantity algo_validate_optional_money
  add_order_checks_lem account o =
      simp (passes->>>, passes-unless, stock_code_lem, times_lem, price_lem, share_lem)

  pub change_order_checks_lem :
      (account : Bytes) (o : AlgoChangeOrderRequest D)
      → passes (change_order_checks dec describe account o)
        ≡ (not (is_empty account) && is_change o)
  unfolding change_order_checks is_change is_param algo_validate_exchange_type
      algo_validate_order_id algo_validate_optional_sensitivity algo_validate_interval
      algo_validate_order_quantity algo_validate_max_volume algo_validate_optional_quantity
      algo_validate_optional_money
  change_order_checks_lem account o =
      simp (
        passes->>>, passes-unless, stock_code_lem, times_lem, price_lem, share_lem, sensitivity_lem,
      )
