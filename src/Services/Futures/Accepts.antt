-- ===== src/Services/Futures/Accepts.antt =====
-- Which futures orders pass the checks (pkg/services/futures.go).
use hstongapi4go.Common.{
  ◌≡◌, refl, String, Bool, not, ◌&&◌, ◌||◌, arith, str_eq, if◌then◌else◌, Bool-cases, inl, inr,
}
use hstongapi4go.Common.Bytes.{Bytes}
use hstongapi4go.Domain.Symbol.{is_empty}
use hstongapi4go.Domain.Price.{Decimals, Price, ValueError, validate}
use hstongapi4go.Services.Push.Keys.{trim_space}
use hstongapi4go.Services.Validation.{one_of}
use hstongapi4go.Services.Validation.Accepts.{passes, passes->>>}
use hstongapi4go.Services.Checks.{digits_shaped, is_code, is_date}
use hstongapi4go.Services.Algo.Accepts.{passes-unless}
use hstongapi4go.Services.Futures.{
  FuturesOrderRequest, FuturesModifyRequest, futures_valid_time_types, futures_order_option_codes,
  futures_sides, futures_validate_stock_code, futures_validate_date, futures_validate_order_type,
  futures_validate_entrust_bs, futures_validate_entrust_id, futures_validate_valid_time_type,
  futures_validate_order_options, futures_order_options_param, price_refusal,
  futures_validate_order_price, futures_validate_order_quantity, entrust_checks, modify_checks,
}

pub stock_code_lem :
    (op : String) (code : Bytes) → passes (futures_validate_stock_code op code) ≡ is_code code
unfolding futures_validate_stock_code is_code
stock_code_lem op code = ground arith

date_lem :
    (op field : String) (date : Bytes) → passes (futures_validate_date op field date) ≡ is_date date
unfolding futures_validate_date is_date
date_lem op field date = ground arith

-- A kind of validity, with its date: there may be one with any kind, and must be with the kind 4.
abbrev pub is_validity : String → Bytes → Bool
is_validity kind date =
    one_of kind futures_valid_time_types
    && (if is_empty date then not (str_eq kind "4") else is_date date)

validity_lem :
    (op kind : String) (date : Bytes)
    → passes (futures_validate_valid_time_type op kind date) ≡ is_validity kind date
unfolding futures_validate_valid_time_type
validity_lem op kind date = ground (arith, date_lem op "validTime" date)

-- No option is the option 0.
options_lem :
    (op o : String)
    → passes (futures_validate_order_options op (futures_order_options_param o))
      ≡ (str_eq o "" || one_of o futures_order_option_codes)
unfolding futures_validate_order_options futures_order_options_param
options_lem op o = elim (Bool-cases (str_eq o "")) [
  | inl e ↦ rw e refl
  | inr e ↦ rw e (passes-unless (one_of o futures_order_option_codes) op _)
]

module _ {D : Type 0} (dec : Decimals D) (describe : ValueError → String) where
  price_lem :
      (op : String) (p : Price D)
      → passes (futures_validate_order_price dec describe op p) ≡ not (dec.is_negative p.dec)
  unfolding futures_validate_order_price price_refusal validate
  price_lem op p = elim (Bool-cases (dec.is_negative p.dec)) [
    | inl n ↦ rw n refl
    | inr n ↦ rw n refl
  ]

  abbrev pub is_order : FuturesOrderRequest D → Bool
  is_order o =
      is_code o.stock_code
      && (digits_shaped o.order_type
          && (one_of o.side futures_sides
              && (not (dec.is_negative o.price.dec)
                  && ((dec.is_positive o.quantity && not (dec.is_zero o.quantity))
                      && (is_validity o.valid_time_type o.valid_time
                          && (str_eq o.order_options ""
                              || one_of o.order_options futures_order_option_codes))))))

  abbrev pub is_modification : FuturesModifyRequest D → Bool
  is_modification o =
      not (is_empty (trim_space o.entrust_id))
      && (is_code o.stock_code
          && (not (dec.is_negative o.price.dec)
              && ((dec.is_positive o.quantity && not (dec.is_zero o.quantity))
                  && (one_of o.side futures_sides
                      && (is_validity o.valid_time_type o.valid_time
                          && (str_eq o.order_options ""
                              || one_of o.order_options futures_order_option_codes))))))

  pub entrust_checks_lem :
      (account : Bytes) (o : FuturesOrderRequest D)
      → passes (entrust_checks dec describe account o) ≡ (not (is_empty account) && is_order o)
  unfolding entrust_checks futures_validate_order_type futures_validate_entrust_bs
      futures_validate_order_quantity
  entrust_checks_lem account o =
      simp (passes->>>, passes-unless, stock_code_lem, price_lem, validity_lem, options_lem)

  pub modify_checks_lem :
      (account : Bytes) (o : FuturesModifyRequest D)
      → passes (modify_checks dec describe account o)
        ≡ (not (is_empty account) && is_modification o)
  unfolding modify_checks futures_validate_entrust_id futures_validate_entrust_bs
      futures_validate_order_quantity
  modify_checks_lem account o =
      simp (passes->>>, passes-unless, stock_code_lem, price_lem, validity_lem, options_lem)
