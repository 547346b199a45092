-- ===== src/Services/Validation.antt =====
-- The checks that an order passes before it is sent: pkg/services/trading.go. The clock's time of day
-- is an argument, formatted as the code formats it. The values that fmt puts into a message are left
-- out.
pub mod Accepts
use hstongapi4go.Common.{
  ℕ, String, Bool, true, false, not, ◌&&◌, ◌||◌, Option, none, some, List, [], ◌∷◌, str_eq, ltb,
  ◌==◌, if◌then◌else◌,
}
use hstongapi4go.Common.Int.{ℤ, pos, negsuc}
use hstongapi4go.Common.Bytes.{Bytes}
use hstongapi4go.Common.Text.{codes, bytes_eq}
use hstongapi4go.Errs.{GoError, new_error}
use hstongapi4go.Domain.Symbol.{Symbol, market_hk, is_type, data_type_hk_stock, data_type_hk_etf}
use hstongapi4go.Domain.Ticks
use hstongapi4go.Domain.Price.{
  Decimals, Price, ValueError, validate_on, validate_integer, validate_lot,
}

abbrev pub op_entrust : String
op_entrust = "trade/TradeEntrust"

-- types.StatusInvalidParam
abbrev pub status_invalid_param : String
status_invalid_param = "1016"

abbrev pub max_valid_days : ℕ
max_valid_days = 100

-- `Order`; a quantity is its decimal.
pub record Order (D : Type 0) : Type 0 where
  pub symbol : Symbol
  pub side : String
  pub order_type : String
  pub quantity : D
  pub price : Price D
  pub time_in_force : String
  pub session_type : String
  pub iceberg_qty : D
  pub valid_days : ℤ
  pub cond_value : String
  pub cond_track_type : String
  pub client_type : ℤ

-- `TickScheduleResolver`, with the method of `PricedTickScheduleResolver` if it has it.
pub record Resolver (D : Type 0) : Type 0 where
  pub schedule_for : Symbol → Option (ℕ × String)
  pub schedule_for_price : Option (Symbol → Price D → Option String)

-- What `tickSchedule` gives for a service without a resolver.
abbrev pub default_resolver : {D : Type 0} → Decimals D → Resolver D
default_resolver dec = record {
  schedule_for = Ticks.schedule_for;
  schedule_for_price =
      some (λ s p. Ticks.schedule_for_price dec.require_from_string dec.less_than_or_equal s p.dec);
}

abbrev pub tick_schedule : {D : Type 0} → Decimals D → Option (Resolver D) → Resolver D
tick_schedule dec none = default_resolver dec
tick_schedule dec (some r) = r

-- The value is one of the texts.
abbrev pub one_of : String → List String → Bool
one_of s [] = false
one_of s (t ∷ ts) = str_eq s t || one_of s ts

abbrev pub known_hk_order_types : List String
known_hk_order_types = "0" ∷ "1" ∷ "2" ∷ "3" ∷ "4" ∷ "6" ∷ "7" ∷ "31" ∷ "33" ∷ "35" ∷ []

abbrev pub price_optional_types : List String
price_optional_types = "5" ∷ "8" ∷ "10" ∷ "31" ∷ "32" ∷ "33" ∷ "34" ∷ "35" ∷ "36" ∷ []

abbrev pub conditional_types : List String
conditional_types = "31" ∷ "32" ∷ "33" ∷ "34" ∷ "35" ∷ "36" ∷ []

abbrev pub valid_tifs : List String
valid_tifs = "" ∷ "DAY" ∷ "IOC" ∷ "FOK" ∷ "GTD" ∷ []

abbrev pub hk_sides : List String
hk_sides = "1" ∷ "2" ∷ "4" ∷ "3" ∷ []

abbrev pub is_price_optional : String → Bool
is_price_optional t = one_of t price_optional_types

abbrev pub is_conditional_order : String → Bool
is_conditional_order t = one_of t conditional_types

abbrev pub refuse : String → Option GoError
refuse message = some (new_error status_invalid_param op_entrust message)

-- The first error.
infixr 4 ◌>>>◌
abbrev pub ◌>>>◌ : Option GoError → Option GoError → Option GoError
none >>> next = next
some e >>> next = some e

-- Go's `<` on strings.
unfoldable pub bytes_less : Bytes → Bytes → Bool
bytes_less [] [] = false
bytes_less [] (y ∷ ys) = true
bytes_less (x ∷ xs) [] = false
bytes_less (x ∷ xs) (y ∷ ys) = ltb x y || x == y && bytes_less xs ys

abbrev outside : Bytes → String → String → Bool
outside now start end_ = bytes_less now (codes start) || bytes_less (codes end_) now

-- `validateSessionWindow`, in the one market that has windows.
unfoldable pub validate_session_window : Bytes → Bytes → String → Option GoError
validate_session_window now market session_type =
    if not (bytes_eq market market_hk) || str_eq session_type ""
    then none
    else if str_eq session_type "0"
    then none
    else if str_eq session_type "1"
    then (if outside now "09:00" "09:30"
        then refuse "order time is outside pre-market session window (09:00-09:30)"
        else none)
    else if str_eq session_type "2"
    then (if outside now "09:30" "12:00"
        then refuse
            "order time is outside regular trading session window (09:30-12:00, 12:00-16:00)"
        else none)
    else if str_eq session_type "3"
    then (if outside now "12:00" "16:00"
        then refuse "order time is outside after-hours session window (12:00-16:00)"
        else none)
    else none

unfoldable pub validate_order_type_eligibility : String → Bytes → Option GoError
validate_order_type_eligibility t market =
    if not (bytes_eq market market_hk)
    then none
    else if one_of t known_hk_order_types
    then none
    else refuse "order type is not eligible for HK market"

unfoldable pub validate_time_in_force : String → Option GoError
validate_time_in_force tif =
    if one_of tif valid_tifs then none else refuse "time-in-force is not valid"

unfoldable pub validate_short_selling_flag : String → ℤ → Option GoError
validate_short_selling_flag side t =
    if not (is_type data_type_hk_stock t) && not (is_type data_type_hk_etf t)
    then none
    else if one_of side hk_sides
    then none
    else refuse "side is not valid for HK stocks/ETFs"

abbrev pub between : ℕ → ℕ → ℤ → Bool
between low high (pos n) = not (ltb n low) && not (ltb high n)
between low high (negsuc n) = false

-- The last check: what a conditional order must carry.
unfoldable pub validate_conditional : String → ℤ → String → Option GoError
validate_conditional t valid_days cond_value =
    if not (is_conditional_order t)
    then none
    else if not (between 1 max_valid_days valid_days)
    then refuse "validDays must be between 1 and 100 for conditional orders"
    else if str_eq cond_value ""
    then refuse "condValue is required for conditional orders"
    else none

-- The texts of the value errors, which fmt makes, are a parameter.
module _ {D : Type 0} (dec : Decimals D) (describe : ValueError → String) where
  abbrev as_refusal : Option ValueError → Option GoError
  as_refusal none = none
  as_refusal (some e) = refuse (describe e)

  unfoldable pub quantity_on : Option (ℕ × String) → D → Option GoError
  quantity_on none q = none
  quantity_on (some (lot, tick)) q =
      as_refusal (validate_integer dec q) >>> as_refusal (validate_lot dec lot q)

  unfoldable pub validate_quantity_for_hk : D → Resolver D → Symbol → Option GoError
  unfolding quantity_on
  validate_quantity_for_hk q r s = quantity_on (r.schedule_for s) q

  abbrev tick_of : Option (ℕ × String) → Option String
  tick_of none = none
  tick_of (some (lot, tick)) = some tick

  unfoldable pub resolve_by :
      Option (Symbol → Price D → Option String) → Price D → Resolver D → Symbol → Option String
  resolve_by none p r s = tick_of (r.schedule_for s)
  resolve_by (some priced) p r s = priced s p

  unfoldable pub resolve_tick_for_price : Price D → Resolver D → Symbol → Option String
  unfolding resolve_by
  resolve_tick_for_price p r s = resolve_by r.schedule_for_price p r s

  unfoldable pub price_on : Option String → Price D → Option GoError
  price_on none p = none
  price_on (some tick) p = as_refusal (validate_on dec tick p)

  unfoldable pub validate_price_for_hk : Price D → Resolver D → Symbol → Option GoError
  unfolding price_on
  validate_price_for_hk p r s = price_on (resolve_tick_for_price p r s) p

  unfoldable pub validate_order_for_hk : Bytes → Order D → Resolver D → Option GoError
  validate_order_for_hk now o r =
      if not (bytes_eq o.symbol.market market_hk)
      then none
      else validate_quantity_for_hk o.quantity r o.symbol
        >>> (if is_price_optional o.order_type
            then none
            else validate_price_for_hk o.price r o.symbol)
        >>> validate_session_window now o.symbol.market o.session_type
        >>> validate_order_type_eligibility o.order_type o.symbol.market
        >>> validate_time_in_force o.time_in_force
        >>> validate_short_selling_flag o.side o.symbol.data_type
        >>> validate_conditional o.order_type o.valid_days o.cond_value
