-- ===== src/Domain/Price.antt =====
-- Prices and quantities: pkg/domain/price.go and pkg/domain/quantity.go. The decimal library is a
-- record of the operations that the code uses.
use hstongapi4go.Common.{
  ℕ, String, Bool, not, ◌&&◌, ◌||◌, Option, none, some, str_eq, ◌==◌, ltb, if◌then◌else◌,
}

-- github.com/shopspring/decimal: NewFromString, RequireFromString, LessThanOrEqual, IsZero, IsPositive,
-- IsNegative, IsInteger, Mod, NewFromInt and String.
pub record Decimals (D : Type 0) : Type 0 where
  pub new_from_string : String → Option D
  pub require_from_string : String → D
  pub less_than_or_equal : D → D → Bool
  pub is_zero : D → Bool
  pub is_negative : D → Bool
  pub is_positive : D → Bool
  pub is_integer : D → Bool
  pub modulo : D → D → D
  pub new_from_int : ℕ → D
  pub to_string : D → String

pub record Price (D : Type 0) : Type 0 where
  pub dec : D
  pub tick : D

-- The errors of both files, without their texts.
pub data ValueError : Type 0 where
  negative_price off_tick invalid_tick not_integer lot_out_of_range off_lot : ValueError

-- math.MaxInt64
abbrev pub max_int64 : ℕ
max_int64 = 9223372036854775807

module _ {D : Type 0} (dec : Decimals D) where
  abbrev on_grid : D → D → Bool
  on_grid value grid = dec.is_zero (dec.modulo value grid)

  -- `Price.Validate`, against the tick that the price carries.
  unfoldable pub validate : Bool → Price D → Option ValueError
  validate step p =
      if dec.is_negative p.dec
      then some negative_price
      else if step && not (dec.is_zero p.tick) && not (on_grid p.dec p.tick)
      then some off_tick
      else none

  unfoldable pub on_parsed : Option D → D → Option ValueError
  on_parsed none p = some invalid_tick
  on_parsed (some grid) p =
      if dec.is_zero grid || dec.is_negative grid
      then none
      else if not (on_grid p grid)
      then some off_tick
      else none

  -- `Price.ValidateOn`, against a tick from outside.
  unfoldable pub validate_on : String → Price D → Option ValueError
  unfolding on_parsed
  validate_on tick p =
      if dec.is_negative p.dec
      then some negative_price
      else if str_eq tick ""
      then none
      else on_parsed (dec.new_from_string tick) p.dec

  -- `Quantity.ValidateInteger`.
  unfoldable pub validate_integer : D → Option ValueError
  validate_integer q = if dec.is_integer q then none else some not_integer

  -- `Quantity.ValidateLot`.
  unfoldable pub validate_lot : ℕ → D → Option ValueError
  validate_lot lot q =
      if lot == 0
      then none
      else if ltb max_int64 lot
      then some lot_out_of_range
      else if not (on_grid q (dec.new_from_int lot))
      then some off_lot
      else none
