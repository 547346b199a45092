-- ===== src/Domain/Ticks.antt =====
-- The least price steps: pkg/domain/hk_price_bands.go and pkg/domain/tick_schedule.go. The decimal
-- library is a parameter: the reading of a text and the comparison.
pub mod Bands
use hstongapi4go.Common.{
  ℕ, String, Bool, true, false, not, ◌&&◌, Option, none, some, List, [], ◌∷◌, str_eq, if◌then◌else◌,
}
use hstongapi4go.Common.Text.{bytes_eq}
use hstongapi4go.Domain.Symbol.{
  Symbol, TickSchedule, market_hk, is_empty, is_type, data_type_hk_stock, default_hk_tick_schedule,
}

-- hkStockPriceBands: the upper bound of each band, and its tick.
abbrev pub hk_stock_price_bands : List (String × String)
hk_stock_price_bands =
    ("0.25", "0.001")
    ∷ ("10", "0.005")
    ∷ ("20", "0.010")
    ∷ ("50", "0.020")
    ∷ ("100", "0.050")
    ∷ ("200", "0.100")
    ∷ ("500", "0.200")
    ∷ ("1000", "0.500")
    ∷ ("2000", "1.000")
    ∷ ("5000", "2.000")
    ∷ ("9995", "5.000")
    ∷ []

-- The default tables answer for this market.
abbrev pub is_covered : Symbol → Bool
is_covered s = not (not (bytes_eq s.market market_hk) && not (is_empty s.market))

unfoldable pub schedule_for : Symbol → Option (ℕ × String)
schedule_for s =
    let schedule = default_hk_tick_schedule s.data_type in
    if not (is_covered s)
    then none
    else if str_eq schedule.tick_size ""
    then none
    else some (schedule.lot, schedule.tick_size)

abbrev tick_of : Option (ℕ × String) → Option String
tick_of none = none
tick_of (some (lot, tick)) = some tick

module _ {D : Type 0} (parse : String → D) (le : D → D → Bool) where
  -- The loop over the bands.
  unfoldable pub tick_in : List (String × String) → D → Option String
  tick_in [] p = none
  tick_in ((upper, tick) ∷ bands) p =
      let rest = tick_in bands p in if le p (parse upper) then some tick else rest

  unfoldable pub hk_stock_tick_at_price : D → Option String
  hk_stock_tick_at_price p = tick_in hk_stock_price_bands p

  unfoldable pub schedule_for_price : Symbol → D → Option String
  schedule_for_price s p =
      if not (is_covered s)
      then none
      else if is_type data_type_hk_stock s.data_type
      then hk_stock_tick_at_price p
      else tick_of (schedule_for s)
