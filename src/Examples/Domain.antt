-- ===== src/Examples/Domain.antt =====
-- Symbols and price bands at concrete inputs (pkg/domain).
use hstongapi4go.Common.{
  ℕ, String, ◌≡◌, refl, ◌≤◌, true, Option, none, some, List, [], ◌∷◌, arith, leb, get_elem?,
}
use hstongapi4go.Common.Int.{pos}
use hstongapi4go.Common.Text.{codes, bytes_eq}
use hstongapi4go.Common.Dict.{lookup}
use hstongapi4go.Domain.Symbol.{Symbol, market_hk}
use hstongapi4go.Domain.Ticks.{is_covered, schedule_for_price}
use hstongapi4go.Domain.Ticks.Bands.{ticks, InBand, schedule_for_price-ordered}

-- Prices in hundredths, and the bounds of the bands in them.
abbrev bounds : List (String × ℕ)
bounds =
    ("0.25", 25)
    ∷ ("10", 1000)
    ∷ ("20", 2000)
    ∷ ("50", 5000)
    ∷ ("100", 10000)
    ∷ ("200", 20000)
    ∷ ("500", 50000)
    ∷ ("1000", 100000)
    ∷ ("2000", 200000)
    ∷ ("5000", 500000)
    ∷ ("9995", 999500)
    ∷ []

abbrev hundredths_or : Option ℕ → ℕ
hundredths_or none = 0
hundredths_or (some n) = n

abbrev hundredths : String → ℕ
hundredths s = hundredths_or (lookup s bounds)

abbrev tencent : Symbol
tencent = record {
  market = market_hk;
  code = codes "700";
  data_type = pos 10000;
  full_code = codes "700.HK";
  display_name = [];
}

tencent-is_covered : is_covered tencent ≡ true
unfolding bytes_eq
tencent-is_covered = refl

schedule_for_price-ordered_example :
    (i : ℕ) × (j : ℕ) × (schedule_for_price hundredths leb tencent 1500 ≡ get_elem? ticks i)
    × (schedule_for_price hundredths leb tencent 32000 ≡ get_elem? ticks j)
    × InBand hundredths leb i 1500
    × InBand hundredths leb j 32000
    × (i ≤ j)
schedule_for_price-ordered_example =
    schedule_for_price-ordered hundredths leb (λ a b c h k. ground arith) tencent 1500 32000
      tencent-is_covered refl refl
