-- ===== src/Domain/Symbol.antt =====
-- Markets, symbols and the default tick schedule of pkg/domain/symbol.go. A market and a code are
-- strings, here their bytes.
pub mod Markets
use hstongapi4go.Common.{
  ℕ, String, Bool, true, false, List, [], ◌∷◌, ◌++◌, ◌==◌, ◌||◌, if◌then◌else◌,
}
use hstongapi4go.Common.Int.{ℤ, pos, negsuc}
use hstongapi4go.Common.Bytes.{Bytes}
use hstongapi4go.Common.Text.{codes, bytes_eq, has_suffix}

abbrev pub market_hk : Bytes
market_hk = codes "HK"

abbrev pub market_us : Bytes
market_us = codes "US"

abbrev pub market_shenzhen_connect : Bytes
market_shenzhen_connect = codes "SZ"

abbrev pub market_shanghai_connect : Bytes
market_shanghai_connect = codes "SH"

pub record Symbol : Type 0 where
  pub market : Bytes
  pub code : Bytes
  pub data_type : ℤ
  pub full_code : Bytes
  pub display_name : Bytes

abbrev pub is_empty : Bytes → Bool
is_empty [] = true
is_empty (x ∷ xs) = false

-- `NewSymbol`.
unfoldable pub new_symbol : Bytes → Bytes → ℤ → Symbol
new_symbol market code data_type = record {
  market = market;
  code = code;
  data_type = data_type;
  full_code = if is_empty market then code else code ++ (b'.' ∷ market);
  display_name = [];
}

-- `MarketFromCode`.
unfoldable pub market_from_code : Bytes → Bytes
market_from_code code =
    if has_suffix code (codes ".HK")
    then market_hk
    else if has_suffix code (codes ".US")
    then market_us
    else if has_suffix code (codes ".SZ")
    then market_shenzhen_connect
    else if has_suffix code (codes ".SH")
    then market_shanghai_connect
    else []

pub record TickSchedule : Type 0 where
  pub market : Bytes
  pub data_type : ℤ
  pub lot : ℕ
  pub tick_size : String

abbrev pub is_type : ℕ → ℤ → Bool
is_type k (pos n) = n == k
is_type k (negsuc n) = false

abbrev pub data_type_hk_stock : ℕ
data_type_hk_stock = 10000

abbrev pub data_type_hk_etf : ℕ
data_type_hk_etf = 10002

abbrev pub data_type_hk_warrant : ℕ
data_type_hk_warrant = 10003

abbrev pub data_type_hk_cbbc : ℕ
data_type_hk_cbbc = 10004

abbrev pub data_type_hk_bond : ℕ
data_type_hk_bond = 10005

abbrev hk_schedule : ℤ → ℕ → String → TickSchedule
hk_schedule t lot tick = record { market = market_hk; data_type = t; lot = lot; tick_size = tick }

-- `DefaultHKTickSchedule`; the zero value where it covers nothing.
unfoldable pub default_hk_tick_schedule : ℤ → TickSchedule
default_hk_tick_schedule t =
    if is_type data_type_hk_stock t || is_type data_type_hk_etf t
    then hk_schedule t 100 "0.001"
    else if is_type data_type_hk_warrant t || is_type data_type_hk_cbbc t
    then hk_schedule t 1 "0.001"
    else if is_type data_type_hk_bond t
    then hk_schedule t 1 "0.0001"
    else record { market = []; data_type = pos 0; lot = 0; tick_size = "" }
