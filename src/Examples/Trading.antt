-- ===== src/Examples/Trading.antt =====
-- Orders of the trading service at concrete inputs (pkg/services/trading.go).
use hstongapi4go.Common.{ltb, ◌↔◌}
use hstongapi4go.Services.Push.Keys.{trim_space}
use hstongapi4go.Services.Checks.{
  is_code, contains_blank, parses_time, digits_shaped, is_date, date_shaped, parses_date, is_day,
  days_in,
}
use hstongapi4go.Services.Checks.Dates.{IsDate}
use hstongapi4go.Services.Futures.Dates.{validate_date_lem}
use hstongapi4go.Services.Algo.{algo_validate_date}
use hstongapi4go.Services.Futures.{futures_validate_date}
use hstongapi4go.Services.Algo.{
  AlgoBody, AlgoStrategyParam, AlgoAddOrderRequest, AlgoChangeOrderRequest, AlgoActionRequest,
  add_order, change_order, cancel_order, algo_cancel_entrust, action_order,
}
use hstongapi4go.Services.Algo.Accepts.{is_addable, is_change, is_param}
use hstongapi4go.Services.Algo.Attempts.{
  is_cancel, is_entrust_cancel, is_action, algo_orders_once, algo_actions_once,
}
use hstongapi4go.Services.Futures.{
  FuturesBody, FuturesOrderRequest, FuturesModifyRequest, futures_entrust, futures_modify_entrust,
  futures_cancel_entrust,
}
use hstongapi4go.Services.Futures.Accepts.{is_order, is_modification}
use hstongapi4go.Services.Futures.Attempts.{futures_orders_once}
use hstongapi4go.Common.{
  ℕ, ◌%◌, ◌*◌, if◌then◌else◌, String, ◌≡◌, refl, Bool, true, false, not, ◌&&◌, none, some, [], ◌==◌,
  leb, str_eq, length,
}
use hstongapi4go.Common.Int.{pos}
use hstongapi4go.Common.Bytes.{Bytes}
use hstongapi4go.Common.Text.{codes, bytes_eq}
use hstongapi4go.Errs.{GoError}
use hstongapi4go.Client.Execute.{Store}
use hstongapi4go.Client.Calls.{Executor, client}
use hstongapi4go.Domain.Symbol.{Symbol, market_hk, data_type_hk_stock, is_empty}
use hstongapi4go.Domain.Price.{Decimals, ValueError}
use hstongapi4go.Services.Validation.{Order, Resolver, bytes_less, resolve_tick_for_price}
use hstongapi4go.Services.Validation.Accepts.{passes, in_window, sound, acceptable}
use hstongapi4go.Services.Wire.{Body}
use hstongapi4go.Services.Trading.{entrust}
use hstongapi4go.Services.Trading.Attempts.{Attempts, entrust_once}
use hstongapi4go.Examples.Calls.{send-Counts, World, quiet, clock, config, store, send}

-- Decimals in hundredths, with the one tick that the examples use.
abbrev hundredths : Decimals ℕ
hundredths = record {
  new_from_string = λ s. if str_eq s "0.05" then some 5 else none;
  require_from_string = λ s. 5;
  less_than_or_equal = leb;
  is_zero = λ d. d == 0;
  is_negative = λ d. false;
  is_positive = λ d. ltb 0 d;
  is_integer = λ d. d % 100 == 0;
  modulo = λ a b. a % b;
  new_from_int = λ n. n * 100;
  to_string = λ d. "1";
}

abbrev describe : ValueError → String
describe e = "bad value"

abbrev resolver : Resolver ℕ
resolver = record { schedule_for = λ s. some (100, "0.05"); schedule_for_price = none }

abbrev tencent : Symbol
tencent = record {
  market = market_hk;
  code = codes "00700";
  data_type = pos data_type_hk_stock;
  full_code = codes "00700.HK";
  display_name = [];
}

-- A limit order for two lots at 365.05 in the regular session.
abbrev order : Order ℕ
order = record {
  symbol = tencent;
  side = "1";
  order_type = "3";
  quantity = 20000;
  price = record { dec = 36505; tick = 0 };
  time_in_force = "DAY";
  session_type = "2";
  iceberg_qty = 0;
  valid_days = pos 0;
  cond_value = "";
  cond_track_type = "";
  client_type = pos 0;
}

abbrev morning : Bytes
morning = codes "10:15"

abbrev afternoon : Bytes
afternoon = codes "14:30"

order_in_the_morning : acceptable hundredths describe morning order resolver ≡ true
unfolding acceptable sound in_window bytes_less bytes_eq resolve_tick_for_price
order_in_the_morning = refl

order_in_the_afternoon : acceptable hundredths describe afternoon order resolver ≡ false
unfolding acceptable sound in_window bytes_less bytes_eq resolve_tick_for_price
order_in_the_afternoon = refl

abbrev transport : Body → Bytes → World → GoError × World
transport body = send

abbrev open_client : Store × World → Bool
open_client sw = false

abbrev sdk : Executor Body (Store × World)
sdk = client quiet clock transport config open_client

abbrev tries : Store × World → ℕ
tries sw = length sw.1

entrust_once_example :
    Attempts tries
      (store, [])
      (not (is_empty (codes "A1")) && acceptable hundredths describe morning order resolver)
      (entrust hundredths describe sdk morning (codes "A1") resolver order (store, []))
entrust_once_example =
    entrust_once hundredths describe quiet clock transport config open_client (λ w. length w)
      (λ body. send-Counts) morning (codes "A1") resolver order (store, [])

-- The same client for the services of algorithm and of futures orders.
module _ (B : Type 0) where
  abbrev any_transport : B → Bytes → World → GoError × World
  any_transport body = send

abbrev param : AlgoStrategyParam ℕ
param = record {
  orig_start_time = codes "093000";
  orig_end_time = codes "160000";
  max_volume = 20000;
  min_amount = 0;
  sensitivity = "1";
  show_qty = 0;
  qty_percent = 0;
  interval = pos 5;
}

abbrev algo_order : AlgoAddOrderRequest ℕ
algo_order = record {
  stock_code = codes "00700";
  exchange_type = "K";
  order_type = "1";
  price = order.price;
  quantity = 20000;
  side = "1";
  target_strategy = "1001";
  session_type = "0";
  strategy_param = param;
}

algo_order_is_fine : is_addable hundredths describe algo_order ≡ true
unfolding is_addable is_param is_code trim_space contains_blank parses_time
algo_order_is_fine = refl

abbrev algo_change : AlgoChangeOrderRequest ℕ
algo_change = record {
  order_id = codes "17";
  stock_code = codes "00700";
  exchange_type = "K";
  price = order.price;
  quantity = 30000;
  strategy_param = param;
}

abbrev algo_sdk : Executor AlgoBody (Store × World)
algo_sdk = client quiet clock (any_transport AlgoBody) config open_client

algo_orders_once_example :
    Attempts tries
      (store, [])
      (not (is_empty (codes "A1")) && is_addable hundredths describe algo_order)
      (add_order algo_sdk hundredths describe (codes "A1") algo_order (store, []))
    × Attempts tries
        (store, [])
        (not (is_empty (codes "A1")) && is_change hundredths describe algo_change)
        (change_order algo_sdk hundredths describe (codes "A1") algo_change (store, []))
algo_orders_once_example =
    algo_orders_once quiet clock (any_transport AlgoBody) config open_client (λ w. length w)
      (λ body. send-Counts) hundredths describe (codes "A1") algo_order algo_change (store, [])

abbrev pause : AlgoActionRequest
pause = record {
  order_id = codes "17";
  action = "3";
  target_strategy = "1001";
  exchange_type = "K";
}

algo_actions_once_example :
    Attempts tries
      (store, [])
      (is_cancel (codes "A1") (codes "17") "K")
      (cancel_order algo_sdk (codes "A1") (codes "17") "K" (store, []))
    × Attempts tries
        (store, [])
        (is_entrust_cancel (codes "A1") (codes "17") (codes "18") "K")
        (algo_cancel_entrust algo_sdk (codes "A1") (codes "17") (codes "18") "K" (store, []))
    × Attempts tries
        (store, [])
        (is_action (codes "A1") pause)
        (action_order algo_sdk (codes "A1") pause (store, []))
algo_actions_once_example =
    algo_actions_once quiet clock (any_transport AlgoBody) config open_client (λ w. length w)
      (λ body. send-Counts) (codes "A1") (codes "17") (codes "18") "K" pause (store, [])

abbrev futures_order : FuturesOrderRequest ℕ
futures_order = record {
  stock_code = codes "HSI2612";
  side = "1";
  order_type = codes "0";
  price = order.price;
  quantity = 100;
  valid_time_type = "4";
  valid_time = codes "20261231";
  order_options = "";
}

futures_order_is_fine : is_order hundredths describe futures_order ≡ true
unfolding is_code trim_space contains_blank digits_shaped is_date date_shaped parses_date is_day
    days_in
futures_order_is_fine = refl

abbrev futures_change : FuturesModifyRequest ℕ
futures_change = record {
  entrust_id = codes "17";
  stock_code = codes "HSI2612";
  price = order.price;
  quantity = 200;
  side = "1";
  valid_time_type = "0";
  valid_time = [];
  order_options = "1";
}

abbrev futures_sdk : Executor FuturesBody (Store × World)
futures_sdk = client quiet clock (any_transport FuturesBody) config open_client

futures_orders_once_example :
    Attempts tries
      (store, [])
      (not (is_empty (codes "A1")) && is_order hundredths describe futures_order)
      (futures_entrust futures_sdk hundredths describe (codes "A1") futures_order (store, []))
    × Attempts tries
        (store, [])
        (not (is_empty (codes "A1")) && is_modification hundredths describe futures_change)
        (futures_modify_entrust futures_sdk hundredths describe
          (codes "A1")
          futures_change
          (store, []))
    × Attempts tries
        (store, [])
        (not (is_empty (codes "A1"))
          && (not (is_empty (trim_space (codes "17"))) && is_code (codes "HSI2612")))
        (futures_cancel_entrust futures_sdk (codes "A1") (codes "17") (codes "HSI2612") (store, []))
futures_orders_once_example =
    futures_orders_once quiet clock (any_transport FuturesBody) config open_client (λ w. length w)
      (λ body. send-Counts) hundredths describe (codes "A1") (codes "17") (codes "HSI2612")
      futures_order futures_change (store, [])

validate_date_lem_example :
    ((passes (algo_validate_date "op" "date" (codes "20240229")) ≡ true)
      ↔ IsDate (codes "20240229"))
    × ((passes (futures_validate_date "op" "date" (codes "20240229")) ≡ true)
        ↔ IsDate (codes "20240229"))
validate_date_lem_example = validate_date_lem "op" "date" (codes "20240229")
