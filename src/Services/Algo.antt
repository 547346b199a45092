-- ===== src/Services/Algo.antt =====
-- The algorithm-order service, pkg/services/algo.go, with pkg/domain/algo.go: what each operation checks
-- and sends. A text is its bytes where the code looks inside it.
pub mod Accepts
pub mod Attempts
use hstongapi4go.Common.{
  ℕ, String, Bool, true, false, not, ◌&&◌, ◌||◌, Option, none, some, List, [], ◌∷◌, ◌++◌, ltb, leb,
  length, str_eq, ◌==◌, if◌then◌else◌,
}
use Prim.Native.String.{◌++◌ as str_append}
use hstongapi4go.Common.Int.{ℤ, pos, negsuc}
use hstongapi4go.Common.Bytes.{Bytes}
use hstongapi4go.Common.Text.{codes}
use hstongapi4go.Errs.{GoError, new_error}
use hstongapi4go.Client.Calls.{Executor}
use hstongapi4go.Domain.Symbol.{is_empty}
use hstongapi4go.Domain.Price.{Decimals, Price, ValueError, validate}
use hstongapi4go.Services.Push.Keys.{trim_space}
use hstongapi4go.Services.Validation.{status_invalid_param, ◌>>>◌, one_of}
use hstongapi4go.Services.Checks.{
  sent, unless, digits_shaped, date_shaped, parses_date, parses_time, contains_blank,
}

abbrev pub op_algo_add_order : String
op_algo_add_order = "trade/AlgoAddOrder"

abbrev pub op_algo_cancel_order : String
op_algo_cancel_order = "trade/AlgoCancelOrder"

abbrev pub op_algo_cancel_entrust : String
op_algo_cancel_entrust = "trade/AlgoCancelEntrust"

abbrev pub op_algo_change_order : String
op_algo_change_order = "trade/AlgoChangeOrder"

abbrev pub op_algo_action_order : String
op_algo_action_order = "trade/AlgoActionOrder"

abbrev pub op_algo_query_order_list : String
op_algo_query_order_list = "trade/AlgoQueryOrderList"

abbrev pub op_algo_query_entrust_id_list : String
op_algo_query_entrust_id_list = "trade/AlgoQueryEntrustIdList"

abbrev pub algo_qty_percent_max_digits : ℕ
algo_qty_percent_max_digits = 2

pub record AlgoStrategyParam (D : Type 0) : Type 0 where
  pub orig_start_time : Bytes
  pub orig_end_time : Bytes
  pub max_volume : D
  pub min_amount : D
  pub sensitivity : String
  pub show_qty : D
  pub qty_percent : D
  pub interval : ℤ

pub record AlgoAddOrderRequest (D : Type 0) : Type 0 where
  pub stock_code : Bytes
  pub exchange_type : String
  pub order_type : String
  pub price : Price D
  pub quantity : D
  pub side : String
  pub target_strategy : String
  pub session_type : String
  pub strategy_param : AlgoStrategyParam D

pub record AlgoChangeOrderRequest (D : Type 0) : Type 0 where
  pub order_id : Bytes
  pub stock_code : Bytes
  pub exchange_type : String
  pub price : Price D
  pub quantity : D
  pub strategy_param : AlgoStrategyParam D

pub record AlgoActionRequest : Type 0 where
  pub order_id : Bytes
  pub action : String
  pub target_strategy : String
  pub exchange_type : String

pub record AlgoOrderQuery : Type 0 where
  pub page_no : ℤ
  pub page_size : ℤ
  pub start_date : Bytes
  pub end_date : Bytes
  pub exchange_type : String
  pub stock_code : Bytes

pub record AlgoStrategyParamWire : Type 0 where
  pub orig_start_time : Bytes
  pub orig_end_time : Bytes
  pub max_volume : String
  pub min_amount : String
  pub sensitivity : String
  pub show_qty : String
  pub qty_percent : String
  pub interval : ℤ

pub record AlgoAddOrderWireRequest : Type 0 where
  pub exchange_type : String
  pub stock_code : Bytes
  pub entrust_type : String
  pub entrust_bs : String
  pub entrust_amount : String
  pub entrust_price : String
  pub target_strategy : String
  pub session_type : String
  pub strategy_param : AlgoStrategyParamWire

pub record AlgoChangeOrderWireRequest : Type 0 where
  pub order_id : Bytes
  pub exchange_type : String
  pub stock_code : Bytes
  pub entrust_amount : String
  pub entrust_price : String
  pub strategy_param : AlgoStrategyParamWire

pub record AlgoCancelOrderWireRequest : Type 0 where
  pub exchange_type : String
  pub order_id : Bytes

pub record AlgoCancelEntrustWireRequest : Type 0 where
  pub exchange_type : String
  pub order_id : Bytes
  pub entrust_id : Bytes

pub record AlgoActionOrderWireRequest : Type 0 where
  pub order_id : Bytes
  pub exchange_type : String
  pub action : String
  pub target_strategy : String

pub record AlgoOrderQueryWireRequest : Type 0 where
  pub page_no : ℤ
  pub page_size : ℤ
  pub start_date : Bytes
  pub end_date : Bytes
  pub exchange_type : String
  pub stock_code : Bytes

pub record AlgoEntrustIdQueryWireRequest : Type 0 where
  pub order_id : Bytes
  pub trade_date : Bytes
  pub exchange_type : String

-- The bodies that the service sends.
pub data AlgoBody : Type 0 where
  add_body : AlgoAddOrderWireRequest → AlgoBody
  change_body : AlgoChangeOrderWireRequest → AlgoBody
  cancel_order_body : AlgoCancelOrderWireRequest → AlgoBody
  cancel_entrust_body : AlgoCancelEntrustWireRequest → AlgoBody
  action_body : AlgoActionOrderWireRequest → AlgoBody
  order_query_body : AlgoOrderQueryWireRequest → AlgoBody
  entrust_id_query_body : AlgoEntrustIdQueryWireRequest → AlgoBody

abbrev pub algo_exchanges : List String
algo_exchanges = "K" ∷ "P" ∷ "v" ∷ "t" ∷ []

abbrev pub algo_sides : List String
algo_sides = "1" ∷ "2" ∷ "3" ∷ "4" ∷ []

-- `Valid` of the entrust type, the session type, the sensitivity and the action.
abbrev pub algo_entrust_types : List String
algo_entrust_types = "1" ∷ "2" ∷ []

abbrev pub algo_session_types : List String
algo_session_types = "0" ∷ "1" ∷ []

abbrev pub algo_sensitivities : List String
algo_sensitivities = "1" ∷ "2" ∷ "3" ∷ []

abbrev pub algo_actions : List String
algo_actions = "1" ∷ "2" ∷ "3" ∷ "4" ∷ []

-- The checks, in the order of the source, each with the operation that it names.
abbrev pub account_given : String → Bytes → Option GoError
account_given op account = unless (not (is_empty account)) op "accountID must not be empty"

unfoldable pub algo_validate_stock_code : String → Bytes → Option GoError
algo_validate_stock_code op code =
    if is_empty (trim_space code)
    then unless false op "stockCode must not be empty"
    else if contains_blank (trim_space code)
    then unless false op "stockCode must not contain whitespace"
    else none

unfoldable pub algo_validate_exchange_type : String → String → Option GoError
algo_validate_exchange_type op e =
    unless (one_of e algo_exchanges) op
      "exchangeType must be K (Hong Kong), P (US), v (Shenzhen Connect) or t (Shanghai Connect)"

unfoldable pub algo_validate_direction : String → String → Option GoError
algo_validate_direction op side =
    unless (one_of side algo_sides) op "entrustBs must be 1, 2, 3 or 4"

unfoldable pub algo_validate_order_type : String → String → Option GoError
algo_validate_order_type op t =
    unless (one_of t algo_entrust_types) op "entrustType must be 1 (limit) or 2 (market)"

unfoldable pub algo_validate_session_type : String → String → Option GoError
algo_validate_session_type op s =
    unless (one_of s algo_session_types) op "sessionType must be 0 (off) or 1 (on)"

unfoldable pub algo_validate_action : String → String → Option GoError
algo_validate_action op a =
    unless (one_of a algo_actions) op
      "action must be 1 (START), 2 (STOP), 3 (SUSPEND) or 4 (RESUME)"

unfoldable pub algo_validate_strategy : String → String → Option GoError
algo_validate_strategy op s = unless (not (str_eq s "")) op "targetStrategy must not be empty"

unfoldable pub algo_validate_required_sensitivity : String → String → Option GoError
algo_validate_required_sensitivity op s =
    unless (one_of s algo_sensitivities) op
      "strategyParam.sensitivity must be 1 (neutral), 2 (aggressive) or 3 (passive)"

unfoldable pub algo_validate_optional_sensitivity : String → String → Option GoError
algo_validate_optional_sensitivity op s =
    unless (not (not (str_eq s "") && not (one_of s algo_sensitivities))) op
      "strategyParam.sensitivity must be 1 (neutral), 2 (aggressive) or 3 (passive)"

unfoldable pub algo_validate_date : String → String → Bytes → Option GoError
algo_validate_date op field date =
    if not (date_shaped date)
    then unless false op (str_append field " must be yyyyMMdd")
    else unless (parses_date date) op (str_append field " must be a valid calendar date")

unfoldable pub algo_validate_time_shaped : String → String → Bytes → Option GoError
algo_validate_time_shaped op field value =
    if is_empty value
    then none
    else unless (parses_time value) op (str_append field " must be HHmmSS")

unfoldable pub algo_validate_strategy_param_times :
    {D : Type 0} → String → AlgoStrategyParam D → Option GoError
algo_validate_strategy_param_times op p =
    algo_validate_time_shaped op "strategyParam.origStartTime" p.orig_start_time
    >>> algo_validate_time_shaped op "strategyParam.origEndTime" p.orig_end_time

abbrev pub is_minus : ℤ → Bool
is_minus (pos n) = false
is_minus (negsuc n) = true

unfoldable pub algo_validate_interval : String → ℤ → Option GoError
algo_validate_interval op n =
    unless (not (is_minus n)) op "strategyParam.interval must not be negative"

unfoldable pub algo_validate_order_id : String → Bytes → Option GoError
algo_validate_order_id op id =
    unless (not (is_empty (trim_space id))) op "orderId must not be empty"

unfoldable pub algo_validate_entrust_id : String → Bytes → Option GoError
algo_validate_entrust_id op id =
    unless (not (is_empty (trim_space id))) op "entrustId must not be empty"

-- `strings.Trim(digits, "0")` leaves something.
abbrev pub has_non_zero : Bytes → Bool
has_non_zero [] = false
has_non_zero (b ∷ bs) = not (b == b'0') || has_non_zero bs

module _ {D : Type 0} (dec : Decimals D) (describe : ValueError → String) where
  pub price_refusal : String → Option ValueError → Option GoError
  price_refusal op none = none
  price_refusal op (some e) =
      unless false op (str_append "entrustPrice must be a non-negative decimal: " (describe e))

  unfoldable pub algo_validate_order_price : String → Price D → Option GoError
  unfolding price_refusal
  algo_validate_order_price op p = price_refusal op (validate dec false p)

module _ {D : Type 0} (dec : Decimals D) where
  -- Of a quantity that must be positive: the order's, and the maximal volume of a new order.
  unfoldable pub algo_validate_order_quantity : String → D → Option GoError
  algo_validate_order_quantity op q =
      unless (dec.is_positive q && not (dec.is_zero q)) op
        "entrustAmount must be a positive decimal"

  unfoldable pub algo_validate_required_max_volume : String → D → Option GoError
  algo_validate_required_max_volume op q =
      unless (dec.is_positive q && not (dec.is_zero q)) op
        "strategyParam.maxVolume must be a positive decimal"

  unfoldable pub algo_validate_max_volume : String → D → Option GoError
  algo_validate_max_volume op q =
      unless (not (dec.is_negative q)) op "strategyParam.maxVolume must not be negative"

  -- Of the shown quantity and of the minimal amount.
  unfoldable pub algo_validate_optional_quantity : String → String → D → Option GoError
  algo_validate_optional_quantity op field q =
      unless (not (dec.is_negative q)) op
        (str_append (str_append "strategyParam." field) " must not be negative")

  unfoldable pub algo_validate_optional_money : String → String → D → Option GoError
  algo_validate_optional_money op field q =
      unless (not (dec.is_negative q)) op
        (str_append (str_append "strategyParam." field) " must not be negative")

  unfoldable pub algo_validate_qty_percent : String → D → Option GoError
  algo_validate_qty_percent op p =
      let digits = codes (dec.to_string p) in
      if dec.is_zero p
      then none
      else if dec.is_negative p
      then unless false op "strategyParam.qtyPercent must be between 1 and 99"
      else if not (digits_shaped digits)
      then unless false op "strategyParam.qtyPercent must be a whole number"
      else if ltb algo_qty_percent_max_digits (length digits) || not (has_non_zero digits)
      then unless false op "strategyParam.qtyPercent must be between 1 and 99"
      else none

  -- `algoStrategyParamWireFrom`: what is zero is left out.
  abbrev unless_zero : D → String
  unless_zero d = if dec.is_zero d then "" else dec.to_string d

  unfoldable pub algo_strategy_param_wire_from : AlgoStrategyParam D → AlgoStrategyParamWire
  algo_strategy_param_wire_from p = record {
    orig_start_time = p.orig_start_time;
    orig_end_time = p.orig_end_time;
    max_volume = unless_zero p.max_volume;
    min_amount = unless_zero p.min_amount;
    sensitivity = p.sensitivity;
    show_qty = unless_zero p.show_qty;
    qty_percent = unless_zero p.qty_percent;
    interval = p.interval;
  }

module _ {D : Type 0} (dec : Decimals D) (describe : ValueError → String) where
  -- The checks of `AddOrder`.
  unfoldable pub add_order_checks : Bytes → AlgoAddOrderRequest D → Option GoError
  add_order_checks account o =
      let op = op_algo_add_order in
      let p = o.strategy_param in
      account_given op account
      >>> algo_validate_stock_code op o.stock_code
      >>> algo_validate_exchange_type op o.exchange_type
      >>> algo_validate_order_type op o.order_type
      >>> algo_validate_order_price dec describe op o.price
      >>> algo_validate_order_quantity dec op o.quantity
      >>> algo_validate_direction op o.side
      >>> algo_validate_strategy op o.target_strategy
      >>> algo_validate_session_type op o.session_type
      >>> algo_validate_required_max_volume dec op p.max_volume
      >>> algo_validate_required_sensitivity op p.sensitivity
      >>> algo_validate_strategy_param_times op p
      >>> algo_validate_optional_money dec op "minAmount" p.min_amount
      >>> algo_validate_optional_quantity dec op "showQty" p.show_qty
      >>> algo_validate_qty_percent dec op p.qty_percent
      >>> algo_validate_interval op p.interval

  -- The checks of `ChangeOrder`.
  unfoldable pub change_order_checks : Bytes → AlgoChangeOrderRequest D → Option GoError
  change_order_checks account o =
      let op = op_algo_change_order in
      let p = o.strategy_param in
      account_given op account
      >>> algo_validate_order_id op o.order_id
      >>> algo_validate_stock_code op o.stock_code
      >>> algo_validate_exchange_type op o.exchange_type
      >>> algo_validate_order_price dec describe op o.price
      >>> algo_validate_order_quantity dec op o.quantity
      >>> algo_validate_optional_sensitivity op p.sensitivity
      >>> algo_validate_strategy_param_times op p
      >>> algo_validate_max_volume dec op p.max_volume
      >>> algo_validate_optional_money dec op "minAmount" p.min_amount
      >>> algo_validate_optional_quantity dec op "showQty" p.show_qty
      >>> algo_validate_qty_percent dec op p.qty_percent
      >>> algo_validate_interval op p.interval

-- The page of `QueryOrderList`: what is not positive is the default.
abbrev or_default : ℕ → ℤ → ℤ
or_default d (negsuc n) = pos d
or_default d (pos n) = if ltb 0 n then pos n else pos d

module _ {W : Type 0} (executor : Executor AlgoBody W) where
  module _ {D : Type 0} (dec : Decimals D) (describe : ValueError → String) where
    unfoldable pub add_order : Bytes → AlgoAddOrderRequest D → W → Option (GoError × W)
    add_order account o w =
        sent executor (add_order_checks dec describe account o) op_algo_add_order
          (codes "/trade/AlgoAddOrder")
          (add_body (record {
            exchange_type = o.exchange_type;
            stock_code = o.stock_code;
            entrust_type = o.order_type;
            entrust_bs = o.side;
            entrust_amount = dec.to_string o.quantity;
            entrust_price = dec.to_string o.price.dec;
            target_strategy = o.target_strategy;
            session_type = o.session_type;
            strategy_param = algo_strategy_param_wire_from dec o.strategy_param;
          }))
          w

    unfoldable pub change_order : Bytes → AlgoChangeOrderRequest D → W → Option (GoError × W)
    change_order account o w =
        sent executor (change_order_checks dec describe account o) op_algo_change_order
          (codes "/trade/AlgoChangeOrder")
          (change_body (record {
            order_id = o.order_id;
            exchange_type = o.exchange_type;
            stock_code = o.stock_code;
            entrust_amount = dec.to_string o.quantity;
            entrust_price = dec.to_string o.price.dec;
            strategy_param = algo_strategy_param_wire_from dec o.strategy_param;
          }))
          w

  unfoldable pub cancel_order : Bytes → Bytes → String → W → Option (GoError × W)
  cancel_order account id exchange w =
      let op = op_algo_cancel_order in
      sent executor
        (account_given op account
          >>> algo_validate_order_id op id
          >>> algo_validate_exchange_type op exchange)
        op (codes "/trade/AlgoCancelOrder")
        (cancel_order_body (record { exchange_type = exchange; order_id = id })) w

  unfoldable pub algo_cancel_entrust : Bytes → Bytes → Bytes → String → W → Option (GoError × W)
  algo_cancel_entrust account id entrust exchange w =
      let op = op_algo_cancel_entrust in
      sent executor
        (account_given op account
          >>> algo_validate_order_id op id
          >>> algo_validate_entrust_id op entrust
          >>> algo_validate_exchange_type op exchange)
        op (codes "/trade/AlgoCancelEntrust")
        (cancel_entrust_body
          (record { exchange_type = exchange; order_id = id; entrust_id = entrust }))
        w

  unfoldable pub action_order : Bytes → AlgoActionRequest → W → Option (GoError × W)
  action_order account r w =
      let op = op_algo_action_order in
      sent executor
        (account_given op account
          >>> algo_validate_order_id op r.order_id
          >>> algo_validate_strategy op r.target_strategy
          >>> algo_validate_exchange_type op r.exchange_type
          >>> algo_validate_action op r.action)
        op (codes "/trade/AlgoActionOrder")
        (action_body (record {
          order_id = r.order_id;
          exchange_type = r.exchange_type;
          action = r.action;
          target_strategy = r.target_strategy;
        }))
        w

  -- `QueryOrderList`, up to the decoding of the reply.
  unfoldable pub query_order_list : Bytes → AlgoOrderQuery → W → Option (GoError × W)
  query_order_list account q w =
      let op = op_algo_query_order_list in
      sent executor
        (account_given op account
          >>> algo_validate_date op "startDate" q.start_date
          >>> algo_validate_date op "endDate" q.end_date
          >>> unless (not (not (is_empty q.stock_code) && str_eq q.exchange_type "")) op
              "exchangeType is required when stockCode is set"
          >>> (if str_eq q.exchange_type ""
              then none
              else algo_validate_exchange_type op q.exchange_type)
          >>> (if is_empty q.stock_code then none else algo_validate_stock_code op q.stock_code))
        op (codes "/trade/AlgoQueryOrderList")
        (order_query_body (record {
          page_no = or_default 1 q.page_no;
          page_size = or_default 30 q.page_size;
          start_date = q.start_date;
          end_date = q.end_date;
          exchange_type = q.exchange_type;
          stock_code = q.stock_code;
        }))
        w

  -- `QueryEntrustIDList`, up to the decoding of the reply.
  unfoldable pub query_entrust_id_list : Bytes → Bytes → Bytes → String → W → Option (GoError × W)
  query_entrust_id_list account id date exchange w =
      let op = op_algo_query_entrust_id_list in
      sent executor
        (account_given op account
          >>> algo_validate_order_id op id
          >>> algo_validate_date op "tradeDate" date
          >>> algo_validate_exchange_type op exchange)
        op (codes "/trade/AlgoQueryEntrustIdList")
        (entrust_id_query_body
          (record { order_id = id; trade_date = date; exchange_type = exchange }))
        w
