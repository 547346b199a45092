-- ===== src/Services/Futures.antt =====
-- The futures service, pkg/services/futures.go: what each operation checks and sends. A text is its bytes
-- where the code looks inside it.
pub mod Accepts
pub mod Attempts
pub mod Dates
use hstongapi4go.Common.{
  ℕ, String, Bool, true, false, not, ◌&&◌, ◌||◌, Option, none, some, List, [], ◌∷◌, ltb, leb,
  str_eq, if◌then◌else◌,
}
use Prim.Native.String.{◌++◌ as str_append}
use hstongapi4go.Common.Int.{ℤ, pos, negsuc}
use hstongapi4go.Common.Bytes.{Bytes}
use hstongapi4go.Common.Text.{codes}
use hstongapi4go.Errs.{GoError}
use hstongapi4go.Client.Calls.{Executor}
use hstongapi4go.Domain.Symbol.{is_empty}
use hstongapi4go.Domain.Price.{Decimals, Price, ValueError, validate}
use hstongapi4go.Services.Push.Keys.{trim_space}
use hstongapi4go.Services.Validation.{◌>>>◌, one_of}
use hstongapi4go.Services.Checks.{
  sent, unless, digits_shaped, date_shaped, parses_date, contains_blank,
}

abbrev pub op_futures_entrust : String
op_futures_entrust = "trade/FuturesEntrust"

abbrev pub op_futures_cancel_entrust : String
op_futures_cancel_entrust = "trade/FuturesCancelEntrust"

abbrev pub op_futures_modify_entrust : String
op_futures_modify_entrust = "trade/FuturesModifyEntrust"

abbrev pub futures_max_page_size_exclusive : ℕ
futures_max_page_size_exclusive = 100

abbrev pub futures_valid_time_types : List String
futures_valid_time_types = "0" ∷ "1" ∷ "2" ∷ "3" ∷ "4" ∷ []

abbrev pub futures_order_option_codes : List String
futures_order_option_codes = "0" ∷ "1" ∷ []

-- The buying and the selling side alone.
abbrev pub futures_sides : List String
futures_sides = "1" ∷ "2" ∷ []

pub record PageRequest : Type 0 where
  pub page_no : ℤ
  pub page_size : ℤ
  pub start_date : Bytes
  pub end_date : Bytes

-- Of the order's symbol the code alone is read.
pub record FuturesOrderRequest (D : Type 0) : Type 0 where
  pub stock_code : Bytes
  pub side : String
  pub order_type : Bytes
  pub price : Price D
  pub quantity : D
  pub valid_time_type : String
  pub valid_time : Bytes
  pub order_options : String

pub record FuturesModifyRequest (D : Type 0) : Type 0 where
  pub entrust_id : Bytes
  pub stock_code : Bytes
  pub price : Price D
  pub quantity : D
  pub side : String
  pub valid_time_type : String
  pub valid_time : Bytes
  pub order_options : String

pub record FuturesPageQueryWireRequest : Type 0 where
  pub page_no : ℤ
  pub page_size : ℤ
  pub start_date : Bytes
  pub end_date : Bytes

pub record FuturesEntrustWireRequest : Type 0 where
  pub stock_code : Bytes
  pub entrust_type : Bytes
  pub entrust_price : String
  pub entrust_amount : String
  pub entrust_bs : String
  pub valid_time_type : String
  pub order_options : String
  pub valid_time : Bytes

pub record FuturesCancelEntrustWireRequest : Type 0 where
  pub entrust_id : Bytes
  pub stock_code : Bytes

pub record FuturesModifyEntrustWireRequest : Type 0 where
  pub entrust_id : Bytes
  pub stock_code : Bytes
  pub entrust_price : String
  pub entrust_amount : String
  pub entrust_bs : String
  pub valid_time_type : String
  pub order_options : String
  pub valid_time : Bytes

-- The bodies that the service sends.
pub data FuturesBody : Type 0 where
  entrust_body : FuturesEntrustWireRequest → FuturesBody
  cancel_body : FuturesCancelEntrustWireRequest → FuturesBody
  modify_body : FuturesModifyEntrustWireRequest → FuturesBody
  product_body : List Bytes → FuturesBody
  capacity_body : Bytes → FuturesBody
  page_body : FuturesPageQueryWireRequest → FuturesBody
  no_params : FuturesBody

abbrev pub account_given : String → Bytes → Option GoError
account_given op account = unless (not (is_empty account)) op "accountID must not be empty"

unfoldable pub futures_validate_stock_code : String → Bytes → Option GoError
futures_validate_stock_code op code =
    if is_empty (trim_space code)
    then unless false op "stockCode must not be empty"
    else if contains_blank (trim_space code)
    then unless false op "stockCode must not contain whitespace"
    else none

unfoldable pub futures_validate_date : String → String → Bytes → Option GoError
futures_validate_date op field date =
    if not (date_shaped date)
    then unless false op (str_append field " must be yyyyMMdd")
    else unless (parses_date date) op (str_append field " must be a valid calendar date")

unfoldable pub futures_validate_order_type : String → Bytes → Option GoError
futures_validate_order_type op t =
    unless (digits_shaped t) op "entrustType must be a non-empty run of decimal digits"

unfoldable pub futures_validate_entrust_bs : String → String → Option GoError
futures_validate_entrust_bs op side =
    unless (one_of side futures_sides) op
      "entrustBs must be 1 (buy) or 2 (sell) on the futures endpoint; 3 and 4 are cash-only values - see docs/SPEC.md 7.4"

unfoldable pub futures_validate_entrust_id : String → Bytes → Option GoError
futures_validate_entrust_id op id =
    unless (not (is_empty (trim_space id))) op "entrustId must not be empty"

unfoldable pub futures_validate_valid_time_type : String → String → Bytes → Option GoError
futures_validate_valid_time_type op t time =
    if not (one_of t futures_valid_time_types)
    then unless false op "validTimeType must be 0, 1, 2, 3 or 4"
    else if is_empty time
    then unless (not (str_eq t "4")) op "validTime is required when validTimeType is 4"
    else futures_validate_date op "validTime" time

unfoldable pub futures_validate_order_options : String → String → Option GoError
futures_validate_order_options op o =
    unless (one_of o futures_order_option_codes) op "orderOptions must be 0 or 1"

-- `futuresOrderOptionsParam`.
unfoldable pub futures_order_options_param : String → String
futures_order_options_param o = if str_eq o "" then "0" else o

-- `futuresPageQueryParams`: what is not positive is the default.
abbrev or_default : ℕ → ℤ → ℤ
or_default d (negsuc n) = pos d
or_default d (pos n) = if ltb 0 n then pos n else pos d

unfoldable pub futures_page_query_params : PageRequest → FuturesPageQueryWireRequest
futures_page_query_params p = record {
  page_no = or_default 1 p.page_no;
  page_size = or_default 20 p.page_size;
  start_date = p.start_date;
  end_date = p.end_date;
}

abbrev is_below : ℕ → ℤ → Bool
is_below n (pos k) = ltb k n
is_below n (negsuc k) = true

-- The checks of `futuresValidatePage`.
unfoldable pub futures_validate_page : String → PageRequest → Option GoError
futures_validate_page op p =
    unless (is_below futures_max_page_size_exclusive p.page_size) op "pageSize must be below 100"
    >>> (if is_empty p.start_date then none else futures_validate_date op "startDate" p.start_date)
    >>> (if is_empty p.end_date then none else futures_validate_date op "endDate" p.end_date)

module _ {D : Type 0} (dec : Decimals D) (describe : ValueError → String) where
  pub price_refusal : String → Option ValueError → Option GoError
  price_refusal op none = none
  price_refusal op (some e) =
      unless false op (str_append "entrustPrice must be a non-negative decimal: " (describe e))

  unfoldable pub futures_validate_order_price : String → Price D → Option GoError
  unfolding price_refusal
  futures_validate_order_price op p = price_refusal op (validate dec false p)

  unfoldable pub futures_validate_order_quantity : String → D → Option GoError
  futures_validate_order_quantity op q =
      unless (dec.is_positive q && not (dec.is_zero q)) op
        "entrustAmount must be a positive decimal"

  -- The checks of `Entrust`.
  unfoldable pub entrust_checks : Bytes → FuturesOrderRequest D → Option GoError
  entrust_checks account o =
      let op = op_futures_entrust in
      account_given op account
      >>> futures_validate_stock_code op o.stock_code
      >>> futures_validate_order_type op o.order_type
      >>> futures_validate_entrust_bs op o.side
      >>> futures_validate_order_price op o.price
      >>> futures_validate_order_quantity op o.quantity
      >>> futures_validate_valid_time_type op o.valid_time_type o.valid_time
      >>> futures_validate_order_options op (futures_order_options_param o.order_options)

  -- The checks of `ModifyEntrust`.
  unfoldable pub modify_checks : Bytes → FuturesModifyRequest D → Option GoError
  modify_checks account o =
      let op = op_futures_modify_entrust in
      account_given op account
      >>> futures_validate_entrust_id op o.entrust_id
      >>> futures_validate_stock_code op o.stock_code
      >>> futures_validate_order_price op o.price
      >>> futures_validate_order_quantity op o.quantity
      >>> futures_validate_entrust_bs op o.side
      >>> futures_validate_valid_time_type op o.valid_time_type o.valid_time
      >>> futures_validate_order_options op (futures_order_options_param o.order_options)

-- The loop over the codes of `QueryProductInfo`.
all_codes : String → List Bytes → Option GoError
all_codes op [] = none
all_codes op (c ∷ cs) = futures_validate_stock_code op c >>> all_codes op cs

abbrev some_codes : List Bytes → Bool
some_codes [] = false
some_codes (c ∷ cs) = true

module _ {W : Type 0} (executor : Executor FuturesBody W) where
  module _ {D : Type 0} (dec : Decimals D) (describe : ValueError → String) where
    unfoldable pub futures_entrust : Bytes → FuturesOrderRequest D → W → Option (GoError × W)
    futures_entrust account o w =
        sent executor (entrust_checks dec describe account o) op_futures_entrust
          (codes "/trade/FuturesEntrust")
          (entrust_body (record {
            stock_code = o.stock_code;
            entrust_type = o.order_type;
            entrust_price = dec.to_string o.price.dec;
            entrust_amount = dec.to_string o.quantity;
            entrust_bs = o.side;
            valid_time_type = o.valid_time_type;
            order_options = futures_order_options_param o.order_options;
            valid_time = o.valid_time;
          }))
          w

    unfoldable pub futures_modify_entrust :
        Bytes → FuturesModifyRequest D → W → Option (GoError × W)
    futures_modify_entrust account o w =
        sent executor (modify_checks dec describe account o) op_futures_modify_entrust
          (codes "/trade/FuturesModifyEntrust")
          (modify_body (record {
            entrust_id = o.entrust_id;
            stock_code = o.stock_code;
            entrust_price = dec.to_string o.price.dec;
            entrust_amount = dec.to_string o.quantity;
            entrust_bs = o.side;
            valid_time_type = o.valid_time_type;
            order_options = futures_order_options_param o.order_options;
            valid_time = o.valid_time;
          }))
          w

  unfoldable pub futures_cancel_entrust : Bytes → Bytes → Bytes → W → Option (GoError × W)
  futures_cancel_entrust account id code w =
      let op = op_futures_cancel_entrust in
      sent executor
        (account_given op account
          >>> futures_validate_entrust_id op id
          >>> futures_validate_stock_code op code)
        op (codes "/trade/FuturesCancelEntrust")
        (cancel_body (record { entrust_id = id; stock_code = code })) w

  -- The queries, up to the decoding of the reply.
  unfoldable pub query_product_info : Bytes → List Bytes → W → Option (GoError × W)
  unfolding all_codes
  query_product_info account stock_codes w =
      let op : String = "trade/FuturesQueryProductInfo" in
      sent executor
        (account_given op account
          >>> unless (some_codes stock_codes) op "stockCode must contain at least one contract code"
          >>> all_codes op stock_codes)
        op (codes "/trade/FuturesQueryProductInfo") (product_body stock_codes) w

  unfoldable pub query_max_buy_sell_amount : Bytes → Bytes → W → Option (GoError × W)
  query_max_buy_sell_amount account code w =
      let op : String = "trade/FuturesQueryMaxBuySellAmount" in
      sent executor (account_given op account >>> futures_validate_stock_code op code) op
        (codes "/trade/FuturesQueryMaxBuySellAmount") (capacity_body code) w

  -- A query without parameters.
  abbrev plain : String → String → Bytes → W → Option (GoError × W)
  plain op route account w = sent executor (account_given op account) op (codes route) no_params w

  unfoldable pub query_fund_info : Bytes → W → Option (GoError × W)
  query_fund_info account w =
      plain "trade/FuturesQueryFundInfo" "/trade/FuturesQueryFundInfo" account w

  unfoldable pub query_holds_list : Bytes → W → Option (GoError × W)
  query_holds_list account w =
      plain "trade/FuturesQueryHoldsList" "/trade/FuturesQueryHoldsList" account w

  unfoldable pub query_real_entrust_list : Bytes → W → Option (GoError × W)
  query_real_entrust_list account w =
      plain "trade/FuturesQueryRealEntrustList" "/trade/FuturesQueryRealEntrustList" account w

  unfoldable pub query_real_deliver_list : Bytes → W → Option (GoError × W)
  query_real_deliver_list account w =
      plain "trade/FuturesQueryRealDeliverList" "/trade/FuturesQueryRealDeliverList" account w

  -- A page of a history.
  abbrev paged : String → String → Bytes → PageRequest → W → Option (GoError × W)
  paged op route account p w =
      sent executor (account_given op account >>> futures_validate_page op p) op (codes route)
        (page_body (futures_page_query_params p)) w

  unfoldable pub query_history_entrust_page : Bytes → PageRequest → W → Option (GoError × W)
  query_history_entrust_page account p w =
      paged "trade/FuturesQueryHistoryEntrustList" "/trade/FuturesQueryHistoryEntrustList" account p
        w

  unfoldable pub query_history_deliver_page : Bytes → PageRequest → W → Option (GoError × W)
  query_history_deliver_page account p w =
      paged "trade/FuturesQueryHistoryDeliverList" "/trade/FuturesQueryHistoryDeliverList" account p
        w
