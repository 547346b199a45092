-- ===== src/Services/Trading.antt =====
-- The operations of pkg/services/trading.go that change orders, and a paged query: what each
-- checks, and the request that it sends. A text is its bytes where the model looks inside it or where
-- the code prints a number.
pub mod Attempts
pub mod Queries
use hstongapi4go.Common.{
  ℕ, String, Bool, true, false, Option, none, some, List, [], ◌∷◌, ltb, if◌then◌else◌,
}
use hstongapi4go.Common.Int.{ℤ, pos, negsuc}
use hstongapi4go.Common.Bytes.{Bytes}
use hstongapi4go.Common.Decimal.{itoa}
use hstongapi4go.Common.Text.{codes, bytes_eq}
use hstongapi4go.Errs.{GoError, nil_error, new_error}
use hstongapi4go.Resilience.Retry.{is_nil}
use hstongapi4go.Client.Calls.{Executor}
use hstongapi4go.Domain.Symbol.{Symbol, market_hk, market_us, data_type_hk_stock, is_empty}
use hstongapi4go.Domain.Price.{Decimals, Price, ValueError}
use hstongapi4go.Services.Wire.{
  EntrustWireRequest, CancelEntrustWireRequest, BatchCancelEntrustWireRequest,
  ChangeEntrustWireRequest, CondOrderListWireRequest, Body, entrust_body, cancel_body,
  batch_cancel_body, change_body, cond_order_list_body,
}
use hstongapi4go.Services.Validation.{
  Order, Resolver, ◌>>>◌, op_entrust, status_invalid_param, validate_order_for_hk,
  validate_price_for_hk, validate_quantity_for_hk,
}

abbrev pub op_cancel_entrust : String
op_cancel_entrust = "trade/TradeCancelEntrust"

abbrev pub op_batch_cancel_entrust : String
op_batch_cancel_entrust = "trade/TradeBatchCancelEntrust"

abbrev pub op_change_entrust : String
op_change_entrust = "trade/TradeChangeEntrust"

abbrev pub op_real_cond_order_list : String
op_real_cond_order_list = "trade/TradeQueryRealCondOrderList"

abbrev pub route_trade_entrust : Bytes
route_trade_entrust = codes "/trade/TradeEntrust"

abbrev pub route_trade_cancel_entrust : Bytes
route_trade_cancel_entrust = codes "/trade/TradeCancelEntrust"

abbrev pub route_trade_batch_cancel_entrust : Bytes
route_trade_batch_cancel_entrust = codes "/trade/TradeBatchCancelEntrust"

abbrev pub route_trade_change_entrust : Bytes
route_trade_change_entrust = codes "/trade/TradeChangeEntrust"

abbrev pub route_trade_query_real_cond_order_list : Bytes
route_trade_query_real_cond_order_list = codes "/trade/TradeQueryRealCondOrderList"

abbrev pub exchange_hk : String
exchange_hk = "K"

abbrev pub exchange_us : String
exchange_us = "P"

abbrev pub default_page_size : ℕ
default_page_size = 50

abbrev pub max_page_size : ℕ
max_page_size = 500

pub record CondOrderFilter : Type 0 where
  pub exchange_type : String
  pub stock_code : String
  pub page_no : ℤ
  pub page_size : ℤ

abbrev pub exchange_of : Bytes → String
exchange_of market =
    if bytes_eq market market_hk
    then exchange_hk
    else if bytes_eq market market_us
    then exchange_us
    else ""

-- The page that a filter asks for: `<= 0` is the default, and the size has a maximum.
unfoldable pub page_no_of : ℤ → ℤ
page_no_of (pos n) = if ltb 0 n then pos n else pos 1
page_no_of (negsuc n) = pos 1

abbrev capped : ℕ → ℤ
capped n = if ltb max_page_size n then pos max_page_size else pos n

unfoldable pub page_size_of : ℤ → ℤ
page_size_of (pos n) = if ltb 0 n then capped n else capped default_page_size
page_size_of (negsuc n) = capped default_page_size

abbrev pub invalid : String → String → Option GoError
invalid op message = some (new_error status_invalid_param op message)

-- The check that an identifier is there.
abbrev pub required : String → String → Bytes → Option GoError
required op message id = if is_empty id then invalid op message else none

-- The instrument that `ChangeEntrust` checks against, whatever the order is for.
abbrev pub change_entrust_symbol : Symbol
change_entrust_symbol = record {
  market = market_hk;
  code = [];
  data_type = pos data_type_hk_stock;
  full_code = [];
  display_name = [];
}

module _ {D W : Type 0} (dec : Decimals D) (describe : ValueError → String)
    (executor : Executor Body W) where
  -- A call that is refused never leaves the service.
  abbrev pub send : Option GoError → String → Bytes → Body → W → Option (GoError × W)
  send (some e) op route body w = some (e, w)
  send none op route body w = executor.do_ op route body w

  abbrev pub entrust_request : Order D → EntrustWireRequest
  entrust_request o = record {
    exchange_type = exchange_of o.symbol.market;
    stock_code = o.symbol.code;
    entrust_amount = dec.to_string o.quantity;
    entrust_price = dec.to_string o.price.dec;
    entrust_bs = o.side;
    entrust_type = o.order_type;
    client_type = o.client_type;
    session_type = o.session_type;
    ice_berg_display_size = dec.to_string o.iceberg_qty;
    valid_days = itoa o.valid_days;
    cond_value = o.cond_value;
    cond_track_type = o.cond_track_type;
  }

  -- `Entrust`: the error, and the world, from which the caller reads the identifier that the codec
  -- decoded when there is no error.
  unfoldable pub entrust : Bytes → Bytes → Resolver D → Order D → W → Option (GoError × W)
  entrust now account r o w =
      send
        (required op_entrust "accountID must not be empty" account
          >>> validate_order_for_hk dec describe now o r)
        op_entrust route_trade_entrust (entrust_body (entrust_request o)) w

  unfoldable pub cancel_entrust : Bytes → Bytes → W → Option (GoError × W)
  cancel_entrust account id w =
      send
        (required op_cancel_entrust "accountID must not be empty" account
          >>> required op_cancel_entrust "entrustID must not be empty" id)
        op_cancel_entrust route_trade_cancel_entrust
        (cancel_body (record { entrust_id = id; exchange_type = exchange_hk })) w

  unfoldable pub batch_cancel_entrust : Bytes → List Bytes → W → Option (GoError × W)
  batch_cancel_entrust account ids w =
      send (required op_batch_cancel_entrust "accountID must not be empty" account)
        op_batch_cancel_entrust route_trade_batch_cancel_entrust
        (batch_cancel_body (record { exchange_type = exchange_hk; entrust_ids = ids })) w

  unfoldable pub change_entrust :
      Bytes → Bytes → Resolver D → Price D → D → W → Option (GoError × W)
  change_entrust account id r price q w =
      send
        (required op_change_entrust "accountID must not be empty" account
          >>> required op_change_entrust "entrustID must not be empty" id
          >>> validate_price_for_hk dec describe price r change_entrust_symbol
          >>> validate_quantity_for_hk dec describe q r change_entrust_symbol)
        op_change_entrust route_trade_change_entrust
        (change_body (record {
          exchange_type = exchange_hk;
          entrust_id = id;
          entrust_amount = dec.to_string q;
          entrust_price = dec.to_string price.dec;
        }))
        w

  abbrev pub cond_order_list_request : CondOrderFilter → CondOrderListWireRequest
  cond_order_list_request f = record {
    exchange_type = f.exchange_type;
    stock_code = f.stock_code;
    page_no = page_no_of f.page_no;
    page_size = page_size_of f.page_size;
  }

  -- `RealCondOrderList`, up to the decoding of the reply.
  unfoldable pub real_cond_order_list : Bytes → CondOrderFilter → W → Option (GoError × W)
  real_cond_order_list account f w =
      send (required op_real_cond_order_list "accountID must not be empty" account)
        op_real_cond_order_list route_trade_query_real_cond_order_list
        (cond_order_list_body (cond_order_list_request f)) w
