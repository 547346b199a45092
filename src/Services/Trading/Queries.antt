-- ===== src/Services/Trading/Queries.antt =====
-- The queries of pkg/services/trading.go, up to the decoding of the reply, and the two operations of the
-- session-wide order push.
use hstongapi4go.Common.{String, Option, List, ◌++◌}
use hstongapi4go.Common.Int.{ℤ}
use hstongapi4go.Common.Bytes.{Bytes}
use hstongapi4go.Common.Decimal.{itoa}
use hstongapi4go.Common.Text.{codes}
use hstongapi4go.Errs.{GoError}
use hstongapi4go.Client.Calls.{Executor}
use hstongapi4go.Domain.Symbol.{Symbol}
use hstongapi4go.Domain.Price.{Decimals, Price, ValueError}
use hstongapi4go.Services.Wire.{
  Body, HistoryListWireRequest, HistoryCondOrderListWireRequest, max_available_asset_body,
  real_entrust_list_body, real_deliver_list_body, history_list_body, history_cond_order_list_body,
  margin_full_info_body, before_and_after_support_body, empty_body,
}
use hstongapi4go.Services.Validation.{◌>>>◌}
use hstongapi4go.Services.Trading.{
  exchange_of, default_page_size, page_no_of, page_size_of, required, send,
}

pub record EntrustFilter : Type 0 where
  pub exchange_type : String
  pub entrust_ids : List Bytes

pub record HistoryFilter : Type 0 where
  pub exchange_type : String
  pub start_date : Bytes
  pub end_date : Bytes
  pub stock_code : String
  pub page_no : ℤ
  pub page_size : ℤ

abbrev pub history_list_request : HistoryFilter → HistoryListWireRequest
history_list_request f = record {
  exchange_type = f.exchange_type;
  query_count = default_page_size;
  query_param_str = "";
  start_date = f.start_date;
  end_date = f.end_date;
}

abbrev pub history_cond_order_list_request : HistoryFilter → HistoryCondOrderListWireRequest
history_cond_order_list_request f = record {
  exchange_type = f.exchange_type;
  stock_code = f.stock_code;
  page_no = itoa (page_no_of f.page_no);
  page_size = itoa (page_size_of f.page_size);
  start_time = f.start_date ++ codes " 00:00:00";
  end_time = f.end_date ++ codes " 23:59:59";
}

module _ {D W : Type 0} (dec : Decimals D) (describe : ValueError → String)
    (executor : Executor Body W) where
  abbrev account_required : String → Bytes → Option GoError
  account_required op account = required op "accountID must not be empty" account

  abbrev symbol_required : String → Symbol → Option GoError
  symbol_required op s = required op "symbol must not be empty" s.code

  -- A query that needs an account.
  abbrev query : String → String → Bytes → Body → W → Option (GoError × W)
  query op route account body w =
      send dec describe executor (account_required op account) op (codes route) body w

  unfoldable pub real_entrust_list : Bytes → EntrustFilter → W → Option (GoError × W)
  real_entrust_list account f w =
      query "trade/TradeQueryRealEntrustList" "/trade/TradeQueryRealEntrustList" account
        (real_entrust_list_body (record {
          exchange_type = f.exchange_type;
          query_count = default_page_size;
          query_param_str = "";
          entrust_ids = f.entrust_ids;
        }))
        w

  -- The filter is the exchange alone.
  unfoldable pub real_deliver_list : Bytes → String → W → Option (GoError × W)
  real_deliver_list account exchange w =
      query "trade/TradeQueryRealDeliverList" "/trade/TradeQueryRealDeliverList" account
        (real_deliver_list_body (record {
          exchange_type = exchange;
          query_count = default_page_size;
          query_param_str = "";
        }))
        w

  unfoldable pub history_entrust_list : Bytes → HistoryFilter → W → Option (GoError × W)
  history_entrust_list account f w =
      query "trade/TradeQueryHistoryEntrustList" "/trade/TradeQueryHistoryEntrustList" account
        (history_list_body (history_list_request f)) w

  unfoldable pub history_deliver_list : Bytes → HistoryFilter → W → Option (GoError × W)
  history_deliver_list account f w =
      query "trade/TradeQueryHistoryDeliverList" "/trade/TradeQueryHistoryDeliverList" account
        (history_list_body (history_list_request f)) w

  unfoldable pub history_cond_order_list : Bytes → HistoryFilter → W → Option (GoError × W)
  history_cond_order_list account f w =
      query "trade/TradeQueryHistoryCondOrderList" "/trade/TradeQueryHistoryCondOrderList" account
        (history_cond_order_list_body (history_cond_order_list_request f)) w

  unfoldable pub margin_full_info : Bytes → W → Option (GoError × W)
  margin_full_info account w =
      query "trade/TradeQueryMarginFullInfo" "/trade/TradeQueryMarginFullInfo" account
        (margin_full_info_body (record { data_type = "10000"; stock_code = "" })) w

  unfoldable pub max_available_asset : Bytes → Symbol → Price D → String → W → Option (GoError × W)
  max_available_asset account s price order_type w =
      send dec describe executor
        (account_required "trade/TradeQueryMaxAvailableAsset" account
          >>> symbol_required "trade/TradeQueryMaxAvailableAsset" s)
        "trade/TradeQueryMaxAvailableAsset" (codes "/trade/TradeQueryMaxAvailableAsset")
        (max_available_asset_body (record {
          exchange_type = exchange_of s.market;
          stock_code = s.code;
          entrust_price = dec.to_string price.dec;
          entrust_type = order_type;
        }))
        w

  unfoldable pub before_and_after_support : Symbol → W → Option (GoError × W)
  before_and_after_support s w =
      send dec describe executor (symbol_required "trade/TradeQueryBeforeAndAfterSupport" s)
        "trade/TradeQueryBeforeAndAfterSupport" (codes "/trade/TradeQueryBeforeAndAfterSupport")
        (before_and_after_support_body
          (record { stock_code = s.code; exchange_type = exchange_of s.market }))
        w

  -- `SubscribeOrders` and `UnsubscribeOrders`.
  unfoldable pub trade_subscribe : Bytes → W → Option (GoError × W)
  trade_subscribe account w =
      query "trade/TradeSubscribe" "/trade/TradeSubscribe" account empty_body w

  unfoldable pub trade_unsubscribe : Bytes → W → Option (GoError × W)
  trade_unsubscribe account w =
      query "trade/TradeUnsubscribe" "/trade/TradeUnsubscribe" account empty_body w
