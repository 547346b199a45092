-- ===== src/Client/Routes.antt =====
-- client/routes.go: the 51 endpoints and the two alias forms that the Gateway accepts for each. A
-- path is its bytes.
pub mod Normal
use hstongapi4go.Common.{Bool, true, false, not, ◌&&◌, List, [], ◌∷◌, if◌then◌else◌}
use hstongapi4go.Common.Bytes.{Bytes}
use hstongapi4go.Common.Text.{codes, bytes_eq, contains, trim_suffix}

abbrev pub canonical_routes : List Bytes
canonical_routes =
    codes "/hq/BasicQot"
    ∷ codes "/hq/OrderBook"
    ∷ codes "/hq/KL"
    ∷ codes "/hq/TimeShare"
    ∷ codes "/hq/Ticker"
    ∷ codes "/hq/Broker"
    ∷ codes "/hq/UsOptionChainCode"
    ∷ codes "/hq/UsOptionChainExpireDate"
    ∷ codes "/hq/UsOverNightTradeCodes"
    ∷ codes "/hq/Subscribe"
    ∷ codes "/hq/Unsubscribe"
    ∷ codes "/trade/TradeLogin"
    ∷ codes "/trade/TradeLogout"
    ∷ codes "/trade/TradeQueryMarginFundInfo"
    ∷ codes "/trade/TradeQueryHoldsList"
    ∷ codes "/trade/TradeQueryRealFundJourList"
    ∷ codes "/trade/TradeQueryHistoryFundJourList"
    ∷ codes "/hs/rate/queryList"
    ∷ codes "/trade/TradeEntrust"
    ∷ codes "/trade/TradeCancelEntrust"
    ∷ codes "/trade/TradeBatchCancelEntrust"
    ∷ codes "/trade/TradeChangeEntrust"
    ∷ codes "/trade/TradeQueryMaxAvailableAsset"
    ∷ codes "/trade/TradeQueryRealEntrustList"
    ∷ codes "/trade/TradeQueryRealDeliverList"
    ∷ codes "/trade/TradeQueryRealCondOrderList"
    ∷ codes "/trade/TradeQueryHistoryEntrustList"
    ∷ codes "/trade/TradeQueryHistoryDeliverList"
    ∷ codes "/trade/TradeQueryHistoryCondOrderList"
    ∷ codes "/trade/TradeQueryMarginFullInfo"
    ∷ codes "/trade/TradeQueryBeforeAndAfterSupport"
    ∷ codes "/trade/TradeSubscribe"
    ∷ codes "/trade/TradeUnsubscribe"
    ∷ codes "/trade/AlgoAddOrder"
    ∷ codes "/trade/AlgoCancelOrder"
    ∷ codes "/trade/AlgoCancelEntrust"
    ∷ codes "/trade/AlgoChangeOrder"
    ∷ codes "/trade/AlgoActionOrder"
    ∷ codes "/trade/AlgoQueryOrderList"
    ∷ codes "/trade/AlgoQueryEntrustIdList"
    ∷ codes "/trade/FuturesQueryProductInfo"
    ∷ codes "/trade/FuturesQueryMaxBuySellAmount"
    ∷ codes "/trade/FuturesQueryFundInfo"
    ∷ codes "/trade/FuturesQueryHoldsList"
    ∷ codes "/trade/FuturesEntrust"
    ∷ codes "/trade/FuturesCancelEntrust"
    ∷ codes "/trade/FuturesModifyEntrust"
    ∷ codes "/trade/FuturesQueryRealEntrustList"
    ∷ codes "/trade/FuturesQueryHistoryEntrustList"
    ∷ codes "/trade/FuturesQueryRealDeliverList"
    ∷ codes "/trade/FuturesQueryHistoryDeliverList"
    ∷ []

abbrev pub alias_suffix_msg_type : Bytes
alias_suffix_msg_type = codes "RequestMsgType"

abbrev pub alias_suffix_request : Bytes
alias_suffix_request = codes "Request"

-- `Route.Validate`: true when it returns no error.
unfoldable pub validate : Bytes → Bool
validate r = contains r canonical_routes

-- One of the two `if` blocks: the stripped path, if something was stripped and the rest is an
-- endpoint, and what follows otherwise.
strip_alias : Bytes → Bytes → Bytes → Bytes
strip_alias p suffix otherwise =
    let stripped = trim_suffix p suffix in
    if not (bytes_eq stripped p) && contains stripped canonical_routes then stripped else otherwise

unfoldable pub normalize_path : Bytes → Bytes
unfolding strip_alias
normalize_path p =
    if contains p canonical_routes
    then p
    else strip_alias p alias_suffix_msg_type (strip_alias p alias_suffix_request p)
