-- ===== src/Services/Wire.antt =====
-- The requests that pkg/services/trading.go sends.
use hstongapi4go.Common.{ℕ, String, List}
use hstongapi4go.Common.Int.{ℤ}
use hstongapi4go.Common.Bytes.{Bytes}

pub record EntrustWireRequest : Type 0 where
  pub exchange_type : String
  pub stock_code : Bytes
  pub entrust_amount : String
  pub entrust_price : String
  pub entrust_bs : String
  pub entrust_type : String
  pub client_type : ℤ
  pub session_type : String
  pub ice_berg_display_size : String
  pub valid_days : Bytes
  pub cond_value : String
  pub cond_track_type : String

pub record CancelEntrustWireRequest : Type 0 where
  pub entrust_id : Bytes
  pub exchange_type : String

pub record BatchCancelEntrustWireRequest : Type 0 where
  pub exchange_type : String
  pub entrust_ids : List Bytes

pub record ChangeEntrustWireRequest : Type 0 where
  pub exchange_type : String
  pub entrust_id : Bytes
  pub entrust_amount : String
  pub entrust_price : String

pub record CondOrderListWireRequest : Type 0 where
  pub exchange_type : String
  pub stock_code : String
  pub page_no : ℤ
  pub page_size : ℤ

pub record MaxAvailableAssetWireRequest : Type 0 where
  pub exchange_type : String
  pub stock_code : Bytes
  pub entrust_price : String
  pub entrust_type : String

pub record RealEntrustListWireRequest : Type 0 where
  pub exchange_type : String
  pub query_count : ℕ
  pub query_param_str : String
  pub entrust_ids : List Bytes

pub record RealDeliverListWireRequest : Type 0 where
  pub exchange_type : String
  pub query_count : ℕ
  pub query_param_str : String

-- Of both history queries, for entrusts and for deliveries.
pub record HistoryListWireRequest : Type 0 where
  pub exchange_type : String
  pub query_count : ℕ
  pub query_param_str : String
  pub start_date : Bytes
  pub end_date : Bytes

pub record HistoryCondOrderListWireRequest : Type 0 where
  pub exchange_type : String
  pub stock_code : String
  pub page_no : Bytes
  pub page_size : Bytes
  pub start_time : Bytes
  pub end_time : Bytes

pub record MarginFullInfoWireRequest : Type 0 where
  pub data_type : String
  pub stock_code : String

pub record BeforeAndAfterSupportWireRequest : Type 0 where
  pub stock_code : Bytes
  pub exchange_type : String

-- The bodies that the service sends.
pub data Body : Type 0 where
  entrust_body : EntrustWireRequest → Body
  cancel_body : CancelEntrustWireRequest → Body
  batch_cancel_body : BatchCancelEntrustWireRequest → Body
  change_body : ChangeEntrustWireRequest → Body
  cond_order_list_body : CondOrderListWireRequest → Body
  max_available_asset_body : MaxAvailableAssetWireRequest → Body
  real_entrust_list_body : RealEntrustListWireRequest → Body
  real_deliver_list_body : RealDeliverListWireRequest → Body
  history_list_body : HistoryListWireRequest → Body
  history_cond_order_list_body : HistoryCondOrderListWireRequest → Body
  margin_full_info_body : MarginFullInfoWireRequest → Body
  before_and_after_support_body : BeforeAndAfterSupportWireRequest → Body
  empty_body : Body
