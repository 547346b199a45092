-- ===== src/Push/Decode.antt =====
-- The notification in a push frame: decodeNotification and Decode of internal/push/client.go. The
-- protobuf decoder is a parameter.
use hstongapi4go.Common.{ℕ, String, ◌||◌, Option, none, some, ◌==◌, if◌then◌else◌}
use hstongapi4go.Common.Int.{ℤ, pos, negsuc}
use hstongapi4go.Common.Bytes.{Bytes}

-- The generated message that a notification type selects.
pub data Kind : Type 0 where
  trade_stock_deliver order_book_full broker basic_qot ticker : Kind

-- PBNotify, as the decoder gives it.
pub record PbNotify : Type 0 where
  pub notify_msg_type : ℤ
  pub notify_id : String
  pub notify_time : ℕ
  pub payload : Option Bytes

pub record Notification (M : Type 0) : Type 0 where
  pub type : ℤ
  pub id : String
  pub time : ℕ
  pub payload : Option M

pub data DecodeError : Type 0 where
  bad_notify unknown_type bad_payload : DecodeError

pub data Decoded (A : Type 0) : Type 0 where
  ok : A → Decoded A
  err : DecodeError → Decoded A

kind_of_number : ℕ → Option Kind
kind_of_number n =
    if n == 0 || (n == 1 || n == 2)
    then some trade_stock_deliver
    else if n == 20001
    then some order_book_full
    else if n == 20002
    then some broker
    else if n == 20003
    then some basic_qot
    else if n == 20004
    then some ticker
    else none

-- The `switch` of `Decode`.
unfoldable pub kind_of : ℤ → Option Kind
unfolding kind_of_number
kind_of (pos n) = kind_of_number n
kind_of (negsuc n) = none

module _ {M : Type 0} (unmarshal_notify : Bytes → Option PbNotify)
    (unmarshal : Kind → Bytes → Option M) where
  decode_kind : Option Kind → Bytes → Decoded M
  decode_kind none payload = err unknown_type
  decode_kind (some k) payload = elim (unmarshal k payload) [
    | none ↦ err bad_payload
    | some m ↦ ok m
  ]

  unfoldable pub decode : ℤ → Bytes → Decoded M
  unfolding decode_kind
  decode t payload = decode_kind (kind_of t) payload

  abbrev notification : PbNotify → Option M → Notification M
  notification pb m = record {
    type = pb.notify_msg_type;
    id = pb.notify_id;
    time = pb.notify_time;
    payload = m;
  }

  decode_payload : PbNotify → Option Bytes → Decoded (Notification M)
  decode_payload pb none = ok (notification pb none)
  decode_payload pb (some p) = elim (decode pb.notify_msg_type p) [
    | err e ↦ err e
    | ok m ↦ ok (notification pb (some m))
  ]

  unfoldable pub decode_notification : Bytes → Decoded (Notification M)
  unfolding decode_payload
  decode_notification body = elim (unmarshal_notify body) [
    | none ↦ err bad_notify
    | some pb ↦ decode_payload pb pb.payload
  ]
