-- ===== src/Services/Push/Topics.antt =====
-- The topics of pkg/services/push.go and pkg/types/enums.go, and the payload that each delivers.
use hstongapi4go.Common.{
  ℕ, Bool, false, ◌||◌, Option, none, some, List, [], ◌∷◌, ◌==◌, if◌then◌else◌,
}
use hstongapi4go.Common.Int.{ℤ}
use hstongapi4go.Domain.Symbol.{is_type}

abbrev pub trs_stock_deliver : ℕ
trs_stock_deliver = 0

abbrev pub trade_stock_deliver : ℕ
trade_stock_deliver = 1

abbrev pub futures_trade_stock_deliver : ℕ
futures_trade_stock_deliver = 2

abbrev pub order_book_notify : ℕ
order_book_notify = 20001

abbrev pub broker_queue_notify : ℕ
broker_queue_notify = 20002

abbrev pub basic_qot_notify : ℕ
basic_qot_notify = 20003

abbrev pub ticker_notify : ℕ
ticker_notify = 20004

abbrev pub one_of_topics : ℤ → List ℕ → Bool
one_of_topics t [] = false
one_of_topics t (k ∷ ks) = is_type k t || one_of_topics t ks

unfoldable pub notify_type_for_topic : ℤ → Option ℕ
notify_type_for_topic t =
    if one_of_topics t (11 ∷ 35 ∷ [])
    then some basic_qot_notify
    else if one_of_topics t (14 ∷ 27 ∷ 28 ∷ 37 ∷ [])
    then some ticker_notify
    else if one_of_topics t (16 ∷ [])
    then some broker_queue_notify
    else if one_of_topics t (17 ∷ 25 ∷ 26 ∷ 36 ∷ [])
    then some order_book_notify
    else none

unfoldable pub is_trade_notify_type : ℕ → Bool
is_trade_notify_type t =
    t == trs_stock_deliver || t == trade_stock_deliver || t == futures_trade_stock_deliver
