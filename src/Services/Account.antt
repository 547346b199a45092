-- ===== src/Services/Account.antt =====
-- The account queries of pkg/services/account.go: what each sends, and the walk over the pages of a fund
-- journal. `decoded` is what the codec leaves of a reply: its rows, each with the cursor behind it.
pub mod Walk
use hstongapi4go.Common.{
  ℕ, zero, suc, String, Bool, true, false, not, ◌||◌, Option, none, some, List, [], ◌∷◌, ◌++◌, map,
  ltb, if◌then◌else◌,
}
use hstongapi4go.Common.Int.{ℤ, pos, negsuc}
use hstongapi4go.Common.Bytes.{Bytes}
use hstongapi4go.Common.Text.{codes, bytes_eq}
use hstongapi4go.Errs.{GoError, nil_error, new_error}
use hstongapi4go.Resilience.Retry.{is_nil}
use hstongapi4go.Client.Calls.{Executor}
use hstongapi4go.Domain.Symbol.{is_empty}
use hstongapi4go.Services.Validation.{status_invalid_param}

abbrev pub default_page_size : ℕ
default_page_size = 50

abbrev pub max_page_size : ℕ
max_page_size = 99

abbrev pub max_pages : ℕ
max_pages = 1000

-- `clampPageSize`.
unfoldable pub clamp_page_size : ℤ → ℕ
clamp_page_size (negsuc n) = default_page_size
clamp_page_size (pos zero) = default_page_size
clamp_page_size (pos (suc n)) = if ltb max_page_size (suc n) then max_page_size else suc n

-- What one fetch returns.
pub record Page (E : Type 0) : Type 0 where
  pub entries : List E
  pub next : Bytes
  pub error : GoError

-- What the walk returns.
pub record Walked (E W : Type 0) : Type 0 where
  pub all : List E
  pub error : GoError
  pub world : W

abbrev has_none : {E : Type 0} → List E → Bool
has_none [] = true
has_none (e ∷ es) = false

module _ {E : Type 0} where
  -- The walk ends after this page.
  unfoldable pub is_last : Bytes → Page E → Bool
  is_last cursor p = has_none p.entries || (is_empty p.next || bytes_eq p.next cursor)

module _ {E W : Type 0} (ctx_err : W → GoError) (fetch : ℕ → Bytes → W → Option (Page E × W)) where
  -- What the walk does with a fetched page, when `go` is the rest of the walk.
  abbrev pub after_page :
      (Bytes → List E → W → Option (Walked E W))
      → Bytes
      → List E
      → Option (Page E × W)
      → Option (Walked E W)
  after_page go cursor all none = none
  after_page go cursor all (some (p, w)) =
      if not (is_nil p.error)
      then some (record { all = all; error = p.error; world = w })
      else if is_last cursor p
      then some (record { all = all ++ p.entries; error = nil_error; world = w })
      else go p.next (all ++ p.entries) w

  -- The loop of `walkFundJourPages`, over the pages that it may still fetch.
  unfoldable pub walk_pages : ℕ → ℕ → Bytes → List E → W → Option (Walked E W)
  walk_pages zero size cursor all w = some (record { all = all; error = nil_error; world = w })
  walk_pages (suc n) size cursor all w =
      if is_nil (ctx_err w)
      then after_page (walk_pages n size) cursor all (fetch size cursor w)
      else some (record { all = all; error = ctx_err w; world = w })

  unfoldable pub walk_fund_jour_pages : ℤ → Bytes → W → Option (Walked E W)
  walk_fund_jour_pages page_size cursor w =
      walk_pages max_pages (clamp_page_size page_size) cursor [] w

pub record FundJourFilter : Type 0 where
  pub exchange_type : String
  pub start_date : Bytes
  pub end_date : Bytes

pub record RealFundJourListWireRequest : Type 0 where
  pub exchange_type : String
  pub query_count : ℕ
  pub query_param_str : Bytes

pub record HistoryFundJourListWireRequest : Type 0 where
  pub exchange_type : String
  pub query_count : ℕ
  pub query_param_str : Bytes
  pub start_date : Bytes
  pub end_date : Bytes

-- The bodies that the service sends; both lists of balances and holdings name an exchange alone.
pub data AccountBody : Type 0 where
  exchange_body : String → AccountBody
  real_fund_jour_body : RealFundJourListWireRequest → AccountBody
  history_fund_jour_body : HistoryFundJourListWireRequest → AccountBody
  rate_query_body : AccountBody

-- The cursor of the last row.
unfoldable pub last_cursor : {E : Type 0} → List (E × Bytes) → Bytes
last_cursor [] = []
last_cursor (r ∷ []) = r.1
last_cursor (r ∷ s ∷ rows) = last_cursor (s ∷ rows)

abbrev no_account : String → GoError
no_account op = new_error status_invalid_param op "accountID must not be empty"

module _ {E W : Type 0} (executor : Executor AccountBody W) (decoded : W → List (E × Bytes)) where
  abbrev page_of : Option (GoError × W) → Option (Page E × W)
  page_of none = none
  page_of (some (e, w)) =
      if is_nil e
      then some (
        record { entries = map (λ r. r.0) (decoded w); next = last_cursor (decoded w); error = e },
        w,
      )
      else some (record { entries = []; next = []; error = e }, w)

  -- The closures that the two journals walk with.
  unfoldable pub fetch_real : FundJourFilter → ℕ → Bytes → W → Option (Page E × W)
  fetch_real f size cursor w = page_of (
      executor.do_ "trade/TradeQueryRealFundJourList" (codes "/trade/TradeQueryRealFundJourList")
        (real_fund_jour_body (record {
          exchange_type = f.exchange_type;
          query_count = size;
          query_param_str = cursor;
        }))
        w)

  unfoldable pub fetch_history : FundJourFilter → ℕ → Bytes → W → Option (Page E × W)
  fetch_history f size cursor w = page_of (
      executor.do_ "trade/TradeQueryHistoryFundJourList"
        (codes "/trade/TradeQueryHistoryFundJourList")
        (history_fund_jour_body (record {
          exchange_type = f.exchange_type;
          query_count = size;
          query_param_str = cursor;
          start_date = f.start_date;
          end_date = f.end_date;
        }))
        w)

  module _ (ctx_err : W → GoError) where
    unfoldable pub real_fund_jour_list :
        Bytes → FundJourFilter → ℤ → Bytes → W → Option (Walked E W)
    real_fund_jour_list account f page_size cursor w =
        if is_empty account
        then some
            (record { all = []; error = no_account "trade/TradeQueryRealFundJourList"; world = w })
        else walk_fund_jour_pages ctx_err (fetch_real f) page_size cursor w

    unfoldable pub history_fund_jour_list :
        Bytes → FundJourFilter → ℤ → Bytes → W → Option (Walked E W)
    history_fund_jour_list account f page_size cursor w =
        if is_empty account
        then some (record {
          all = [];
          error = no_account "trade/TradeQueryHistoryFundJourList";
          world = w;
        })
        else walk_fund_jour_pages ctx_err (fetch_history f) page_size cursor w

module _ {W : Type 0} (executor : Executor AccountBody W) where
  -- The other queries, up to the decoding of the reply.
  unfoldable pub margin_fund_info : Bytes → String → W → Option (GoError × W)
  margin_fund_info account exchange w =
      if is_empty account
      then some (no_account "trade/TradeQueryMarginFundInfo", w)
      else executor.do_ "trade/TradeQueryMarginFundInfo" (codes "/trade/TradeQueryMarginFundInfo")
          (exchange_body exchange) w

  unfoldable pub holds_list : Bytes → String → W → Option (GoError × W)
  holds_list account exchange w =
      if is_empty account
      then some (no_account "trade/TradeQueryHoldsList", w)
      else executor.do_ "trade/TradeQueryHoldsList" (codes "/trade/TradeQueryHoldsList")
          (exchange_body exchange) w

  unfoldable pub rate_query_list : W → Option (GoError × W)
  rate_query_list w =
      executor.do_ "hs/rate/queryList" (codes "/hs/rate/queryList") rate_query_body w
