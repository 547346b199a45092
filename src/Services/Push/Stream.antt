-- ===== src/Services/Push/Stream.antt =====
-- The error stream of pkg/services/push.go: `report` and `recordUnrouted`. `gap1` and `gap2` are what
-- the reader of the stream takes between the selects.
pub mod Unrouted
use hstongapi4go.Common.{
  ℕ, ◌+◌, ◌%◌, Bool, true, false, not, ◌&&◌, List, [], ◌∷◌, ◌++◌, length, ltb, if◌then◌else◌,
}
use hstongapi4go.Common.Bytes.{Bytes}
use hstongapi4go.Common.Text.{contains}
use hstongapi4go.Domain.Symbol.{is_empty}
use hstongapi4go.Push.Queue.{try_send, try_drop, take_away}
use hstongapi4go.Services.Push.Delivery.{word}

abbrev pub default_push_buffer : ℕ
default_push_buffer = 64

abbrev pub unrouted_report_cap : ℕ
unrouted_report_cap = 64

-- The errors that the package makes itself, with what they name, and those of the transport.
pub data StreamError : Type 0 where
  reconnected : StreamError
  unrouted_update : Bytes → Bytes → StreamError
  trade_backlog : StreamError
  subscription_lost : Bytes → StreamError
  update_out_of_order : StreamError
  of_transport : Bytes → StreamError

pub record ErrorStream : Type 0 where
  pub errc : List StreamError
  pub errs_drop : ℕ
  pub closed : Bool
  pub unrouted : ℕ
  pub seen_ids : List Bytes

abbrev pub new_stream : ErrorStream
new_stream = record { errc = []; errs_drop = 0; closed = false; unrouted = 0; seen_ids = [] }

abbrev has_one : List StreamError → Bool
has_one [] = false
has_one (e ∷ es) = true

-- `report` of an error that is not nil.
unfoldable pub report_error : ℕ → ℕ → StreamError → ErrorStream → ErrorStream
report_error gap1 gap2 e s =
    let first = try_send default_push_buffer e s.errc in
    let seen = take_away gap1 first.1 in
    if s.closed then s else if first.0 then record s { errc = first.1 } else record s {
      errc = (try_send default_push_buffer e (take_away gap2 (try_drop seen))).1;
      errs_drop = if has_one seen then (s.errs_drop + 1) % word else s.errs_drop;
    }

-- What `recordUnrouted` notes under the lock.
unfoldable pub note_unrouted : Bytes → ErrorStream → ErrorStream
note_unrouted id s = record s {
  unrouted = (s.unrouted + 1) % word;
  seen_ids =
      if not (contains id s.seen_ids) && ltb (length s.seen_ids) unrouted_report_cap
      then s.seen_ids ++ (id ∷ [])
      else s.seen_ids;
}

-- `recordUnrouted`, and whether it reports the update.
unfoldable pub record_unrouted : ℕ → ℕ → Bytes → Bytes → ErrorStream → ErrorStream × Bool
record_unrouted gap1 gap2 id security_code s =
    let noted = note_unrouted id s in
    if contains id s.seen_ids
    then (noted, false)
    else (report_error gap1 gap2 (unrouted_update id security_code) noted, true)
