-- ===== src/Push/Frame/WriteRead.antt =====
-- What WriteFrame sends and that ReadFrame reads it back (internal/push/frame.go).
use mathlib.Core.List.{append_assoc, append-nil}
use hstongapi4go.Common.{
  ◌≡◌, refl, ap, ◌∙◌, ◌≤◌, ◌<◌, false, none, some, [], ◌∷◌, ◌++◌, arith, length,
}
use hstongapi4go.Common.Int.{pos}
use hstongapi4go.Common.Bytes.{Bytes}
use hstongapi4go.Push.Frame.{
  Header, IsHeader, ok, Reader, Written, max_body_len, body_too_large, encode_header, decode_header,
  read_body, read_checked, read_frame, frame_header, write_full, then_body, write_frame, continue,
  lift, ◌>>=◌,
}
use hstongapi4go.Push.Frame.Layout.{length-encode_header}
use hstongapi4go.Push.Frame.RoundTrip.{decode_header-encode_header}
use hstongapi4go.Push.Frame.Stream.{as_body, read_full-append}

-- A writer that takes all it is given, with what it has taken so far.
pub record IsComplete {W : Type 0} (write : W → Bytes → Written W) (content : W → Bytes)
    : Type 0 where
  pub takes : (w : W) (b : Bytes) → content (write w b).next ≡ content w ++ b
  pub counts : (w : W) (b : Bytes) → (write w b).count ≡ length b
  pub succeeds : (w : W) (b : Bytes) → (write w b).failed ≡ false

frame_header-IsHeader :
    (h : Header) (body : Bytes)
    → IsHeader h
    → length body ≤ max_body_len
    → IsHeader (frame_header h body)
unfolding frame_header
frame_header-IsHeader h body v n = record {
  msg_type_int16 = v.msg_type_int16;
  serial_no_int32 = v.serial_no_int32;
  body_len_int32 = omega arith;
  sha1_length = v.sha1_length;
  reserved_int64 = v.reserved_int64;
}

-- A header whose checks pass is followed by its body.
read_checked_frame :
    (g : Header) (body rest : Bytes) (r : Reader)
    → g.body_len ≡ pos (length body)
    → g.compress_algorithm ≡ 0
    → length body ≤ max_body_len
    → r.bytes ≡ body ++ rest
    → read_checked g r ≡ (ok (g, as_body body), record r { bytes = rest })
unfolding read_checked read_body
read_checked_frame g [] rest r b c n e = ground arith
read_checked_frame g (x ∷ body) rest r b c n e =
    ground (arith, read_full-append (length (x ∷ body)) (x ∷ body) rest r refl e)

-- ReadFrame on a stream that begins with a frame as WriteFrame lays it out returns that frame's
-- header, with the flag and the body length that WriteFrame sets, and its body, nil when it is
-- empty, and leaves the rest of the stream; for a body of at most 8 MiB and a header that asks for
-- no compression.
pub read_frame_frame :
    (h : Header) (body rest : Bytes) (r : Reader)
    → IsHeader h
    → h.compress_algorithm ≡ 0
    → length body ≤ max_body_len
    → r.bytes ≡ encode_header (frame_header h body) ++ (body ++ rest)
    → read_frame r ≡ (ok (frame_header h body, as_body body), record r { bytes = rest })
unfolding read_frame frame_header
read_frame_frame h body rest r v c n e =
    let g = frame_header h body in
    let gv = frame_header-IsHeader h body v n in
    let r1 : Reader = record r { bytes = body ++ rest } in
    let decoded : decode_header (encode_header g) ≡ ok g =
      rw append-nil at (decode_header-encode_header g [] gv refl) in
    ap (λ x. continue x.0 (λ raw. lift (decode_header raw) >>= read_checked) x.1)
      (read_full-append 151 (encode_header g) (body ++ rest) r (length-encode_header g gv) e)
    ∙ (ap (λ x. continue x read_checked r1) decoded
        ∙ read_checked_frame g body rest r1 refl c n refl)

module _ {W : Type 0} (write : W → Bytes → Written W) (content : W → Bytes)
    (complete : IsComplete write content) where
  write_full_ok :
      (w : W) (b : Bytes)
      → ((write_full write w b).0 ≡ none) × (content (write_full write w b).1 ≡ content w ++ b)
  unfolding write_full
  write_full_ok w b = ground (arith, complete.takes w b, complete.counts w b, complete.succeeds w b)

  -- Over a writer that takes all it is given, WriteFrame reports no error and sends the encoded
  -- header and the body, for a body of at most 8 MiB.
  pub write_frame_ok :
      (w : W) (h : Header) (body : Bytes)
      → length body ≤ max_body_len
      → ((write_frame write w h body).0 ≡ none)
        × (content (write_frame write w h body).1
            ≡ content w ++ (encode_header (frame_header h body) ++ body))
  unfolding write_frame then_body
  write_frame_ok w h [] n = ground (
    arith,
    write_full_ok w (encode_header (frame_header h [])),
    append-nil (encode_header (frame_header h [])),
  )
  write_frame_ok w h (x ∷ body) n =
      let head = encode_header (frame_header h (x ∷ body)) in
      ground (
        arith,
        write_full_ok w head,
        write_full_ok (write_full write w head).1 (x ∷ body),
        append_assoc (content w) head (x ∷ body),
      )

-- A body of more than 8 MiB is refused before anything is sent, over any writer.
pub write_frame_too_large :
    {W : Type 0} (write : W → Bytes → Written W) (w : W) (h : Header) (body : Bytes)
    → max_body_len < length body
    → write_frame write w h body ≡ (some body_too_large, w)
unfolding write_frame
write_frame_too_large write w h body n = ground arith

-- What WriteFrame sends over a writer that takes all it is given and has nothing yet, ReadFrame
-- reads back: the header with the flag and the length set, the same body (nil when it is empty),
-- and it leaves on the stream exactly the bytes that follow. For a header whose fields are in the
-- range of their types and that asks for no compression, and a body of at most 8 MiB.
pub read_frame-write_frame :
    {W : Type 0} (write : W → Bytes → Written W) (content : W → Bytes)
    → IsComplete write content
    → (w : W) (h : Header) (body rest : Bytes) (r : Reader) → IsHeader h
    → h.compress_algorithm ≡ 0
    → length body ≤ max_body_len
    → content w ≡ []
    → r.bytes ≡ content (write_frame write w h body).1 ++ rest
    → read_frame r ≡ (ok (frame_header h body, as_body body), record r { bytes = rest })
read_frame-write_frame write content complete w h body rest r v c n fresh e =
    let sent = (write_frame_ok write content complete w h body n).1 in
    read_frame_frame h body rest r v c n (
      e
      ∙ (ap (λ t. t ++ rest) (sent ∙ rw fresh)
          ∙ append_assoc (encode_header (frame_header h body)) body rest))
