-- ===== src/Examples/Stream.antt =====
-- Frames and the read loop at concrete inputs (internal/push).
use hstongapi4go.Common.{
  ℕ, ◌≡◌, refl, Bool, true, false, Option, some, List, [], ◌∷◌, ◌++◌, arith, length, All, replicate,
}
use hstongapi4go.Common.Int.{pos}
use hstongapi4go.Common.Bytes.{Bytes}
use hstongapi4go.Push.Frame.{
  Header, IsHeader, Reader, closed, eof, Written, magic, header_size, ok, encode_header,
  decode_header, frame_header, read_frame, write_frame,
}
use hstongapi4go.Push.Frame.Stream.{IsFrame, as_body, read_frame_sound}
use hstongapi4go.Push.Frame.WriteRead.{IsComplete, read_frame_frame, read_frame-write_frame}
use hstongapi4go.Push.Verify.{Verifier}
use hstongapi4go.Push.Decode.{Decoded}
use hstongapi4go.Push.ReadLoop.{read_loop}
use hstongapi4go.Push.ReadLoop.Safety.{IsTrusted, read_loop-IsTrusted}
use hstongapi4go.Push.ReadLoop.Delivery.{sent, sent_events, read_loop-sent}

-- A push frame's header, unsigned.
abbrev head : Header
head = record {
  header_flag = magic;
  msg_type = pos 3;
  proto_fmt_type = 0;
  proto_ver = 1;
  serial_no = pos 7;
  body_len = pos 0;
  body_sha1 = replicate 128 0;
  compress_algorithm = 0;
  reserved = pos 0;
}

head-IsHeader : IsHeader head
head-IsHeader = record {
  msg_type_int16 = omega arith;
  serial_no_int32 = omega arith;
  body_len_int32 = omega arith;
  sha1_length = refl;
  reserved_int64 = omega arith;
}

abbrev body : Bytes
body = 8 ∷ 1 ∷ []

-- A writer that keeps all it is given.
abbrev keep : Bytes → Bytes → Written Bytes
keep w b = record { next = w ++ b; count = length b; failed = false }

keep-IsComplete : IsComplete keep (λ w. w)
keep-IsComplete = record { takes = λ w b. refl; counts = λ w b. refl; succeeds = λ w b. refl }

abbrev written : Reader
written = record { bytes = (write_frame keep [] head body).1 ++ (9 ∷ []); ending = closed }

read_frame-write_frame_example :
    read_frame written
    ≡ (ok (frame_header head body, as_body body), record written { bytes = 9 ∷ [] })
read_frame-write_frame_example =
    read_frame-write_frame keep (λ w. w) keep-IsComplete [] head body (9 ∷ []) written head-IsHeader
      refl (omega arith) refl refl

abbrev laid : Reader
laid = record { bytes = encode_header (frame_header head body) ++ (body ++ []); ending = closed }

laid_read :
    read_frame laid ≡ (ok (frame_header head body, as_body body), record laid { bytes = [] })
laid_read = read_frame_frame head body [] laid head-IsHeader refl (omega arith) refl

read_frame_sound_example :
    IsFrame (frame_header head body) (some body)
    × ((raw : Bytes) × (length raw ≡ header_size)
        × (decode_header raw ≡ ok (frame_header head body))
        × (laid.bytes ≡ raw ++ (body ++ [])))
read_frame_sound_example = read_frame_sound laid laid_read

-- A verifier with a key that finds every signature good, and a decoder that keeps the body.
abbrev verifier : Option (Verifier ℕ)
verifier = some (record { key = some 1; required = true })

abbrev good : ℕ → Bytes → Bytes → Bool
good key b sig = true

abbrev decode_raw : Bytes → Decoded Bytes
decode_raw b = Decoded.ok b

abbrev frames : List (Header × Bytes)
frames = (head, body) ∷ (head, 8 ∷ 2 ∷ []) ∷ []

abbrev stream : Reader
stream = record { bytes = sent frames; ending = closed }

read_loop-sent_example :
    read_loop good verifier true decode_raw 3 stream
    ≡ (sent_events good verifier true decode_raw frames, some eof)
read_loop-sent_example =
    read_loop-sent good verifier true decode_raw frames 3 stream
      ((head-IsHeader, refl, omega arith), ((head-IsHeader, refl, omega arith), tt)) refl refl
      (omega arith)

-- Two frames, the second of them signed.
abbrev signed : Header
signed = record head { body_sha1 = replicate 128 1 }

abbrev signed_stream : Reader
signed_stream = record { bytes = sent ((head, body) ∷ (signed, body) ∷ []); ending = closed }

read_loop-IsTrusted_example :
    All
      (IsTrusted good (record { key = some 1; required = true }) decode_raw)
      (read_loop good verifier true decode_raw 3 signed_stream).0
read_loop-IsTrusted_example =
    read_loop-IsTrusted good (record { key = some 1; required = true }) decode_raw 3 signed_stream
