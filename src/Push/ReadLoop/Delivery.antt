-- ===== src/Push/ReadLoop/Delivery.antt =====
-- What the read loop makes of frames as WriteFrame lays them out (internal/push/client.go and
-- frame.go).
use hstongapi4go.Common.{
  ℕ, zero, suc, ◌≡◌, refl, ◌∙◌, ◌≤◌, ◌<◌, Bool, Option, some, List, [], ◌∷◌, ◌++◌, arith, length,
  All,
}
use hstongapi4go.Common.Bytes.{Bytes}
use hstongapi4go.Push.Frame.{
  Header, IsHeader, Reader, closed, eof, max_body_len, encode_header, frame_header,
}
use hstongapi4go.Push.Frame.Stream.{as_body, read_frame_end}
use hstongapi4go.Push.Frame.WriteRead.{read_frame_frame}
use hstongapi4go.Push.Verify.{Verifier}
use hstongapi4go.Push.Decode.{Decoded}
use hstongapi4go.Push.ReadLoop.{Event, bytes_of, frame_events, read_loop}
use hstongapi4go.Push.ReadLoop.Safety.{loop_given, loop_failed}

-- A frame that WriteFrame accepts and ReadFrame does not refuse.
abbrev pub IsSendable : Header × Bytes → Type 0
IsSendable frame =
    IsHeader frame.0 × (frame.0.compress_algorithm ≡ 0) × (length frame.1 ≤ max_body_len)

-- The bytes of frames that are sent one after the other.
pub sent : List (Header × Bytes) → Bytes
sent [] = []
sent ((h, body) ∷ frames) = encode_header (frame_header h body) ++ (body ++ sent frames)

bytes_of-as_body : (body : Bytes) → bytes_of (as_body body) ≡ body
bytes_of-as_body [] = refl
bytes_of-as_body (x ∷ body) = refl

module _ {K N : Type 0} (good : K → Bytes → Bytes → Bool) (verifier : Option (Verifier K))
    (verify_required : Bool) (decode_notification : Bytes → Decoded N) where
  -- The events of each frame by itself, in the order of the frames.
  pub sent_events : List (Header × Bytes) → List (Event N)
  sent_events [] = []
  sent_events ((h, body) ∷ frames) =
      frame_events good verifier verify_required decode_notification (frame_header h body) body
      ++ sent_events frames

  -- The read loop over a connection on which frames were sent one after the other, and which was then
  -- closed, has the events of each frame in the order in which they were sent, none lost and none
  -- made up, and ends with the end of the stream. For headers that ask for no compression and bodies
  -- of at most 8 MiB; one unit of fuel for each frame and one for the end is enough.
  pub read_loop-sent :
      (frames : List (Header × Bytes)) (fuel : ℕ) (r : Reader)
      → All IsSendable frames
      → r.bytes ≡ sent frames
      → r.ending ≡ closed
      → length frames < fuel
      → read_loop good verifier verify_required decode_notification fuel r
        ≡ (sent_events frames, some eof)
  unfolding sent sent_events
  read_loop-sent frames zero r v b c n = absurd (omega arith)
  read_loop-sent [] (suc fuel) r v b c n =
      loop_failed good verifier verify_required decode_notification fuel r (read_frame_end r b c)
  read_loop-sent ((h, body) ∷ frames) (suc fuel) r v b c n =
      let r' : Reader = record r { bytes = sent frames } in
      let (valid, plain, small) = v.0 in
      loop_given good verifier verify_required decode_notification fuel r
        (read_frame_frame h body (sent frames) r valid plain small b)
      ∙ rw (bytes_of-as_body body, read_loop-sent frames fuel r' v.1 refl c (omega arith)) refl
