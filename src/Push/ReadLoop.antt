-- ===== src/Push/ReadLoop.antt =====
-- readLoop of internal/push/client.go: frames from one connection, their verification and their
-- notifications. An expired read deadline is a failure of the reader.
pub mod Safety
pub mod Delivery
use hstongapi4go.Common.{
  ℕ, zero, suc, String, Bool, true, false, not, ◌&&◌, Option, none, some, List, [], ◌∷◌, ◌++◌, ◌==◌,
  if◌then◌else◌, length,
}
use hstongapi4go.Common.Int.{ℤ, pos, negsuc}
use hstongapi4go.Common.Bytes.{Bytes}
use hstongapi4go.Push.Frame.{Header, Reader, FrameError, Result, read_frame}
use hstongapi4go.Push.Verify.{Verifier, VerifyError, verify_frame}
use hstongapi4go.Push.Decode.{Decoded, DecodeError}

-- What the loop reports on the error channel.
pub data Report : Type 0 where
  verification : VerifyError → Report
  decoding : DecodeError → Report

-- What the loop does with the frames that it reads, in order: it hands a notification to `dispatch`,
-- with the frame that carried it, or reports an error.
pub data Event (N : Type 0) : Type 0 where
  dispatched : Header → Bytes → N → Event N
  reported : Report → Event N

abbrev pub is_push : ℤ → Bool
is_push (pos n) = n == 3
is_push (negsuc n) = false

abbrev pub bytes_of : Option Bytes → Bytes
bytes_of none = []
bytes_of (some b) = b

module _ {K N : Type 0} (good : K → Bytes → Bytes → Bool) (verifier : Option (Verifier K))
    (verify_required : Bool) (decode_notification : Bytes → Decoded N) where
  decoded_event : Header → Bytes → Decoded N → List (Event N)
  decoded_event h body (Decoded.ok n) = dispatched h body n ∷ []
  decoded_event h body (Decoded.err e) = reported (decoding e) ∷ []

  -- A push frame after its verification.
  checked_event : Option VerifyError → Header → Bytes → List (Event N)
  unfolding decoded_event
  checked_event none h body = decoded_event h body (decode_notification body)
  checked_event (some e) h body =
      reported (verification e)
      ∷ (if verify_required then [] else decoded_event h body (decode_notification body))

  -- One frame: only a push has an effect.
  unfoldable pub frame_events : Header → Bytes → List (Event N)
  unfolding checked_event
  frame_events h body =
      if is_push h.msg_type then checked_event (verify_frame good verifier h body) h body else []

  -- The loop, on fuel: its events, and the error that ended it, unless the fuel ran out.
  unfoldable pub read_loop : ℕ → Reader → List (Event N) × Option FrameError
  read_loop zero r = ([], none)
  read_loop (suc fuel) r =
      let out = read_frame r in
      elim out.0 [
        | Result.err e ↦ ([], some e)
        | Result.ok frame ↦
            let rest = read_loop fuel out.1 in
            (frame_events frame.0 (bytes_of frame.1) ++ rest.0, rest.1)
      ]
