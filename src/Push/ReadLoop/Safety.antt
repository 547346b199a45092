-- ===== src/Push/ReadLoop/Safety.antt =====
-- The read loop ends, and what it dispatches was verified (internal/push/client.go).
use hstongapi4go.Common.{
  ℕ, zero, suc, ◌≡◌, refl, ap, ◌∙◌, ◌<◌, Bool, true, Option, none, some, List, [], ◌∷◌, ◌++◌, arith,
  length, length-append, All, replicate, false, Bool-cases, inl, inr,
}
use hstongapi4go.Common.Bytes.{Bytes}
use hstongapi4go.Common.Text.{bytes_eq}
use hstongapi4go.Push.Frame.{Header, Reader, FrameError, Result, ok, err, read_frame}
use hstongapi4go.Push.Frame.Stream.{body_bytes, read_frame_sound}
use hstongapi4go.Push.Verify.{Verifier, VerifyError, verify_by, verify, verify_frame}
use hstongapi4go.Push.Decode.{Decoded}
use hstongapi4go.Push.ReadLoop.{
  Event, dispatched, reported, is_push, bytes_of, decoded_event, checked_event, frame_events,
  read_loop,
}

pub All-append {ℓ κ} :
    {A : Type ℓ} (P : A → Type κ) (xs ys : List A) → All P xs → All P ys → All P (xs ++ ys)
All-append P [] ys h k = k
All-append P (x ∷ xs) ys h k = (h.0, All-append P xs ys h.1 k)

-- What one read of a frame can give.
pub data Outcome (r : Reader) : Type 0 where
  failed : (e : FrameError) (r' : Reader) → read_frame r ≡ (err e, r') → Outcome r
  given :
      (h : Header) (body : Option Bytes) (r' : Reader)
      → read_frame r ≡ (ok (h, body), r')
      → Outcome r

pub outcome : (r : Reader) → Outcome r
outcome r = go (read_frame r) refl
  where
    go : (x : Result (Header × Option Bytes) × Reader) → read_frame r ≡ x → Outcome r
    go (err e, r') h = failed e r' h
    go (ok (g, body), r') h = given g body r' h

module _ {K N : Type 0} (good : K → Bytes → Bytes → Bool) (verifier : Option (Verifier K))
    (verify_required : Bool) (decode_notification : Bytes → Decoded N) where
  abbrev events : Header → Bytes → List (Event N)
  events = frame_events good verifier verify_required decode_notification

  abbrev loop : ℕ → Reader → List (Event N) × Option FrameError
  loop = read_loop good verifier verify_required decode_notification

  pub loop_failed :
      (fuel : ℕ) (r : Reader) {e : FrameError} {r' : Reader}
      → read_frame r ≡ (err e, r')
      → loop (suc fuel) r ≡ ([], some e)
  unfolding read_loop
  loop_failed fuel r h = rw (h, read_loop) refl

  pub loop_given :
      (fuel : ℕ) (r : Reader) {h : Header} {body : Option Bytes} {r' : Reader}
      → read_frame r ≡ (ok (h, body), r')
      → loop (suc fuel) r ≡ (events h (bytes_of body) ++ (loop fuel r').0, (loop fuel r').1)
  unfolding read_loop
  loop_given fuel r {h} {body} {r'} e =
      rw (e, read_loop)
        (ap
          (λ (x : Result (Header × Option Bytes) × Reader).
            (events h (bytes_of body) ++ (loop fuel x.1).0, (loop fuel x.1).1))
          e)

  -- The loop ends with an error of the stream, for every stream: fuel beyond its bytes is enough.
  pub read_loop_ends :
      (fuel : ℕ) (r : Reader)
      → length r.bytes < fuel
      → (e : FrameError) × ((loop fuel r).1 ≡ some e)
  read_loop_ends zero r n = absurd (omega arith)
  read_loop_ends (suc fuel) r n = ends (λ r' k. read_loop_ends fuel r' k) (outcome r)
    where
      shorter :
          (h : Header) (body : Option Bytes) (r' : Reader)
          → read_frame r ≡ (ok (h, body), r')
          → length r'.bytes < fuel
      shorter h body r' e =
          let (frame, (raw, n151, dec, split)) = read_frame_sound r e in
          omega (
            arith,
            ap (λ b. length b) split,
            length-append raw (body_bytes body ++ r'.bytes),
            length-append (body_bytes body) r'.bytes,
          )

      ends :
          ((r' : Reader) → length r'.bytes < fuel → (e : FrameError) × ((loop fuel r').1 ≡ some e))
          → Outcome r
          → (e : FrameError) × ((loop (suc fuel) r).1 ≡ some e)
      ends rec (failed e r' h) = (e, ap (λ x. x.1) (loop_failed fuel r h))
      ends rec (given h body r' e) =
          let (x, done) = rec r' (shorter h body r' e) in
          (x, ap (λ y. y.1) (loop_given fuel r e) ∙ done)

module _ {K : Type 0} (good : K → Bytes → Bytes → Bool) (v : Verifier K) where
  -- There is a key, the header carries a signature, and it is good for the body.
  abbrev pub IsSigned : Header → Bytes → Type 0
  IsSigned h body =
      (key : K) × (v.key ≡ some key)
      × (bytes_eq h.body_sha1 (replicate 128 0) ≡ false)
      × (good key body h.body_sha1 ≡ true)

  verify_by-IsSigned :
      (k : Option K) (sha1 body : Bytes)
      → verify_by good k sha1 body ≡ none
      → (key : K) × (k ≡ some key)
        × (bytes_eq sha1 (replicate 128 0) ≡ false)
        × (good key body sha1 ≡ true)
  unfolding verify_by
  verify_by-IsSigned none sha1 body e = absurd (cc)
  verify_by-IsSigned (some key) sha1 body e = (key, refl, ground arith, ground arith)

  verify_frame-IsSigned :
      (h : Header) (body : Bytes) → verify_frame good (some v) h body ≡ none → IsSigned h body
  unfolding verify_frame verify
  verify_frame-IsSigned h body e = verify_by-IsSigned v.key h.body_sha1 body e

-- A notification from a push frame that is signed, and what its body decodes to.
abbrev pub IsTrusted :
    {K N : Type 0}
    → (K → Bytes → Bytes → Bool)
    → Verifier K
    → (Bytes → Decoded N)
    → Event N
    → Type 0
IsTrusted good v decode_notification (dispatched h body n) =
    IsSigned good v h body × (is_push h.msg_type ≡ true) × (decode_notification body ≡ Decoded.ok n)
IsTrusted good v decode_notification (reported e) = Unit

module _ {K N : Type 0} (good : K → Bytes → Bytes → Bool) (v : Verifier K)
    (decode_notification : Bytes → Decoded N) where
  abbrev AllTrusted : List (Event N) → Type 0
  AllTrusted = All (IsTrusted good v decode_notification)

  decoded_event-IsTrusted :
      (h : Header) (body : Bytes) (d : Decoded N)
      → decode_notification body ≡ d
      → verify_frame good (some v) h body ≡ none
      → is_push h.msg_type ≡ true
      → AllTrusted (decoded_event good (some v) true decode_notification h body d)
  unfolding decoded_event
  decoded_event-IsTrusted h body (Decoded.ok n) d f p =
      ((verify_frame-IsSigned good v h body f, p, d), tt)
  decoded_event-IsTrusted h body (Decoded.err e) d f p = (tt, tt)

  checked_event-IsTrusted :
      (h : Header) (body : Bytes) (f : Option VerifyError)
      → verify_frame good (some v) h body ≡ f
      → is_push h.msg_type ≡ true
      → AllTrusted (checked_event good (some v) true decode_notification f h body)
  unfolding checked_event
  checked_event-IsTrusted h body none e p = decoded_event-IsTrusted h body _ refl e p
  checked_event-IsTrusted h body (some e) same p = (tt, tt)

  frame_events-IsTrusted :
      (h : Header) (body : Bytes)
      → AllTrusted (frame_events good (some v) true decode_notification h body)
  unfolding frame_events
  frame_events-IsTrusted h body = elim (Bool-cases (is_push h.msg_type)) [
    | inl e ↦ rw (e, frame_events) (checked_event-IsTrusted h body _ refl e)
    | inr e ↦ rw (e, frame_events) tt
  ]

  -- With a verifier and verification required, every notification that is dispatched came in a push
  -- frame whose header carries a signature, not 128 zeros, that is good for the verifier's key and
  -- the frame's body, and it is what that body decodes to.
  pub read_loop-IsTrusted :
      (fuel : ℕ) (r : Reader)
      → AllTrusted (read_loop good (some v) true decode_notification fuel r).0
  read_loop-IsTrusted zero r = unfold read_loop in tt
  read_loop-IsTrusted (suc fuel) r = trusted (λ r'. read_loop-IsTrusted fuel r') (outcome r)
    where
      trusted :
          ((r' : Reader) → AllTrusted (read_loop good (some v) true decode_notification fuel r').0)
          → Outcome r
          → AllTrusted (read_loop good (some v) true decode_notification (suc fuel) r).0
      trusted rec (failed e r' h) =
          rw (loop_failed good (some v) true decode_notification fuel r h) tt
      trusted rec (given h body r' e) =
          rw (loop_given good (some v) true decode_notification fuel r e) (
            All-append (IsTrusted good v decode_notification) _ _
              (frame_events-IsTrusted h (bytes_of body)) (rec r'))
