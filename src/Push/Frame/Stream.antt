-- ===== src/Push/Frame/Stream.antt =====
-- Frames on a stream: what ReadFrame accepts, and that it reads what WriteFrame wrote
-- (internal/push/frame.go).
use hstongapi4go.Common.{
  ℕ, ◌≡◌, refl, sym, ap, ◌∙◌, ◌≤◌, Bool, true, false, Option, none, some, [], ◌∷◌, ◌++◌, arith,
  length, take-append, get_or, drop-append, take-append-drop, length-take, length-append,
  Bool-cases, inl, inr, ◌==◌,
}
use hstongapi4go.Common.Int.{pos, pos_part}
use hstongapi4go.Common.Bytes.{Bytes}
use hstongapi4go.Push.Frame.{
  Header, Result, ok, err, FrameError, Reader, magic, max_body_len, header_size, decode_header,
  read_full, read_body, read_frame, Reading, end_error, eof, closed, header_fields, read_checked,
  pure, continue, refuse_if, lift, ◌>>=◌,
}

-- The bytes of a body; a nil body has none.
abbrev pub body_bytes : Option Bytes → Bytes
body_bytes none = []
body_bytes (some b) = b

-- The body that is handed over for some bytes.
abbrev pub as_body : Bytes → Option Bytes
as_body [] = none
as_body (x ∷ b) = some (x ∷ b)

read_full_ok :
    (n : ℕ) (r : Reader) {b : Bytes} {r' : Reader}
    → read_full n r ≡ (ok b, r')
    → (length b ≡ n) × (r.bytes ≡ b ++ r'.bytes)
unfolding read_full
read_full_ok n r h = ground (arith, length-take n r.bytes, take-append-drop n r.bytes)

pub read_full-append :
    (n : ℕ) (b rest : Bytes) (r : Reader)
    → length b ≡ n
    → r.bytes ≡ b ++ rest
    → read_full n r ≡ (ok b, record r { bytes = rest })
unfolding read_full
read_full-append n b rest r h e =
    ground (arith, length-append b rest, take-append n b rest h, drop-append n b rest h)

-- The parts of a successful chain.
>>=-eq-ok {ℓ κ} :
    {A : Type ℓ} {B : Type κ} (m : Reading A) (f : A → Reading B) (r : Reader) {b : B} {r' : Reader}
    → (m >>= f) r ≡ (ok b, r')
    → (a : A) × (r1 : Reader) × (m r ≡ (ok a, r1)) × (f a r1 ≡ (ok b, r'))
>>=-eq-ok {A} {B} m f r {b} {r'} h = go (m r) refl
  where
    go :
        (x : Result A × Reader)
        → m r ≡ x
        → (a : A) × (r1 : Reader) × (m r ≡ (ok a, r1)) × (f a r1 ≡ (ok b, r'))
    go (ok a, r1) e = (a, r1, e, ap (λ x. continue x.0 f x.1) (sym e) ∙ h)
    go (err c, r1) e = absurd (cc (ap (λ x. continue x.0 f x.1) (sym e) ∙ h))

refuse_if_ok :
    (b : Bool) (e : FrameError) (r : Reader) {r' : Reader}
    → refuse_if b e r ≡ (ok tt, r')
    → (b ≡ false) × (r' ≡ r)
refuse_if_ok true e r h = cc
refuse_if_ok false e r h = (refl, sym (ap (λ x. x.1) h))

-- What an accepted frame looks like, behind its header.
pub record IsFrame (h : Header) (body : Option Bytes) : Type 0 where
  pub sized : h.body_len ≡ pos (length (body_bytes body))
  pub bounded : length (body_bytes body) ≤ max_body_len
  pub plain : h.compress_algorithm ≡ 0
  pub flagged : h.header_flag ≡ magic

read_some :
    (h : Header) (r : Reader) {g : Header} {body : Option Bytes} {r' : Reader}
    → ◌>>=◌ {B = Header × Option Bytes} (read_full (pos_part h.body_len)) (λ b. pure (h, some b)) r
      ≡ (ok (g, body), r')
    → (g ≡ h)
      × (length (body_bytes body) ≡ pos_part h.body_len)
      × (r.bytes ≡ body_bytes body ++ r'.bytes)
read_some h r e =
    let (b, r1, got, rest) =
      >>=-eq-ok {B = Header × Option Bytes} (read_full (pos_part h.body_len))
        (λ b. pure (h, some b)) r e in
    let (n, bytes) = read_full_ok (pos_part h.body_len) r got in ground arith

read_body_ok :
    (h : Header) (r : Reader) {g : Header} {body : Option Bytes} {r' : Reader}
    → read_body h r ≡ (ok (g, body), r')
    → (g ≡ h)
      × (length (body_bytes body) ≡ pos_part h.body_len)
      × (r.bytes ≡ body_bytes body ++ r'.bytes)
unfolding read_body
read_body_ok h r e = elim (Bool-cases (pos_part h.body_len == 0)) [
  | inl z ↦ ground arith
  | inr z ↦ read_some h r (rw z at e)
]

header_fields_flag : (f g : ℕ) (b : Bytes) → (header_fields f g b).header_flag ≡ (f, g)
unfolding header_fields
header_fields_flag f g b = refl

decode_header_flag : (b : Bytes) {h : Header} → decode_header b ≡ ok h → h.header_flag ≡ magic
unfolding decode_header
decode_header_flag b e = ground (arith, header_fields_flag (get_or b 0 0) (get_or b 1 0) b)

read_checked_ok :
    (h : Header) (r : Reader) {g : Header} {body : Option Bytes} {r' : Reader}
    → read_checked h r ≡ (ok (g, body), r')
    → (g ≡ h)
      × (h.body_len ≡ pos (length (body_bytes body)))
      × (length (body_bytes body) ≤ max_body_len)
      × (h.compress_algorithm ≡ 0)
      × (r.bytes ≡ body_bytes body ++ r'.bytes)
unfolding read_checked
read_checked_ok h r {g} {body} {r'} e =
    ground (arith, read_body_ok h r {g = g} {body = body} {r' = r'})

-- Whatever ReadFrame accepts has the flag "HS", no compression, a body length that is not
-- negative, at most 8 MiB, and the size of the body handed over; and the reader has given exactly
-- the 151 bytes of the header and those of the body.
pub read_frame_sound :
    (r : Reader) {h : Header} {body : Option Bytes} {r' : Reader}
    → read_frame r ≡ (ok (h, body), r')
    → IsFrame h body
      × ((raw : Bytes) × (length raw ≡ header_size)
          × (decode_header raw ≡ ok h)
          × (r.bytes ≡ raw ++ (body_bytes body ++ r'.bytes)))
unfolding read_frame
read_frame_sound r {h} {body} {r'} e =
    let (raw, r1, got, e1) = >>=-eq-ok (read_full header_size) _ r e in
    let (h', r2, dec, e2) = >>=-eq-ok (lift (decode_header raw)) read_checked r1 e1 in
    let (n, bytes) = read_full_ok header_size r got in
    let (same, sized, bounded, plain, rest) = read_checked_ok h' r2 e2 in
    let dec' : decode_header raw ≡ ok h = cc in
    let split : r.bytes ≡ raw ++ (body_bytes body ++ r'.bytes) = cc in
    let len : h.body_len ≡ pos (length (body_bytes body)) = cc in
    let alg : h.compress_algorithm ≡ 0 = cc in
    (
      record { sized = len; bounded = bounded; plain = alg; flagged = decode_header_flag raw dec' },
      (raw, n, dec', split),
    )

-- A stream that was closed between two frames ends with `eof`.
pub read_frame_end : (r : Reader) → r.bytes ≡ [] → r.ending ≡ closed → read_frame r ≡ (err eof, r)
unfolding read_frame read_full end_error
read_frame_end r b c = ground (arith, b, c)
