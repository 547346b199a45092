-- ===== src/Push/Frame.antt =====
-- internal/push/frame.go: the 151-byte header of a push frame, and frames read from and written to
-- a stream. Signed fields are integers, and their range stands in `IsHeader`.
pub mod Layout
pub mod RoundTrip
pub mod Stream
pub mod WriteRead
use hstongapi4go.Common.{
  ℕ, suc, ◌≡◌, Bool, true, false, ◌&&◌, Option, none, some, [], ◌∷◌, length, take, drop, replicate,
  get_or, ltb, leb, ◌==◌, if◌then◌else◌, not,
}
use hstongapi4go.Common.Int.{ℤ, pos, is_negative, pos_part, to_unsigned, to_signed, InWord}
use hstongapi4go.Common.Bytes.{Bytes, put_le, get_le, copy_at, slice}

abbrev pub header_size : ℕ
header_size = 151

-- The bytes of "HS".
abbrev pub magic : ℕ × ℕ
magic = (b'H', b'S')

abbrev pub body_sha1_len : ℕ
body_sha1_len = 128

-- 8 << 20
abbrev pub max_body_len : ℕ
max_body_len = 8388608

abbrev pub off_header_flag : ℕ
off_header_flag = 0

abbrev pub off_msg_type : ℕ
off_msg_type = 2

abbrev pub off_proto_fmt_type : ℕ
off_proto_fmt_type = 4

abbrev pub off_proto_ver : ℕ
off_proto_ver = 5

abbrev pub off_serial_no : ℕ
off_serial_no = 6

abbrev pub off_body_len : ℕ
off_body_len = 10

abbrev pub off_body_sha1 : ℕ
off_body_sha1 = 14

abbrev pub off_compress_algo : ℕ
off_compress_algo = 142

abbrev pub off_reserved : ℕ
off_reserved = 143

-- The sentinel errors, and those of the stream: the end of the input, an input that ends inside
-- what is read, the reader's own failure, a writer that took too little, and the writer's own
-- failure.
pub data FrameError : Type 0 where
  short_header bad_magic invalid_body_len body_too_large unsupported_compression : FrameError
  eof unexpected_eof read_failed short_write write_failed : FrameError

pub record Header : Type 0 where
  pub header_flag : ℕ × ℕ
  pub msg_type : ℤ
  pub proto_fmt_type : ℕ
  pub proto_ver : ℕ
  pub serial_no : ℤ
  pub body_len : ℤ
  pub body_sha1 : Bytes
  pub compress_algorithm : ℕ
  pub reserved : ℤ

-- What the Go types of the fields say.
pub record IsHeader (h : Header) : Type 0 where
  pub msg_type_int16 : InWord 32768 h.msg_type
  pub serial_no_int32 : InWord 2147483648 h.serial_no
  pub body_len_int32 : InWord 2147483648 h.body_len
  pub sha1_length : length h.body_sha1 ≡ body_sha1_len
  pub reserved_int64 : InWord 9223372036854775808 h.reserved

pub data Result {ℓ} (A : Type ℓ) : Type ℓ where
  ok : A → Result A
  err : FrameError → Result A

pub encode_header : Header → Bytes
unfolding copy_at put_le to_unsigned
encode_header h =
    let b0 : Bytes = replicate header_size 0 in
    let b1 = copy_at off_header_flag (h.header_flag.0 ∷ h.header_flag.1 ∷ []) b0 in
    let b2 = copy_at off_msg_type (put_le 2 (to_unsigned 65536 h.msg_type)) b1 in
    let b3 = copy_at off_proto_fmt_type (h.proto_fmt_type ∷ []) b2 in
    let b4 = copy_at off_proto_ver (h.proto_ver ∷ []) b3 in
    let b5 = copy_at off_serial_no (put_le 4 (to_unsigned 4294967296 h.serial_no)) b4 in
    let b6 = copy_at off_body_len (put_le 4 (to_unsigned 4294967296 h.body_len)) b5 in
    let b7 = copy_at off_body_sha1 h.body_sha1 b6 in
    let b8 = copy_at off_compress_algo (h.compress_algorithm ∷ []) b7 in
    copy_at off_reserved (put_le 8 (to_unsigned 18446744073709551616 h.reserved)) b8

-- The fields behind the flag.
pub header_fields : ℕ → ℕ → Bytes → Header
unfolding slice get_le to_signed
header_fields flag0 flag1 b = record {
  header_flag = (flag0, flag1);
  msg_type = to_signed 32768 (get_le (slice off_msg_type 2 b));
  proto_fmt_type = get_or b off_proto_fmt_type 0;
  proto_ver = get_or b off_proto_ver 0;
  serial_no = to_signed 2147483648 (get_le (slice off_serial_no 4 b));
  body_len = to_signed 2147483648 (get_le (slice off_body_len 4 b));
  body_sha1 = slice off_body_sha1 body_sha1_len b;
  compress_algorithm = get_or b off_compress_algo 0;
  reserved = to_signed 9223372036854775808 (get_le (slice off_reserved 8 b));
}

pub decode_header : Bytes → Result Header
decode_header b =
    let flag0 = get_or b off_header_flag 0 in
    let flag1 = get_or b (suc off_header_flag) 0 in
    if ltb (length b) header_size
    then err short_header
    else if not (flag0 == magic.0 && flag1 == magic.1)
    then err bad_magic
    else ok (header_fields flag0 flag1 b)

-- An `io.Reader`: the bytes that it will give, and how it ends after them.
pub data Ending : Type 0 where
  closed broken : Ending

pub record Reader : Type 0 where
  pub bytes : Bytes
  pub ending : Ending

abbrev pub Reading {ℓ} : Type ℓ → Type ℓ
Reading A = Reader → Result A × Reader

abbrev pub continue {ℓ κ} :
    {A : Type ℓ} {B : Type κ} → Result A → (A → Reading B) → Reader → Result B × Reader
continue (ok a) f r = f a r
continue (err e) f r = (err e, r)

infixl 10 ◌>>=◌ ◌>>◌
abbrev pub ◌>>=◌ {ℓ κ} : {A : Type ℓ} {B : Type κ} → Reading A → (A → Reading B) → Reading B
◌>>=◌ m f r = let (a, r') = m r in continue a f r'

abbrev pub ◌>>◌ {ℓ} : {B : Type ℓ} → Reading (Unit {0}) → Reading B → Reading B
m >> n = m >>= λ _. n

abbrev pub lift {ℓ} : {A : Type ℓ} → Result A → Reading A
lift a r = (a, r)

abbrev pub pure {ℓ} : {A : Type ℓ} → A → Reading A
pure a r = (ok a, r)

abbrev pub refuse_if : Bool → FrameError → Reading (Unit {0})
refuse_if true e r = (err e, r)
refuse_if false e r = (ok tt, r)

-- The error of a read that met the end of the input.
pub end_error : Bytes → Ending → FrameError
end_error b broken = read_failed
end_error [] closed = eof
end_error (x ∷ b) closed = unexpected_eof

-- `io.ReadFull` of n bytes.
pub read_full : ℕ → Reading Bytes
read_full n r =
    if leb n (length r.bytes)
    then (ok (take n r.bytes), record r { bytes = drop n r.bytes })
    else (err (end_error r.bytes r.ending), record r { bytes = [] })

-- The body behind a header that passed the checks; a body of no bytes is nil.
pub read_body : Header → Reading (Header × Option Bytes)
read_body h =
    if pos_part h.body_len == 0
    then pure (h, none)
    else (do body ← read_full (pos_part h.body_len); pure (h, some body))

-- The range checks of `ReadFrame`, and the body behind them.
pub read_checked : Header → Reading (Header × Option Bytes)
read_checked h = do
  refuse_if (is_negative h.body_len) invalid_body_len
  refuse_if (ltb max_body_len (pos_part h.body_len)) body_too_large
  refuse_if (not (h.compress_algorithm == 0)) unsupported_compression
  read_body h

pub read_frame : Reading (Header × Option Bytes)
read_frame = do raw ← read_full header_size; h ← lift (decode_header raw); read_checked h

-- What `io.Writer.Write` reports: the writer after it, the bytes taken, and whether it failed.
pub record Written (W : Type 0) : Type 0 where
  pub next : W
  pub count : ℕ
  pub failed : Bool

-- The header that `WriteFrame` sends for a header and a body.
pub frame_header : Header → Bytes → Header
frame_header h body = record h { header_flag = magic; body_len = pos (length body) }

module _ {W : Type 0} (write : W → Bytes → Written W) where
  pub write_full : W → Bytes → Option FrameError × W
  write_full w b =
      let out = write w b in
      if out.failed
      then (some write_failed, out.next)
      else if out.count == length b
      then (none, out.next)
      else (some short_write, out.next)

  pub then_body : Option FrameError × W → Bytes → Option FrameError × W
  then_body (some e, w) body = (some e, w)
  then_body (none, w) body = if ltb 0 (length body) then write_full w body else (none, w)

  pub write_frame : W → Header → Bytes → Option FrameError × W
  write_frame w h body =
      if ltb max_body_len (length body)
      then (some body_too_large, w)
      else then_body (write_full w (encode_header (frame_header h body))) body
