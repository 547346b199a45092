-- ===== src/Push/Frame/RoundTrip.antt =====
-- Decoding undoes encoding (EncodeHeader, DecodeHeader of internal/push/frame.go).
use mathlib.Core.List.{append_assoc}
use hstongapi4go.Common.{
  ap, ◌∙◌, ◌≡◌, ◌++◌, ◌∷◌, arith, length, take, drop, get_or, take-append, drop-append_suc,
  get_or-append, length-append, ◌≤◌,
}
use hstongapi4go.Common.Int.{
  ℤ, to_unsigned, to_signed, InWord, to_unsigned-lt, to_signed-to_unsigned_16,
  to_signed-to_unsigned_32, to_signed-to_unsigned_64,
}
use hstongapi4go.Common.Bytes.{Bytes, put_le, get_le, slice, get_le-put_le}
use hstongapi4go.Push.Frame.{
  Header, IsHeader, ok, magic, encode_header, decode_header, header_fields,
}
use hstongapi4go.Push.Frame.Layout.{back, wire, encode_header-wire}

-- A word of n bytes read back.
word_16 : (z : ℤ) → InWord 32768 z → to_signed 32768 (get_le (put_le 2 (to_unsigned 65536 z))) ≡ z
word_16 z h =
    rw (get_le-put_le 2 _ (to_unsigned-lt 65536 z (omega arith))) (to_signed-to_unsigned_16 z h)

word_32 :
    (z : ℤ)
    → InWord 2147483648 z
    → to_signed 2147483648 (get_le (put_le 4 (to_unsigned 4294967296 z))) ≡ z
word_32 z h =
    rw (get_le-put_le 4 _ (to_unsigned-lt 4294967296 z (omega arith)))
      (to_signed-to_unsigned_32 z h)

word_64 :
    (z : ℤ)
    → InWord 9223372036854775808 z
    → to_signed 9223372036854775808 (get_le (put_le 8 (to_unsigned 18446744073709551616 z))) ≡ z
word_64 z h =
    rw (get_le-put_le 8 _ (to_unsigned-lt 18446744073709551616 z (omega arith)))
      (to_signed-to_unsigned_64 z h)

length-wire : (h : Header) (rest : Bytes) → IsHeader h → 151 ≤ length (wire h ++ rest)
unfolding put_le
length-wire h rest v = omega (
  arith,
  length-append h.body_sha1 (h.compress_algorithm ∷ back h),
  v.sha1_length,
  length-append (wire h) rest,
)

-- The parts of the wire form behind the fourteen bytes.
module _ (h : Header) (rest : Bytes) (v : IsHeader h) where
  tail-wire :
      (h.body_sha1 ++ (h.compress_algorithm ∷ back h)) ++ rest
      ≡ h.body_sha1 ++ (h.compress_algorithm ∷ (back h ++ rest))
  tail-wire = append_assoc h.body_sha1 (h.compress_algorithm ∷ back h) rest

  sha1-wire : slice 14 128 (wire h ++ rest) ≡ h.body_sha1
  unfolding slice put_le
  sha1-wire = ap (λ t. take 128 t) tail-wire ∙ take-append 128 h.body_sha1 _ v.sha1_length

  algo-wire : get_or (wire h ++ rest) 142 0 ≡ h.compress_algorithm
  unfolding put_le
  algo-wire =
      ap (λ t. get_or t 128 0) tail-wire
      ∙ get_or-append 128 h.body_sha1 h.compress_algorithm (back h ++ rest) 0 v.sha1_length

  reserved-wire : slice 143 8 (wire h ++ rest) ≡ back h
  unfolding slice put_le
  reserved-wire =
      ap (λ t. take 8 (drop 129 t)) tail-wire
      ∙ ap (take 8)
          (drop-append_suc 128 h.body_sha1 h.compress_algorithm (back h ++ rest) v.sha1_length)

  fields-wire : header_fields h.header_flag.0 h.header_flag.1 (wire h ++ rest) ≡ h
  unfolding header_fields put_le
  fields-wire = λ i. record {
    header_flag = h.header_flag;
    msg_type = word_16 h.msg_type v.msg_type_int16 i;
    proto_fmt_type = h.proto_fmt_type;
    proto_ver = h.proto_ver;
    serial_no = word_32 h.serial_no v.serial_no_int32 i;
    body_len = word_32 h.body_len v.body_len_int32 i;
    body_sha1 = sha1-wire i;
    compress_algorithm = algo-wire i;
    reserved =
        (ap (λ b. to_signed 9223372036854775808 (get_le b)) reserved-wire
            ∙ word_64 h.reserved v.reserved_int64)
          i;
  }

-- A buffer of enough bytes with the right flag is decoded to its fields.
pub decode_header_fields :
    (b : Bytes)
    → 151 ≤ length b
    → get_or b 0 0 ≡ b'H'
    → get_or b 1 0 ≡ b'S'
    → decode_header b ≡ ok (header_fields (get_or b 0 0) (get_or b 1 0) b)
unfolding decode_header
decode_header_fields b n f0 f1 = ground arith

-- Decoding the encoding of a header with the flag "HS" and fields in the range of their types
-- gives the header back, whatever bytes follow it.
pub decode_header-encode_header :
    (h : Header) (rest : Bytes)
    → IsHeader h
    → h.header_flag ≡ magic
    → decode_header (encode_header h ++ rest) ≡ ok h
unfolding put_le
decode_header-encode_header h rest v f = rw (encode_header-wire h v) (
    decode_header_fields (wire h ++ rest) (length-wire h rest v) (ap (λ p. p.0) f) (ap (λ p. p.1) f)
    ∙ ap ok (fields-wire h rest v))
