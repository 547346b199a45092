-- ===== src/Push/Frame/Layout.antt =====
-- The wire form of a header: its fields one behind the other (EncodeHeader of
-- internal/push/frame.go).
use mathlib.Core.List.{append_assoc, append-nil}
use hstongapi4go.Common.{
  ℕ, ◌≡◌, refl, sym, ◌∙◌, [], ◌∷◌, ◌++◌, length, replicate, arith, length-append,
}
use hstongapi4go.Common.Int.{to_unsigned}
use hstongapi4go.Common.Bytes.{Bytes, put_le, copy_at, copy_at_lem}
use hstongapi4go.Push.Frame.{Header, IsHeader, encode_header}

-- The fourteen bytes in front of the signature.
abbrev pub front : Header → Bytes
front h =
    (h.header_flag.0 ∷ h.header_flag.1 ∷ [])
    ++ (put_le 2 (to_unsigned 65536 h.msg_type)
        ++ (h.proto_fmt_type ∷ h.proto_ver ∷ [])
        ++ (put_le 4 (to_unsigned 4294967296 h.serial_no)
            ++ put_le 4 (to_unsigned 4294967296 h.body_len)))

abbrev pub back : Header → Bytes
back h = put_le 8 (to_unsigned 18446744073709551616 h.reserved)

abbrev pub wire : Header → Bytes
wire h = front h ++ (h.body_sha1 ++ (h.compress_algorithm ∷ back h))

-- The last three writes, over fourteen bytes and zeros.
written :
    (pre sha res : Bytes) (algo : ℕ)
    → length pre ≡ 14
    → length sha ≡ 128
    → length res ≡ 8
    → copy_at 143 res (
        copy_at 142
          (algo ∷ [])
          (copy_at 14 sha (pre ++ (replicate 128 0 ++ (replicate 1 0 ++ replicate 8 0)))))
      ≡ pre ++ (sha ++ (algo ∷ res))
written pre sha res algo p s r =
    let before : length (pre ++ sha) ≡ 142 = omega (arith, length-append pre sha) in
    let behind : length ((pre ++ sha) ++ algo ∷ []) ≡ 143 =
      omega (arith, length-append pre sha, length-append (pre ++ sha) (algo ∷ [])) in
    rw (copy_at_lem 14 sha pre (replicate 128 0) (replicate 1 0 ++ replicate 8 0) p (sym s)) (
      rw (← append_assoc) (
        rw (copy_at_lem 142 (algo ∷ []) (pre ++ sha) (replicate 1 0) (replicate 8 0) before refl)
          (last before behind)))
  where
    last :
        length (pre ++ sha) ≡ 142
        → length ((pre ++ sha) ++ algo ∷ []) ≡ 143
        → copy_at 143 res ((pre ++ sha) ++ ((algo ∷ []) ++ replicate 8 0))
          ≡ pre ++ (sha ++ (algo ∷ res))
    last before behind = rw (← append_assoc (pre ++ sha) (algo ∷ []) (replicate 8 0)) (
        copy_at_lem 143 res ((pre ++ sha) ++ algo ∷ []) (replicate 8 0) [] behind (sym r)
        ∙ simp (append_assoc, append-nil))

-- EncodeHeader writes each field at its fixed offset into a zeroed array: the result is the
-- concatenation of the fields in declaration order, with no gap and no overlap, for a header whose
-- fields are in the range of their types.
pub encode_header-wire : (h : Header) → IsHeader h → encode_header h ≡ wire h
unfolding encode_header
encode_header-wire h v =
    written (front h) h.body_sha1 (back h) h.compress_algorithm refl v.sha1_length refl

-- The encoding has the size of a header.
pub length-encode_header : (h : Header) → IsHeader h → length (encode_header h) ≡ 151
unfolding put_le
length-encode_header h v =
    rw (encode_header-wire h v)
      (omega (arith, length-append h.body_sha1 (h.compress_algorithm ∷ back h), v.sha1_length))
