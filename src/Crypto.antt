-- ===== src/Crypto.antt =====
-- internal/crypto/aes.go: the encryption of the trade password, AES in ECB mode with PKCS#7 padding. The
-- cipher and base64 are parameters.
pub mod RoundTrip
use hstongapi4go.Common.{
  ℕ, zero, suc, ◌-◌, ◌%◌, Bool, not, ◌||◌, Option, none, some, [], ◌∷◌, ◌++◌, length, take, drop,
  replicate, ◌==◌, if◌then◌else◌,
}
use hstongapi4go.Common.Bytes.{Bytes}
use hstongapi4go.Common.Text.{codes}
use hstongapi4go.Errs.{GoError, nil_error, opaque}
use hstongapi4go.Resilience.Retry.{is_nil}

abbrev pub trade_password_key_base64 : Bytes
trade_password_key_base64 = codes "m+qS04/2CH1OweCnmXZ3TDZkCQS+hBzY"

abbrev pub err_invalid_key_length : GoError
err_invalid_key_length = opaque "crypto: invalid AES key length"

-- `BlockSize` of AES.
abbrev pub block_size : ℕ
block_size = 16

-- `pkcs7Pad`; the conversion to a byte is written out.
unfoldable pub pkcs7_pad : Bytes → ℕ → Bytes
pkcs7_pad plain n = let pad = n - length plain % n in plain ++ replicate pad (pad % 256)

-- The loop of `encryptECB` over the blocks; it runs at most once for each byte.
unfoldable pub crypt_blocks : (Bytes → Bytes) → ℕ → Bytes → Bytes
crypt_blocks crypt zero bs = []
crypt_blocks crypt (suc n) [] = []
crypt_blocks crypt (suc n) (b ∷ bs) =
    crypt (take block_size (b ∷ bs)) ++ crypt_blocks crypt n (drop block_size (b ∷ bs))

abbrev pub is_key_length : ℕ → Bool
is_key_length n = n == 16 || n == 24 || n == 32

module _ (new_cipher : Bytes → Option (Bytes → Bytes)) where
  -- `encryptECB`.
  unfoldable pub encrypt_ecb : Bytes → Bytes → Bytes × GoError
  encrypt_ecb key plaintext =
      if not (is_key_length (length key))
      then ([], err_invalid_key_length)
      else elim (new_cipher key) [
        | none ↦ ([], err_invalid_key_length)
        | some crypt ↦
            let padded = pkcs7_pad plaintext block_size in
            (crypt_blocks crypt (length padded) padded, nil_error)
      ]

  -- `EncryptTradePassword`.
  unfoldable pub encrypt_trade_password :
      (Bytes → Bytes × GoError) → (Bytes → Bytes) → Bytes → Bytes × GoError
  encrypt_trade_password decode encode plaintext =
      let (key, key_error) = decode trade_password_key_base64 in
      let (ciphertext, error) = encrypt_ecb key plaintext in
      if not (is_nil key_error)
      then ([], key_error)
      else if not (is_nil error)
      then ([], error)
      else (encode ciphertext, nil_error)
