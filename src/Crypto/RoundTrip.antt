-- ===== src/Crypto/RoundTrip.antt =====
-- Decrypting gives the password back (internal/crypto/aes.go).
use hstongapi4go.Common.{
  ℕ, zero, suc, ◌+◌, ◌-◌, ◌*◌, ◌/◌, ◌%◌, ◌≤◌, ◌<◌, ◌≡◌, refl, true, Option, some, [], ◌∷◌, ◌++◌,
  arith, length, take, drop, replicate, get_or, take-append, drop-append, take-append-drop,
  length-take, length-drop, length-append, length-replicate,
}
use hstongapi4go.Common.Bytes.{Bytes}
use hstongapi4go.Errs.{GoError, nil_error}
use hstongapi4go.Crypto.{
  pkcs7_pad, crypt_blocks, encrypt_ecb, encrypt_trade_password, block_size, is_key_length,
  trade_password_key_base64,
}

-- A block cipher: each key of a right length has an encryption of blocks and its inverse.
pub record Inverts (crypt uncrypt : Bytes → Bytes) : Type 0 where
  pub length_kept : (b : Bytes) → length b ≡ block_size → length (crypt b) ≡ block_size
  pub undone : (b : Bytes) → length b ≡ block_size → uncrypt (crypt b) ≡ b

-- What a reader of the padded text does: the last byte says how many bytes to cut.
unfoldable pub unpad : Bytes → Bytes
unpad bs = take (length bs - get_or bs (length bs - 1) 0) bs

crypt_blocks-append :
    (crypt : Bytes → Bytes) (n : ℕ) (xs ys : Bytes)
    → length xs ≡ block_size
    → crypt_blocks crypt (suc n) (xs ++ ys) ≡ crypt xs ++ crypt_blocks crypt n ys
unfolding crypt_blocks
crypt_blocks-append crypt n [] ys h = absurd (omega arith)
crypt_blocks-append crypt n (x ∷ xs) ys h =
    rw (take-append block_size (x ∷ xs) ys h, drop-append block_size (x ∷ xs) ys h) refl

crypt_blocks-suc :
    (crypt : Bytes → Bytes) (k n : ℕ) (xs : Bytes)
    → length xs ≡ block_size * suc k
    → crypt_blocks crypt (suc n) xs
      ≡ crypt (take block_size xs) ++ crypt_blocks crypt n (drop block_size xs)
unfolding crypt_blocks
crypt_blocks-suc crypt k n [] h = absurd (omega arith)
crypt_blocks-suc crypt k n (x ∷ xs) h = refl

crypt_blocks-nil :
    (crypt : Bytes → Bytes) (n : ℕ) (xs : Bytes) → length xs ≡ 0 → crypt_blocks crypt n xs ≡ []
unfolding crypt_blocks
crypt_blocks-nil crypt zero xs h = refl
crypt_blocks-nil crypt (suc n) [] h = refl
crypt_blocks-nil crypt (suc n) (x ∷ xs) h = absurd (omega arith)

module _ (crypt uncrypt : Bytes → Bytes) (v : Inverts crypt uncrypt) where
  length-block :
      (k : ℕ) (xs : Bytes)
      → length xs ≡ block_size * suc k
      → length (take block_size xs) ≡ block_size
  length-block k xs h = omega (arith, length-take block_size xs)

  length-rest :
      (k : ℕ) (xs : Bytes)
      → length xs ≡ block_size * suc k
      → length (drop block_size xs) ≡ block_size * k
  length-rest k xs h = omega (arith, length-drop block_size xs)

  length-crypt_blocks :
      (k n : ℕ) (xs : Bytes)
      → length xs ≡ block_size * k
      → k ≤ n
      → length (crypt_blocks crypt n xs) ≡ block_size * k
  length-crypt_blocks zero n xs h l = rw (crypt_blocks-nil crypt n xs (omega arith)) refl
  length-crypt_blocks (suc k) zero xs h l = absurd (omega arith)
  length-crypt_blocks (suc k) (suc n) xs h l =
      let head = v.length_kept (take block_size xs) (length-block k xs h) in
      let tail = length-crypt_blocks k n (drop block_size xs) (length-rest k xs h) (omega arith) in
      rw (crypt_blocks-suc crypt k n xs h, length-append) (omega arith)

  uncrypt_blocks :
      (k n m : ℕ) (xs : Bytes)
      → length xs ≡ block_size * k
      → k ≤ n
      → k ≤ m
      → crypt_blocks uncrypt m (crypt_blocks crypt n xs) ≡ xs
  uncrypt_blocks zero n m [] h l l' =
      rw (crypt_blocks-nil crypt n [] refl, crypt_blocks-nil uncrypt m [] refl) refl
  uncrypt_blocks zero n m (x ∷ xs) h l l' = absurd (omega arith)
  uncrypt_blocks (suc k) zero m xs h l l' = absurd (omega arith)
  uncrypt_blocks (suc k) (suc n) zero xs h l l' = absurd (omega arith)
  uncrypt_blocks (suc k) (suc n) (suc m) xs h l l' =
      let block = length-block k xs h in
      rw
        (
          crypt_blocks-suc crypt k n xs h,
          crypt_blocks-append uncrypt m (crypt (take block_size xs))
              (crypt_blocks crypt n (drop block_size xs))
              (v.length_kept (take block_size xs) block),
          v.undone (take block_size xs) block,
          uncrypt_blocks k n m (drop block_size xs) (length-rest k xs h) (omega arith)
              (omega arith),
        )
        (take-append-drop block_size xs)

length-pkcs7_pad : (p : Bytes) → length (pkcs7_pad p block_size) ≡ block_size * (length p / 16 + 1)
unfolding pkcs7_pad
length-pkcs7_pad p = rw (length-append, length-replicate) (omega arith)

-- Behind a list, its padding.
get_or-replicate :
    (p : Bytes) (n x i d : ℕ)
    → length p ≤ i
    → i < length p + n
    → get_or (p ++ replicate n x) i d ≡ x
get_or-replicate [] zero x i d h l = absurd (omega arith)
get_or-replicate [] (suc n) x zero d h l = refl
get_or-replicate [] (suc n) x (suc i) d h l =
    get_or-replicate [] n x i d (omega arith) (omega arith)
get_or-replicate (y ∷ p) n x zero d h l = absurd (omega arith)
get_or-replicate (y ∷ p) n x (suc i) d h l = get_or-replicate p n x i d (omega arith) (omega arith)

unpad-pkcs7_pad : (p : Bytes) → unpad (pkcs7_pad p block_size) ≡ p
unfolding unpad pkcs7_pad
unpad-pkcs7_pad p =
    let pad = block_size - length p % 16 in
    rw
      (
        length-append,
        length-replicate,
        get_or-replicate p pad (pad % 256) (length p + pad - 1) 0 (omega arith) (omega arith),
      )
      (take-append (length p + pad - pad % 256) p (replicate pad (pad % 256)) (omega arith))

-- What a reader of the password does.
abbrev pub decrypt_trade_password : (Bytes → Bytes) → (Bytes → Bytes × GoError) → Bytes → Bytes
decrypt_trade_password uncrypt decode sent =
    let c = (decode sent).0 in unpad (crypt_blocks uncrypt (length c) c)

module _ (crypt uncrypt : Bytes → Bytes) (v : Inverts crypt uncrypt) where
  length-padded :
      (p : Bytes)
      → let padded = pkcs7_pad p block_size in
        length (crypt_blocks crypt (length padded) padded) ≡ block_size * (length p / 16 + 1)
  length-padded p =
      let padded = pkcs7_pad p block_size in
      let blocks = length-pkcs7_pad p in
      length-crypt_blocks crypt uncrypt v (length p / 16 + 1) (length padded) padded blocks
        (omega arith)

  uncrypt-padded :
      (p : Bytes)
      → let padded = pkcs7_pad p block_size in
        let c = crypt_blocks crypt (length padded) padded in
        unpad (crypt_blocks uncrypt (length c) c) ≡ p
  uncrypt-padded p =
      let padded = pkcs7_pad p block_size in
      let c = crypt_blocks crypt (length padded) padded in
      let blocks = length-pkcs7_pad p in
      let kept = length-padded p in
      rw
        (uncrypt_blocks crypt uncrypt v (length p / 16 + 1) (length padded) (length c) padded blocks
          (omega arith) (omega arith))
        (unpad-pkcs7_pad p)

  -- Encrypting a trade password never fails, what it sends is as many blocks of 16 bytes as the
  -- password fills in full and one more, and the reader gets the password back. For a base64 that decodes what it
  -- encodes, a key that it reads with a length of AES, and a cipher for that key that its inverse
  -- undoes block by block.
  pub decrypt_trade_password-encrypt_trade_password :
      (new_cipher : Bytes → Option (Bytes → Bytes)) (decode : Bytes → Bytes × GoError)
      (encode : Bytes → Bytes) (key p : Bytes)
      → ((b : Bytes) → decode (encode b) ≡ (b, nil_error))
      → decode trade_password_key_base64 ≡ (key, nil_error)
      → is_key_length (length key) ≡ true
      → new_cipher key ≡ some crypt
      → let (sent, error) = encrypt_trade_password new_cipher decode encode p in
        (error ≡ nil_error)
        × (length (decode sent).0 ≡ block_size * (length p / 16 + 1))
        × (decrypt_trade_password uncrypt decode sent ≡ p)
  unfolding encrypt_trade_password encrypt_ecb
  decrypt_trade_password-encrypt_trade_password new_cipher decode encode key p inverse read size c =
      rw (read, size, c, inverse) (refl, length-padded p, uncrypt-padded p)
