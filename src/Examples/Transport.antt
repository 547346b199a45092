-- ===== src/Examples/Transport.antt =====
-- The encryption of the trade password and the Gateway's failures at concrete inputs
-- (internal/crypto/aes.go, internal/transport/transport.go).
use hstongapi4go.Common.{
  ℕ, none, String, true, ◌+◌, ◌*◌, ◌/◌, ◌≡◌, refl, Option, some, [], ◌∷◌, length,
}
use hstongapi4go.Common.Bytes.{Bytes}
use hstongapi4go.Common.Text.{codes}
use hstongapi4go.Common.Dict.{lookup}
use hstongapi4go.Errs.{GoError, nil_error, typed, category_for_code, message_for_code, known_code}
use hstongapi4go.Transport.{failure, classify_failure, trim_space}
use hstongapi4go.Transport.Exchange.{Http, Settings, answered, read_all, do_}
use hstongapi4go.Transport.Exchange.Once.{IsOnce, do_-IsOnce}
use hstongapi4go.Transport.Failures.{IsMessage, ◌+++◌, failure_lem}
use hstongapi4go.Crypto.{encrypt_trade_password, block_size, trade_password_key_base64}
use hstongapi4go.Crypto.RoundTrip.{
  Inverts, decrypt_trade_password, decrypt_trade_password-encrypt_trade_password,
}

-- A cipher that swaps the first two bytes of a block.
abbrev swap : Bytes → Bytes
swap [] = []
swap (x ∷ []) = x ∷ []
swap (x ∷ y ∷ xs) = y ∷ x ∷ xs

length-swap : (b : Bytes) → length (swap b) ≡ length b
length-swap [] = refl
length-swap (x ∷ []) = refl
length-swap (x ∷ y ∷ xs) = refl

swap-swap : (b : Bytes) → swap (swap b) ≡ b
swap-swap [] = refl
swap-swap (x ∷ []) = refl
swap-swap (x ∷ y ∷ xs) = refl

swap-Inverts : Inverts swap swap
swap-Inverts = record { length_kept = λ b h. rw (length-swap b) h; undone = λ b h. swap-swap b }

abbrev swapping : Bytes → Option (Bytes → Bytes)
swapping key = some swap

abbrev plain : Bytes → Bytes × GoError
plain b = (b, nil_error)

abbrev as_is : Bytes → Bytes
as_is b = b

decrypt_trade_password-encrypt_trade_password_example :
    let (sent, error) = encrypt_trade_password swapping plain as_is (codes "hunter2") in
    (error ≡ nil_error)
    × (length (plain sent).0 ≡ block_size * (length (codes "hunter2") / 16 + 1))
    × (decrypt_trade_password swap plain sent ≡ codes "hunter2")
decrypt_trade_password-encrypt_trade_password_example =
    decrypt_trade_password-encrypt_trade_password swap swap swap-Inverts swapping plain as_is
      trade_password_key_base64 (codes "hunter2") (λ b. refl) refl refl refl

abbrev refused_text : String
refused_text = "no such session"

IsMessage-refused_text : IsMessage refused_text
IsMessage-refused_text = record {
  is_shown = refl;
  no_space = refl;
  no_separator = refl;
  no_space_behind = refl;
}

known_code-1012 : known_code "1012" ≡ true
unfolding known_code lookup
known_code-1012 = refl

failure_lem_example :
    let documented =
      typed "1012" (category_for_code "1012") (message_for_code "1012") "trade/Entrust" nil_error in
    (failure "trade/Entrust" "1012" ≡ documented)
    × (failure "trade/Entrust" ("1012" +++ (": " +++ refused_text))
        ≡ typed "1012" (category_for_code "1012") refused_text "trade/Entrust" nil_error)
failure_lem_example =
    failure_lem "trade/Entrust" "1012" ": " refused_text known_code-1012 refl refl
      IsMessage-refused_text

-- A wide colon is not cut off.
wide_colon : classify_failure "1012：expired" ≡ ("1012", "：expired")
unfolding classify_failure trim_space known_code lookup
wide_colon = refl

-- A Gateway that accepts every request, in a world that counts them.
abbrev accepting : Http Bytes ℕ
accepting = record {
  marshal = λ p. (p, nil_error);
  marshal_request = λ seconds params. (codes "{}", nil_error);
  new_request = λ path. nil_error;
  new_correlation_id = λ n. (nil_error, n);
  until_deadline = λ n. none;
  send = λ path envelope n. (answered 200 (read_all (codes "{}")), n + 1);
  unmarshal_response = λ body. (record { ok = true; err = ""; payload = [] }, nil_error);
  unmarshal = λ data'. nil_error;
  cap_message = "too large";
  status_message = λ status body. "refused";
}

abbrev ten_seconds : Settings
ten_seconds = record { default_timeout = 10000000000; names_header = true }

do_-IsOnce_example :
    IsOnce accepting ten_seconds "trade/Entrust"
      (λ n. n)
      (λ n. refl)
      (λ path envelope n. refl)
      (codes "/trade/TradeEntrust")
      3
      (do_ accepting ten_seconds "trade/Entrust"
        (some (codes "{}"))
        true
        (codes "/trade/TradeEntrust")
        3)
do_-IsOnce_example =
    do_-IsOnce accepting ten_seconds "trade/Entrust" (λ n. n) (λ n. refl) (λ path envelope n. refl)
      (some (codes "{}")) true (codes "/trade/TradeEntrust") 3
