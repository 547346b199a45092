-- ===== src/Transport.antt =====
-- internal/transport/transport.go: the classification of the Gateway's failures and the timeout of a
-- call. A text is a sequence of runes, as JSON decodes it.
pub mod Exchange
pub mod Failures
use Prim.Native.Char.{Char, code}
use hstongapi4go.Common.{
  ℕ, zero, suc, ◌/◌, min, max, String, Bool, true, false, ◌||◌, ◌&&◌, Option, none, some, leb, ◌==◌,
  if◌then◌else◌, str_eq,
}
use hstongapi4go.Common.Int.{ℤ, pos, negsuc}
use hstongapi4go.Errs.{
  GoError, deadline_exceeded, wrapped, typed, canceled, StatusCode, known_code, message_for_code,
  new_error, timeout_error, connection_error,
}

-- `unicode.IsSpace`.
abbrev is_space : ℕ → Bool
is_space c =
    leb 9 c && leb c 13
    || c == 32
    || c == 133
    || c == 160
    || c == 5760
    || leb 8192 c && leb c 8202
    || c == 8232
    || c == 8233
    || c == 8239
    || c == 8287
    || c == 12288

-- The cutset of `classifyFailure`: a space, a colon, a dash, and the three letters that stand where a
-- wide colon is meant.
abbrev pub is_separator : ℕ → Bool
is_separator c = c == 32 || c == 58 || c == 45 || c == 239 || c == 188 || c == 353

abbrev pub is_digit : ℕ → Bool
is_digit c = leb 48 c && leb c 57

-- `strings.TrimLeft` with a test of a rune.
abbrev pub trim_left : (ℕ → Bool) → String → String
trim_left p String.[] = String.[]
trim_left p (String.◌∷◌ c s) = if p (code c) then trim_left p s else String.◌∷◌ c s

abbrev keep_left : Char → String → String
keep_left c String.[] = if is_space (code c) then String.[] else String.◌∷◌ c String.[]
keep_left c (String.◌∷◌ d s) = String.◌∷◌ c (String.◌∷◌ d s)

abbrev pub trim_right : String → String
trim_right String.[] = String.[]
trim_right (String.◌∷◌ c s) = keep_left c (trim_right s)

-- `strings.TrimSpace`.
unfoldable pub trim_space : String → String
trim_space s = trim_right (trim_left is_space s)

-- `trimmed[:end]`, for the loop over the digits in front, and `end` itself.
abbrev pub digits : String → String
digits String.[] = String.[]
digits (String.◌∷◌ c s) =
    let rest = digits s in if is_digit (code c) then String.◌∷◌ c rest else String.[]

abbrev pub end_of_digits : String → ℕ
end_of_digits String.[] = 0
end_of_digits (String.◌∷◌ c s) =
    let rest = end_of_digits s in if is_digit (code c) then suc rest else 0

-- The text behind a code, or the code's own message: `classifyFailure`.
abbrev or_message : StatusCode → String → String
or_message code rest = if str_eq rest "" then message_for_code code else rest

abbrev trimmed_failure : String → StatusCode × String
trimmed_failure trimmed =
    let end = end_of_digits trimmed in
    if str_eq trimmed ""
    then ("", "")
    else if known_code trimmed
    then (trimmed, message_for_code trimmed)
    else if (leb 4 end && leb end 5) && known_code (digits trimmed)
    then (
      digits trimmed,
      or_message (digits trimmed)
          (trim_space (trim_left is_separator (trim_left is_digit trimmed))),
    )
    else ("", trimmed)

unfoldable pub classify_failure : String → StatusCode × String
classify_failure text = trimmed_failure (trim_space text)

-- `failure`.
unfoldable pub failure : String → String → GoError
failure op text =
    let (code, message) = classify_failure text in
    new_error code op
      (if str_eq message "" then "gateway reported failure with no error message" else message)

-- `transportError` and `readError`; the context's own error is recognised through its wrappers.
unfoldable pub is_deadline : GoError → Bool
is_deadline deadline_exceeded = true
is_deadline (wrapped text e) = is_deadline e
is_deadline (typed code category message op cause) = is_deadline cause
is_deadline _ = false

unfoldable pub transport_error : String → GoError → GoError
transport_error op e = if is_deadline e then timeout_error op e else connection_error op e

unfoldable pub read_error : String → GoError → GoError
read_error op e =
    if is_deadline e
    then timeout_error op e
    else connection_error op (wrapped "read response body" e)

-- The nanoseconds of a second.
abbrev pub second : ℕ
second = 1000000000

-- The whole seconds that remain, and 1 if there are fewer: the division of a time that is over is
-- not above 0.
abbrev pub remaining_seconds : ℤ → ℕ
remaining_seconds (pos n) = max 1 (n / second)
remaining_seconds (negsuc n) = 1

-- `timeoutSeconds`, for the default timeout and what `time.Until` says of the context's deadline.
unfoldable pub timeout_seconds : ℕ → Option ℤ → ℕ
timeout_seconds default_timeout none = max 1 (default_timeout / second)
timeout_seconds default_timeout (some left) =
    min (remaining_seconds left) (max 1 (default_timeout / second))
