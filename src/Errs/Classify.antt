-- ===== src/Errs/Classify.antt =====
-- How errors are classified (internal/errs/errors.go, pkg/types/status.go).
use hstongapi4go.Common.{
  String, ◌≡◌, refl, Bool, true, false, ◌||◌, none, some, str_eq, arith, All, All-imp, ◌∙◌,
}
use hstongapi4go.Common.Dict.{lookup, by_table, not_in_table}
use hstongapi4go.Errs.{
  GoError, StatusCode, code_table, status_table, status_string, message_for_code, category_for_code,
  wrap, retryable, relogin_required, is_context_error, is_transient_code, is_session_code,
  retryable_found,
}

-- The two messages of a code, apart from the one code on which they differ.
abbrev AgreesOn : StatusCode → Type 0
AgreesOn code = str_eq code "1013" ≡ false → status_string code ≡ message_for_code code

agree_outside :
    (code : StatusCode)
    → lookup code code_table ≡ none
    → lookup code status_table ≡ none
    → AgreesOn code
unfolding status_string message_for_code
agree_outside code h k e = rw (h, k) refl

agree_inside : All (λ e. AgreesOn e.0) code_table
unfolding status_string message_for_code lookup
agree_inside = ground arith

agree_listed : All (λ e. AgreesOn e.0) status_table
unfolding status_string message_for_code lookup
agree_listed = agree_inside

-- The two tables of messages agree on every code, documented or not, except "1013".
pub status_string-message_for_code :
    (code : StatusCode) → str_eq code "1013" ≡ false → status_string code ≡ message_for_code code
status_string-message_for_code = by_table AgreesOn code_table agree_inside λ code h.
    by_table (λ c. lookup c code_table ≡ none → AgreesOn c) status_table
      (All-imp (λ e. AgreesOn e.0) (λ e. lookup e.0 code_table ≡ none → AgreesOn e.0) (λ e a h'. a)
        status_table agree_listed)
      (λ c k h'. agree_outside c h' k) code h

-- The codes for which an error is worth another attempt.
abbrev pub is_retried_code : StatusCode → Bool
is_retried_code code = str_eq code "1004" || is_transient_code code

abbrev Retried : StatusCode → Type 0
Retried code = retryable_found (some (code, category_for_code code)) ≡ is_retried_code code

Retried-inside : All (λ e. Retried e.0) code_table
unfolding category_for_code lookup
Retried-inside = ground arith

module _ (code : StatusCode) (h : lookup code code_table ≡ none) where
  not_socket : str_eq code "1004" ≡ false
  unfolding lookup
  not_socket = not_in_table code_table code "1004" h (λ e. cc)

  not_transient : is_transient_code code ≡ false
  unfolding lookup
  not_transient = rw (not_in_table code_table code "1011" h (λ e. cc)) (
      rw (not_in_table code_table code "1015" h (λ e. cc)) (
        rw (not_in_table code_table code "1017" h (λ e. cc))
          (not_in_table code_table code "1018" h (λ e. cc))))

Retried-outside : (code : StatusCode) → lookup code code_table ≡ none → Retried code
unfolding category_for_code
Retried-outside code h = rw h (rw (not_socket code h) refl)

-- An error made for a status code is retryable exactly for "1004", "1011", "1015", "1017" and
-- "1018", when no context error stands in its chain.
pub retryable-wrap :
    (cause : GoError) (code : StatusCode) (op message : String)
    → is_context_error cause ≡ false
    → retryable (wrap cause code op message) ≡ is_retried_code code
unfolding retryable wrap
retryable-wrap cause code op message c =
    rw c (by_table Retried code_table Retried-inside Retried-outside code)

abbrev NotRetried : StatusCode → Type 0
NotRetried code = is_session_code code ≡ true → is_retried_code code ≡ false

not_retried : (code : StatusCode) → NotRetried code
not_retried =
    by_table NotRetried code_table (ground arith)
      λ code h s. rw (not_socket code h) (not_transient code h)

session_code :
    (cause : GoError) (code : StatusCode) (op message : String)
    → relogin_required (wrap cause code op message) ≡ true
    → is_session_code code ≡ true
unfolding relogin_required wrap
session_code cause code op message h = ground arith

-- A status that asks for a new login is never one that a retry may repeat: an error made for a
-- status code, with no context error in its chain, is not retryable if it requires a login.
pub relogin-not_retryable :
    (cause : GoError) (code : StatusCode) (op message : String)
    → is_context_error cause ≡ false
    → relogin_required (wrap cause code op message) ≡ true
    → retryable (wrap cause code op message) ≡ false
relogin-not_retryable cause code op message c h =
    retryable-wrap cause code op message c ∙ not_retried code (session_code cause code op message h)
