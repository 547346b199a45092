-- ===== src/Errs.antt =====
-- internal/errs/errors.go and pkg/types/status.go: the Gateway's status codes, the typed error and
-- its classification. An `error` is the chain that errors.Is and errors.As walk. A category is one
-- of the package's constants or the zero value of its string type.
pub mod Classify
use hstongapi4go.Common.{
  String, Bool, true, false, ◌&&◌, ◌||◌, Option, none, some, List, [], ◌∷◌, str_eq, not,
  if◌then◌else◌,
}
use hstongapi4go.Common.Dict.{lookup}

pub data Category : Type 0 where
  success connection timeout api account trading rate_limit unknown unset : Category

abbrev pub StatusCode : Type 0
StatusCode = String

-- A Go `error`: nil, an error of another package, a context's two, one that fmt.Errorf wrapped with
-- %w, an *Error with its code, category, message, operation and cause, and a nil *Error.
pub data GoError : Type 0 where
  nil_error : GoError
  opaque : String → GoError
  canceled deadline_exceeded : GoError
  wrapped : String → GoError → GoError
  typed : StatusCode → Category → String → String → GoError → GoError
  typed_nil : GoError

pub record CodeInfo : Type 0 where
  pub category : Category
  pub message : String

abbrev info : Category → String → CodeInfo
info c m = record { category = c; message = m }

abbrev pub code_table : List (StatusCode × CodeInfo)
code_table =
    ("0000", info success "success")
    ∷ ("1001", info api "unknown system error")
    ∷ ("1002", info api "signature error")
    ∷ ("1003", info api "data encryption error")
    ∷ ("1004", info connection "socket not initialized")
    ∷ ("1005", info api "endpoint deprecated")
    ∷ ("1006", info account "user not authorized")
    ∷ ("1007", info trading "duplicate submission")
    ∷ ("1008", info api "call failed")
    ∷ ("1009", info api "endpoint not found")
    ∷ ("1010", info api "illegal request")
    ∷ ("1011", info rate_limit "service busy, retry later")
    ∷ ("1012", info account "not logged in")
    ∷ ("1013", info account "session displaced by another login")
    ∷ ("1014", info account "login timeout")
    ∷ ("1015", info timeout "call timeout")
    ∷ ("1016", info api "invalid parameter")
    ∷ ("1017", info connection "long-connection establishment failed")
    ∷ ("1018", info connection "reconnecting, retry later")
    ∷ ("20033", info account "futures trade login timeout")
    ∷ ("40001", info api "query product info failed")
    ∷ ("40002", info api "query contract info failed")
    ∷ []

-- `StatusCode.String` of pkg/types/status.go, a second table of messages.
abbrev pub status_table : List (StatusCode × String)
status_table =
    ("0000", "success")
    ∷ ("1001", "unknown system error")
    ∷ ("1002", "signature error")
    ∷ ("1003", "data encryption error")
    ∷ ("1004", "socket not initialized")
    ∷ ("1005", "endpoint deprecated")
    ∷ ("1006", "user not authorized")
    ∷ ("1007", "duplicate submission")
    ∷ ("1008", "call failed")
    ∷ ("1009", "endpoint not found")
    ∷ ("1010", "illegal request")
    ∷ ("1011", "service busy, retry later")
    ∷ ("1012", "not logged in")
    ∷ ("1013", "session displaced")
    ∷ ("1014", "login timeout")
    ∷ ("1015", "call timeout")
    ∷ ("1016", "invalid parameter")
    ∷ ("1017", "long-connection establishment failed")
    ∷ ("1018", "reconnecting, retry later")
    ∷ ("20033", "futures trade login timeout")
    ∷ ("40001", "query product info failed")
    ∷ ("40002", "query contract info failed")
    ∷ []

abbrev or_raw : StatusCode → Option String → String
or_raw code none = code
or_raw code (some m) = m

-- The `switch` of `StatusCode.String`, whose default is the raw code.
pub status_string : StatusCode → String
status_string code = or_raw code (lookup code status_table)

pub is_success : StatusCode → Bool
is_success code = str_eq code "0000"

abbrev category_or_unknown : Option CodeInfo → Category
category_or_unknown none = unknown
category_or_unknown (some i) = i.category

abbrev message_or_raw : StatusCode → Option CodeInfo → String
message_or_raw code none = code
message_or_raw code (some i) = i.message

abbrev is_some {ℓ} : {A : Type ℓ} → Option A → Bool
is_some none = false
is_some (some a) = true

unfoldable pub known_code : StatusCode → Bool
known_code code = is_some (lookup code code_table)

unfoldable pub category_for_code : StatusCode → Category
category_for_code code = category_or_unknown (lookup code code_table)

unfoldable pub message_for_code : StatusCode → String
message_for_code code = message_or_raw code (lookup code code_table)

-- `New`, with `Wrap` as the general form: `New` has no cause.
unfoldable pub wrap : GoError → StatusCode → String → String → GoError
wrap cause code op message =
    typed code (category_for_code code)
      (if str_eq message "" then message_for_code code else message) op cause

unfoldable pub new_error : StatusCode → String → String → GoError
unfolding wrap
new_error code op message = wrap nil_error code op message

unfoldable pub connection_error : String → GoError → GoError
connection_error op cause = typed "" connection "connection failed" op cause

unfoldable pub timeout_error : String → GoError → GoError
timeout_error op cause = typed "" timeout "request timed out" op cause

-- `errors.Is(err, context.DeadlineExceeded) || errors.Is(err, context.Canceled)`
unfoldable pub is_context_error : GoError → Bool
is_context_error canceled = true
is_context_error deadline_exceeded = true
is_context_error (wrapped text e) = is_context_error e
is_context_error (typed code category message op cause) = is_context_error cause
is_context_error _ = false

-- What `errors.As(err, &e) && e != nil` finds: the code and the category of the first *Error.
unfoldable pub find_typed : GoError → Option (StatusCode × Category)
find_typed (typed code category message op cause) = some (code, category)
find_typed (wrapped text e) = find_typed e
find_typed _ = none

abbrev pub code_found : Option (StatusCode × Category) → Option StatusCode
code_found none = none
code_found (some (code, category)) = if str_eq code "" then none else some code

-- `CodeOf`; `none` is the false result. A nil error has no *Error in its chain.
unfoldable pub code_of : GoError → Option StatusCode
unfolding find_typed
code_of e = code_found (find_typed e)

-- A category that is set stands, and the zero value gives way to the code's.
abbrev category_set : StatusCode → Category → Category
category_set code unset = category_for_code code
category_set code category = category

abbrev category_found : GoError → Option (StatusCode × Category) → Category
category_found e none = if is_context_error e then timeout else unknown
category_found e (some (code, category)) = category_set code category

unfoldable pub category_of : GoError → Category
unfolding find_typed category_for_code is_context_error
category_of e = category_found e (find_typed e)

abbrev pub is_transport : Category → Bool
is_transport connection = true
is_transport timeout = true
is_transport _ = false

abbrev pub is_transient_code : StatusCode → Bool
is_transient_code code =
    str_eq code "1011" || str_eq code "1015" || str_eq code "1017" || str_eq code "1018"

abbrev pub retryable_found : Option (StatusCode × Category) → Bool
retryable_found none = false
retryable_found (some (code, category)) = is_transport category || is_transient_code code

unfoldable pub retryable : GoError → Bool
unfolding is_context_error find_typed
retryable e = if is_context_error e then true else retryable_found (find_typed e)

abbrev pub is_session_code : StatusCode → Bool
is_session_code code =
    str_eq code "1012" || str_eq code "1013" || str_eq code "1014" || str_eq code "20033"

abbrev pub test_code : (StatusCode → Bool) → Option StatusCode → Bool
test_code p none = false
test_code p (some code) = p code

unfoldable pub relogin_required : GoError → Bool
unfolding code_of
relogin_required e = test_code is_session_code (code_of e)

unfoldable pub is_deprecated : GoError → Bool
unfolding code_of
is_deprecated e = test_code (λ code. str_eq code "1005") (code_of e)
