-- ===== src/Services/Checks.antt =====
-- The checks that pkg/services/algo.go and pkg/services/futures.go make of texts: digits, dates, times of
-- day and codes. `time.Parse` is that of Go, for the two layouts that the code uses.
pub mod Dates
use hstongapi4go.Common.{
  ℕ, zero, suc, ◌+◌, ◌-◌, ◌*◌, ◌%◌, String, Bool, true, false, not, ◌&&◌, ◌||◌, Option, none, some,
  List, [], ◌∷◌, ltb, leb, ◌==◌, length, if◌then◌else◌,
}
use hstongapi4go.Common.Bytes.{Bytes}
use hstongapi4go.Errs.{GoError, new_error}
use hstongapi4go.Client.Calls.{Executor}
use hstongapi4go.Domain.Symbol.{is_empty}
use hstongapi4go.Services.Push.Keys.{trim_space}
use hstongapi4go.Services.Validation.{status_invalid_param}

-- A call that is refused never leaves the service.
abbrev pub sent :
    {B W : Type 0} → Executor B W → Option GoError → String → Bytes → B → W → Option (GoError × W)
sent executor (some e) op route body w = some (e, w)
sent executor none op route body w = executor.do_ op route body w

-- The error of a test that fails.
abbrev pub unless : Bool → String → String → Option GoError
unless true op message = none
unless false op message = some (new_error status_invalid_param op message)

abbrev pub is_digit : ℕ → Bool
is_digit b = leb b'0' b && leb b b'9'

abbrev pub all_digits : Bytes → Bool
all_digits [] = true
all_digits (b ∷ bs) = is_digit b && all_digits bs

-- `algoDigitsShaped` and `futuresDigitsShaped`.
unfoldable pub digits_shaped : Bytes → Bool
digits_shaped bs = not (is_empty bs) && all_digits bs

-- `algoDateShaped` and `futuresDateShaped`.
unfoldable pub date_shaped : Bytes → Bool
unfolding digits_shaped
date_shaped bs = length bs == 8 && digits_shaped bs

abbrev pub is_leap : ℕ → Bool
is_leap y = y % 4 == 0 && (not (y % 100 == 0) || y % 400 == 0)

unfoldable pub days_in : ℕ → ℕ → ℕ
days_in y m =
    if m == 2
    then (if is_leap y then 29 else 28)
    else if m == 4 || (m == 6 || (m == 9 || m == 11))
    then 30
    else 31

abbrev pub digit_of : ℕ → ℕ
digit_of b = b - b'0'

abbrev pub two : ℕ → ℕ → ℕ
two a b = digit_of a * 10 + digit_of b

-- A day of the calendar, by its numbers.
unfoldable pub is_day : ℕ → ℕ → ℕ → Bool
is_day y m d = leb 1 m && (leb m 12 && (leb 1 d && leb d (days_in y m)))

-- `time.Parse` of eight digits against the layout 20060102.
unfoldable pub parses_date : Bytes → Bool
parses_date (a ∷ b ∷ c ∷ d ∷ e ∷ f ∷ g ∷ h ∷ []) =
    is_day (two a b * 100 + two c d) (two e f) (two g h)
parses_date bs = false

-- A date that the services accept.
unfoldable pub is_date : Bytes → Bool
is_date bs = date_shaped bs && parses_date bs

-- What may follow the seconds: a point or a comma, and digits.
abbrev is_fraction : Bytes → Bool
is_fraction [] = true
is_fraction (p ∷ bs) = (p == b'.' || p == b',') && digits_shaped bs

-- `time.Parse` against the layout 150405.
unfoldable pub parses_time : Bytes → Bool
unfolding digits_shaped
parses_time (a ∷ b ∷ c ∷ d ∷ e ∷ f ∷ rest) =
    all_digits (a ∷ b ∷ c ∷ d ∷ e ∷ f ∷ [])
    && (ltb (two a b) 24 && (ltb (two c d) 60 && (ltb (two e f) 60 && is_fraction rest)))
parses_time bs = false

-- `strings.ContainsAny` of a blank, a tab and the ends of a line.
unfoldable pub contains_blank : Bytes → Bool
contains_blank [] = false
contains_blank (b ∷ bs) = (b == 32 || (b == 9 || (b == 10 || b == 13))) || contains_blank bs

-- A code that holds text, and no blank inside it.
unfoldable pub is_code : Bytes → Bool
is_code code = not (is_empty (trim_space code)) && not (contains_blank (trim_space code))
