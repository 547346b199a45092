-- ===== src/Services/Checks/Dates.antt =====
-- Which texts are dates to the services (pkg/services/algo.go, pkg/services/futures.go): the days of the
-- calendar, in eight digits.
use hstongapi4go.Common.{
  ℕ, ◌+◌, ◌*◌, ◌/◌, ◌%◌, ◌<◌, ◌≡◌, ◌↔◌, refl, ap, sym, ◌∙◌, Bool, true, false, ◌&&◌, [], ◌∷◌, arith,
  ◌||◌, ◌==◌, suc, zero, not, leb, if◌then◌else◌, List, get_or,
}
use hstongapi4go.Common.Bytes.{Bytes}
use hstongapi4go.Services.Checks.{
  is_digit, digits_shaped, date_shaped, parses_date, is_date, is_day, days_in, two, is_leap,
}

-- The last digit of a number.
abbrev pub last_digit : ℕ → ℕ
last_digit n = b'0' + n % 10

-- A date in eight digits.
abbrev pub print_date : ℕ → ℕ → ℕ → Bytes
print_date y m d =
    last_digit (y / 1000)
    ∷ last_digit (y / 100)
    ∷ last_digit (y / 10)
    ∷ last_digit y
    ∷ last_digit (m / 10)
    ∷ last_digit m
    ∷ last_digit (d / 10)
    ∷ last_digit d
    ∷ []

last_digit-is_digit : (n : ℕ) → is_digit (last_digit n) ≡ true
last_digit-is_digit n = ground arith

two_lem : (n : ℕ) → n < 100 → two (last_digit (n / 10)) (last_digit n) ≡ n
two_lem n h = omega arith

four_lem :
    (y : ℕ)
    → y < 10000
    → two (last_digit (y / 1000)) (last_digit (y / 100)) * 100
        + two (last_digit (y / 10)) (last_digit y)
      ≡ y
four_lem y h = omega arith

day_bounds : (y m d : ℕ) → is_day y m d ≡ true → (m < 100) × (d < 100)
unfolding is_day days_in
day_bounds y m d h = ground arith

is_date-print_date :
    (y m d : ℕ) → y < 10000 → is_day y m d ≡ true → is_date (print_date y m d) ≡ true
unfolding is_date parses_date date_shaped digits_shaped
is_date-print_date y m d small h =
    let few = day_bounds y m d h in
    rw (four_lem y small, two_lem m few.0, two_lem d few.1, h) (ground (arith))

print_digits :
    (a b c d : ℕ)
    → is_digit a ≡ true
    → is_digit b ≡ true
    → is_digit c ≡ true
    → is_digit d ≡ true
    → let y = two a b * 100 + two c d in
      (y < 10000)
      × (last_digit (y / 1000) ≡ a)
      × (last_digit (y / 100) ≡ b)
      × (last_digit (y / 10) ≡ c)
      × (last_digit y ≡ d)
print_digits a b c d ha hb hc hd = ground arith

print_two :
    (a b : ℕ)
    → is_digit a ≡ true
    → is_digit b ≡ true
    → (last_digit (two a b / 10) ≡ a) × (last_digit (two a b) ≡ b)
print_two a b ha hb = ground arith

and_both : (p q : Bool) → (p && q) ≡ true → (p ≡ true) × (q ≡ true)
and_both true q h = (refl, h)
and_both false q h = absurd (cc)

and_false : (p : Bool) → (p && false) ≡ true → ⊥
and_false true h = cc
and_false false h = cc

date_numbers :
    (bs : Bytes)
    → is_date bs ≡ true
    → (y : ℕ) × (m : ℕ) × (d : ℕ) × (y < 10000) × (is_day y m d ≡ true) × (bs ≡ print_date y m d)
unfolding is_date parses_date date_shaped digits_shaped
date_numbers (a ∷ b ∷ c ∷ d ∷ e ∷ f ∷ g ∷ h ∷ []) ok =
    let (shaped, day_ok) = and_both _ _ ok in
    let (ha, ha') = and_both _ _ shaped in
    let (hb, hb') = and_both _ _ ha' in
    let (hc, hc') = and_both _ _ hb' in
    let (hd, hd') = and_both _ _ hc' in
    let (he, he') = and_both _ _ hd' in
    let (hf, hf') = and_both _ _ he' in
    let (hg, hg') = and_both _ _ hf' in
    let (hh, hh') = and_both _ _ hg' in
    let year = print_digits a b c d ha hb hc hd in
    let month = print_two e f he hf in
    let day = print_two g h hg hh in
    (
      two a b * 100 + two c d,
      two e f,
      two g h,
      year.0,
      day_ok,
      rw (year.1, year.2, year.3, year.4, month.0, month.1, day.0, day.1) refl,
    )
date_numbers [] ok = cc
date_numbers (a ∷ []) ok = cc
date_numbers (a ∷ b ∷ []) ok = cc
date_numbers (a ∷ b ∷ c ∷ []) ok = cc
date_numbers (a ∷ b ∷ c ∷ d ∷ []) ok = cc
date_numbers (a ∷ b ∷ c ∷ d ∷ e ∷ []) ok = cc
date_numbers (a ∷ b ∷ c ∷ d ∷ e ∷ f ∷ []) ok = cc
date_numbers (a ∷ b ∷ c ∷ d ∷ e ∷ f ∷ g ∷ []) ok = cc
date_numbers (a ∷ b ∷ c ∷ d ∷ e ∷ f ∷ g ∷ h ∷ i ∷ bs) ok = absurd (and_false _ ok)

-- The lengths of the months by their numbers, and the years in which the second has 29 days.
abbrev pub month_lengths : Bool → List ℕ
month_lengths leap =
    0 ∷ 31 ∷ (if leap then 29 else 28) ∷ 31 ∷ 30 ∷ 31 ∷ 30 ∷ 31 ∷ 31 ∷ 30 ∷ 31 ∷ 30 ∷ 31 ∷ []

abbrev pub is_leap_year : ℕ → Bool
is_leap_year y = y % 400 == 0 || y % 4 == 0 && not (y % 100 == 0)

abbrev pub is_calendar_day : ℕ → ℕ → ℕ → Bool
is_calendar_day y m d = leb 1 d && leb d (get_or (month_lengths (is_leap_year y)) m 0)

leap_lem : (y : ℕ) → is_leap y ≡ is_leap_year y
leap_lem y = ground arith

is_day_lem : (y m d : ℕ) → is_day y m d ≡ is_calendar_day y m d
unfolding is_day days_in
is_day_lem y zero d = ground arith
is_day_lem y (suc zero) d = ground arith
is_day_lem y (suc (suc zero)) d = rw leap_lem (ground arith)
is_day_lem y (suc (suc (suc zero))) d = ground arith
is_day_lem y (suc (suc (suc (suc zero)))) d = ground arith
is_day_lem y (suc (suc (suc (suc (suc zero))))) d = ground arith
is_day_lem y (suc (suc (suc (suc (suc (suc zero)))))) d = ground arith
is_day_lem y (suc (suc (suc (suc (suc (suc (suc zero))))))) d = ground arith
is_day_lem y (suc (suc (suc (suc (suc (suc (suc (suc zero)))))))) d = ground arith
is_day_lem y (suc (suc (suc (suc (suc (suc (suc (suc (suc zero))))))))) d = ground arith
is_day_lem y (suc (suc (suc (suc (suc (suc (suc (suc (suc (suc zero)))))))))) d = ground arith
is_day_lem y (suc (suc (suc (suc (suc (suc (suc (suc (suc (suc (suc zero))))))))))) d = ground arith
is_day_lem y (suc (suc (suc (suc (suc (suc (suc (suc (suc (suc (suc (suc zero)))))))))))) d =
    ground arith
is_day_lem y (suc (suc (suc (suc (suc (suc (suc (suc (suc (suc (suc (suc (suc m))))))))))))) d =
    ground arith

-- A day of the calendar, of a year below 10000, in eight digits.
abbrev pub IsDate : Bytes → Type 0
IsDate bs =
    (y : ℕ) × (m : ℕ) × (d : ℕ) × (y < 10000)
    × (is_calendar_day y m d ≡ true)
    × (bs ≡ print_date y m d)

pub is_date-IsDate : (bs : Bytes) → (is_date bs ≡ true) ↔ IsDate bs
is_date-IsDate bs = (
  λ h.
      let (y, m, d, small, day, same) = date_numbers bs h in
      (y, m, d, small, sym (is_day_lem y m d) ∙ day, same),
  λ (y, m, d, small, day, same).
      ap is_date same ∙ is_date-print_date y m d small (is_day_lem y m d ∙ day),
)
