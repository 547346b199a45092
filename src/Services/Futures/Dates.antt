-- ===== src/Services/Futures/Dates.antt =====
-- Which texts pass for dates (pkg/services/algo.go, pkg/services/futures.go).
use hstongapi4go.Common.{String, ◌≡◌, ◌↔◌, ◌∙◌, sym, refl, true, Bool-cases, inl, inr}
use hstongapi4go.Common.Bytes.{Bytes}
use hstongapi4go.Services.Checks.{date_shaped, parses_date, is_date}
use hstongapi4go.Services.Checks.Dates.{IsDate, is_date-IsDate}
use hstongapi4go.Services.Validation.Accepts.{passes}
use hstongapi4go.Services.Algo.{algo_validate_date}
use hstongapi4go.Services.Futures.{futures_validate_date}

passes-algo :
    (op field : String) (bs : Bytes) → passes (algo_validate_date op field bs) ≡ is_date bs
unfolding algo_validate_date is_date
passes-algo op field bs = elim (Bool-cases (date_shaped bs)) [
  | inr e ↦ rw e refl
  | inl e ↦ rw e (elim (Bool-cases (parses_date bs)) [ inl p ↦ rw p refl | inr p ↦ rw p refl ])
]

passes-futures :
    (op field : String) (bs : Bytes) → passes (futures_validate_date op field bs) ≡ is_date bs
unfolding futures_validate_date is_date
passes-futures op field bs = elim (Bool-cases (date_shaped bs)) [
  | inr e ↦ rw e refl
  | inl e ↦ rw e (elim (Bool-cases (parses_date bs)) [ inl p ↦ rw p refl | inr p ↦ rw p refl ])
]

-- The algo and the futures service let a date pass exactly if it is a day of the calendar, of a year
-- below 10000, in eight digits: the month has as many days as the table of the months says, which
-- gives February 29 in the leap years.
pub validate_date_lem :
    (op field : String) (bs : Bytes)
    → ((passes (algo_validate_date op field bs) ≡ true) ↔ IsDate bs)
      × ((passes (futures_validate_date op field bs) ≡ true) ↔ IsDate bs)
validate_date_lem op field bs =
    let (to, from) = is_date-IsDate bs in
    (
      ((λ h. to (sym (passes-algo op field bs) ∙ h)), (λ w. passes-algo op field bs ∙ from w)),
      (
        (λ h. to (sym (passes-futures op field bs) ∙ h)),
        (λ w. passes-futures op field bs ∙ from w),
      ),
    )
