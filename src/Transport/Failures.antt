-- ===== src/Transport/Failures.antt =====
-- The status codes that are found in the Gateway's failures (internal/transport/transport.go).
use Prim.Native.Char.{Char, code}
use hstongapi4go.Common.{
  ℕ, ◌*◌, ◌/◌, ◌≤◌, max, ◌≡◌, refl, String, Bool, true, false, ◌&&◌, some, arith, leb, str_eq,
  Bool-cases, inl, inr, eq_iff, ◌⊎◌,
}
use hstongapi4go.Common.Int.{pos}
use hstongapi4go.Common.Dict.{lookup, by_table}
use hstongapi4go.Errs.{
  StatusCode, known_code, message_for_code, category_for_code, code_table, typed, nil_error,
  new_error, wrap,
}
use hstongapi4go.Transport.{
  is_space, is_separator, is_digit, trim_left, trim_right, trim_space, digits, end_of_digits,
  keep_left, classify_failure, failure, timeout_seconds, second,
}

infixr 65 ◌+++◌
-- A text behind another.
abbrev pub ◌+++◌ : String → String → String
String.[] +++ t = t
(String.◌∷◌ c s) +++ t = String.◌∷◌ c (s +++ t)

-- A test of every rune, and of the first of them, which there is.
abbrev pub all_runes : (ℕ → Bool) → String → Bool
all_runes p String.[] = true
all_runes p (String.◌∷◌ c s) = p (code c) && all_runes p s

abbrev pub starts : (ℕ → Bool) → String → Bool
starts p String.[] = false
starts p (String.◌∷◌ c s) = p (code c)

-- The documented codes are four or five digits.
abbrev IsShaped : StatusCode → Type 0
IsShaped c =
    known_code c ≡ true
    → (all_runes is_digit c ≡ true) × ((leb 4 (end_of_digits c) && leb (end_of_digits c) 5) ≡ true)

known_code-IsShaped : (c : StatusCode) → IsShaped c
unfolding known_code
known_code-IsShaped = by_table IsShaped code_table (ground arith) (λ c h k. ground arith)

digits-append :
    (c s : String)
    → all_runes is_digit c ≡ true
    → starts is_digit s ≡ false
    → (digits (c +++ s) ≡ c) × (end_of_digits (c +++ s) ≡ end_of_digits c)
digits-append String.[] String.[] a h = (refl, refl)
digits-append String.[] (String.◌∷◌ d s) a h = rw h (refl, refl)
digits-append (String.◌∷◌ b c) s a h =
    let (l, r) = digits-append c s (ground arith) h in
    let first : is_digit (code b) ≡ true = ground arith in rw (first, l, r) (refl, refl)

trim_left-none : (p : ℕ → Bool) (s : String) → starts p s ≡ false → trim_left p s ≡ s
trim_left-none p String.[] h = refl
trim_left-none p (String.◌∷◌ c s) h = rw h refl

trim_left-append :
    (p : ℕ → Bool) (xs s : String)
    → all_runes p xs ≡ true
    → starts p s ≡ false
    → trim_left p (xs +++ s) ≡ s
trim_left-append p String.[] s a h = trim_left-none p s h
trim_left-append p (String.◌∷◌ c xs) s a h =
    let first : p (code c) ≡ true = ground arith in
    rw first (trim_left-append p xs s (ground arith) h)

keep_left-append :
    (c : Char) (xs s : String)
    → str_eq s "" ≡ false
    → keep_left c (xs +++ s) ≡ String.◌∷◌ c (xs +++ s)
keep_left-append c String.[] String.[] n = absurd (cc)
keep_left-append c String.[] (String.◌∷◌ d s) n = refl
keep_left-append c (String.◌∷◌ x xs) s n = refl

-- What ends with no space still does behind other text.
trim_right-append :
    (xs s : String) → str_eq s "" ≡ false → trim_right s ≡ s → trim_right (xs +++ s) ≡ xs +++ s
trim_right-append String.[] s n h = h
trim_right-append (String.◌∷◌ c xs) s n h =
    rw (trim_right-append xs s n h) (keep_left-append c xs s n)

not_all_runes :
    (p : ℕ → Bool) (xs s : String)
    → str_eq s "" ≡ false
    → starts p s ≡ false
    → all_runes p (xs +++ s) ≡ false
not_all_runes p String.[] String.[] n h = absurd (cc)
not_all_runes p String.[] (String.◌∷◌ c s) n h = rw h refl
not_all_runes p (String.◌∷◌ x xs) s n h = ground (arith, not_all_runes p xs s n h)

-- A text that is not empty, begins with no space and no separator, and ends with no space.
pub record IsMessage (text : String) : Type 0 where
  pub is_shown : str_eq text "" ≡ false
  pub no_space : starts is_space text ≡ false
  pub no_separator : starts is_separator text ≡ false
  pub no_space_behind : trim_right text ≡ text

cons_not_empty : (c : Char) (s : String) → str_eq (String.◌∷◌ c s) "" ≡ false
cons_not_empty c s = elim (Bool-cases (str_eq (String.◌∷◌ c s) "")) [
  | inl e ↦ let same : String.◌∷◌ c s ≡ "" = (eq_iff (String.◌∷◌ c s) "").0 e in absurd (cc)
  | inr e ↦ e
]

digit_not_space : (d : ℕ) → is_digit d ≡ true → is_space d ≡ false
digit_not_space d h = ground arith

separator_not_digit : (d : ℕ) → is_separator d ≡ true → is_digit d ≡ false
separator_not_digit d h = ground arith

separator_first :
    (sep text : String)
    → starts is_separator sep ≡ true
    → (starts is_digit (sep +++ text) ≡ false) × (str_eq (sep +++ text) "" ≡ false)
separator_first String.[] text h = absurd (cc)
separator_first (String.◌∷◌ c sep) text h =
    (separator_not_digit (code c) h, cons_not_empty c (sep +++ text))

and_left : (a b : Bool) → (a && b) ≡ true → a ≡ true
and_left true b h = refl
and_left false b h = h

code_first :
    (c : StatusCode) (s : String)
    → known_code c ≡ true
    → all_runes is_digit c ≡ true
    → (starts is_space (c +++ s) ≡ false) × (str_eq (c +++ s) "" ≡ false)
unfolding known_code lookup
code_first String.[] s k a = absurd (cc)
code_first (String.◌∷◌ d c) s k a =
    let first : is_digit (code d) ≡ true = and_left (is_digit (code d)) (all_runes is_digit c) a in
    (digit_not_space (code d) first, cons_not_empty d (c +++ s))

trim_space-none : (s : String) → starts is_space s ≡ false → trim_right s ≡ s → trim_space s ≡ s
unfolding trim_space
trim_space-none s h e = rw (trim_left-none is_space s h) e

abbrev IsTrimmed : StatusCode → Type 0
IsTrimmed c = known_code c ≡ true → (trim_space c ≡ c) × (str_eq c "" ≡ false)

known_code-IsTrimmed : (c : StatusCode) → IsTrimmed c
unfolding known_code trim_space
known_code-IsTrimmed = by_table IsTrimmed code_table (ground arith) (λ c h k. ground arith)

module _ (c : StatusCode) (k : known_code c ≡ true) where
  -- A documented code by itself.
  classify_failure-code : classify_failure c ≡ (c, message_for_code c)
  unfolding classify_failure
  classify_failure-code =
      let (trimmed, shown) = known_code-IsTrimmed c k in rw (trimmed, shown, k) refl

  module _ (sep text : String) (s : starts is_separator sep ≡ true)
      (a : all_runes is_separator sep ≡ true) (m : IsMessage text) where
    trim_space-whole : trim_space (c +++ (sep +++ text)) ≡ c +++ (sep +++ text)
    trim_space-whole =
        let rest = separator_first sep text s in
        let first = code_first c (sep +++ text) k (known_code-IsShaped c k).0 in
        trim_space-none (c +++ (sep +++ text)) first.0 (
          trim_right-append c (sep +++ text) rest.1
            (trim_right-append sep text m.is_shown m.no_space_behind))

    not_known : known_code (c +++ (sep +++ text)) ≡ false
    not_known =
        let rest = separator_first sep text s in
        let mixed = not_all_runes is_digit c (sep +++ text) rest.1 rest.0 in
        elim (Bool-cases (known_code (c +++ (sep +++ text)))) [
          | inl e ↦ let shaped = (known_code-IsShaped (c +++ (sep +++ text)) e).0 in absurd (cc)
          | inr e ↦ e
        ]

    classify_failure-text : classify_failure (c +++ (sep +++ text)) ≡ (c, text)
    unfolding classify_failure
    classify_failure-text =
        let rest = sep +++ text in
        let whole = c +++ rest in
        let (digits_c, size) = known_code-IsShaped c k in
        let (no_digit, not_empty) = separator_first sep text s in
        let (cut, cut_at) = digits-append c rest digits_c no_digit in
        let shown = (code_first c rest k digits_c).1 in
        let behind = trim_left-append is_digit c rest digits_c no_digit in
        let message = trim_left-append is_separator sep text a m.no_separator in
        rw
          (
            trim_space-whole,
            shown,
            not_known,
            cut_at,
            cut,
            size,
            k,
            behind,
            message,
            trim_space-none text m.no_space m.no_space_behind,
            m.is_shown,
          )
          refl

messages_shown : (c : StatusCode) → known_code c ≡ true → str_eq (message_for_code c) "" ≡ false
unfolding known_code message_for_code lookup
messages_shown =
    by_table (λ c. known_code c ≡ true → str_eq (message_for_code c) "" ≡ false) code_table
      (ground arith) (λ c h k. ground arith)

-- A failure whose text is a documented code has that code and its documented message. One whose
-- text is a documented code, separators (spaces, colons and the like, at least one) and a message
-- has that code and exactly that message, where the message is not empty, begins with no space and
-- no separator and ends with no space. Either has the category that is documented for the code.
pub failure_lem :
    (op : String) (c : StatusCode) (sep text : String)
    → known_code c ≡ true
    → starts is_separator sep ≡ true
    → all_runes is_separator sep ≡ true
    → IsMessage text
    → let documented = typed c (category_for_code c) (message_for_code c) op nil_error in
      (failure op c ≡ documented)
      × (failure op (c +++ (sep +++ text)) ≡ typed c (category_for_code c) text op nil_error)
unfolding failure new_error wrap
failure_lem op c sep text k s a m =
    let shown = messages_shown c k in
    (
      rw (classify_failure-code c k, shown, shown) refl,
      rw (classify_failure-text c k sep text s a m, m.is_shown, m.is_shown) refl,
    )

-- The timeout of a call is at least a second and at most the default, and no longer than the time
-- that the context leaves, unless that is less than a second.
pub timeout_seconds-bounds :
    (default_timeout left : ℕ)
    → let t = timeout_seconds default_timeout (some (pos left)) in
      (1 ≤ t) × (t ≤ max 1 (default_timeout / second)) × ((t * second ≤ left) ⊎ (t ≡ 1))
unfolding timeout_seconds
timeout_seconds-bounds default_timeout left = ground arith
