-- ===== src/Common/Text.antt =====
-- Go strings as byte lists, where the program looks inside them: equality, suffixes, membership.
use Prim.Native.Char.{code}
use Prim.Native.Nat.{ℕ, zero, suc, ◌-◌, ◌≤◌, ◌<◌}
use Prim.Native.String.{String}
use mathlib.Core.Path.{◌≡◌, refl, sym, ap, ◌∙◌}
use mathlib.Core.Logic.{inl, inr}
use mathlib.Core.Bool.{Bool, true, false, ◌&&◌, ◌||◌}
use mathlib.Core.List.{List, [], ◌∷◌}
use native.Mathlib.Omega.{arith}
use hstongapi4go.Common.Tests.{leb, ◌==◌, if◌then◌else◌, Bool-cases}
use hstongapi4go.Common.Lists.{length, take, drop}
use hstongapi4go.Common.Bytes.{Bytes}

abbrev pub codes : String → Bytes
codes String.[] = []
codes (String.◌∷◌ c s) = code c ∷ codes s

unfoldable pub bytes_eq : Bytes → Bytes → Bool
bytes_eq [] [] = true
bytes_eq (x ∷ xs) (y ∷ ys) = x == y && bytes_eq xs ys
bytes_eq _ _ = false

pub bytes_eq_refl : (xs : Bytes) → bytes_eq xs xs ≡ true
unfolding bytes_eq
bytes_eq_refl [] = refl
bytes_eq_refl (x ∷ xs) = ground (arith, bytes_eq_refl xs)

pub eq_of_bytes_eq : (xs ys : Bytes) → bytes_eq xs ys ≡ true → xs ≡ ys
unfolding bytes_eq
eq_of_bytes_eq [] [] h = refl
eq_of_bytes_eq [] (y ∷ ys) h = cc
eq_of_bytes_eq (x ∷ xs) [] h = cc
eq_of_bytes_eq (x ∷ xs) (y ∷ ys) h = ground (arith, eq_of_bytes_eq xs ys)

-- Membership in a constant set of paths.
unfoldable pub contains : Bytes → List Bytes → Bool
contains p [] = false
contains p (q ∷ qs) = bytes_eq p q || contains p qs

-- A test of every member of a set.
unfoldable pub all : (Bytes → Bool) → List Bytes → Bool
all p [] = true
all p (q ∷ qs) = p q && all p qs

pub all-contains :
    (p : Bytes → Bool) (qs : List Bytes) (q : Bytes)
    → all p qs ≡ true
    → contains q qs ≡ true
    → p q ≡ true
unfolding all contains
all-contains p [] q h c = cc
all-contains p (r ∷ qs) q h c = elim (Bool-cases (bytes_eq q r)) [
  | inl e ↦ rw (eq_of_bytes_eq q r e) (ground arith)
  | inr e ↦ all-contains p qs q (ground arith) (rw e at c)
]

-- `strings.HasSuffix` and `strings.TrimSuffix`.
unfoldable pub has_suffix : Bytes → Bytes → Bool
has_suffix s suffix =
    leb (length suffix) (length s) && bytes_eq (drop (length s - length suffix) s) suffix

unfoldable pub trim_suffix : Bytes → Bytes → Bytes
trim_suffix s suffix = if has_suffix s suffix then take (length s - length suffix) s else s

abbrev pub last_or : ℕ → Bytes → ℕ
last_or d [] = d
last_or d (x ∷ xs) = last_or x xs

-- A proper cut keeps the last byte.
last-drop : (n : ℕ) (d : ℕ) (s : Bytes) → n < length s → last_or d (drop n s) ≡ last_or d s
last-drop zero d s h = refl
last-drop (suc n) d [] h = absurd (omega arith)
last-drop (suc n) d (x ∷ []) h = absurd (omega arith)
last-drop (suc n) d (x ∷ y ∷ ys) h = last-drop n d (y ∷ ys) (omega arith)

-- A text with a suffix ends with the suffix's last byte.
pub last-has_suffix :
    (s suffix : Bytes) (d : ℕ)
    → has_suffix s suffix ≡ true
    → 0 < length suffix
    → last_or d s ≡ last_or d suffix
unfolding has_suffix
last-has_suffix s suffix d h n =
    let k = length s - length suffix in
    let same : bytes_eq (drop k s) suffix ≡ true = ground arith in
    let fits : length suffix ≤ length s = ground arith in
    sym (last-drop k d s (omega arith)) ∙ ap (last_or d) (eq_of_bytes_eq (drop k s) suffix same)

-- A text without the suffix is left as it is.
pub trim_suffix_none : (s suffix : Bytes) → has_suffix s suffix ≡ false → trim_suffix s suffix ≡ s
unfolding trim_suffix
trim_suffix_none s suffix h = rw h refl
