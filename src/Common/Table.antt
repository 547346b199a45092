-- ===== src/Common/Table.antt =====
-- Go maps with byte-string keys, as association lists that hold a key once, and the lists of numbers
-- that such maps keep. A number stands for a pointer.
use Prim.Native.Nat.{ℕ, ◌+◌, ◌-◌}
use mathlib.Core.Path.{◌≡◌, refl, sym, ap, ◌∙◌}
use mathlib.Core.Bool.{true, false}
use mathlib.Core.Logic.{inl, inr}
use mathlib.Core.Option.{Option, none, some}
use mathlib.Core.List.{List, [], ◌∷◌, ◌++◌}
use native.Mathlib.Omega.{arith}
use hstongapi4go.Common.Tests.{◌==◌, if◌then◌else◌, Bool-cases}
use hstongapi4go.Common.Bytes.{Bytes}
use hstongapi4go.Common.Text.{bytes_eq, eq_of_bytes_eq}

-- A key is one other key at most.
pub bytes_eq_other :
    (j k x : Bytes) → bytes_eq j k ≡ false → bytes_eq k x ≡ true → bytes_eq j x ≡ false
bytes_eq_other j k x h e = ap (bytes_eq j) (sym (eq_of_bytes_eq k x e)) ∙ h

module _ {V : Type 0} where
  unfoldable pub find : Bytes → List (Bytes × V) → Option V
  find k [] = none
  find k ((j, v) ∷ m) = if bytes_eq j k then some v else find k m

  -- `m[k] = v`.
  unfoldable pub put : Bytes → V → List (Bytes × V) → List (Bytes × V)
  put k v [] = (k, v) ∷ []
  put k v ((j, u) ∷ m) = let rest = put k v m in if bytes_eq j k then (j, v) ∷ m else (j, u) ∷ rest

  -- `delete(m, k)`.
  unfoldable pub remove : Bytes → List (Bytes × V) → List (Bytes × V)
  remove k [] = []
  remove k ((j, u) ∷ m) = let rest = remove k m in if bytes_eq j k then rest else (j, u) ∷ rest

  pub find-put :
      (k : Bytes) (v : V) (m : List (Bytes × V)) (x : Bytes)
      → find x (put k v m) ≡ (if bytes_eq k x then some v else find x m)
  unfolding find put
  find-put k v [] x = refl
  find-put k v ((j, u) ∷ m) x = elim (Bool-cases (bytes_eq j k)) [
    | inl e ↦ rw (e, eq_of_bytes_eq j k e) (ground arith)
    | inr e ↦ ground (arith, bytes_eq_other j k x e, find-put k v m x)
  ]

  pub find-remove :
      (k : Bytes) (m : List (Bytes × V)) (x : Bytes)
      → find x (remove k m) ≡ (if bytes_eq k x then none else find x m)
  unfolding find remove
  find-remove k [] x = ground arith
  find-remove k ((j, u) ∷ m) x = elim (Bool-cases (bytes_eq j k)) [
    | inl e ↦ rw (e, eq_of_bytes_eq j k e) (ground (arith, find-remove k m x))
    | inr e ↦ ground (arith, bytes_eq_other j k x e, find-remove k m x)
  ]

-- How often a number stands in a list.
unfoldable pub count : ℕ → List ℕ → ℕ
count i [] = 0
count i (x ∷ xs) = if x == i then 1 + count i xs else count i xs

-- The loop that removes the first occurrence.
unfoldable pub erase : ℕ → List ℕ → List ℕ
erase i [] = []
erase i (x ∷ xs) = let rest = erase i xs in if x == i then xs else x ∷ rest

pub count-append : (i : ℕ) (xs ys : List ℕ) → count i (xs ++ ys) ≡ count i xs + count i ys
unfolding count
count-append i [] ys = omega arith
count-append i (x ∷ xs) ys = ground (arith, count-append i xs ys)

pub count-erase_self : (i : ℕ) (xs : List ℕ) → count i (erase i xs) ≡ count i xs - 1
unfolding count erase
count-erase_self i [] = omega arith
count-erase_self i (x ∷ xs) = ground (arith, count-erase_self i xs)

pub count-erase : (i j : ℕ) (xs : List ℕ) → (j == i) ≡ false → count i (erase j xs) ≡ count i xs
unfolding count erase
count-erase i j [] h = refl
count-erase i j (x ∷ xs) h = ground (arith, count-erase i j xs h)
