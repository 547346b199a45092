-- ===== src/Services/Push/Keys/Sorted.antt =====
-- The order of the instruments does not enter the key of a subscription (pkg/services/push.go).
use hstongapi4go.Common.{
  ◌≡◌, refl, sym, ap, ◌∙◌, true, false, List, [], ◌∷◌, ◌++◌, map, arith, Bool-cases, inl, inr,
}
use mathlib.Core.List.{Perm, Permᴰ}
use mathlib.Core.Logic.{∥∥₁_elim}
use native.Mathlib.Nat.{ℕ_set}
use hstongapi4go.Common.Int.{ℤ}
use hstongapi4go.Common.Bytes.{Bytes}
use hstongapi4go.Services.Validation.{bytes_less}
use hstongapi4go.Services.Push.Keys.{Security, insert, sort, part, canonical_push_key, join}
use hstongapi4go.Common.Decimal.{itoa}

bytes_less_trans :
    (x y z : Bytes) → bytes_less x y ≡ true → bytes_less y z ≡ true → bytes_less x z ≡ true
unfolding bytes_less
bytes_less_trans _ [] [] h k = absurd (cc)
bytes_less_trans [] (y ∷ ys) (z ∷ zs) h k = refl
bytes_less_trans [] [] (z ∷ zs) h k = refl
bytes_less_trans (x ∷ xs) [] (z ∷ zs) h k = absurd (cc)
bytes_less_trans _ (y ∷ ys) [] h k = absurd (cc)
bytes_less_trans (x ∷ xs) (y ∷ ys) (z ∷ zs) h k = ground (arith, bytes_less_trans xs ys zs)

bytes_less_total : (x y : Bytes) → bytes_less x y ≡ false → bytes_less y x ≡ false → x ≡ y
unfolding bytes_less
bytes_less_total [] [] h k = refl
bytes_less_total [] (y ∷ ys) h k = absurd (cc)
bytes_less_total (x ∷ xs) [] h k = absurd (cc)
bytes_less_total (x ∷ xs) (y ∷ ys) h k = ground (arith, bytes_less_total xs ys)

bytes_less_asymm : (x y : Bytes) → bytes_less x y ≡ true → bytes_less y x ≡ false
unfolding bytes_less
bytes_less_asymm [] [] h = refl
bytes_less_asymm [] (y ∷ ys) h = refl
bytes_less_asymm (x ∷ xs) [] h = absurd (cc)
bytes_less_asymm (x ∷ xs) (y ∷ ys) h = ground (arith, bytes_less_asymm xs ys)

insert_comm_lt :
    (x y : Bytes) (zs : List Bytes)
    → bytes_less x y ≡ true
    → insert x (insert y zs) ≡ insert y (insert x zs)
unfolding insert
insert_comm_lt x y [] h = ground (arith, bytes_less_asymm x y)
insert_comm_lt x y (z ∷ zs) h =
    ground (arith, bytes_less_asymm x y, bytes_less_trans z x y, insert_comm_lt x y zs h)

insert_comm : (x y : Bytes) (zs : List Bytes) → insert x (insert y zs) ≡ insert y (insert x zs)
insert_comm x y zs = elim (Bool-cases (bytes_less x y)) [
  | inl h ↦ insert_comm_lt x y zs h
  | inr h ↦ elim (Bool-cases (bytes_less y x)) [
    | inl k ↦ sym (insert_comm_lt y x zs k)
    | inr k ↦
        ap (λ v. insert x (insert v zs)) (sym (bytes_less_total x y h k))
        ∙ ap (λ v. insert v (insert x zs)) (bytes_less_total x y h k)
  ]
]

sorted_parts : {ss ts : List Security} → Permᴰ ss ts → sort (map part ss) ≡ sort (map part ts)
unfolding sort
sorted_parts Permᴰ.nil = refl
sorted_parts (Permᴰ.cons e p) = rw (e, sorted_parts p) refl
sorted_parts (Permᴰ.swap {a' = a'} {b' = b'} {l = l} e f) =
    rw (e, f) (insert_comm (part b') (part a') (sort (map part l)))
sorted_parts (Permᴰ.trans p q) = sorted_parts p ∙ sorted_parts q

key_set : IsSet Bytes
key_set = hlevel (ℕ_set)

-- Two lists of the same instruments, in whatever order, have one key, for each topic.
pub canonical_push_key-Perm :
    (topic : ℤ) (ss ts : List Security)
    → Perm ss ts
    → canonical_push_key topic ss ≡ canonical_push_key topic ts
unfolding canonical_push_key
canonical_push_key-Perm topic ss ts p =
    ∥∥₁_elim p (key_set _ _)
      (λ d. ap (λ parts. itoa topic ++ (0 ∷ join (1 ∷ []) parts)) (sorted_parts d))
