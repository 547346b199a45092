-- ===== src/Services/Registry/Index.antt =====
-- The routing index of pkg/services/push.go: what attaching and detaching do to a bucket.
use hstongapi4go.Common.{
  ℕ, ◌+◌, ◌-◌, ◌≡◌, refl, ap, Bool, true, false, List, [], ◌∷◌, ◌++◌, map, arith, ◌==◌, Bool-cases,
  inl, inr, if◌then◌else◌, ==_iff,
}
use hstongapi4go.Common.Bytes.{Bytes}
use hstongapi4go.Common.Text.{bytes_eq, eq_of_bytes_eq, contains}
use hstongapi4go.Common.Table.{count, erase, count-append, count-erase, count-erase_self}
use hstongapi4go.Services.Push.Keys.{Security, distinct_keys, security_keys, normalise_routing_key}
use hstongapi4go.Services.Registry.{at_key, attach, remove_from_index}

-- How often a key stands in a list.
abbrev pub times : Bytes → List Bytes → ℕ
times x [] = 0
times x (k ∷ ks) = if bytes_eq x k then 1 + times x ks else times x ks

abbrev pub only_if : Bool → ℕ → ℕ
only_if true n = n
only_if false n = 0

abbrev pub one_if : Bool → ℕ
one_if true = 1
one_if false = 0

pub bytes_eq_comm : (x y : Bytes) → bytes_eq x y ≡ bytes_eq y x
unfolding bytes_eq
bytes_eq_comm [] [] = refl
bytes_eq_comm [] (y ∷ ys) = refl
bytes_eq_comm (x ∷ xs) [] = refl
bytes_eq_comm (x ∷ xs) (y ∷ ys) = rw (bytes_eq_comm xs ys) (ground arith)

count-one : (i j : ℕ) → count j (i ∷ []) ≡ only_if (i == j) 1
unfolding count
count-one i j = elim (Bool-cases (i == j)) [ inl e ↦ rw e refl | inr e ↦ rw e refl ]

pub count-add : (i j : ℕ) (xs : List ℕ) → count j (xs ++ (i ∷ [])) ≡ count j xs + only_if (i == j) 1
count-add i j xs = rw (count-append, count-one) refl

pub count-attach :
    (ks : List Bytes) (i j : ℕ) (index : Bytes → List ℕ) (x : Bytes)
    → count j (attach ks i index x) ≡ count j (index x) + only_if (i == j) (times x ks)
unfolding attach
count-attach [] i j index x = ground arith
count-attach (k ∷ ks) i j index x =
    let rest = count-attach ks i j (at_key k (index k ++ (i ∷ [])) index) x in
    elim (Bool-cases (bytes_eq x k)) [
      | inl e ↦
          rw (rest, bytes_eq_comm k x, e, count-add)
            (let same = ap (λ y. count j (index y)) (eq_of_bytes_eq x k e) in
              elim (Bool-cases (i == j)) [
                | inl f ↦ rw f (omega (arith, same))
                | inr f ↦ rw f (omega (arith, same))
              ])
      | inr e ↦ rw (rest, bytes_eq_comm k x, e) refl
    ]

-- What erasing does to the count of any number.
pub count-erase_any :
    (i j : ℕ) (xs : List ℕ) → count j (erase i xs) ≡ count j xs - only_if (i == j) 1
count-erase_any i j xs = elim (Bool-cases (i == j)) [
  | inl e ↦ rw (e, (==_iff i j).0 e) (count-erase_self j xs)
  | inr e ↦ rw e (omega (arith, count-erase j i xs e))
]

pub count-remove_from_index :
    (ks : List Bytes) (i j : ℕ) (index : Bytes → List ℕ) (x : Bytes)
    → count j (remove_from_index ks i index x) ≡ count j (index x) - only_if (i == j) (times x ks)
unfolding remove_from_index
count-remove_from_index [] i j index x = ground arith
count-remove_from_index (k ∷ ks) i j index x =
    let rest = count-remove_from_index ks i j (at_key k (erase i (index k)) index) x in
    elim (Bool-cases (bytes_eq x k)) [
      | inl e ↦
          rw (rest, bytes_eq_comm k x, e, count-erase_any)
            (let same = ap (λ y. count j (index y)) (eq_of_bytes_eq x k e) in
              elim (Bool-cases (i == j)) [
                | inl f ↦ rw f (omega (arith, same))
                | inr f ↦ rw f (omega (arith, same))
              ])
      | inr e ↦ rw (rest, bytes_eq_comm k x, e) refl
    ]

-- A key that was seen does not come again, and another comes once at most.
seen_keys :
    (seen cs : List Bytes) (x : Bytes)
    → contains x seen ≡ true
    → times x (distinct_keys seen cs) ≡ 0
unfolding distinct_keys contains
seen_keys seen [] x h = refl
seen_keys seen (c ∷ cs) x h = ground (
  arith,
  seen_keys seen cs x h,
  seen_keys (normalise_routing_key c ∷ seen) cs x,
  eq_of_bytes_eq x (normalise_routing_key c),
)

new_keys :
    (seen cs : List Bytes) (x : Bytes)
    → contains x seen ≡ false
    → times x (distinct_keys seen cs) ≡ one_if (contains x (distinct_keys seen cs))
unfolding distinct_keys contains
new_keys seen [] x h = refl
new_keys seen (c ∷ cs) x h = ground (
  arith,
  new_keys seen cs x h,
  new_keys (normalise_routing_key c ∷ seen) cs x,
  seen_keys (normalise_routing_key c ∷ seen) cs x,
)

pub times-security_keys :
    (ss : List Security) (x : Bytes)
    → times x (security_keys ss) ≡ one_if (contains x (security_keys ss))
unfolding security_keys
times-security_keys ss x = new_keys [] (map (λ s. s.code) ss) x (unfold contains in refl)
