-- ===== src/Services/Registry/Laws/Leaving.antt =====
-- `Cancel` keeps the registry of pkg/services/push.go consistent.
use mathlib.Core.Path.{subst}
use hstongapi4go.Common.{
  ℕ, ◌-◌, ◌≡◌, refl, ap, ◌∙◌, sym, true, false, Option, none, some, List, [], ◌∷◌, ◌==◌, get_elem?,
  set, arith, if◌then◌else◌, Bool-cases, inl, inr, ==_iff,
}
use hstongapi4go.Common.Bytes.{Bytes}
use hstongapi4go.Common.Text.{bytes_eq, bytes_eq_refl, eq_of_bytes_eq}
use hstongapi4go.Common.Table.{find, put, remove, erase, count, find-put, find-remove}
use hstongapi4go.Domain.Symbol.{is_empty}
use hstongapi4go.Services.Push.Keys.{security_keys}
use hstongapi4go.Services.Registry.{
  Subscription, Entry, Registry, key_of, cancel_local, cancel_sub, detach_locked, leave, detach_by,
  remove_from_index,
}
use hstongapi4go.Services.Registry.Index.{
  one_if, only_if, count-remove_from_index, count-erase_any, times-security_keys,
}
use hstongapi4go.Services.Registry.Laws.{
  IsSound, holders, subs_of, owns, routes, asks_for, is_vacant, is_keyed, get_elem?-set,
}

-- The table after a subscription left an entry: the entry goes with the last of them.
unfoldable pub left_table : Bytes → Entry → List ℕ → List (Bytes × Entry) → List (Bytes × Entry)
left_table key e [] entries = remove key entries
left_table key e (x ∷ xs) entries = put key (record e { subs = x ∷ xs }) entries

left_entry : Entry → List ℕ → Option Entry
left_entry e [] = none
left_entry e (x ∷ xs) = some (record e { subs = x ∷ xs })

find-left_table :
    (key : Bytes) (e : Entry) (left : List ℕ) (entries : List (Bytes × Entry)) (k : Bytes)
    → find k (left_table key e left entries)
      ≡ (if bytes_eq key k then left_entry e left else find k entries)
unfolding left_table left_entry
find-left_table key e [] entries k = find-remove key entries k
find-left_table key e (x ∷ xs) entries k = find-put key (record e { subs = x ∷ xs }) entries k

subs-left_entry : (e : Entry) (left : List ℕ) → subs_of (left_entry e left) ≡ left
unfolding left_entry
subs-left_entry e [] = refl
subs-left_entry e (x ∷ xs) = refl

abbrev pub gone : Entry → List ℕ → Option Entry
gone e [] = some (record e { subs = [] })
gone e (x ∷ xs) = none

leave_lem :
    (key : Bytes) (e : Entry) (left : List ℕ) (index : Bytes → List ℕ) (r : Registry)
    → leave key e left index r
      ≡ (record r { entries = left_table key e left r.entries; by_key = index }, gone e left)
unfolding leave left_table gone
leave_lem key e [] index r = refl
leave_lem key e (x ∷ xs) index r = refl

pub holders-left_table :
    (key : Bytes) (e : Entry) (left : List ℕ) (entries : List (Bytes × Entry))
    → holders (left_table key e left entries) key ≡ left
holders-left_table key e left entries = rw (find-left_table, bytes_eq_refl) (subs-left_entry e left)

asks-left_entry :
    (e : Entry) (left : List ℕ) (j : ℕ) (k : Bytes)
    → count j left ≡ 1
    → asks_for (left_entry e left) k ≡ asks_for (some e) k
unfolding left_entry count
asks-left_entry e [] j k h = absurd (omega arith)
asks-left_entry e (x ∷ xs) j k h = refl

keyed_left :
    (e : Entry) (left : List ℕ) (k : Bytes)
    → is_keyed k (some e) ≡ true
    → is_keyed k (left_entry e left) ≡ true
unfolding left_entry
keyed_left e [] k h = refl
keyed_left e (x ∷ xs) k h = h

vacant_left :
    (e : Entry) (left : List ℕ)
    → is_vacant (left_entry e left) ≡ is_empty (subs_of (left_entry e left))
unfolding left_entry
vacant_left e [] = refl
vacant_left e (x ∷ xs) = refl

module _ (r : Registry) (sound : IsSound r) (i : ℕ) (s : Subscription) (e : Entry)
    (known : get_elem? r.made i ≡ some s) (is_open : s.closed ≡ false)
    (found : find (key_of s) r.entries ≡ some e) where
  abbrev pub left : List ℕ
  left = erase i e.subs

  abbrev pub after : Registry
  after = record r {
    made = set r.made i (record s { closed = true });
    entries = left_table (key_of s) e left r.entries;
    by_key = remove_from_index (security_keys e.securities) i r.by_key;
  }

  pub cancelled : cancel_local i r ≡ (after, gone e left)
  unfolding cancel_local cancel_sub detach_locked detach_by
  cancelled = rw (known, is_open, found, leave_lem) refl

  -- The subscriptions that hold a key, with the one that goes.
  count_left :
      (j : ℕ) (k : Bytes)
      → bytes_eq (key_of s) k ≡ true
      → count j left ≡ one_if (owns (get_elem? r.made j) k) - only_if (i == j) 1
  count_left j k f = rw count-erase_any (
      ap (λ n. n - only_if (i == j) 1)
        (ap (λ o. count j (subs_of o)) (sym found)
          ∙ ap (λ x. count j (holders r.entries x)) (eq_of_bytes_eq (key_of s) k f)
          ∙ sound.held j k))

  held :
      (j : ℕ) (k : Bytes)
      → count j (holders after.entries k) ≡ one_if (owns (get_elem? after.made j) k)
  held j k =
      rw (find-left_table, get_elem?-set r.made i j _ s known)
        (elim (Bool-cases (bytes_eq (key_of s) k)) [
          | inl f ↦
              rw (f, subs-left_entry, count_left j k f)
                (elim (Bool-cases (i == j)) [
                  | inl n ↦ rw (n, ← (==_iff i j).0 n, known, is_open, f) (omega arith)
                  | inr n ↦ rw n (omega arith)
                ])
          | inr f ↦
              rw (f, sound.held j k)
                (elim (Bool-cases (i == j)) [
                  | inl n ↦ rw (n, ← (==_iff i j).0 n, known, f, is_open) refl
                  | inr n ↦ rw n refl
                ])
        ])

  -- A subscription that stays asks for what it asked for.
  same_routes :
      (j : ℕ) (k : Bytes) (o : Option Subscription)
      → get_elem? r.made j ≡ o
      → (i == j) ≡ false
      → routes after.entries o k ≡ routes r.entries o k
  same_routes j k none g n = refl
  same_routes j k (some u) g n = rw find-left_table (elim (Bool-cases u.closed) [
    | inl c ↦ rw c refl
    | inr c ↦ elim (Bool-cases (bytes_eq (key_of s) (key_of u))) [
      | inl f ↦
          rw (c, f)
            (let stays : count j left ≡ 1 =
                rw (count_left j (key_of u) f, g, n, c, bytes_eq_refl) (omega arith) in
              asks-left_entry e left j k stays
              ∙ ap (λ o. asks_for o k) (sym found)
              ∙ ap (λ x. asks_for (find x r.entries) k) (eq_of_bytes_eq (key_of s) (key_of u) f))
      | inr f ↦ rw (c, f) refl
    ]
  ])

  routed :
      (j : ℕ) (k : Bytes)
      → count j (after.by_key k) ≡ one_if (routes after.entries (get_elem? after.made j) k)
  routed j k =
      rw
        (
          count-remove_from_index,
          get_elem?-set r.made i j _ s known,
          times-security_keys,
          sound.routed j k,
        )
        (elim (Bool-cases (i == j)) [
          | inl n ↦ rw (n, ← (==_iff i j).0 n, known, is_open, found) (omega arith)
          | inr n ↦ rw (n, same_routes j k (get_elem? r.made j) refl n) (omega arith)
        ])

  peopled : (k : Bytes) → is_vacant (find k after.entries) ≡ is_empty (holders after.entries k)
  peopled k = rw find-left_table (elim (Bool-cases (bytes_eq (key_of s) k)) [
    | inl f ↦ rw f (vacant_left e left)
    | inr f ↦ rw f (sound.peopled k)
  ])

  keyed : (k : Bytes) → is_keyed k (find k after.entries) ≡ true
  keyed k = rw find-left_table (elim (Bool-cases (bytes_eq (key_of s) k)) [
    | inl f ↦ rw f (
        keyed_left e left k (
          subst (λ o. is_keyed k o ≡ true) found
            (subst (λ x. is_keyed k (find x r.entries) ≡ true) (sym (eq_of_bytes_eq (key_of s) k f))
              (sound.keyed k))))
    | inr f ↦ rw f (sound.keyed k)
  ])

  pub cancel_local-IsSound : IsSound (cancel_local i r).0
  cancel_local-IsSound =
      rw cancelled (record { held = held; routed = routed; peopled = peopled; keyed = keyed })
