-- ===== src/Services/Registry/Laws/Joining.antt =====
-- `Subscribe` keeps the registry of pkg/services/push.go consistent.
use mathlib.Core.Path.{subst}
use hstongapi4go.Common.{
  ℕ, ◌≡◌, refl, ap, ◌∙◌, sym, true, false, Option, none, some, List, [], ◌∷◌, ◌++◌, ◌==◌, length,
  get_elem?, arith, Bool-cases, inl, inr, ◌⊎◌, ==_iff,
}
use hstongapi4go.Common.Int.{ℤ}
use hstongapi4go.Common.Bytes.{Bytes}
use hstongapi4go.Common.Text.{bytes_eq, bytes_eq_refl, eq_of_bytes_eq, contains}
use hstongapi4go.Common.Table.{find, count, find-put}
use hstongapi4go.Domain.Symbol.{is_empty}
use hstongapi4go.Services.Push.Keys.{Security, security_keys, canonical_push_key}
use hstongapi4go.Services.Registry.{Subscription, Entry, Registry, key_of, join_entry}
use hstongapi4go.Services.Registry.Index.{one_if, count-attach, count-add, times-security_keys}
use hstongapi4go.Services.Registry.Laws.{
  IsSound, holders, owns, routes, asks_for, is_vacant, is_keyed, get_elem?-snoc, get_elem?-length,
}

-- The entry that `Subscribe` uses: the one of the key, or a new one where there is none.
abbrev pub IsEntryFor : Bytes → List (Bytes × Entry) → Entry → Type 0
IsEntryFor key entries e = (find key entries ≡ some e) ⊎ ((find key entries ≡ none) × (e.subs ≡ []))

not_empty : (xs : List ℕ) (x : ℕ) → is_empty (xs ++ (x ∷ [])) ≡ false
not_empty [] x = refl
not_empty (y ∷ ys) x = refl

module _ (topic : ℤ) (t : ℕ) (ss : List Security) (e : Entry) (r : Registry) (sound : IsSound r)
    (fits : IsEntryFor (canonical_push_key topic ss) r.entries e)
    (fit_key : is_keyed (canonical_push_key topic ss) (some e) ≡ true) where
  abbrev key : Bytes
  key = canonical_push_key topic ss

  abbrev after : Registry
  after = join_entry topic t ss key e r

  same_subs : holders r.entries key ≡ e.subs
  same_subs = elim fits [ inl f ↦ rw f refl | inr f ↦ rw (f.0, f.1) refl ]

  before :
      (i : ℕ) (k : Bytes)
      → bytes_eq key k ≡ true
      → count i e.subs ≡ one_if (owns (get_elem? r.made i) k)
  before i k f =
      ap (count i) (sym same_subs)
      ∙ ap (λ x. count i (holders r.entries x)) (eq_of_bytes_eq key k f)
      ∙ sound.held i k

  -- The new subscription's number is that of none before it.
  absent : (i : ℕ) → (length r.made == i) ≡ true → get_elem? r.made i ≡ none
  absent i n = rw (← (==_iff _ i).0 n) (get_elem?-length r.made)

  held :
      (i : ℕ) (k : Bytes)
      → count i (holders after.entries k) ≡ one_if (owns (get_elem? after.made i) k)
  unfolding join_entry
  held i k =
      rw (find-put, get_elem?-snoc)
        (elim (Bool-cases (length r.made == i)) [
          | inl n ↦ elim (Bool-cases (bytes_eq key k)) [
            | inl f ↦
                rw (n, f, count-add, n)
                  (omega (arith, (before i k f ∙ ap (λ o. one_if (owns o k)) (absent i n))))
            | inr f ↦ rw (n, f) (sound.held i k ∙ ap (λ o. one_if (owns o k)) (absent i n))
          ]
          | inr n ↦ elim (Bool-cases (bytes_eq key k)) [
            | inl f ↦ rw (n, f, count-add, n) (omega (arith, before i k f))
            | inr f ↦ rw (n, f) (sound.held i k)
          ]
        ])

  one_owner :
      (i : ℕ) (s : Subscription)
      → get_elem? r.made i ≡ some s
      → s.closed ≡ false
      → one_if (owns (get_elem? r.made i) (key_of s)) ≡ 1
  one_owner i s g c = rw (g, c, bytes_eq_refl) refl

  same_ask :
      (i : ℕ) (k : Bytes) (s : Subscription)
      → get_elem? r.made i ≡ some s
      → s.closed ≡ false
      → bytes_eq key (key_of s) ≡ true
      → contains k (security_keys e.securities) ≡ asks_for (find (key_of s) r.entries) k
  unfolding count
  same_ask i k s g c f = elim fits [
    | inl p ↦
        ap (λ o. asks_for o k) (sym p)
        ∙ ap (λ x. asks_for (find x r.entries) k) (eq_of_bytes_eq key (key_of s) f)
    | inr p ↦ absurd (omega (arith, ap (count i) p.1, before i (key_of s) f, one_owner i s g c))
  ]

  -- A subscription made before asks for what it asked for.
  same_routes :
      (i : ℕ) (k : Bytes) (o : Option Subscription)
      → get_elem? r.made i ≡ o
      → routes after.entries o k ≡ routes r.entries o k
  unfolding join_entry
  same_routes i k none g = refl
  same_routes i k (some s) g = rw find-put (elim (Bool-cases s.closed) [
    | inl c ↦ rw c refl
    | inr c ↦ elim (Bool-cases (bytes_eq key (key_of s))) [
      | inl f ↦ rw (c, f) (same_ask i k s g c f)
      | inr f ↦ rw (c, f) refl
    ]
  ])

  routed :
      (i : ℕ) (k : Bytes)
      → count i (after.by_key k) ≡ one_if (routes after.entries (get_elem? after.made i) k)
  unfolding join_entry
  routed i k =
      rw (count-attach, get_elem?-snoc, times-security_keys)
        (elim (Bool-cases (length r.made == i)) [
          | inl n ↦
              rw (n, find-put, bytes_eq_refl)
                (omega
                  (arith, sound.routed i k ∙ ap (λ o. one_if (routes r.entries o k)) (absent i n)))
          | inr n ↦ rw n (
              omega (
                arith,
                sound.routed i k ∙ ap one_if (sym (same_routes i k (get_elem? r.made i) refl)),
              ))
        ])

  peopled : (k : Bytes) → is_vacant (find k after.entries) ≡ is_empty (holders after.entries k)
  unfolding join_entry
  peopled k = rw find-put (elim (Bool-cases (bytes_eq key k)) [
    | inl f ↦ rw f (sym (not_empty e.subs (length r.made)))
    | inr f ↦ rw f (sound.peopled k)
  ])

  keyed : (k : Bytes) → is_keyed k (find k after.entries) ≡ true
  unfolding join_entry
  keyed k = rw find-put (elim (Bool-cases (bytes_eq key k)) [
    | inl f ↦ rw f (subst (λ x. is_keyed x (some e) ≡ true) (eq_of_bytes_eq key k f) fit_key)
    | inr f ↦ rw f (sound.keyed k)
  ])

  pub join_entry-IsSound : IsSound after
  join_entry-IsSound = record { held = held; routed = routed; peopled = peopled; keyed = keyed }
