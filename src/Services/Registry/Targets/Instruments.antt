-- ===== src/Services/Registry/Targets/Instruments.antt =====
-- Which instruments the keys of pkg/services/push.go stand for, told apart from the loops that make them.
use hstongapi4go.Common.{
  ℕ, ◌-◌, ◌≡◌, refl, ap, ◌∙◌, sym, Bool, true, false, not, ◌&&◌, ◌||◌, List, [], ◌∷◌, map, length,
  take, drop, ltb, leb, arith, Bool-cases, inl, inr, if◌then◌else◌,
}
use hstongapi4go.Common.Bytes.{Bytes}
use hstongapi4go.Common.Text.{codes, bytes_eq, eq_of_bytes_eq, contains, has_suffix, trim_suffix}
use hstongapi4go.Domain.Symbol.{is_empty}
use hstongapi4go.Services.Push.Keys.{
  Security, trim_space, strip_first, market_suffixes, normalise_routing_key, distinct_keys,
  security_keys, update_routing_keys,
}

-- The last three bytes are the suffix of a market.
abbrev pub is_market : Bytes → Bool
is_market b =
    bytes_eq b (codes ".HK")
    || (bytes_eq b (codes ".US") || (bytes_eq b (codes ".SZ") || bytes_eq b (codes ".SH")))

-- A code without blanks around it, in capitals, and without a market's suffix behind something.
abbrev pub cut_market : Bytes → Bytes
cut_market u =
    if ltb 3 (length u) && is_market (drop (length u - 3) u) then take (length u - 3) u else u

abbrev pub capital : ℕ → ℕ
capital b = if leb 97 b && leb b 122 then b - 32 else b

abbrev pub instrument : Bytes → Bytes
instrument code = cut_market (map capital (trim_space code))

strip_first_lem : (u : Bytes) → strip_first market_suffixes u ≡ cut_market u
unfolding has_suffix trim_suffix
strip_first_lem u = elim (Bool-cases (ltb 3 (length u))) [
  | inr n ↦ rw n refl
  | inl l ↦
      let fits : leb 3 (length u) ≡ true = ground arith in
      elim (Bool-cases (bytes_eq (drop (length u - 3) u) (codes ".HK"))) [
        | inl a ↦ rw (l, fits, a) refl
        | inr a ↦ elim (Bool-cases (bytes_eq (drop (length u - 3) u) (codes ".US"))) [
          | inl b ↦ rw (l, fits, a, b) refl
          | inr b ↦ elim (Bool-cases (bytes_eq (drop (length u - 3) u) (codes ".SZ"))) [
            | inl c ↦ rw (l, fits, a, b, c) refl
            | inr c ↦ elim (Bool-cases (bytes_eq (drop (length u - 3) u) (codes ".SH"))) [
              | inl d ↦ rw (l, fits, a, b, c, d) refl
              | inr d ↦ rw (l, fits, a, b, c, d) refl
            ]
          ]
        ]
      ]
]

normalise_routing_key_lem : (code : Bytes) → normalise_routing_key code ≡ instrument code
unfolding normalise_routing_key
normalise_routing_key_lem code = strip_first_lem (map capital (trim_space code))

-- A code that is not empty stands for this key.
abbrev pub names_key : Bytes → Bytes → Bool
names_key k c = not (is_empty c) && bytes_eq k (instrument c)

abbrev pub any_names : Bytes → List Bytes → Bool
any_names k [] = false
any_names k (c ∷ cs) = names_key k c || any_names k cs

moved : (b x y z : Bool) → (x || (b || y)) ≡ (z || (b || y)) → ((b || x) || y) ≡ ((b || z) || y)
moved true x y z h = refl
moved false x y z h = h

contains-distinct_keys :
    (k : Bytes) (cs seen : List Bytes)
    → (contains k (distinct_keys seen cs) || contains k seen) ≡ (any_names k cs || contains k seen)
unfolding distinct_keys contains
contains-distinct_keys k [] seen = refl
contains-distinct_keys k (c ∷ cs) seen = elim (Bool-cases (is_empty c)) [
  | inl e ↦ rw e (contains-distinct_keys k cs seen)
  | inr e ↦
      rw (e, normalise_routing_key_lem)
        (elim (Bool-cases (contains (instrument c) seen)) [
          | inl s ↦ rw s (elim (Bool-cases (bytes_eq k (instrument c))) [
            | inl b ↦
                let there : contains k seen ≡ true =
                  ap (λ x. contains x seen) (eq_of_bytes_eq k (instrument c) b) ∙ s in
                rw (b, there) (ground arith)
            | inr b ↦ rw b (contains-distinct_keys k cs seen)
          ])
          | inr s ↦ rw s (
              moved (bytes_eq k (instrument c)) _ _ _
                (contains-distinct_keys k cs (instrument c ∷ seen)))
        ])
]

or_false : (b : Bool) → (b || false) ≡ b
or_false true = refl
or_false false = refl

pub contains-security_keys :
    (k : Bytes) (ss : List Security)
    → contains k (security_keys ss) ≡ any_names k (map (λ s. s.code) ss)
unfolding security_keys contains
contains-security_keys k ss =
    sym (or_false (contains k (distinct_keys [] (map (λ s. s.code) ss))))
    ∙ contains-distinct_keys k (map (λ s. s.code) ss) []
    ∙ or_false _

-- Some key of a list passes a test.
abbrev pub any_key : (Bytes → Bool) → List Bytes → Bool
any_key p [] = false
any_key p (k ∷ ks) = p k || any_key p ks

-- An update's keys are those of its two codes, where they are not empty.
pub any_key-update_routing_keys :
    (p : Bytes → Bool) (id code : Bytes)
    → any_key p (update_routing_keys id code)
      ≡ (not (is_empty id) && p (instrument id) || not (is_empty code) && p (instrument code))
unfolding update_routing_keys distinct_keys contains
any_key-update_routing_keys p id code = elim (Bool-cases (is_empty id)) [
  | inl a ↦ elim (Bool-cases (is_empty code)) [
    | inl b ↦ rw (a, b) refl
    | inr b ↦ rw (a, b, normalise_routing_key_lem) (or_false _)
  ]
  | inr a ↦ elim (Bool-cases (is_empty code)) [
    | inl b ↦ rw (a, b, normalise_routing_key_lem) refl
    | inr b ↦
        rw (a, b, normalise_routing_key_lem, normalise_routing_key_lem)
          (elim (Bool-cases (bytes_eq (instrument code) (instrument id))) [
            | inl e ↦
                let same = ap p (eq_of_bytes_eq (instrument code) (instrument id) e) in
                rw (e, same) (twice (p (instrument id)))
            | inr e ↦ rw (e, or_false) refl
          ])
  ]
]
  where
    twice : (b : Bool) → (b || false) ≡ (b || b)
    twice true = refl
    twice false = refl
