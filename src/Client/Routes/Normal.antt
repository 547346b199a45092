-- ===== src/Client/Routes/Normal.antt =====
-- Normal forms of paths (client/routes.go).
use hstongapi4go.Common.{
  ◌≡◌, refl, ◌⊎◌, inl, inr, Bool, true, false, not, ◌&&◌, Bool-cases, arith, ◌++◌,
}
use hstongapi4go.Common.Bytes.{Bytes}
use hstongapi4go.Common.Text.{
  bytes_eq, contains, trim_suffix, has_suffix, all, all-contains, eq_of_bytes_eq,
}
use hstongapi4go.Client.Routes.{
  canonical_routes, alias_suffix_msg_type, alias_suffix_request, validate, normalize_path,
}

-- The normal form is an endpoint, or else the path is left as it is.
normalize_path_cases :
    (p : Bytes) → (contains (normalize_path p) canonical_routes ≡ true) ⊎ (normalize_path p ≡ p)
unfolding normalize_path
normalize_path_cases p = ground arith

-- How a path is normalised: not at all, or by one suffix that it has, which leaves an endpoint.
pub data Form (p q : Bytes) : Type 0 where
  same : q ≡ p → Form p q
  stripped :
      (suffix : Bytes)
      → (suffix ≡ alias_suffix_msg_type) ⊎ (suffix ≡ alias_suffix_request)
      → q ≡ trim_suffix p suffix
      → bytes_eq (trim_suffix p suffix) p ≡ false
      → contains (trim_suffix p suffix) canonical_routes ≡ true
      → Form p q

pub normalize_path-Form : (p : Bytes) → Form p (normalize_path p)
normalize_path-Form p =
    let msg = trim_suffix p alias_suffix_msg_type in
    let req = trim_suffix p alias_suffix_request in
    elim (Bool-cases (contains p canonical_routes)) [
      | inl c ↦ same (unfold normalize_path in ground arith)
      | inr c ↦ elim (Bool-cases (not (bytes_eq msg p) && contains msg canonical_routes)) [
        | inl m ↦
            stripped alias_suffix_msg_type (inl refl) (unfold normalize_path in ground arith)
              (ground arith) (ground arith)
        | inr m ↦ elim (Bool-cases (not (bytes_eq req p) && contains req canonical_routes)) [
          | inl r ↦
              stripped alias_suffix_request (inr refl) (unfold normalize_path in ground arith)
                (ground arith) (ground arith)
          | inr r ↦ same (unfold normalize_path in ground arith)
        ]
      ]
    ]

-- Normalising is idempotent, for every path.
pub normalize_path_idem : (p : Bytes) → normalize_path (normalize_path p) ≡ normalize_path p
unfolding normalize_path
normalize_path_idem p = elim (normalize_path_cases p) [
  | inl c ↦ canonical (normalize_path p) c
  | inr e ↦ rw (e, e) refl
]
  where
    canonical : (q : Bytes) → contains q canonical_routes ≡ true → normalize_path q ≡ q
    canonical q c = rw (c, normalize_path) refl

-- The three forms of an endpoint, checked by evaluation.
abbrev aliases_normalized : Bytes → Bool
aliases_normalized r =
    bytes_eq (normalize_path (r ++ alias_suffix_msg_type)) r
    && bytes_eq (normalize_path (r ++ alias_suffix_request)) r

all_aliases : all aliases_normalized canonical_routes ≡ true
unfolding all normalize_path contains trim_suffix has_suffix bytes_eq
all_aliases = refl

-- Both alias forms of every endpoint are mapped to the endpoint.
pub normalize_path-alias :
    (r : Bytes)
    → validate r ≡ true
    → (normalize_path (r ++ alias_suffix_msg_type) ≡ r)
      × (normalize_path (r ++ alias_suffix_request) ≡ r)
unfolding validate
normalize_path-alias r v =
    let ok = all-contains aliases_normalized canonical_routes r all_aliases v in
    (eq_of_bytes_eq _ r (ground arith), eq_of_bytes_eq _ r (ground arith))
