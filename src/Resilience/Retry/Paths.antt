-- ===== src/Resilience/Retry/Paths.antt =====
-- The classification of endpoints (internal/resilience/retry.go) against the routes of
-- client/routes.go.
use hstongapi4go.Common.{
  ℕ, ◌≡◌, refl, sym, ap, ◌∙◌, ◌⊎◌, inl, inr, Bool, true, false, ◌&&◌, Bool-cases, arith, ◌++◌,
}
use hstongapi4go.Common.Bytes.{Bytes}
use hstongapi4go.Common.Text.{
  bytes_eq, contains, trim_suffix, has_suffix, all, all-contains, eq_of_bytes_eq, bytes_eq_refl,
  last-has_suffix, trim_suffix_none,
}
use hstongapi4go.Client.Routes.{canonical_routes, normalize_path}
use hstongapi4go.Client.Routes.Normal.{Form, same, stripped, normalize_path-Form}
use hstongapi4go.Resilience.Retry.{
  mutation, mutation_paths, alias_suffix_msg_type, alias_suffix_request, strip_alias_suffix,
  is_mutation, class_for_path,
}

abbrev is_mutation_in_all_forms : Bytes → Bool
is_mutation_in_all_forms r =
    is_mutation r
    && is_mutation (r ++ alias_suffix_msg_type)
    && is_mutation (r ++ alias_suffix_request)
    && contains r canonical_routes

all_mutations : all is_mutation_in_all_forms mutation_paths ≡ true
unfolding all is_mutation strip_alias_suffix contains trim_suffix has_suffix bytes_eq
all_mutations = refl

-- Each of the twelve order-mutation endpoints is a registered route, and it and both its alias
-- forms are classified as mutations.
pub mutation-aliases :
    (r : Bytes)
    → contains r mutation_paths ≡ true
    → (contains r canonical_routes ≡ true)
      × (class_for_path r ≡ mutation)
      × (class_for_path (r ++ alias_suffix_msg_type) ≡ mutation)
      × (class_for_path (r ++ alias_suffix_request) ≡ mutation)
unfolding class_for_path
mutation-aliases r m =
    let ok = all-contains is_mutation_in_all_forms mutation_paths r all_mutations m in ground arith

-- A route is no alias of another: stripping leaves it.
abbrev is_stripped : Bytes → Bool
is_stripped r = bytes_eq (strip_alias_suffix r) r

all_stripped : all is_stripped canonical_routes ≡ true
unfolding all strip_alias_suffix trim_suffix has_suffix bytes_eq
all_stripped = refl

-- A path ends in one of the two suffixes at most.
one_suffix :
    (p : Bytes)
    → has_suffix p alias_suffix_msg_type ≡ true
    → has_suffix p alias_suffix_request ≡ true
    → ⊥
one_suffix p h k = apart (
    sym (last-has_suffix p alias_suffix_msg_type 0 h (omega arith))
    ∙ last-has_suffix p alias_suffix_request 0 k (omega arith))
  where
    apart : ◌≡◌ {A = ℕ} b'e' b't' → ⊥
    apart e = omega arith

strip-canonical : (r : Bytes) → contains r canonical_routes ≡ true → strip_alias_suffix r ≡ r
strip-canonical r c =
    eq_of_bytes_eq _ r (all-contains is_stripped canonical_routes r all_stripped c)

suffix_of_trim :
    (p suffix : Bytes) → bytes_eq (trim_suffix p suffix) p ≡ false → has_suffix p suffix ≡ true
suffix_of_trim p suffix e = elim (Bool-cases (has_suffix p suffix)) [
  | inl h ↦ h
  | inr h ↦ absurd (cc (bytes_eq_refl p, trim_suffix_none p suffix h, e))
]

-- At most one of the two suffixes is stripped.
one_stripped :
    (p : Bytes)
    → bytes_eq (trim_suffix p alias_suffix_msg_type) p ≡ false
    → bytes_eq (trim_suffix p alias_suffix_request) p ≡ true
one_stripped p e = elim (Bool-cases (bytes_eq (trim_suffix p alias_suffix_request) p)) [
  | inl h ↦ h
  | inr h ↦ absurd (one_suffix p (suffix_of_trim p _ e) (suffix_of_trim p _ h))
]

-- What is_mutation strips from a path that normalises to an endpoint.
strips_msg_type :
    (p : Bytes)
    → bytes_eq (trim_suffix p alias_suffix_msg_type) p ≡ false
    → strip_alias_suffix p ≡ trim_suffix p alias_suffix_msg_type
unfolding strip_alias_suffix
strips_msg_type p e = rw e refl

strips_request :
    (p : Bytes)
    → bytes_eq (trim_suffix p alias_suffix_request) p ≡ false
    → strip_alias_suffix p ≡ trim_suffix p alias_suffix_request
unfolding strip_alias_suffix
strips_request p e = elim (Bool-cases (bytes_eq (trim_suffix p alias_suffix_msg_type) p)) [
  | inl h ↦ rw h refl
  | inr h ↦ absurd (cc (one_stripped p h, e))
]

strips :
    (p suffix : Bytes)
    → (suffix ≡ alias_suffix_msg_type) ⊎ (suffix ≡ alias_suffix_request)
    → bytes_eq (trim_suffix p suffix) p ≡ false
    → strip_alias_suffix p ≡ trim_suffix p suffix
strips p suffix (inl e) h = rw e (strips_msg_type p (rw e at h))
strips p suffix (inr e) h = rw e (strips_request p (rw e at h))

-- Classifying a path and classifying its normal form give the same answer, for every path: the
-- client may normalise before or after the policy looks.
pub is_mutation-normalize_path : (p : Bytes) → is_mutation (normalize_path p) ≡ is_mutation p
is_mutation-normalize_path p = classify (normalize_path p) (normalize_path-Form p)
  where
    classify : (q : Bytes) → Form p q → is_mutation q ≡ is_mutation p
    classify q (same e) = ap is_mutation e
    classify q (stripped suffix which e h c) =
        unfold is_mutation in
        ap (λ r. contains r mutation_paths)
          (ap strip_alias_suffix e
            ∙ (strip-canonical (trim_suffix p suffix) c ∙ sym (strips p suffix which h)))
