-- ===== src/Services/Registry/Laws.antt =====
-- The registry of pkg/services/push.go stays consistent: entries, routing index and subscriptions.
pub mod Joining
pub mod Leaving
use hstongapi4go.Common.{
  ℕ, suc, ◌+◌, ◌≡◌, refl, Bool, true, false, not, ◌&&◌, Option, none, some, List, [], ◌∷◌, ◌++◌,
  ◌==◌, length, get_elem?, set, zero, ◌∙◌, arith, if◌then◌else◌, Bool-cases, inl, inr, ==_iff,
  get_elem?-set_self, get_elem?-set_ne,
}
use hstongapi4go.Common.Bytes.{Bytes}
use hstongapi4go.Common.Text.{bytes_eq, contains}
use hstongapi4go.Common.Table.{find, count}
use hstongapi4go.Domain.Symbol.{is_empty}
use hstongapi4go.Services.Push.Keys.{security_keys, canonical_push_key}
use hstongapi4go.Services.Registry.{Subscription, Entry, Registry, key_of}
use hstongapi4go.Services.Registry.Index.{one_if}

abbrev pub subs_of : Option Entry → List ℕ
subs_of none = []
subs_of (some e) = e.subs

-- The subscriptions that share a key.
abbrev pub holders : List (Bytes × Entry) → Bytes → List ℕ
holders entries key = subs_of (find key entries)

abbrev pub is_vacant : Option Entry → Bool
is_vacant none = true
is_vacant (some e) = false

-- The subscription is open, and this is its key.
abbrev pub owns : Option Subscription → Bytes → Bool
owns none key = false
owns (some s) key = not s.closed && bytes_eq (key_of s) key

abbrev pub asks_for : Option Entry → Bytes → Bool
asks_for none k = false
asks_for (some e) k = contains k (security_keys e.securities)

-- The subscription is open, and its entry asked for the instrument.
abbrev pub routes : List (Bytes × Entry) → Option Subscription → Bytes → Bool
routes entries none k = false
routes entries (some s) k = not s.closed && asks_for (find (key_of s) entries) k

-- The entry was asked for under its key, and the Gateway accepted it.
abbrev pub is_keyed : Bytes → Option Entry → Bool
is_keyed key none = true
is_keyed key (some e) = bytes_eq (canonical_push_key e.topic e.securities) key && e.subscribed

-- Every open subscription stands once in the entry of its key and once in the bucket of each
-- instrument of that entry, nothing else stands anywhere, and no entry is without subscription.
pub record IsSound (r : Registry) : Type 0 where
  pub held :
      (i : ℕ) (key : Bytes)
      → count i (holders r.entries key) ≡ one_if (owns (get_elem? r.made i) key)
  pub routed :
      (i : ℕ) (k : Bytes) → count i (r.by_key k) ≡ one_if (routes r.entries (get_elem? r.made i) k)
  pub peopled : (key : Bytes) → is_vacant (find key r.entries) ≡ is_empty (holders r.entries key)
  pub keyed : (key : Bytes) → is_keyed key (find key r.entries) ≡ true

module _ {A : Type 0} where
  pub get_elem?-snoc :
      (xs : List A) (y : A) (i : ℕ)
      → get_elem? (xs ++ (y ∷ [])) i ≡ (if length xs == i then some y else get_elem? xs i)
  get_elem?-snoc [] y zero = refl
  get_elem?-snoc [] y (suc i) = ground arith
  get_elem?-snoc (x ∷ xs) y zero = ground arith
  get_elem?-snoc (x ∷ xs) y (suc i) = ground (arith, get_elem?-snoc xs y i)

  pub get_elem?-length : (xs : List A) → get_elem? xs (length xs) ≡ none
  get_elem?-length [] = refl
  get_elem?-length (x ∷ xs) = get_elem?-length xs

  pub get_elem?-set :
      (xs : List A) (i j : ℕ) (v x : A)
      → get_elem? xs i ≡ some x
      → get_elem? (set xs i v) j ≡ (if i == j then some v else get_elem? xs j)
  get_elem?-set xs i j v x h = elim (Bool-cases (i == j)) [
    | inl e ↦ rw (e, ← (==_iff i j).0 e) (get_elem?-set_self xs i v h)
    | inr e ↦ rw e (get_elem?-set_ne xs i j v (λ s. ground (arith, s)))
  ]
