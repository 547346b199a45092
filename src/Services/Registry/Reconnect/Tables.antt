-- ===== src/Services/Registry/Reconnect/Tables.antt =====
-- The tables under a reconnect (pkg/services/push.go): what closing subscriptions and dropping an entry
-- leave, and the entries that are visited.
use hstongapi4go.Common.{
  ℕ, ◌≡◌, refl, ap, ◌∙◌, sym, Bool, true, false, not, ◌&&◌, ◌||◌, Option, none, some, List, [], ◌∷◌,
  get_elem?, arith, ltb, ◌==◌, if◌then◌else◌, Bool-cases, inl, inr, ==_iff,
}
use mathlib.Core.Path.{subst}
use hstongapi4go.Common.Bytes.{Bytes}
use hstongapi4go.Common.Text.{bytes_eq, bytes_eq_refl, eq_of_bytes_eq}
use hstongapi4go.Common.Table.{find, put, remove, count, find-put, find-remove}
use hstongapi4go.Services.Validation.{bytes_less}
use hstongapi4go.Services.Registry.{Subscription, Entry, key_of}
use hstongapi4go.Services.Registry.Index.{bytes_eq_comm}
use hstongapi4go.Services.Registry.Laws.{owns, is_keyed, is_vacant, get_elem?-set}
use hstongapi4go.Services.Registry.Reconnect.{
  entry_key, shut_all, shut_one, accepted, insert_entry, sort_entries,
}

-- A subscription, closed or left as it is.
abbrev pub shut_if : Bool → Option Subscription → Option Subscription
shut_if b none = none
shut_if true (some s) = some (record s { closed = true })
shut_if false (some s) = some s

shut_if_twice :
    (a b : Bool) (o : Option Subscription) → shut_if b (shut_if a o) ≡ shut_if (a || b) o
shut_if_twice true true none = refl
shut_if_twice true true (some s) = refl
shut_if_twice true false none = refl
shut_if_twice true false (some s) = refl
shut_if_twice false b none = refl
shut_if_twice false b (some s) = refl

shut_if-false : (o : Option Subscription) → shut_if false o ≡ o
shut_if-false none = refl
shut_if-false (some s) = refl

get_elem?-shut_one :
    (made : List Subscription) (i j : ℕ) (o : Option Subscription)
    → get_elem? made i ≡ o
    → get_elem? (shut_one i o made) j ≡ shut_if (i == j) (get_elem? made j)
get_elem?-shut_one made i j none h = elim (Bool-cases (i == j)) [
  | inl e ↦ rw (e, ← (==_iff i j).0 e, h) refl
  | inr e ↦ rw e (sym (shut_if-false (get_elem? made j)))
]
get_elem?-shut_one made i j (some s) h = elim (Bool-cases (i == j)) [
  | inl e ↦
      rw (get_elem?-set made i j (record s { closed = true }) s h, e, ← (==_iff i j).0 e, h) refl
  | inr e ↦
      rw (get_elem?-set made i j (record s { closed = true }) s h, e)
        (sym (shut_if-false (get_elem? made j)))
]

pub get_elem?-shut_all :
    (is : List ℕ) (made : List Subscription) (j : ℕ)
    → get_elem? (shut_all is made) j ≡ shut_if (ltb 0 (count j is)) (get_elem? made j)
unfolding shut_all count
get_elem?-shut_all [] made j = sym (shut_if-false (get_elem? made j))
get_elem?-shut_all (i ∷ is) made j =
    get_elem?-shut_all is (shut_one i (get_elem? made i) made) j
    ∙ ap (shut_if (ltb 0 (count j is))) (get_elem?-shut_one made i j (get_elem? made i) refl)
    ∙ shut_if_twice (i == j) (ltb 0 (count j is)) (get_elem? made j)
    ∙ ap (λ b. shut_if b (get_elem? made j)) (ground arith)

pub owns-shut_if :
    (b : Bool) (o : Option Subscription) (k : Bytes) → owns (shut_if b o) k ≡ (not b && owns o k)
owns-shut_if b none k = ground arith
owns-shut_if true (some s) k = refl
owns-shut_if false (some s) k = refl

pub owns_apart :
    (o : Option Subscription) (key k : Bytes)
    → bytes_eq key k ≡ false
    → owns o key ≡ true
    → owns o k ≡ false
owns_apart none key k h e = refl
owns_apart (some s) key k h e = elim (Bool-cases (bytes_eq (key_of s) k)) [
  | inl f ↦
      absurd (cc (ap (λ x. bytes_eq x k) (eq_of_bytes_eq (key_of s) key (ground arith)), f, h))
  | inr f ↦ rw f (ground arith)
]

-- A Go map holds a key once.
abbrev pub IsUnique : List (Bytes × Entry) → Type 0
IsUnique [] = Unit {0}
IsUnique ((k, e) ∷ m) = (find k m ≡ none) × IsUnique m

pub put-IsUnique :
    (k : Bytes) (e : Entry) (m : List (Bytes × Entry)) → IsUnique m → IsUnique (put k e m)
unfolding put find
put-IsUnique k e [] u = (refl, tt)
put-IsUnique k e ((j, d) ∷ m) u = elim (Bool-cases (bytes_eq j k)) [
  | inl same ↦ rw same u
  | inr new ↦ rw new (find-put k e m j ∙ (rw (bytes_eq_comm k j, new) u.0), put-IsUnique k e m u.1)
]

pub remove-IsUnique : (k : Bytes) (m : List (Bytes × Entry)) → IsUnique m → IsUnique (remove k m)
unfolding remove
remove-IsUnique k [] u = tt
remove-IsUnique k ((j, d) ∷ m) u = elim (Bool-cases (bytes_eq j k)) [
  | inl same ↦ rw same (remove-IsUnique k m u.1)
  | inr new ↦
      rw new (find-remove k m j ∙ (rw (bytes_eq_comm k j, new) u.0), remove-IsUnique k m u.1)
]

-- An entry of the list has this key.
abbrev pub visits : Bytes → List Entry → Bool
visits k [] = false
visits k (e ∷ es) = bytes_eq (entry_key e) k || visits k es

-- No two entries have one key.
abbrev pub Apart : List Entry → Type 0
Apart [] = Unit {0}
Apart (e ∷ es) = (visits (entry_key e) es ≡ false) × Apart es

-- Each entry stands in the table under its key.
abbrev pub Listed : List (Bytes × Entry) → List Entry → Type 0
Listed m [] = Unit {0}
Listed m (e ∷ es) = (find (entry_key e) m ≡ some e) × Listed m es

pub visits-insert_entry :
    (k : Bytes) (e : Entry) (es : List Entry)
    → visits k (insert_entry e es) ≡ (bytes_eq (entry_key e) k || visits k es)
unfolding insert_entry
visits-insert_entry k e [] = refl
visits-insert_entry k e (d ∷ es) = ground (arith, visits-insert_entry k e es)

pub visits-sort_entries : (k : Bytes) (es : List Entry) → visits k (sort_entries es) ≡ visits k es
unfolding sort_entries
visits-sort_entries k [] = refl
visits-sort_entries k (e ∷ es) = rw (visits-insert_entry, visits-sort_entries k es) refl

insert_entry-Apart :
    (e : Entry) (es : List Entry)
    → visits (entry_key e) es ≡ false
    → Apart es
    → Apart (insert_entry e es)
unfolding insert_entry
insert_entry-Apart e [] v a = (refl, tt)
insert_entry-Apart e (d ∷ es) v a = elim (Bool-cases (bytes_less (entry_key d) (entry_key e))) [
  | inl l ↦ rw l (
    rw (visits-insert_entry, bytes_eq_comm (entry_key e) (entry_key d)) (ground arith),
    insert_entry-Apart e es (ground arith) a.1,
  )
  | inr l ↦ rw l (v, a)
]

pub sort_entries-Apart : (es : List Entry) → Apart es → Apart (sort_entries es)
unfolding sort_entries
sort_entries-Apart [] a = tt
sort_entries-Apart (e ∷ es) a =
    insert_entry-Apart e (sort_entries es) (visits-sort_entries (entry_key e) es ∙ a.0)
      (sort_entries-Apart es a.1)

insert_entry-Listed :
    (m : List (Bytes × Entry)) (e : Entry) (es : List Entry)
    → find (entry_key e) m ≡ some e
    → Listed m es
    → Listed m (insert_entry e es)
unfolding insert_entry
insert_entry-Listed m e [] f l = (f, tt)
insert_entry-Listed m e (d ∷ es) f l = elim (Bool-cases (bytes_less (entry_key d) (entry_key e))) [
  | inl b ↦ rw b (l.0, insert_entry-Listed m e es f l.1)
  | inr b ↦ rw b (f, l)
]

pub sort_entries-Listed :
    (m : List (Bytes × Entry)) (es : List Entry) → Listed m es → Listed m (sort_entries es)
unfolding sort_entries
sort_entries-Listed m [] l = tt
sort_entries-Listed m (e ∷ es) l =
    insert_entry-Listed m e (sort_entries es) l.0 (sort_entries-Listed m es l.1)

-- Each entry stands under its key, and the Gateway accepted it.
abbrev pub AreKeyed : List (Bytes × Entry) → Type 0
AreKeyed [] = Unit {0}
AreKeyed ((k, e) ∷ m) = (is_keyed k (some e) ≡ true) × AreKeyed m

pub keyed_all :
    (m : List (Bytes × Entry))
    → ((k : Bytes) → is_keyed k (find k m) ≡ true)
    → IsUnique m
    → AreKeyed m
unfolding find
keyed_all [] h u = tt
keyed_all ((k, e) ∷ m) h u = (
  subst (λ b. is_keyed k (if b then some e else find k m) ≡ true) (bytes_eq_refl k) (h k),
  keyed_all m
      (λ j. elim (Bool-cases (bytes_eq k j)) [
        | inl same ↦
            subst (λ x. is_keyed x (find x m) ≡ true) (eq_of_bytes_eq k j same) (rw u.0 refl)
        | inr new ↦ subst (λ b. is_keyed j (if b then some e else find j m) ≡ true) new (h j)
      ])
      u.1,
)

entry_key_lem : (k : Bytes) (e : Entry) → is_keyed k (some e) ≡ true → entry_key e ≡ k
entry_key_lem k e h = eq_of_bytes_eq (entry_key e) k (ground arith)

is_accepted : (k : Bytes) (e : Entry) → is_keyed k (some e) ≡ true → e.subscribed ≡ true
is_accepted k e h = ground arith

pub visits-accepted :
    (key : Bytes) (m : List (Bytes × Entry))
    → AreKeyed m
    → visits key (accepted m) ≡ not (is_vacant (find key m))
unfolding accepted find
visits-accepted key [] h = refl
visits-accepted key ((k, e) ∷ m) h =
    rw (is_accepted k e h.0, entry_key_lem k e h.0, visits-accepted key m h.1)
      (elim (Bool-cases (bytes_eq k key)) [ inl b ↦ rw b refl | inr b ↦ rw b refl ])

pub accepted-Apart : (m : List (Bytes × Entry)) → AreKeyed m → IsUnique m → Apart (accepted m)
unfolding accepted
accepted-Apart [] h u = tt
accepted-Apart ((k, e) ∷ m) h u = rw (is_accepted k e h.0) (
  ap (λ x. visits x (accepted m)) (entry_key_lem k e h.0)
      ∙ visits-accepted k m h.1
      ∙ ap (λ o. not (is_vacant o)) u.0,
  accepted-Apart m h.1 u.1,
)

Listed-cons :
    (k : Bytes) (e : Entry) (m : List (Bytes × Entry)) (es : List Entry)
    → find k m ≡ none
    → Listed m es
    → Listed ((k, e) ∷ m) es
unfolding find
Listed-cons k e m [] f l = tt
Listed-cons k e m (d ∷ es) f l = (
  elim (Bool-cases (bytes_eq k (entry_key d))) [
    | inl b ↦ absurd (cc (ap (λ x. find x m) (eq_of_bytes_eq k (entry_key d) b), l.0, f))
    | inr b ↦ rw b l.0
  ],
  Listed-cons k e m es f l.1,
)

pub accepted-Listed : (m : List (Bytes × Entry)) → AreKeyed m → IsUnique m → Listed m (accepted m)
unfolding accepted
accepted-Listed [] h u = tt
accepted-Listed ((k, e) ∷ m) h u =
    subst (λ b. Listed ((k, e) ∷ m) (if b then e ∷ accepted m else accepted m))
      (sym (is_accepted k e h.0))
      (
        unfold find in rw (entry_key_lem k e h.0, bytes_eq_refl k) refl,
        Listed-cons k e m (accepted m) u.0 (accepted-Listed m h.1 u.1),
      )

-- Dropping another key leaves the entries listed.
pub remove-Listed :
    (k : Bytes) (m : List (Bytes × Entry)) (es : List Entry)
    → visits k es ≡ false
    → Listed m es
    → Listed (remove k m) es
remove-Listed k m [] v l = tt
remove-Listed k m (d ∷ es) v l = (
  find-remove k m (entry_key d) ∙ rw (bytes_eq_comm k (entry_key d)) (ground arith),
  remove-Listed k m es (ground arith) l.1,
)
