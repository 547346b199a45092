-- ===== src/Services/Registry/Spec/Owners.antt =====
-- The entries of pkg/services/push.go are those of the keys that open subscriptions have.
use hstongapi4go.Common.{
  ℕ, zero, suc, ◌+◌, ◌≡◌, refl, ◌∙◌, sym, Bool, true, false, not, List, [], ◌∷◌, get_elem?, arith,
  ==_refl,
}
use hstongapi4go.Common.Bytes.{Bytes}
use hstongapi4go.Common.Table.{find, count}
use hstongapi4go.Domain.Symbol.{is_empty}
use hstongapi4go.Services.Registry.{Subscription, Registry}
use hstongapi4go.Services.Registry.Index.{one_if}
use hstongapi4go.Services.Registry.Laws.{IsSound, holders, owns, is_vacant}
use hstongapi4go.Services.Registry.Spec.{is_open_for}

-- An open subscription of the key makes it open, wherever it stands.
pub owns-is_open_for :
    (key : Bytes) (made : List Subscription) (i : ℕ)
    → owns (get_elem? made i) key ≡ true
    → is_open_for key made ≡ true
owns-is_open_for key [] i h = absurd (cc)
owns-is_open_for key (s ∷ made) zero h = rw h refl
owns-is_open_for key (s ∷ made) (suc i) h = ground (arith, owns-is_open_for key made i h)

-- If no subscription owns the key, it is not open.
pub not-is_open_for :
    (key : Bytes) (made : List Subscription)
    → ((i : ℕ) → owns (get_elem? made i) key ≡ false)
    → is_open_for key made ≡ false
not-is_open_for key [] h = refl
not-is_open_for key (s ∷ made) h = rw (h 0, not-is_open_for key made (λ i. h (suc i))) refl

none_if : (b : Bool) → one_if b ≡ 0 → b ≡ false
none_if true h = absurd (omega arith)
none_if false h = refl

some_if : (b : Bool) (n : ℕ) → one_if b ≡ 1 + n → b ≡ true
some_if true n h = refl
some_if false n h = absurd (omega arith)

count_head : (x : ℕ) (xs : List ℕ) → count x (x ∷ xs) ≡ 1 + count x xs
unfolding count
count_head x xs = rw (==_refl x) refl

count_none : (x : ℕ) → count x [] ≡ 0
unfolding count
count_none x = refl

pub vacant_lem :
    (r : Registry) (key : Bytes)
    → IsSound r
    → is_open_for key r.made ≡ not (is_vacant (find key r.entries))
vacant_lem r key sound =
    rw (sound.peopled key) (by_holders (holders r.entries key) (λ i. sound.held i key))
  where
    by_holders :
        (hs : List ℕ)
        → ((i : ℕ) → count i hs ≡ one_if (owns (get_elem? r.made i) key))
        → is_open_for key r.made ≡ not (is_empty hs)
    by_holders [] h =
        not-is_open_for key r.made
          (λ i. none_if (owns (get_elem? r.made i) key) (sym (h i) ∙ count_none i))
    by_holders (x ∷ xs) h =
        owns-is_open_for key r.made x
          (some_if (owns (get_elem? r.made x) key) (count x xs) (sym (h x) ∙ count_head x xs))
