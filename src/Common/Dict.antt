-- ===== src/Common/Dict.antt =====
-- Maps with text keys as association lists: Go's constant lookup tables.
use mathlib.Core.Path.{◌≡◌, refl, subst, ap, sym, ◌∙◌}
use mathlib.Core.Bool.{false}
use mathlib.Core.Logic.{◌≢◌, inl, inr}
use mathlib.Core.Option.{Option, none, some}
use mathlib.Core.List.{List, [], ◌∷◌}
use Prim.Native.String.{String}
use text.Mathlib.Text.{◌==◌}
use text.Mathlib.TextEquality.{eq_iff}
use hstongapi4go.Common.Tests.{if◌then◌else◌, Bool-cases}
use hstongapi4go.Common.Lists.{All}

module _ {ℓ} {V : Type ℓ} where
  unfoldable pub lookup : String → List (String × V) → Option V
  lookup k [] = none
  lookup k ((j, v) ∷ m) = if j == k then some v else lookup k m

-- A statement about every key holds if it holds of each key in the table and of every key outside.
pub by_table {ℓ κ} :
    {V : Type ℓ} (P : String → Type κ) (table : List (String × V))
    → All (λ e. P e.0) table
    → ((k : String) → lookup k table ≡ none → P k)
    → (k : String) → P k
unfolding lookup
by_table {V} P [] inside outside k = outside k refl
by_table {V} P ((j, v) ∷ m) inside outside k = by_table P m inside.1 beyond k
  where
    here : (x : String) → j ≡ x → P x
    here x e = subst P e inside.0

    beyond : (x : String) → lookup x m ≡ none → P x
    beyond x h = elim (Bool-cases (j == x)) [
      | inl e ↦ here x ((eq_iff j x).0 e)
      | inr e ↦ outside x (rw e h)
    ]

-- A key outside the table is none of those inside.
pub not_in_table {ℓ} :
    {V : Type ℓ} (table : List (String × V)) (k c : String)
    → lookup k table ≡ none
    → lookup c table ≢ none
    → (k == c) ≡ false
not_in_table table k c h i = elim (Bool-cases (k == c)) [
  | inl e ↦ absurd (i (ap (λ x. lookup x table) (sym ((eq_iff k c).0 e)) ∙ h))
  | inr e ↦ e
]
