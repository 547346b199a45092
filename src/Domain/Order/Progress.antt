-- ===== src/Domain/Order/Progress.antt =====
-- An order only moves forward (pkg/domain/order.go).
use hstongapi4go.Common.{
  ℕ, ◌≡◌, refl, ◌≤◌, Bool, true, false, ◌&&◌, Option, none, some, List, [], ◌∷◌, arith, str_eq,
  Bool-cases, inl, inr, All, All-imp, eq_iff,
}
use hstongapi4go.Common.Dict.{lookup}
use hstongapi4go.Domain.Order.{
  Status, Event, Transition, transitions, next_in, next_order_state, after_events,
}

-- How far an order has come: on its way to the host (0, 1), accepted or under change (2), partly
-- filled or under change (3), waiting for a cancellation (4), and done (5).
abbrev pub levels : List (Status × ℕ)
levels =
    ("0", 0)
    ∷ ("1", 1)
    ∷ ("2", 2)
    ∷ ("A", 2)
    ∷ ("7", 3)
    ∷ ("E", 3)
    ∷ ("3", 4)
    ∷ ("4", 4)
    ∷ ("5", 5)
    ∷ ("6", 5)
    ∷ ("8", 5)
    ∷ ("9", 5)
    ∷ []

abbrev or_zero : Option ℕ → ℕ
or_zero none = 0
or_zero (some n) = n

pub level : Status → ℕ
unfolding lookup
level s = or_zero (lookup s levels)

and_true : (a b : Bool) → (a && b) ≡ true → a ≡ true
and_true true b h = refl
and_true false b h = h

next_in-level :
    (ts : List Transition) (s : Status) (e : Event)
    → All (λ t. level t.from ≤ level t.to) ts
    → level s ≤ level (next_in ts s e)
unfolding next_in
next_in-level [] s e h = omega arith
next_in-level (t ∷ ts) s e h = elim (Bool-cases (str_eq t.from s && str_eq t.event e)) [
  | inl y ↦
      let same : t.from ≡ s =
        (eq_iff t.from s).0 (and_true (str_eq t.from s) (str_eq t.event e) y) in
      rw y (rw⁻¹ same h.0)
  | inr y ↦ rw y (next_in-level ts s e h.1)
]

transitions-level : All (λ t. level t.from ≤ level t.to) transitions
unfolding level
transitions-level = ground arith

-- However events follow on one another, and whatever they are, an order never goes back: a part fill
-- is never undone, an order that waits for a cancellation never becomes accepted again, and one that
-- is done stays so.
pub after_events-level : (s : Status) (es : List Event) → level s ≤ level (after_events s es)
unfolding after_events next_order_state
after_events-level s [] = omega arith
after_events-level s (e ∷ es) = omega (
  arith,
  next_in-level transitions s e transitions-level,
  after_events-level (next_order_state s e) es,
)

-- The statuses in which an order is done.
abbrev pub terminal : List Status
terminal = "5" ∷ "6" ∷ "8" ∷ "9" ∷ []

abbrev IsFixed : Status → Type 0
IsFixed s = (e : Event) → next_order_state s e ≡ s

fixed : All IsFixed terminal
unfolding next_order_state next_in
fixed = (λ e. refl, (λ e. refl, (λ e. refl, (λ e. refl, tt))))

fixed-after_events : (s : Status) → IsFixed s → (es : List Event) → after_events s es ≡ s
unfolding after_events
fixed-after_events s f [] = refl
fixed-after_events s f (e ∷ es) = rw (f e) (fixed-after_events s f es)

-- No sequence of events moves an order that is filled, cancelled, partly cancelled or rejected.
pub terminal-after_events : (es : List Event) → All (λ s. after_events s es ≡ s) terminal
terminal-after_events es =
    All-imp IsFixed (λ s. after_events s es ≡ s) (λ s f. fixed-after_events s f es) terminal fixed
