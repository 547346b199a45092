-- ===== src/Services/Registry/Spec/Served.antt =====
-- What the Gateway serves of the instrument lists that the open subscriptions of pkg/services/push.go wait
-- for, as calls come one after the other.
use hstongapi4go.Common.{
  ℕ, zero, suc, ◌≡◌, refl, ap, ◌∙◌, sym, Bool, true, false, ◌||◌, Option, none, some, List, [], ◌∷◌,
  ◌++◌, set, get_elem?, arith, Bool-cases, ◌⊎◌, inl, inr, All,
}
use mathlib.Core.Bool.{or_assoc}
use hstongapi4go.Common.Int.{ℤ}
use hstongapi4go.Common.Bytes.{Bytes}
use hstongapi4go.Common.Text.{bytes_eq, bytes_eq_refl, eq_of_bytes_eq}
use hstongapi4go.Resilience.Retry.{is_nil}
use hstongapi4go.Services.Push.Keys.{Security, canonical_push_key}
use hstongapi4go.Services.Push.Topics.{notify_type_for_topic}
use hstongapi4go.Services.Registry.{Subscription, Gateway, key_of, copy_and_validate_securities}
use hstongapi4go.Services.Registry.Laws.{owns}
use hstongapi4go.Services.Registry.Spec.{
  Call, subscribe_call, cancel_call, is_open_for, KeyGateway, IsByKey, run_calls, run_spec,
  spec_step, spec_subscribe, with_new, spec_cancel, empty_registry,
}
use hstongapi4go.Services.Registry.Spec.Refines.{run_calls-refines}

or_true : (b : Bool) → (b || true) ≡ true
or_true true = refl
or_true false = refl

or_cases : (a b : Bool) → (a || b) ≡ true → (a ≡ true) ⊎ (b ≡ true)
or_cases true b h = inl refl
or_cases false b h = inr h

-- What the Gateway documents: it serves a key that it accepted, and goes on with what it served; and a
-- request to stop takes its instruments off its topic, so that a key that shares none of them with it
-- is served as before. `overlaps` says which keys share an instrument of a topic.
pub record Serves {W : Type 0} (by : KeyGateway W) (served : W → Bytes → Bool)
    (overlaps : Bytes → Bytes → Bool) : Type 0 where
  pub asked :
      (k : Bytes) (w : W)
      → is_nil (by.subscribe_key k w).0 ≡ true
      → served (by.subscribe_key k w).1 k ≡ true
  pub kept : (k x : Bytes) (w : W) → served w x ≡ true → served (by.subscribe_key k w).1 x ≡ true
  pub stopped :
      (k x : Bytes) (w : W)
      → overlaps k x ≡ false
      → served w x ≡ true
      → served (by.unsubscribe_key k w).1 x ≡ true

-- The keys that are asked for: the calls of Subscribe name them.
abbrev pub names : Bytes → ℤ → Option (List Security) → Bool
names k topic none = false
names k topic (some ss) = bytes_eq (canonical_push_key topic ss) k

abbrev pub is_named : List Call → Bytes → Bool
is_named [] k = false
is_named (subscribe_call topic sec ∷ cs) k =
    names k topic (copy_and_validate_securities sec) || is_named cs k
is_named (cancel_call i ∷ cs) k = is_named cs k

-- Of the keys asked for, no two different ones share an instrument of a topic.
abbrev pub AreDisjoint : (Bytes → Bool) → (Bytes → Bytes → Bool) → Type 0
AreDisjoint planned overlaps =
    (k x : Bytes)
    → planned k ≡ true
    → planned x ≡ true
    → bytes_eq k x ≡ false
    → overlaps k x ≡ false

abbrev IsPlanned : (Bytes → Bool) → Call → Type 0
IsPlanned planned (subscribe_call topic sec) =
    (k : Bytes) → names k topic (copy_and_validate_securities sec) ≡ true → planned k ≡ true
IsPlanned planned (cancel_call i) = Unit

calls_named :
    (planned : Bytes → Bool) (cs : List Call)
    → ((k : Bytes) → is_named cs k ≡ true → planned k ≡ true)
    → All (IsPlanned planned) cs
calls_named planned [] h = tt
calls_named planned (subscribe_call topic sec ∷ cs) h =
    ((λ k e. h k (rw e refl)), calls_named planned cs (λ k e. h k (rw e (or_true _))))
calls_named planned (cancel_call i ∷ cs) h = (tt, calls_named planned cs h)

is_open_for-snoc :
    (x : Bytes) (made : List Subscription) (s : Subscription)
    → is_open_for x (made ++ (s ∷ [])) ≡ (is_open_for x made || owns (some s) x)
is_open_for-snoc x [] s = ground arith
is_open_for-snoc x (u ∷ made) s =
    rw (is_open_for-snoc x made s) (sym (or_assoc (owns (some u) x) _ _))

-- A subscription that is closed opens nothing.
is_open_for-set :
    (x : Bytes) (made : List Subscription) (i : ℕ) (s : Subscription)
    → is_open_for x (set made i (record s { closed = true })) ≡ true
    → is_open_for x made ≡ true
is_open_for-set x [] i s h = h
is_open_for-set x (u ∷ made) zero s h = rw h (ground arith)
is_open_for-set x (u ∷ made) (suc i) s h = ground (arith, is_open_for-set x made i s)

-- A key that is open is not one that is not.
other :
    (key x : Bytes) (made : List Subscription)
    → is_open_for key made ≡ false
    → is_open_for x made ≡ true
    → bytes_eq key x ≡ false
other key x made o k = elim (Bool-cases (bytes_eq key x)) [
  | inl e ↦ absurd (cc (ap (λ y. is_open_for y made) (eq_of_bytes_eq key x e)))
  | inr e ↦ e
]

-- The keys of the open subscriptions are among those planned.
abbrev pub ArePlanned : (Bytes → Bool) → List Subscription → Type 0
ArePlanned planned made = (x : Bytes) → is_open_for x made ≡ true → planned x ≡ true

open_key :
    (made : List Subscription) (i : ℕ) (s : Subscription)
    → get_elem? made i ≡ some s
    → s.closed ≡ false
    → is_open_for (key_of s) made ≡ true
open_key [] i s h c = absurd (cc)
open_key (u ∷ made) zero s h c = let e : u ≡ s = cc in rw (e, c, bytes_eq_refl (key_of s)) refl
open_key (u ∷ made) (suc i) s h c = rw (open_key made i s h c) (or_true _)

module _ {W : Type 0} (by : KeyGateway W) (planned : Bytes → Bool) where
  step-ArePlanned :
      (call : Call) (d : List Subscription × W)
      → IsPlanned planned call
      → ArePlanned planned d.0
      → ArePlanned planned (spec_step by call d).0
  step-ArePlanned (cancel_call i) d p h = go (get_elem? d.0 i)
    where
      go : (o : Option Subscription) → ArePlanned planned (spec_cancel by i o d).0
      go none = h
      go (some s) = elim (Bool-cases s.closed) [
        | inl c ↦ rw c h
        | inr c ↦
            elim (Bool-cases (is_open_for (key_of s) (set d.0 i (record s { closed = true })))) [
              | inl o ↦ rw (c, o) (λ x k. h x (is_open_for-set x d.0 i s k))
              | inr o ↦ rw (c, o) (λ x k. h x (is_open_for-set x d.0 i s k))
            ]
      ]
  step-ArePlanned (subscribe_call topic sec) d p h =
      go (notify_type_for_topic topic) (copy_and_validate_securities sec) p
    where
      joined :
          (t : ℕ) (ss : List Security)
          → planned (canonical_push_key topic ss) ≡ true
          → ArePlanned planned (with_new by topic t ss d.0)
      joined t ss q x k = elim (or_cases _ _ (sym (is_open_for-snoc x d.0 _) ∙ k)) [
        | inl old ↦ h x old
        | inr new ↦ ap planned (sym (eq_of_bytes_eq (canonical_push_key topic ss) x new)) ∙ q
      ]

      go :
          (t : Option ℕ) (ss : Option (List Security))
          → ((k : Bytes) → names k topic ss ≡ true → planned k ≡ true)
          → ArePlanned planned (spec_subscribe by topic t ss d).0
      go none ss q = h
      go (some t) none q = h
      go (some t) (some ss) q =
          let key = canonical_push_key topic ss in
          let fine = q key (bytes_eq_refl key) in
          elim (Bool-cases (is_open_for key d.0)) [
            | inl o ↦ rw o (joined t ss fine)
            | inr o ↦ elim (Bool-cases (is_nil (by.subscribe_key key d.1).0)) [
              | inl y ↦ rw (o, y) (joined t ss fine)
              | inr n ↦ rw (o, n) h
            ]
          ]

  run-ArePlanned :
      (calls : List Call) (d : List Subscription × W)
      → All (IsPlanned planned) calls
      → ArePlanned planned d.0
      → ArePlanned planned (run_spec by calls d).0
  unfolding run_spec
  run-ArePlanned [] d p h = h
  run-ArePlanned (call ∷ calls) d p h =
      run-ArePlanned calls (spec_step by call d) p.1 (step-ArePlanned call d p.0 h)

module _ {W : Type 0} (by : KeyGateway W) (served : W → Bytes → Bool)
    (overlaps : Bytes → Bytes → Bool) (laws : Serves by served overlaps) where
  abbrev Served : List Subscription × W → Type 0
  Served d = (x : Bytes) → is_open_for x d.0 ≡ true → served d.1 x ≡ true

  cancelled_Served :
      (planned : Bytes → Bool)
      → AreDisjoint planned overlaps
      → (i : ℕ) (o : Option Subscription) (d : List Subscription × W) → get_elem? d.0 i ≡ o
      → ArePlanned planned d.0
      → Served d
      → Served (spec_cancel by i o d)
  cancelled_Served planned apart i none d g p h x = h x
  cancelled_Served planned apart i (some s) d g p h x = elim (Bool-cases s.closed) [
    | inl c ↦ rw c (h x)
    | inr c ↦ elim (Bool-cases (is_open_for (key_of s) (set d.0 i (record s { closed = true })))) [
      | inl o ↦ rw (c, o) (λ k. h x (is_open_for-set x d.0 i s k))
      | inr o ↦
          rw (c, o)
            (λ k.
              let before = is_open_for-set x d.0 i s k in
              laws.stopped (key_of s) x d.1
                (apart (key_of s) x (p (key_of s) (open_key d.0 i s g c)) (p x before)
                  (other (key_of s) x (set d.0 i (record s { closed = true })) o k))
                (h x before))
    ]
  ]

  subscribed_Served :
      (topic : ℤ) (t : Option ℕ) (ss : Option (List Security)) (d : List Subscription × W)
      → Served d
      → Served (spec_subscribe by topic t ss d)
  subscribed_Served topic none ss d h x = h x
  subscribed_Served topic (some t) none d h x = h x
  subscribed_Served topic (some t) (some ss) d h x =
      let key = canonical_push_key topic ss in
      elim (Bool-cases (is_open_for key d.0)) [
        | inl o ↦
            rw (o, is_open_for-snoc)
              (λ k. elim (or_cases _ _ k) [
                | inl old ↦ h x old
                | inr new ↦ h x (rw (sym (eq_of_bytes_eq key x new)) o)
              ])
        | inr o ↦ elim (Bool-cases (is_nil (by.subscribe_key key d.1).0)) [
          | inl y ↦
              rw (o, y, is_open_for-snoc)
                (λ k. elim (or_cases _ _ k) [
                  | inl old ↦ laws.kept key x d.1 (h x old)
                  | inr new ↦
                      ap (served (by.subscribe_key key d.1).1) (sym (eq_of_bytes_eq key x new))
                      ∙ laws.asked key d.1 y
                ])
          | inr n ↦ rw (o, n) (λ k. laws.kept key x d.1 (h x k))
        ]
      ]

  step-Served :
      (planned : Bytes → Bool)
      → AreDisjoint planned overlaps
      → (call : Call) (d : List Subscription × W) → ArePlanned planned d.0
      → Served d
      → Served (spec_step by call d)
  step-Served planned apart (cancel_call i) d p h =
      cancelled_Served planned apart i (get_elem? d.0 i) d refl p h
  step-Served planned apart (subscribe_call topic sec) d p h =
      subscribed_Served topic (notify_type_for_topic topic) (copy_and_validate_securities sec) d h

  run-Served :
      (planned : Bytes → Bool)
      → AreDisjoint planned overlaps
      → (calls : List Call) (d : List Subscription × W) → All (IsPlanned planned) calls
      → ArePlanned planned d.0
      → Served d
      → Served (run_spec by calls d)
  unfolding run_spec
  run-Served planned apart [] d q p h = h
  run-Served planned apart (call ∷ calls) d q p h =
      run-Served planned apart calls (spec_step by call d) q.1
        (step-ArePlanned by planned call d q.0 p) (step-Served planned apart call d p h)

  -- After any calls of Subscribe and Cancel, one after the other from an empty registry, the
  -- Gateway serves every key that has an open subscription, if no two different keys that the calls
  -- ask for share an instrument of a topic. For a Gateway that treats an instrument list by its key,
  -- serves a key once it accepted it, and on a request to stop goes on with the keys that share no
  -- instrument of the topic with the one stopped.
  pub open-served :
      (gateway : Gateway W) (same : IsByKey gateway by) (calls : List Call) (w : W) (x : Bytes)
      → AreDisjoint (is_named calls) overlaps
      → is_open_for x (run_calls gateway calls (empty_registry, w)).0.made ≡ true
      → served (run_calls gateway calls (empty_registry, w)).1 x ≡ true
  open-served gateway same calls w x apart h =
      let d = run_calls-refines gateway by same calls w in
      ap (λ e. served e.1 x) d
      ∙ run-Served (is_named calls) apart calls ([], w)
          (calls_named (is_named calls) calls (λ k e. e)) (λ y k. absurd (cc)) (λ y k. absurd (cc))
          x (ap (λ e. is_open_for x e.0) (sym d) ∙ h)

-- The open subscriptions after the calls have keys that the calls ask for.
pub run_calls-ArePlanned :
    {W : Type 0} (gateway : Gateway W) (by : KeyGateway W) (same : IsByKey gateway by)
    (calls : List Call) (w : W)
    → ArePlanned (is_named calls) (run_calls gateway calls (empty_registry, w)).0.made
run_calls-ArePlanned gateway by same calls w x h =
    let d = run_calls-refines gateway by same calls w in
    run-ArePlanned by (is_named calls) calls ([], w) (calls_named (is_named calls) calls (λ k e. e))
      (λ y k. absurd (cc)) x (ap (λ e. is_open_for x e.0) (sym d) ∙ h)
