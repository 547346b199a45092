-- ===== src/Services/Registry/Reconnect/Renewal.antt =====
-- What a reconnect does to each subscription (pkg/services/push.go): it stays open and is served again,
-- or it is closed and its key reported.
use hstongapi4go.Common.{
  All, ℕ, ◌≡◌, refl, ap, ◌∙◌, sym, Bool, true, false, not, ◌&&◌, ◌||◌, Option, some, List, [], ◌∷◌,
  ◌++◌, get_elem?, arith, ltb, Bool-cases, inl, inr,
}
use hstongapi4go.Common.Bytes.{Bytes}
use hstongapi4go.Common.Text.{bytes_eq, eq_of_bytes_eq}
use hstongapi4go.Common.Table.{find, count, find-remove}
use hstongapi4go.Resilience.Retry.{is_nil}
use hstongapi4go.Services.Push.Stream.{
  StreamError, reconnected, unrouted_update, trade_backlog, subscription_lost, update_out_of_order,
  of_transport,
}
use hstongapi4go.Services.Registry.{Subscription, Entry, Registry, Gateway}
use hstongapi4go.Services.Registry.Index.{one_if}
use hstongapi4go.Services.Registry.Laws.{holders, owns, subs_of}
use hstongapi4go.Services.Registry.Spec.{KeyGateway, IsByKey}
use hstongapi4go.Services.Registry.Spec.Served.{Serves, AreDisjoint}
use hstongapi4go.Services.Registry.Reconnect.{entry_key, kill_entry, resubscribe_keys, lost_if}
use hstongapi4go.Services.Registry.Reconnect.Tables

-- The subscription `i` is open and has this key.
abbrev pub holds : Registry → ℕ → Bytes → Bool
holds r i key = owns (get_elem? r.made i) key

-- The entry of a key holds its open subscriptions.
abbrev pub IsHeld : Registry → Type 0
IsHeld r = (i : ℕ) (key : Bytes) → count i (holders r.entries key) ≡ one_if (holds r i key)

ltb-one_if : (n : ℕ) (b : Bool) → n ≡ one_if b → ltb 0 n ≡ b
ltb-one_if n true h = rw h refl
ltb-one_if n false h = rw h refl

and_not : (b : Bool) → ◌≡◌ {A = ℕ} 0 (one_if (not b && b))
and_not true = refl
and_not false = refl

apart : (a b : Bool) → (a ≡ true → b ≡ false) → one_if b ≡ one_if (not a && b)
apart true b h = rw (h refl) refl
apart false b h = refl

kill-Listed :
    (r : Registry) (e : Entry) (es : List Entry)
    → Tables.visits (entry_key e) es ≡ false
    → Tables.Listed r.entries es
    → Tables.Listed (kill_entry e r).entries es
unfolding kill_entry
kill-Listed r e es v l = Tables.remove-Listed (entry_key e) r.entries es v l

module _ (r : Registry) (held : IsHeld r) (e : Entry)
    (listed : find (entry_key e) r.entries ≡ some e) where
  kill-holds :
      (i : ℕ) (k : Bytes)
      → holds (kill_entry e r) i k ≡ (not (holds r i (entry_key e)) && holds r i k)
  unfolding kill_entry
  kill-holds i k =
      ap (λ o. owns o k) (Tables.get_elem?-shut_all e.subs r.made i)
      ∙ Tables.owns-shut_if (ltb 0 (count i e.subs)) (get_elem? r.made i) k
      ∙ ap (λ b. not b && holds r i k)
          (ltb-one_if (count i e.subs) (holds r i (entry_key e))
            (ap (λ o. count i (subs_of o)) (sym listed) ∙ held i (entry_key e)))

  kill-IsHeld : IsHeld (kill_entry e r)
  unfolding count
  kill-IsHeld i k = elim (Bool-cases (bytes_eq (entry_key e) k)) [
    | inl b ↦ rw (kill-holds i k) (
        unfold kill_entry in
        rw (find-remove, b) (rw (eq_of_bytes_eq (entry_key e) k b) (and_not (holds r i k))))
    | inr b ↦ rw (kill-holds i k) (
        unfold kill_entry in
        rw (find-remove, b)
          (held i k
            ∙ apart (holds r i (entry_key e)) (holds r i k)
                (Tables.owns_apart (get_elem? r.made i) (entry_key e) k b)))
  ]

-- A key that is reported as lost.
abbrev pub is_lost : Bytes → List StreamError → Bool
is_lost k [] = false
is_lost k (subscription_lost key ∷ es) = bytes_eq key k || is_lost k es
is_lost k (reconnected ∷ es) = is_lost k es
is_lost k (unrouted_update i c ∷ es) = is_lost k es
is_lost k (trade_backlog ∷ es) = is_lost k es
is_lost k (update_out_of_order ∷ es) = is_lost k es
is_lost k (of_transport t ∷ es) = is_lost k es

is_lost-cons :
    (b : Bool) (key k : Bytes) (es : List StreamError)
    → is_lost k ((subscription_lost key ∷ lost_if b key []) ++ es)
      ≡ (bytes_eq key k || is_lost k es)
is_lost-cons true key k es = ground arith
is_lost-cons false key k es = refl

lost_both : (a b l : Bool) → a ≡ b → ((not a && b) && not l) ≡ (b && not (true || l))
lost_both a true l h = rw h refl
lost_both a false l h = ground arith

lost_one : (a b l : Bool) → (a ≡ true → b ≡ false) → ((not a && b) && not l) ≡ (b && not l)
lost_one true b l h = rw (h refl) refl
lost_one false b l h = refl

lost_out :
    (o : Option Subscription) (key k : Bytes) (l : Bool)
    → ((not (owns o key) && owns o k) && not l) ≡ (owns o k && not (bytes_eq key k || l))
lost_out o key k l = elim (Bool-cases (bytes_eq key k)) [
  | inl b ↦ rw b (lost_both (owns o key) (owns o k) l (ap (owns o) (eq_of_bytes_eq key k b)))
  | inr b ↦ rw b (lost_one (owns o key) (owns o k) l (Tables.owns_apart o key k b))
]

module _ {W : Type 0} (gateway : Gateway W) where
  pub resubscribe_keys-holds :
      (es : List Entry) (r : Registry) (w : W)
      → IsHeld r
      → Tables.Listed r.entries es
      → Tables.Apart es
      → (i : ℕ) (k : Bytes)
      → holds (resubscribe_keys gateway es r w).registry i k
        ≡ (holds r i k && not (is_lost k (resubscribe_keys gateway es r w).reports))
  unfolding resubscribe_keys
  resubscribe_keys-holds [] r w held listed apart' i k = ground arith
  resubscribe_keys-holds (e ∷ es) r w held listed apart' i k =
      let asked = gateway.subscribe e.topic e.securities w in
      let stopped = gateway.unsubscribe e.topic e.securities asked.1 in
      elim (Bool-cases (is_nil asked.0)) [
        | inl y ↦ rw y (resubscribe_keys-holds es r asked.1 held listed.1 apart'.1 i k)
        | inr n ↦
            rw (n, is_lost-cons)
              (resubscribe_keys-holds es (kill_entry e r) stopped.1 (kill-IsHeld r held e listed.0)
                  (kill-Listed r e es apart'.0 listed.1) apart'.1 i k
                ∙ ap
                    (λ b.
                      b
                      && not (
                          is_lost k
                            (resubscribe_keys gateway es (kill_entry e r) stopped.1).reports))
                    (kill-holds r held e listed.0 i k)
                ∙ lost_out (get_elem? r.made i) (entry_key e) k _)
      ]

not_both : (a b : Bool) → a ≡ b → (not a && b) ≡ true → ⊥
not_both true b e h = cc
not_both false b e h = cc

and_right : (a b : Bool) → (a && b) ≡ true → b ≡ true
and_right true b h = h
and_right false b h = absurd (cc)

module _ {W : Type 0} (gateway : Gateway W) (by : KeyGateway W) (same : IsByKey gateway by)
    (served : W → Bytes → Bool) (overlaps : Bytes → Bytes → Bool) (laws : Serves by served overlaps)
    (planned : Bytes → Bool) (disjoint : AreDisjoint planned overlaps) where
  -- Every open subscription is served, or its key is still to come.
  abbrev pub IsDue : List Entry → Registry → W → Type 0
  IsDue es r w =
      (i : ℕ) (k : Bytes) → holds r i k ≡ true → (Tables.visits k es || served w k) ≡ true

  -- The open subscriptions, and the entries to come, have planned keys.
  abbrev pub HoldsPlanned : Registry → Type 0
  HoldsPlanned r = (i : ℕ) (k : Bytes) → holds r i k ≡ true → planned k ≡ true

  abbrev pub VisitsPlanned : List Entry → Type 0
  VisitsPlanned es = All (λ e. planned (entry_key e) ≡ true) es

  asked_lem :
      (e : Entry) (w : W)
      → is_nil (gateway.subscribe e.topic e.securities w).0 ≡ true
      → served (gateway.subscribe e.topic e.securities w).1 (entry_key e) ≡ true
  asked_lem e w y =
      let s = same.subscribed e.topic e.securities w in
      ap (λ r. served r.1 (entry_key e)) s
      ∙ laws.asked (entry_key e) w (sym (ap (λ r. is_nil r.0) s) ∙ y)

  kept_lem :
      (e : Entry) (w : W) (k : Bytes)
      → served w k ≡ true
      → served (gateway.subscribe e.topic e.securities w).1 k ≡ true
  kept_lem e w k h =
      ap (λ r. served r.1 k) (same.subscribed e.topic e.securities w)
      ∙ laws.kept (entry_key e) k w h

  stopped_lem :
      (e : Entry) (w : W) (k : Bytes)
      → planned (entry_key e) ≡ true
      → planned k ≡ true
      → bytes_eq (entry_key e) k ≡ false
      → served w k ≡ true
      → served (gateway.unsubscribe e.topic e.securities w).1 k ≡ true
  stopped_lem e w k p q b h =
      ap (λ r. served r.1 k) (same.unsubscribed e.topic e.securities w)
      ∙ laws.stopped (entry_key e) k w (disjoint (entry_key e) k p q b) h

  asked_or_kept :
      (e : Entry) (w : W) (x : Bytes)
      → is_nil (gateway.subscribe e.topic e.securities w).0 ≡ true
      → (bytes_eq (entry_key e) x || served w x) ≡ true
      → served (gateway.subscribe e.topic e.securities w).1 x ≡ true
  asked_or_kept e w x y h = elim (Bool-cases (bytes_eq (entry_key e) x)) [
    | inl b ↦
        ap (served (gateway.subscribe e.topic e.securities w).1)
          (sym (eq_of_bytes_eq (entry_key e) x b))
        ∙ asked_lem e w y
    | inr b ↦ kept_lem e w x (rw b at h)
  ]

  accepted-IsDue :
      (e : Entry) (es : List Entry) (r : Registry) (w : W)
      → is_nil (gateway.subscribe e.topic e.securities w).0 ≡ true
      → IsDue (e ∷ es) r w
      → IsDue es r (gateway.subscribe e.topic e.securities w).1
  accepted-IsDue e es r w y due j x h = elim (Bool-cases (Tables.visits x es)) [
    | inl v ↦ rw v refl
    | inr v ↦ rw v (asked_or_kept e w x y (ground (arith, due j x h)))
  ]

  refused-IsDue :
      (e : Entry) (es : List Entry) (r : Registry) (w : W)
      → IsHeld r
      → find (entry_key e) r.entries ≡ some e
      → planned (entry_key e) ≡ true
      → HoldsPlanned r
      → IsDue (e ∷ es) r w
      → IsDue es
          (kill_entry e r)
          (gateway.unsubscribe e.topic e.securities (gateway.subscribe e.topic e.securities w).1).1
  refused-IsDue e es r w held listed p entries_planned due j x h =
      let both : (not (holds r j (entry_key e)) && holds r j x) ≡ true =
        sym (kill-holds r held e listed j x) ∙ h in
      let opened : holds r j x ≡ true =
        and_right (not (holds r j (entry_key e))) (holds r j x) both in
      elim (Bool-cases (bytes_eq (entry_key e) x)) [
        | inl b ↦ absurd (
            not_both (holds r j (entry_key e)) (holds r j x)
              (ap (λ y. holds r j y) (eq_of_bytes_eq (entry_key e) x b)) both)
        | inr b ↦ elim (Bool-cases (Tables.visits x es)) [
          | inl v ↦ rw v refl
          | inr v ↦ rw v (
              stopped_lem e (gateway.subscribe e.topic e.securities w).1 x p
                (entries_planned j x opened) b (kept_lem e w x (ground (arith, due j x opened))))
        ]
      ]

  kill-HoldsPlanned :
      (r : Registry) (held : IsHeld r) (e : Entry)
      → find (entry_key e) r.entries ≡ some e
      → HoldsPlanned r
      → HoldsPlanned (kill_entry e r)
  kill-HoldsPlanned r held e listed p j x h = p j x (
      and_right (not (holds r j (entry_key e))) (holds r j x)
        (sym (kill-holds r held e listed j x) ∙ h))

  pub resubscribe_keys-served :
      (es : List Entry) (r : Registry) (w : W)
      → IsHeld r
      → Tables.Listed r.entries es
      → Tables.Apart es
      → VisitsPlanned es
      → HoldsPlanned r
      → IsDue es r w
      → (i : ℕ) (k : Bytes) → holds (resubscribe_keys gateway es r w).registry i k ≡ true
      → served (resubscribe_keys gateway es r w).world k ≡ true
  unfolding resubscribe_keys
  resubscribe_keys-served [] r w held listed apart' ps hs due i k = due i k
  resubscribe_keys-served (e ∷ es) r w held listed apart' ps hs due i k =
      let asked = gateway.subscribe e.topic e.securities w in
      let stopped = gateway.unsubscribe e.topic e.securities asked.1 in
      elim (Bool-cases (is_nil asked.0)) [
        | inl y ↦ rw y (
            resubscribe_keys-served es r asked.1 held listed.1 apart'.1 ps.1 hs
              (accepted-IsDue e es r w y due) i k)
        | inr n ↦ rw n (
            resubscribe_keys-served es (kill_entry e r) stopped.1 (kill-IsHeld r held e listed.0)
              (kill-Listed r e es apart'.0 listed.1) apart'.1 ps.1
              (kill-HoldsPlanned r held e listed.0 hs)
              (refused-IsDue e es r w held listed.0 ps.0 hs due) i k)
      ]

-- With a Gateway that accepts some keys and no others, the reports name those that it refuses.
module _ {W : Type 0} (gateway : Gateway W) (accepts : Bytes → Bool)
    (decides : (e : Entry) (w : W)
      → is_nil (gateway.subscribe e.topic e.securities w).0 ≡ accepts (entry_key e)) where
  pub resubscribe_keys-is_lost :
      (es : List Entry) (r : Registry) (w : W) (k : Bytes)
      → is_lost k (resubscribe_keys gateway es r w).reports
        ≡ (Tables.visits k es && not (accepts k))
  unfolding resubscribe_keys
  resubscribe_keys-is_lost [] r w k = refl
  resubscribe_keys-is_lost (e ∷ es) r w k =
      let asked = gateway.subscribe e.topic e.securities w in
      let stopped = gateway.unsubscribe e.topic e.securities asked.1 in
      elim (Bool-cases (is_nil asked.0)) [
        | inl y ↦ rw y (
            resubscribe_keys-is_lost es r asked.1 k
            ∙ kept_key (entry_key e) k (sym (decides e w) ∙ y) (Tables.visits k es))
        | inr n ↦
            rw (n, is_lost-cons)
              (ap (λ b. bytes_eq (entry_key e) k || b)
                  (resubscribe_keys-is_lost es (kill_entry e r) stopped.1 k)
                ∙ lost_key (entry_key e) k (sym (decides e w) ∙ n) (Tables.visits k es))
      ]
    where
      kept_key :
          (key k : Bytes)
          → accepts key ≡ true
          → (v : Bool) → (v && not (accepts k)) ≡ ((bytes_eq key k || v) && not (accepts k))
      kept_key key k a v = elim (Bool-cases (bytes_eq key k)) [
        | inl b ↦ rw b (rw (← eq_of_bytes_eq key k b, a) (ground arith))
        | inr b ↦ rw b refl
      ]

      lost_key :
          (key k : Bytes)
          → accepts key ≡ false
          → (v : Bool)
          → (bytes_eq key k || v && not (accepts k)) ≡ ((bytes_eq key k || v) && not (accepts k))
      lost_key key k a v = elim (Bool-cases (bytes_eq key k)) [
        | inl b ↦ rw b (rw (← eq_of_bytes_eq key k b, a) refl)
        | inr b ↦ rw b refl
      ]
