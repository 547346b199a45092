-- ===== src/Services/Registry/Reconnect/Closed.antt =====
-- Once pkg/services/push.go is closed, no subscription is open and no call changes anything.
use hstongapi4go.Common.{
  ℕ, ◌≤◌, ◌≡◌, refl, ap, ◌∙◌, Bool, true, false, not, ◌&&◌, Option, none, some, List, [], ◌∷◌,
  get_elem?, if◌then◌else◌, Bool-cases, inl, inr, arith, ltb, lt→ltb,
}
use hstongapi4go.Common.Int.{ℤ}
use hstongapi4go.Common.Bytes.{Bytes}
use hstongapi4go.Common.Text.{bytes_eq, bytes_eq_refl}
use hstongapi4go.Common.Table.{find, count, count-append}
use hstongapi4go.Services.Push.Keys.{Security}
use hstongapi4go.Services.Push.Topics.{notify_type_for_topic}
use hstongapi4go.Services.Registry.{
  Subscription, Entry, Registry, Gateway, Reply, key_of, cancel_sub, cancel_local, cancel_remote,
  with_type, locked, subscribe_under_lock, copy_and_validate_securities,
}
use hstongapi4go.Services.Registry.Index.{one_if}
use hstongapi4go.Services.Registry.Laws.{IsSound, holders, owns}
use hstongapi4go.Services.Registry.Spec.{
  KeyGateway, IsByKey, Call, subscribe_call, cancel_call, run_calls, empty_registry,
}
use hstongapi4go.Services.Registry.Spec.Refines.{run_calls-IsSound}
use hstongapi4go.Services.Registry.Reconnect.{all_subs, close_all}
use hstongapi4go.Services.Registry.Reconnect.Tables.{shut_if, get_elem?-shut_all}

-- There is no such subscription, or it is closed.
abbrev pub is_shut : Option Subscription → Bool
is_shut none = true
is_shut (some s) = s.closed

count-holders :
    (i : ℕ) (key : Bytes) (m : List (Bytes × Entry))
    → count i (holders m key) ≤ count i (all_subs m)
unfolding all_subs find count
count-holders i key [] = omega arith
count-holders i key ((k, e) ∷ m) = elim (Bool-cases (bytes_eq k key)) [
  | inl b ↦ rw b (omega (arith, count-append i e.subs (all_subs m)))
  | inr b ↦ rw b (omega (arith, count-append i e.subs (all_subs m), count-holders i key m))
]

is_shut-shut_if :
    (o : Option Subscription) (n : ℕ)
    → ((key : Bytes) → one_if (owns o key) ≤ n)
    → is_shut (shut_if (ltb 0 n) o) ≡ true
is_shut-shut_if none n h = refl
is_shut-shut_if (some s) n h = elim (Bool-cases s.closed) [
  | inl c ↦ ground arith
  | inr c ↦
      let one : one_if (owns (some s) (key_of s)) ≡ 1 =
        ap (λ b. one_if (not b && bytes_eq (key_of s) (key_of s))) c
        ∙ ap one_if (bytes_eq_refl (key_of s)) in
      ap (λ b. is_shut (shut_if b (some s))) (lt→ltb 0 n (omega (arith, h (key_of s), one)))
]

close_all-is_shut :
    (r : Registry) → IsSound r → (i : ℕ) → is_shut (get_elem? (close_all r).made i) ≡ true
unfolding close_all
close_all-is_shut r sound i =
    ap is_shut (get_elem?-shut_all (all_subs r.entries) r.made i)
    ∙ is_shut-shut_if (get_elem? r.made i) (count i (all_subs r.entries))
        (λ key. omega (arith, sound.held i key, count-holders i key r.entries))

module _ {W : Type 0} (gateway : Gateway W) where
  abbrev left_by : Reply W → Registry × W
  left_by out = (out.registry, out.world)

  if_true :
      (b : Bool) (x y : Reply W) (r : Registry) (w : W)
      → b ≡ true
      → left_by x ≡ (r, w)
      → left_by (if b then x else y) ≡ (r, w)
  if_true true x y r w h e = e
  if_true false x y r w h e = absurd (cc)

  with_type-closed :
      (topic : ℤ) (t : Option ℕ) (ss : Option (List Security)) (r : Registry) (w : W)
      → r.closed ≡ true
      → left_by (with_type gateway topic t ss r w) ≡ (r, w)
  unfolding locked
  with_type-closed topic none ss r w c = refl
  with_type-closed topic (some t) none r w c = refl
  with_type-closed topic (some t) (some ss) r w c = if_true r.closed _ _ r w c refl

  cancel_sub-shut :
      (i : ℕ) (o : Option Subscription) (r : Registry)
      → is_shut o ≡ true
      → cancel_sub i o r ≡ (r, none)
  unfolding cancel_sub
  cancel_sub-shut i none r h = refl
  cancel_sub-shut i (some s) r h = rw h refl

  run_calls-closed :
      (more : List Call) (r : Registry) (w : W)
      → r.closed ≡ true
      → ((i : ℕ) → is_shut (get_elem? r.made i) ≡ true)
      → run_calls gateway more (r, w) ≡ (r, w)
  unfolding run_calls subscribe_under_lock cancel_local cancel_remote
  run_calls-closed [] r w c s = refl
  run_calls-closed (subscribe_call topic sec ∷ more) r w c s =
      ap (run_calls gateway more) (
        with_type-closed topic (notify_type_for_topic topic) (copy_and_validate_securities sec) r w
          c)
      ∙ run_calls-closed more r w c s
  run_calls-closed (cancel_call i ∷ more) r w c s =
      ap (λ o. run_calls gateway more (o.0, (cancel_remote gateway o.1 w).1))
        (cancel_sub-shut i (get_elem? r.made i) r (s i))
      ∙ run_calls-closed more r w c s

  -- After Close no subscription is open, and whatever further calls of Subscribe and Cancel come,
  -- the registry stays as it is and the Gateway gets no request. The calls before were of
  -- Subscribe and Cancel, one after the other from an empty registry, to a Gateway that treats an
  -- instrument list by its key.
  pub run_calls-close_all :
      (by : KeyGateway W) (same : IsByKey gateway by) (calls more : List Call) (w v : W) (i : ℕ)
      → let r = close_all (run_calls gateway calls (empty_registry, w)).0 in
        (run_calls gateway more (r, v) ≡ (r, v)) × (is_shut (get_elem? r.made i) ≡ true)
  run_calls-close_all by same calls more w v i =
      let sound = run_calls-IsSound gateway by same calls w in
      let shut = close_all-is_shut (run_calls gateway calls (empty_registry, w)).0 sound in
      (run_calls-closed more _ v (unfold close_all in refl) shut, shut i)
