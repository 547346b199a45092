-- ===== src/Services/Registry/Spec/Refines.antt =====
-- The registry of pkg/services/push.go implements its specification.
use hstongapi4go.Common.{
  ℕ, ◌≡◌, refl, ap, ◌∙◌, sym, Bool, true, false, not, ◌&&◌, Option, none, some, List, [], ◌∷◌,
  get_elem?, set, arith, Bool-cases, Option-cases, inl, inr, if◌then◌else◌,
}
use mathlib.Core.Path.{subst}
use hstongapi4go.Common.Int.{ℤ}
use hstongapi4go.Common.Bytes.{Bytes}
use hstongapi4go.Common.Text.{bytes_eq_refl, eq_of_bytes_eq}
use hstongapi4go.Common.Table.{find, count}
use hstongapi4go.Domain.Symbol.{is_empty}
use hstongapi4go.Resilience.Retry.{is_nil}
use hstongapi4go.Services.Push.Keys.{Security, canonical_push_key}
use hstongapi4go.Services.Push.Topics.{notify_type_for_topic}
use hstongapi4go.Services.Registry.{
  Subscription, Entry, Registry, Gateway, key_of, copy_and_validate_securities,
  subscribe_under_lock, cancel_local, cancel_remote, with_type, with_entry, refused,
  err_push_closed, locked, join_entry, new_entry, cancel_sub,
}
use hstongapi4go.Services.Registry.Index.{one_if}
use hstongapi4go.Services.Registry.Laws.{IsSound, owns, subs_of, is_keyed}
use hstongapi4go.Services.Registry.Laws.Joining.{join_entry-IsSound}
use hstongapi4go.Services.Registry.Laws.Leaving.{
  cancelled, holders-left_table, cancel_local-IsSound, gone, left, after,
}
use hstongapi4go.Services.Registry.Spec.{
  Call, subscribe_call, cancel_call, is_open_for, step, run_calls, settled, KeyGateway, IsByKey,
  spec_subscribe, spec_cancel, spec_step, run_spec, empty_registry,
}
use hstongapi4go.Services.Registry.Spec.Owners.{vacant_lem}

kept :
    (topic : ℤ) (t : ℕ) (ss : List Security) (e : Entry) (r : Registry)
    → r.closed ≡ false
    → (join_entry topic t ss (canonical_push_key topic ss) e r).closed ≡ false
unfolding join_entry
kept topic t ss e r h = h

one_owner :
    (i : ℕ) (s : Subscription) (r : Registry)
    → get_elem? r.made i ≡ some s
    → s.closed ≡ false
    → one_if (owns (get_elem? r.made i) (key_of s)) ≡ 1
one_owner i s r known c = rw (known, c, bytes_eq_refl) refl

empty-IsSound : IsSound empty_registry
unfolding count find
empty-IsSound = record {
  held = λ i k. refl;
  routed = λ i k. refl;
  peopled = λ k. refl;
  keyed = λ k. refl;
}

both : (a b : Bool) → (a && b) ≡ true → a ≡ true
both true b h = refl
both false b h = h

false_and : (a b : Bool) → b ≡ false → (a && b) ≡ true → ⊥
false_and a true e h = absurd (cc)
false_and true false e h = cc
false_and false false e h = cc

no_entry :
    (i : ℕ) (s : Subscription) (r : Registry)
    → IsSound r
    → get_elem? r.made i ≡ some s
    → s.closed ≡ false
    → find (key_of s) r.entries ≡ none
    → ⊥
unfolding count
no_entry i s r sound known c f =
    omega (arith, ap (λ o. count i (subs_of o)) f, sound.held i (key_of s), one_owner i s r known c)

after_sound :
    (i : ℕ) (s : Subscription) (e : Entry) (r : Registry) (sound : IsSound r)
    (known : get_elem? r.made i ≡ some s) (c : s.closed ≡ false)
    (f : find (key_of s) r.entries ≡ some e)
    → IsSound (after r sound i s e known c f)
after_sound i s e r sound known c f =
    subst IsSound (ap (λ o. o.0) (cancelled r sound i s e known c f))
      (cancel_local-IsSound r sound i s e known c f)

open_after :
    (i : ℕ) (s : Subscription) (e : Entry) (r : Registry) (sound : IsSound r)
    (known : get_elem? r.made i ≡ some s) (c : s.closed ≡ false)
    (f : find (key_of s) r.entries ≡ some e)
    → is_open_for (key_of s) (set r.made i (record s { closed = true }))
      ≡ not (is_empty (left r sound i s e known c f))
open_after i s e r sound known c f =
    vacant_lem (after r sound i s e known c f) (key_of s) (after_sound i s e r sound known c f)
    ∙ ap not (
        (after_sound i s e r sound known c f).peopled (key_of s)
        ∙ ap is_empty (holders-left_table (key_of s) e (left r sound i s e known c f) r.entries))

module _ {W : Type 0} (gateway : Gateway W) (by : KeyGateway W) (laws : IsByKey gateway by) where
  -- A registry and what the specification keeps of it.
  pub record Matches (rw' : Registry × W) (d : List Subscription × W) : Type 0 where
    pub sound : IsSound rw'.0
    pub running : rw'.0.closed ≡ false
    pub same : (rw'.0.made, rw'.1) ≡ d

  locked_open :
      (topic : ℤ) (t : ℕ) (ss : List Security) (r : Registry) (w : W)
      → r.closed ≡ false
      → locked gateway topic t ss r w
        ≡ with_entry gateway topic t ss r w (find (canonical_push_key topic ss) r.entries)
  unfolding locked
  locked_open topic t ss r w h =
      ap
        (λ b.
          if b
          then refused err_push_closed r w
          else with_entry gateway topic t ss r w (find (canonical_push_key topic ss) r.entries))
        h

  joined :
      (topic : ℤ) (t : ℕ) (ss : List Security) (r : Registry) (w : W)
      → IsSound r
      → r.closed ≡ false
      → let out = locked gateway topic t ss r w in
        Matches (out.registry, out.world) (spec_subscribe by topic (some t) (some ss) (r.made, w))
  unfolding join_entry
  joined topic t ss r w sound running =
      elim (Option-cases (find (canonical_push_key topic ss) r.entries)) [
        | inl f ↦
            rw
              (
                locked_open topic t ss r w running,
                f,
                vacant_lem r (canonical_push_key topic ss) sound,
                f,
                laws.subscribed topic ss w,
              )
              (elim (Bool-cases (is_nil (by.subscribe_key (canonical_push_key topic ss) w).0)) [
                | inl y ↦ rw y (record {
                  sound =
                      join_entry-IsSound topic t ss (new_entry topic ss) r sound (inr (f, refl))
                        (rw bytes_eq_refl refl);
                  running = kept topic t ss (new_entry topic ss) r running;
                  same = refl;
                })
                | inr n ↦ rw n (record { sound = sound; running = running; same = refl })
              ])
        | inr (e, f) ↦
            rw
              (
                locked_open topic t ss r w running,
                f,
                vacant_lem r (canonical_push_key topic ss) sound,
                f,
              )
              (record {
                sound = join_entry-IsSound topic t ss e r sound (inl f) (
                    subst (λ o. is_keyed (canonical_push_key topic ss) o ≡ true) f
                      (sound.keyed (canonical_push_key topic ss)));
                running = kept topic t ss e r running;
                same = refl;
              })
      ]

  -- The request for an entry that goes is the one for its key.
  asked_away :
      (e : Entry) (key : Bytes) (w : W)
      → is_keyed key (some e) ≡ true
      → (cancel_remote gateway (some (record e { subs = [] })) w).1 ≡ (by.unsubscribe_key key w).1
  unfolding cancel_remote
  asked_away e key w h = elim (Bool-cases e.subscribed) [
    | inl y ↦ rw y (
        ap (λ out. out.1)
          (laws.unsubscribed e.topic e.securities w
            ∙ ap (λ k. by.unsubscribe_key k w) (eq_of_bytes_eq _ key (both _ e.subscribed h))))
    | inr y ↦ absurd (false_and _ e.subscribed y h)
  ]

  left_step :
      (i : ℕ) (s : Subscription) (e : Entry) (r : Registry) (w : W) (sound : IsSound r)
      (running : r.closed ≡ false) (known : get_elem? r.made i ≡ some s) (c : s.closed ≡ false)
      (f : find (key_of s) r.entries ≡ some e)
      → Matches
          (settled gateway (after r sound i s e known c f, gone e (left r sound i s e known c f)) w)
          (spec_cancel by i (some s) (r.made, w))
  unfolding cancel_remote gone
  left_step i s e r w sound running known c f =
      rw (c, open_after i s e r sound known c f) (by_left (left r sound i s e known c f))
    where
      by_left :
          (l : List ℕ)
          → Matches (settled gateway (after r sound i s e known c f, gone e l) w) (
              if not (is_empty l)
              then (set r.made i (record s { closed = true }), w)
              else (set r.made i (record s { closed = true }), (by.unsubscribe_key (key_of s) w).1))
      by_left (x ∷ xs) = record {
        sound = after_sound i s e r sound known c f;
        running = running;
        same = refl;
      }
      by_left [] = record {
        sound = after_sound i s e r sound known c f;
        running = running;
        same =
            ap (λ w'. (set r.made i (record s { closed = true }), w'))
              (asked_away e (key_of s) w
                (subst (λ o. is_keyed (key_of s) o ≡ true) f (sound.keyed (key_of s))));
      }

  cancelled_step :
      (i : ℕ) (o : Option Subscription) (r : Registry) (w : W)
      → get_elem? r.made i ≡ o
      → IsSound r
      → r.closed ≡ false
      → Matches (step gateway (cancel_call i) (r, w)) (spec_cancel by i o (r.made, w))
  unfolding cancel_local cancel_sub cancel_remote
  cancelled_step i none r w known sound running =
      rw known (record { sound = sound; running = running; same = refl })
  cancelled_step i (some s) r w known sound running = elim (Bool-cases s.closed) [
    | inl c ↦ rw (known, c) (record { sound = sound; running = running; same = refl })
    | inr c ↦ elim (Option-cases (find (key_of s) r.entries)) [
      | inl f ↦ absurd (no_entry i s r sound known c f)
      | inr (e, f) ↦
          subst (λ o. Matches (settled gateway o w) (spec_cancel by i (some s) (r.made, w)))
            (sym (cancelled r sound i s e known c f)) (left_step i s e r w sound running known c f)
    ]
  ]

  step-Matches :
      (call : Call) (r : Registry) (w : W)
      → IsSound r
      → r.closed ≡ false
      → Matches (step gateway call (r, w)) (spec_step by call (r.made, w))
  unfolding subscribe_under_lock
  step-Matches (cancel_call i) r w sound running =
      cancelled_step i (get_elem? r.made i) r w refl sound running
  step-Matches (subscribe_call topic sec) r w sound running =
      typed (notify_type_for_topic topic) (copy_and_validate_securities sec)
    where
      typed :
          (t : Option ℕ) (ss : Option (List Security))
          → let out = with_type gateway topic t ss r w in
            Matches (out.registry, out.world) (spec_subscribe by topic t ss (r.made, w))
      typed none ss = record { sound = sound; running = running; same = refl }
      typed (some t) none = record { sound = sound; running = running; same = refl }
      typed (some t) (some ss) = joined topic t ss r w sound running

  -- A registry that serves calls one after the other has the subscriptions and has made the requests
  -- that the specification says.
  pub run_calls-run_spec :
      (calls : List Call) (r : Registry) (w : W)
      → IsSound r
      → r.closed ≡ false
      → Matches (run_calls gateway calls (r, w)) (run_spec by calls (r.made, w))
  unfolding run_calls run_spec
  run_calls-run_spec [] r w sound running = record { sound = sound; running = running; same = refl }
  run_calls-run_spec (call ∷ calls) r w sound running =
      let m = step-Matches call r w sound running in
      let out = step gateway call (r, w) in
      subst (λ d. Matches (run_calls gateway calls out) (run_spec by calls d)) m.same
        (run_calls-run_spec calls out.0 out.1 m.sound m.running)

  -- Whatever calls of Subscribe and Cancel come, one after the other, the registry ends with the
  -- subscriptions, and the Gateway with the requests, of a specification that keeps nothing but
  -- the subscriptions: a request for a key when it gets its first open subscription, one to stop
  -- when its last open one is cancelled, and no other. The registry is empty and not closed at the
  -- start, and the Gateway treats an instrument list by its key.
  pub run_calls-refines :
      (calls : List Call) (w : W)
      → (
        (run_calls gateway calls (empty_registry, w)).0.made,
        (run_calls gateway calls (empty_registry, w)).1,
      )
        ≡ run_spec by calls ([], w)
  run_calls-refines calls w = (run_calls-run_spec calls empty_registry w empty-IsSound refl).same

  -- After any calls of Subscribe and Cancel, one after the other from an empty registry, every
  -- open subscription stands once in the entry of its key and once in the bucket of each
  -- instrument of that entry, nothing else stands in either, no entry is empty, and each is stored
  -- under the key of its own instruments. The Gateway treats an instrument list by its key.
  pub run_calls-IsSound :
      (calls : List Call) (w : W) → IsSound (run_calls gateway calls (empty_registry, w)).0
  run_calls-IsSound calls w = (run_calls-run_spec calls empty_registry w empty-IsSound refl).sound
