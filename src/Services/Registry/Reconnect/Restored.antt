-- ===== src/Services/Registry/Reconnect/Restored.antt =====
-- A reconnect after any history of calls (pkg/services/push.go): every subscription is served again, or
-- closed and reported.
use hstongapi4go.Common.{
  All, zero, suc, ◌≤◌, ◌||◌, get_elem?, ℕ, ◌≡◌, refl, ap, ◌∙◌, sym, Bool, true, false, not, ◌&&◌,
  Option, none, some, List, [], ◌∷◌, if◌then◌else◌, Bool-cases, ◌⊎◌, inl, inr, arith,
}
use hstongapi4go.Common.Bytes.{Bytes}
use hstongapi4go.Common.Table.{find, count}
use hstongapi4go.Resilience.Retry.{is_nil}
use hstongapi4go.Services.Push.Stream.{reconnected}
use hstongapi4go.Services.Registry.{Entry, Registry, Gateway, Subscription}
use hstongapi4go.Services.Registry.Index.{one_if}
use hstongapi4go.Services.Registry.Laws.{IsSound, subs_of, is_vacant, owns}
use hstongapi4go.Services.Registry.Spec.{
  KeyGateway, IsByKey, Call, run_calls, empty_registry, is_open_for,
}
use hstongapi4go.Services.Registry.Spec.Refines.{run_calls-IsSound}
use hstongapi4go.Services.Registry.Spec.Served.{Serves, AreDisjoint, is_named, run_calls-ArePlanned}
use hstongapi4go.Domain.Symbol.{is_empty}
use hstongapi4go.Services.Registry.Reconnect.{
  Outcome, entry_key, accepted, sort_entries, resubscribe_all, reported, on_reconnect,
}
use hstongapi4go.Services.Registry.Reconnect.Tables.{
  AreKeyed, keyed_all, visits, Apart, Listed, visits-accepted, accepted-Apart, accepted-Listed,
  visits-sort_entries, sort_entries-Apart, sort_entries-Listed,
}
use hstongapi4go.Services.Registry.Reconnect.Ready.{IsReady, run_calls-IsReady}
use hstongapi4go.Services.Registry.Reconnect.Renewal.{
  holds, is_lost, resubscribe_keys-holds, resubscribe_keys-served, resubscribe_keys-is_lost,
}

if_false : {W : Type 0} (b : Bool) (x y : Outcome W) → b ≡ false → (if b then x else y) ≡ y
if_false true x y h = absurd (cc)
if_false false x y h = refl

is_present : (i : ℕ) (o : Option Entry) → count i (subs_of o) ≡ 1 → is_vacant o ≡ false
unfolding count
is_present i none h = absurd (omega arith)
is_present i (some e) h = refl

and_true : (a b : Bool) → a ≡ true → (a && b) ≡ b
and_true true b h = refl
and_true false b h = absurd (cc)

not-not : (b : Bool) → not (not b) ≡ b
not-not true = refl
not-not false = refl

or_true : (b : Bool) → (b || true) ≡ true
or_true true = refl
or_true false = refl

owns-is_open_for :
    (made : List Subscription) (i : ℕ) (k : Bytes)
    → owns (get_elem? made i) k ≡ true
    → is_open_for k made ≡ true
owns-is_open_for [] i k h = absurd (cc)
owns-is_open_for (s ∷ made) zero k h = rw h refl
owns-is_open_for (s ∷ made) (suc i) k h = rw (owns-is_open_for made i k h) (or_true _)

-- A list that is not empty counts its first.
has_first : (ls : List ℕ) → is_empty ls ≡ false → (i : ℕ) × (1 ≤ count i ls)
unfolding count
has_first [] h = absurd (cc)
has_first (i ∷ ls) h = (i, ground arith)

one_if-true : (b : Bool) → 1 ≤ one_if b → b ≡ true
one_if-true true h = refl
one_if-true false h = absurd (omega arith)

module _ {W : Type 0} (gateway : Gateway W) (by : KeyGateway W) (same : IsByKey gateway by)
    (calls : List Call) (w w' : W) where
  -- The registry after the calls, and what the reconnect makes of it.
  abbrev pub before : Registry
  before = (run_calls gateway calls (empty_registry, w)).0

  abbrev pub after : Outcome W
  after = on_reconnect gateway before w'

  abbrev visited : List Entry
  visited = sort_entries (accepted before.entries)

  sound : IsSound before
  sound = run_calls-IsSound gateway by same calls w

  ready : IsReady before
  ready = run_calls-IsReady gateway calls empty_registry w (tt, refl)

  after_lem : after ≡ reported (reconnected ∷ []) (resubscribe_all gateway before w')
  unfolding on_reconnect
  after_lem = if_false before.closed _ _ ready.1

  are_keyed : AreKeyed before.entries
  are_keyed = keyed_all before.entries (sound.keyed) ready.0

  apart : Apart visited
  apart =
      sort_entries-Apart (accepted before.entries) (accepted-Apart before.entries are_keyed ready.0)

  listed : Listed before.entries visited
  listed =
      sort_entries-Listed before.entries (accepted before.entries)
        (accepted-Listed before.entries are_keyed ready.0)

  planned : Bytes → Bool
  planned = is_named calls

  before-planned : (i : ℕ) (k : Bytes) → holds before i k ≡ true → planned k ≡ true
  unfolding planned
  before-planned i k h =
      run_calls-ArePlanned gateway by same calls w k (owns-is_open_for before.made i k h)

  -- An entry has an open subscription of its key.
  entry-planned :
      (e : Entry) → find (entry_key e) before.entries ≡ some e → planned (entry_key e) ≡ true
  entry-planned e l =
      let taken : is_empty (subs_of (find (entry_key e) before.entries)) ≡ false =
        sym (sound.peopled (entry_key e)) ∙ ap is_vacant l in
      let (i, more) = has_first (subs_of (find (entry_key e) before.entries)) taken in
      before-planned i (entry_key e) (
        one_if-true (holds before i (entry_key e))
          (omega (arith, more, sound.held i (entry_key e))))

  entries_planned :
      (es : List Entry) → Listed before.entries es → All (λ e. planned (entry_key e) ≡ true) es
  entries_planned [] l = tt
  entries_planned (e ∷ es) l = (entry-planned e l.0, entries_planned es l.1)

  -- The entry of an open subscription is visited.
  visits-holds : (i : ℕ) (k : Bytes) → holds before i k ≡ true → visits k visited ≡ true
  visits-holds i k h =
      visits-sort_entries k (accepted before.entries)
      ∙ visits-accepted k before.entries are_keyed
      ∙ ap not (is_present i (find k before.entries) (sound.held i k ∙ ap one_if h))

  after-holds :
      (i : ℕ) (k : Bytes)
      → holds after.registry i k ≡ (holds before i k && not (is_lost k after.reports))
  unfolding resubscribe_all
  after-holds i k =
      ap (λ o. holds o.registry i k) after_lem
      ∙ resubscribe_keys-holds gateway visited before w' (sound.held) listed apart i k
      ∙ ap (λ o. holds before i k && not (is_lost k o.reports)) (sym after_lem)

  -- Whatever calls of Subscribe and Cancel came before, one after the other from an empty
  -- registry, after a reconnect every subscription that was open is still open and its key served
  -- and not reported as lost, or it is closed and its key reported as lost. The connection may
  -- have left the Gateway in any state. No two different keys that the calls ask for share an
  -- instrument of a topic, and no other call comes during the reconnect. For a Gateway that treats
  -- an instrument list by its key, serves a key once it accepted it, and on a request to stop goes
  -- on with the keys that share no instrument of the topic with the one stopped.
  pub reconnect-restores :
      (served : W → Bytes → Bool) (overlaps : Bytes → Bytes → Bool)
      → Serves by served overlaps
      → AreDisjoint (is_named calls) overlaps
      → (i : ℕ) (k : Bytes) → holds before i k ≡ true
      → ((holds after.registry i k ≡ true)
          × (served after.world k ≡ true)
          × (is_lost k after.reports ≡ false))
        ⊎ ((holds after.registry i k ≡ false) × (is_lost k after.reports ≡ true))
  unfolding resubscribe_all planned
  reconnect-restores served overlaps laws disjoint i k h =
      let kept = after-holds i k ∙ and_true (holds before i k) (not (is_lost k after.reports)) h in
      elim (Bool-cases (is_lost k after.reports)) [
        | inl l ↦ inr (kept ∙ ap not l, l)
        | inr l ↦ inl (
          kept ∙ ap not l,
          ap (λ o. served o.world k) after_lem
              ∙ resubscribe_keys-served gateway by same served overlaps laws (is_named calls)
                  disjoint visited before w' (sound.held) listed apart
                  (entries_planned visited listed) before-planned
                  (λ j x g. rw (visits-holds j x g) refl) i k
                  (ap (λ o. holds o.registry i k) (sym after_lem) ∙ kept ∙ ap not l),
          l,
        )
      ]

  -- For a Gateway that accepts some keys and no others, a subscription is open after a reconnect
  -- exactly if it was open before and the Gateway accepts its key. The calls before were of
  -- Subscribe and Cancel, one after the other from an empty registry, to a Gateway that treats an
  -- instrument list by its key; no other call comes during the reconnect.
  pub reconnect-closes :
      (accepts : Bytes → Bool)
      → ((e : Entry) (v : W)
          → is_nil (gateway.subscribe e.topic e.securities v).0 ≡ accepts (entry_key e))
      → (i : ℕ) (k : Bytes) → holds after.registry i k ≡ (holds before i k && accepts k)
  unfolding resubscribe_all
  reconnect-closes accepts decides i k =
      after-holds i k
      ∙ ap (λ o. holds before i k && not (is_lost k o.reports)) after_lem
      ∙ ap (λ b. holds before i k && not b)
          (resubscribe_keys-is_lost gateway accepts decides visited before w' k)
      ∙ elim (Bool-cases (holds before i k)) [
        | inl h ↦ rw (h, visits-holds i k h) (not-not (accepts k))
        | inr h ↦ rw h refl
      ]
