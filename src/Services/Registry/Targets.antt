-- ===== src/Services/Registry/Targets.antt =====
-- Whom `dispatchMarket` of pkg/services/push.go delivers an update to.
pub mod Instruments
use hstongapi4go.Common.{
  Option, none, some, not, ◌&&◌, map, ℕ, ◌<◌, ◌≡◌, refl, ap, ◌∙◌, Bool, true, false, ◌||◌, List, [],
  ◌∷◌, ◌++◌, get_elem?, min, ltb, ◌==◌, arith, Bool-cases, inl, inr, if◌then◌else◌, ==_iff,
}
use mathlib.Core.Path.{subst}
use hstongapi4go.Common.Bytes.{Bytes}
use hstongapi4go.Common.Table.{count, find}
use hstongapi4go.Services.Push.Keys.{update_routing_keys}
use hstongapi4go.Services.Registry.{
  Registry, Entry, Subscription, key_of, add_targets, targets_of, market_targets,
}
use hstongapi4go.Services.Registry.Index.{one_if, count-add}
use hstongapi4go.Services.Registry.Laws.{IsSound, routes, asks_for}
use hstongapi4go.Services.Registry.Targets.Instruments.{
  instrument, any_names, any_key, any_key-update_routing_keys, contains-security_keys,
}
use hstongapi4go.Domain.Symbol.{is_empty}

-- After a bucket, a target that was there still is, and one of the bucket is there once.
count-add_targets :
    (bucket targets : List ℕ) (j : ℕ)
    → count j targets < 2
    → count j (add_targets bucket targets)
      ≡ (if ltb 0 (count j targets) then 1 else min 1 (count j bucket))
unfolding add_targets count
count-add_targets [] targets j h = ground arith
count-add_targets (i ∷ bucket) targets j h = elim (Bool-cases (i == j)) [
  | inl e ↦ elim (Bool-cases (ltb 0 (count i targets))) [
    | inl m ↦
        rw (m, e)
          (ground (
            arith,
            count-add_targets bucket targets j h,
            ap (λ n. count n targets) ((==_iff i j).0 e),
          ))
    | inr m ↦
        rw (m, e)
          (let one : count j (targets ++ (i ∷ [])) ≡ 1 =
              count-add i j targets
              ∙ rw e (ground (arith, ap (λ n. count n targets) ((==_iff i j).0 e))) in
            ground (
              arith,
              one,
              count-add_targets bucket (targets ++ (i ∷ [])) j (rw one (omega arith)),
              ap (λ n. count n targets) ((==_iff i j).0 e),
            ))
  ]
  | inr e ↦ elim (Bool-cases (ltb 0 (count i targets))) [
    | inl m ↦ rw (m, e) (count-add_targets bucket targets j h)
    | inr m ↦
        rw (m, e)
          (let same : count j (targets ++ (i ∷ [])) ≡ count j targets =
              count-add i j targets ∙ rw e (omega arith) in
            subst
              (λ n.
                count j (add_targets bucket (targets ++ (i ∷ [])))
                ≡ (if ltb 0 n then 1 else min 1 (count j bucket)))
              same (count-add_targets bucket (targets ++ (i ∷ [])) j (rw same h)))
  ]
]

-- Some key leads to the subscription.
abbrev reached : (Bytes → List ℕ) → List Bytes → ℕ → Bool
reached index [] j = false
reached index (k ∷ ks) j = ltb 0 (count j (index k)) || reached index ks j

count-targets_of :
    (index : Bytes → List ℕ) (ks : List Bytes) (targets : List ℕ) (j : ℕ)
    → count j targets < 2
    → count j (targets_of index ks targets) ≡ one_if (ltb 0 (count j targets) || reached index ks j)
unfolding targets_of
count-targets_of index [] targets j h = ground arith
count-targets_of index (k ∷ ks) targets j h =
    let first = count-add_targets (index k) targets j h in
    count-targets_of index ks (add_targets (index k) targets) j (rw first (ground arith))
    ∙ ap one_if (rw first (ground arith))

-- The subscription asks for one of the instruments.
abbrev pub asked : Registry → List Bytes → ℕ → Bool
asked r [] j = false
asked r (k ∷ ks) j = routes r.entries (get_elem? r.made j) k || asked r ks j

ltb-one_if : (b : Bool) → ltb 0 (one_if b) ≡ b
ltb-one_if true = refl
ltb-one_if false = refl

reached_lem :
    (r : Registry) (ks : List Bytes) (j : ℕ) → IsSound r → reached r.by_key ks j ≡ asked r ks j
reached_lem r [] j sound = refl
reached_lem r (k ∷ ks) j sound = rw (sound.routed j k, reached_lem r ks j sound, ltb-one_if) refl

asked-any_key :
    (r : Registry) (ks : List Bytes) (j : ℕ)
    → asked r ks j ≡ any_key (routes r.entries (get_elem? r.made j)) ks
asked-any_key r [] j = refl
asked-any_key r (k ∷ ks) j = rw (asked-any_key r ks j) refl

-- The entry lists the instrument that a code stands for.
abbrev pub lists : Option Entry → Bytes → Bool
lists none c = false
lists (some e) c = any_names (instrument c) (map (λ s. s.code) e.securities)

-- The subscription is open, and the entry of its key lists the code's instrument.
abbrev pub is_concerned : List (Bytes × Entry) → Option Subscription → Bytes → Bool
is_concerned entries none c = false
is_concerned entries (some s) c = not s.closed && lists (find (key_of s) entries) c

abbrev pub wants : Registry → ℕ → Bytes → Bool
wants r j c = not (is_empty c) && is_concerned r.entries (get_elem? r.made j) c

asks_for_lem : (o : Option Entry) (c : Bytes) → asks_for o (instrument c) ≡ lists o c
asks_for_lem none c = refl
asks_for_lem (some e) c = contains-security_keys (instrument c) e.securities

routes_lem :
    (entries : List (Bytes × Entry)) (o : Option Subscription) (c : Bytes)
    → routes entries o (instrument c) ≡ is_concerned entries o c
routes_lem entries none c = refl
routes_lem entries (some s) c =
    ap (λ b. not s.closed && b) (asks_for_lem (find (key_of s) entries) c)

-- In a consistent registry dispatchMarket delivers an update once to each open subscription whose
-- entry lists the instrument of the update's notifyId or of the code inside it, and to no other. Two
-- codes that are not empty stand for one instrument if they are the same but for blanks around
-- them, small letters and a market's suffix, .HK, .US, .SZ or .SH, behind something. The type of
-- the update does not count.
pub market_targets_lem :
    (id security_code : Bytes) (r : Registry) (j : ℕ)
    → IsSound r
    → count j (market_targets id security_code r) ≡ one_if (wants r j id || wants r j security_code)
unfolding market_targets count
market_targets_lem id security_code r j sound =
    let ks = update_routing_keys id security_code in
    let o = get_elem? r.made j in
    count-targets_of r.by_key ks [] j (omega arith)
    ∙ ap one_if (
        reached_lem r ks j sound
        ∙ asked-any_key r ks j
        ∙ any_key-update_routing_keys (routes r.entries o) id security_code
        ∙ ap
            (λ b.
              not (is_empty id) && b
              || not (is_empty security_code) && routes r.entries o (instrument security_code))
            (routes_lem r.entries o id)
        ∙ ap
            (λ b.
              not (is_empty id) && is_concerned r.entries o id || not (is_empty security_code) && b)
            (routes_lem r.entries o security_code))
