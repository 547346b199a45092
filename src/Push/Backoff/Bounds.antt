-- ===== src/Push/Backoff/Bounds.antt =====
-- The reconnect delays stay between bounds (internal/push/client.go).
use native.Mathlib.Nat.{mod-lt}
use hstongapi4go.Common.{
  ℕ, zero, suc, ◌+◌, ◌-◌, ◌*◌, ◌/◌, ◌%◌, ◌≡◌, refl, sym, ap, ◌∙◌, ◌≤◌, ◌<◌, true, List, [], ◌∷◌,
  arith, ltb, if◌then◌else◌, Bool-cases, inl, inr, min,
}
use hstongapi4go.Common.Int.{ℤ, pos, negsuc, pos_part, to_signed, to_unsigned}
use hstongapi4go.Push.Backoff.{
  less, Delays, new_delays, with_all, normalized, default_delays, next_backoff, jittered,
  backoff_after,
}

-- Delays that are a positive number of nanoseconds, in order.
pub record IsOrdered (o : Delays) : Type 0 where
  pub least : ℕ
  pub greatest : ℕ
  pub least_is : o.min_reconnect ≡ pos least
  pub greatest_is : o.max_reconnect ≡ pos greatest
  pub positive : 0 < least
  pub ordered : least ≤ greatest

normalized_by :
    (low : ℕ) (high : ℤ)
    → 0 < low
    → IsOrdered (record {
      min_reconnect = pos low;
      max_reconnect = if less high (pos low) then pos low else high;
    })
normalized_by low (negsuc k) h = record {
  least = low;
  greatest = low;
  least_is = refl;
  greatest_is = refl;
  positive = h;
  ordered = omega arith;
}
normalized_by low (pos n) h = elim (Bool-cases (ltb n low)) [
  | inl e ↦ rw e record {
    least = low;
    greatest = low;
    least_is = refl;
    greatest_is = refl;
    positive = h;
    ordered = omega arith;
  }
  | inr e ↦ rw e record {
    least = low;
    greatest = n;
    least_is = refl;
    greatest_is = refl;
    positive = h;
    ordered = ground arith;
  }
]

normalized-IsOrdered : (o : Delays) → IsOrdered (normalized o)
unfolding normalized
normalized-IsOrdered o = go o.min_reconnect
  where
    go : (m : ℤ) → IsOrdered (normalized (record o { min_reconnect = m }))
    go (pos zero) = normalized_by 500000000 o.max_reconnect (omega arith)
    go (pos (suc n)) =
        let e : ltb 0 (suc n) ≡ true = ground arith in
        rw e (normalized_by (suc n) o.max_reconnect (omega arith))
    go (negsuc n) = normalized_by 500000000 o.max_reconnect (omega arith)

-- Whatever WithReconnect was given, and however often, the least delay of a new client is a positive
-- number of nanoseconds and the greatest delay is not below it.
pub new_delays-IsOrdered : (opts : List (ℤ × ℤ)) → IsOrdered (new_delays opts)
unfolding new_delays
new_delays-IsOrdered opts = normalized-IsOrdered (with_all opts default_delays)

jittered_bounds :
    (cur random next : ℕ)
    → 0 < next
    → (d : ℕ) × (jittered (pos cur) random (pos next) ≡ pos d) × (next / 2 ≤ d) × (d ≤ next)
unfolding jittered
jittered_bounds cur random zero h = absurd (omega arith)
jittered_bounds cur random (suc n) h =
    (suc n / 2 + random % suc n / 2, refl, omega arith, omega (arith, mod-lt random {m = suc n} h))

doubled :
    (cur : ℕ)
    → cur < 4611686018427387904
    → to_signed 9223372036854775808
        (to_unsigned 18446744073709551616 (pos cur) * 2 % 18446744073709551616)
      ≡ pos (2 * cur)
unfolding to_signed to_unsigned
doubled cur h = ground arith

overflowed :
    (cur : ℕ)
    → 4611686018427387904 ≤ cur
    → cur < 9223372036854775808
    → to_signed 9223372036854775808
        (to_unsigned 18446744073709551616 (pos cur) * 2 % 18446744073709551616)
      ≡ negsuc (18446744073709551615 - 2 * cur)
unfolding to_signed to_unsigned
overflowed cur h k = ground arith

-- A step of the reconnect delay stays between the current delay, or half of the greatest one, and the
-- greatest one.
abbrev pub Bounded : ℕ → ℕ → ℤ → Type 0
Bounded low high z = (d : ℕ) × (z ≡ pos d) × (low ≤ d) × (d ≤ high)

jittered-min :
    (cur random max : ℕ)
    → 0 < max
    → cur ≤ max
    → Bounded (min cur (max / 2)) max (
        jittered
          (pos cur)
          random
          (if less (pos max) (pos (2 * cur)) then pos max else pos (2 * cur)))
jittered-min cur random max p le = elim (Bool-cases (ltb max (2 * cur))) [
  | inl e ↦
      rw e (let (d, same, a, b) = jittered_bounds cur random max p in (d, same, omega arith, b))
  | inr e ↦ rw e (go cur refl (ground arith))
]
  where
    go :
        (c : ℕ)
        → cur ≡ c
        → 2 * c ≤ max
        → Bounded (min c (max / 2)) max (jittered (pos c) random (pos (2 * c)))
    go zero h k = (0, unfold jittered in refl, omega arith, omega arith)
    go (suc c) h k =
        let (d, same, a, b) = jittered_bounds (suc c) random (2 * suc c) (omega arith) in
        (d, same, omega arith, omega arith)

next_backoff_bounds :
    (random cur max : ℕ)
    → 0 < max
    → cur ≤ max
    → max < 9223372036854775808
    → Bounded (min cur (max / 2)) max (next_backoff random (pos cur) (pos max))
unfolding next_backoff
next_backoff_bounds random cur max p le word = elim (Bool-cases (ltb cur 4611686018427387904)) [
  | inl e ↦ rw (doubled cur (ground arith)) (jittered-min cur random max p le)
  | inr e ↦
      rw (overflowed cur (ground arith) (omega arith))
        (cur, unfold jittered in refl, omega arith, le)
]

backoff_after_bounds :
    (rs : List ℕ) (low cur max : ℕ)
    → 0 < max
    → min low (max / 2) ≤ cur
    → cur ≤ max
    → max < 9223372036854775808
    → Bounded (min low (max / 2)) max (backoff_after rs (pos cur) (pos max))
unfolding backoff_after
backoff_after_bounds [] low cur max p a le word = (cur, refl, a, le)
backoff_after_bounds (r ∷ rs) low cur max p a le word =
    let (d, same, b, c) = next_backoff_bounds r cur max p le word in
    rw same (backoff_after_bounds rs low d max p (omega arith) c word)

-- A client that was made with any sequence of WithReconnect options waits, after any number of failed
-- dials in a row and whatever the random generator gives, for a time between the least delay, or half
-- of the greatest delay if that is shorter, and the greatest delay; the doubling never overflows into
-- a negative wait. For a greatest delay that is an int64.
pub backoff-bounds :
    (opts : List (ℤ × ℤ)) (rs : List ℕ) (low high : ℕ)
    → (new_delays opts).min_reconnect ≡ pos low
    → (new_delays opts).max_reconnect ≡ pos high
    → high < 9223372036854775808
    → Bounded
        (min low (high / 2))
        high
        (backoff_after rs (new_delays opts).min_reconnect (new_delays opts).max_reconnect)
backoff-bounds opts rs low high a b word =
    let v = new_delays-IsOrdered opts in
    let is_low : low ≡ v.least = ap pos_part (sym a ∙ v.least_is) in
    let is_high : high ≡ v.greatest = ap pos_part (sym b ∙ v.greatest_is) in
    rw (a, b)
      (backoff_after_bounds rs low low high (omega (arith, v.positive, v.ordered)) (omega arith)
        (omega (arith, v.ordered)) word)
