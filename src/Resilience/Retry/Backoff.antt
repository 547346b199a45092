-- ===== src/Resilience/Retry/Backoff.antt =====
-- The delay between attempts (internal/resilience/retry.go).
use native.Mathlib.Nat.{pow-suc, mod-lt}
use hstongapi4go.Common.{
  ℕ, zero, suc, ◌+◌, ◌*◌, ◌/◌, ◌^◌, ◌≡◌, refl, ◌≤◌, ◌<◌, min, true, arith, ltb, leb, Bool-cases,
  inl, inr, leb→le, ltb→lt,
}
use hstongapi4go.Common.Int.{ℤ, pos, negsuc, pos_part, is_negative}
use hstongapi4go.Resilience.Retry.{Policy, delay, nominal_delay, delay_loop, double, capped, spread}

-- Doubling a positive int64 that stays below 2 ^ 63 is exact, and otherwise the result is negative.
double_small : (d : ℕ) → d * 2 < 9223372036854775808 → double d ≡ pos (d * 2)
unfolding double
double_small d h = ground arith

negative_form : (z : ℤ) → is_negative z ≡ true → (k : ℕ) × (z ≡ negsuc k)
negative_form (pos n) h = absurd (cc)
negative_form (negsuc k) h = (k, refl)

pow_pos : (n : ℕ) → 1 ≤ 2 ^ n
pow_pos zero = omega arith
pow_pos (suc n) = omega (arith, pow-suc 2 n, pow_pos n)

-- The doubled value, and that doubling does not decrease.
doubled : (d n : ℕ) → d * 2 ^ suc n ≡ d * 2 * 2 ^ n
doubled d n = rw pow-suc (grind arith)

grows : (d n : ℕ) → d ≤ d * 2 ^ n
grows d n = grind (arith, pow_pos n)

double_large :
    (d : ℕ) → d < 9223372036854775808 → 9223372036854775808 ≤ d * 2 → is_negative (double d) ≡ true
unfolding double
double_large d h k = ground arith

-- One round of the loop: at the cap it stops, a product in range goes on, and one out of range
-- gives the cap.
module _ (n d c : ℕ) (p : 0 < c) where
  round_stops : c ≤ d → delay_loop (suc n) d (pos c) ≡ pos d
  unfolding delay_loop
  round_stops h = ground arith

  round_goes_on :
      (e : ℕ)
      → d < c
      → double d ≡ pos e
      → 0 < e
      → delay_loop (suc n) d (pos c) ≡ delay_loop n e (pos c)
  unfolding delay_loop
  round_goes_on e h k q = ground arith

  round_overflows : (k : ℕ) → d < c → double d ≡ negsuc k → delay_loop (suc n) d (pos c) ≡ pos c
  unfolding delay_loop
  round_overflows k h q = ground arith

-- The loop doubles until it meets the cap.
capped-delay_loop :
    (n d c : ℕ)
    → 0 < d
    → d < 9223372036854775808
    → 0 < c
    → c < 9223372036854775808
    → capped (pos c) (delay_loop n d (pos c)) ≡ pos (min (d * 2 ^ n) c)
capped-delay_loop zero d c h k p q = unfold delay_loop in ground arith
capped-delay_loop (suc n) d c h k p q = elim (Bool-cases (leb c d)) [
  | inl e ↦ rw (round_stops n d c p (leb→le c d e)) (ground (arith, grows d (suc n)))
  | inr e ↦ elim (Bool-cases (ltb (d * 2) 9223372036854775808)) [
    | inl s ↦
        let below = ltb→lt (d * 2) 9223372036854775808 s in
        rw
          (
            round_goes_on n d c p (d * 2) (ground arith) (double_small d below) (omega arith),
            doubled d n,
          )
          (capped-delay_loop n (d * 2) c (omega arith) below p q)
    | inr s ↦
        let (j, neg) = negative_form (double d) (double_large d k (ground arith)) in
        rw (round_overflows n d c p j (ground arith) neg)
          (ground (arith, doubled d n, grows (d * 2) n))
  ]
]

-- Without jitter the delay after n + 1 attempts is the base doubled n times, cut at the cap: the
-- 64-bit multiplication never shows, for a base and a cap that are positive int64 values.
pub nominal_delay-closed_form :
    (p : Policy) (b c n : ℕ)
    → p.base_backoff ≡ pos b
    → p.max_backoff ≡ pos c
    → 0 < b
    → b < 9223372036854775808
    → 0 < c
    → c < 9223372036854775808
    → nominal_delay p n ≡ pos (min (b * 2 ^ n) c)
unfolding nominal_delay
nominal_delay-closed_form p b c n eb ec h k q r = rw (eb, ec) (capped-delay_loop n b c h k q r)

spread_bounds :
    (d random : ℕ)
    → (d / 2 ≤ pos_part (spread (pos d) random)) × (pos_part (spread (pos d) random) ≤ d)
spread_bounds d random = ground (arith, mod-lt random {m = d / 2 + 1} (omega arith))

-- The jitter only shortens a delay: with a positive base and cap the delay before the next attempt
-- is at most the nominal one, so at most the cap, and at least half the nominal one, whatever the
-- generator gives.
pub delay_bounds :
    (p : Policy) (b c n random : ℕ)
    → p.base_backoff ≡ pos b
    → p.max_backoff ≡ pos c
    → 0 < b
    → b < 9223372036854775808
    → 0 < c
    → c < 9223372036854775808
    → (min (b * 2 ^ n) c / 2 ≤ pos_part (delay p (suc n) random))
      × (pos_part (delay p (suc n) random) ≤ min (b * 2 ^ n) c)
      × (pos_part (delay p (suc n) random) ≤ c)
unfolding delay
delay_bounds p b c n random eb ec h k q r =
    let closed = nominal_delay-closed_form p b c n eb ec h k q r in
    ground (arith, spread_bounds (min (b * 2 ^ n) c) random)
