-- ===== src/Push/Backoff.antt =====
-- The reconnect delays of internal/push/client.go: WithReconnect, the normalisation in New, and
-- nextBackoff. Durations are signed 64-bit counts of nanoseconds.
pub mod Bounds
use hstongapi4go.Common.{
  ℕ, zero, suc, ◌+◌, ◌*◌, ◌/◌, ◌%◌, Bool, true, false, List, [], ◌∷◌, ltb, if◌then◌else◌,
}
use hstongapi4go.Common.Int.{ℤ, pos, negsuc, to_signed, to_unsigned}

-- 500 * time.Millisecond
abbrev pub default_min_reconnect : ℤ
default_min_reconnect = pos 500000000

-- 30 * time.Second
abbrev pub default_max_reconnect : ℤ
default_max_reconnect = pos 30000000000

-- The part of `Options` that sets the delays.
pub record Delays : Type 0 where
  pub min_reconnect : ℤ
  pub max_reconnect : ℤ

abbrev pub default_delays : Delays
default_delays = record {
  min_reconnect = default_min_reconnect;
  max_reconnect = default_max_reconnect;
}

abbrev pub less : ℤ → ℤ → Bool
less (pos a) (pos b) = ltb a b
less (negsuc a) (pos b) = true
less (pos a) (negsuc b) = false
less (negsuc a) (negsuc b) = ltb b a

-- `WithReconnect`.
unfoldable pub with_reconnect : ℤ → ℤ → Delays → Delays
with_reconnect min max o = record {
  min_reconnect = if less (pos 0) min then min else o.min_reconnect;
  max_reconnect = if less (pos 0) max then max else o.max_reconnect;
}

-- The options in the order in which New applies them.
unfoldable pub with_all : List (ℤ × ℤ) → Delays → Delays
with_all [] o = o
with_all ((min, max) ∷ opts) o = with_all opts (with_reconnect min max o)

-- What New makes of the delays.
unfoldable pub normalized : Delays → Delays
normalized o =
    let min = if less (pos 0) o.min_reconnect then o.min_reconnect else default_min_reconnect in
    record {
      min_reconnect = min;
      max_reconnect = if less o.max_reconnect min then min else o.max_reconnect;
    }

unfoldable pub new_delays : List (ℤ × ℤ) → Delays
unfolding with_all normalized with_reconnect
new_delays opts = normalized (with_all opts default_delays)

-- A delay that is not positive is left as it is.
unfoldable pub jittered : ℤ → ℕ → ℤ → ℤ
jittered cur random (pos zero) = cur
jittered cur random (negsuc k) = cur
jittered cur random (pos (suc n)) = pos (suc n / 2 + random % suc n / 2)

-- `nextBackoff`; `random` is what the generator holds.
unfoldable pub next_backoff : ℕ → ℤ → ℤ → ℤ
unfolding jittered to_signed to_unsigned
next_backoff random cur max =
    let bits = to_unsigned 18446744073709551616 cur * 2 % 18446744073709551616 in
    let next = to_signed 9223372036854775808 bits in
    jittered cur random (if less max next then max else next)

-- The delay of Run after as many failed dials in a row as there are random numbers.
unfoldable pub backoff_after : List ℕ → ℤ → ℤ → ℤ
backoff_after [] cur max = cur
backoff_after (r ∷ rs) cur max = backoff_after rs (next_backoff r cur max) max
