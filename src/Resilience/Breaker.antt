-- ===== src/Resilience/Breaker.antt =====
-- internal/resilience/breaker.go: the circuit breaker. A method takes the state that its mutex
-- guards and returns the new one; the reading of the clock is an argument. Instants and durations
-- are counted in nanoseconds, and the clock does not run below zero.
pub mod Invariant
pub mod Runs
use hstongapi4go.Common.{ℕ, suc, ◌+◌, Bool, true, false, List, [], ◌∷◌, ltb, leb, if◌then◌else◌}
use hstongapi4go.Common.Int.{ℤ, pos, negsuc}

pub data State : Type 0 where
  closed open_ half_open : State

abbrev pub default_failure_threshold : ℕ
default_failure_threshold = 5

-- 30 * time.Second
abbrev pub default_cooldown : ℕ
default_cooldown = 30000000000

pub record Breaker : Type 0 where
  pub state : State
  pub threshold : ℕ
  pub cooldown : ℕ
  pub half_open_probes : ℕ
  pub failures : ℕ
  pub probes : ℕ
  pub opened_at : ℕ

-- A value that is not positive is replaced.
abbrev pub positive_or : ℤ → ℕ → ℕ
positive_or (pos n) d = if ltb 0 n then n else d
positive_or (negsuc n) d = d

unfoldable pub new_breaker : ℤ → ℤ → Breaker
new_breaker threshold cooldown = record {
  state = closed;
  threshold = positive_or threshold default_failure_threshold;
  cooldown = positive_or cooldown default_cooldown;
  half_open_probes = 1;
  failures = 0;
  probes = 0;
  opened_at = 0;
}

-- `now.Sub(openedAt) < cooldown`, over the integers
abbrev pub cooling : Breaker → ℕ → Bool
cooling b now = ltb now (b.opened_at + b.cooldown)

allow_half_open : Breaker → Breaker × Bool
allow_half_open b =
    if leb b.half_open_probes b.probes
    then (b, false)
    else (record b { probes = b.probes + 1 }, true)

allow_by : State → Breaker → ℕ → Breaker × Bool
allow_by closed b now = (b, true)
allow_by half_open b now = allow_half_open b
allow_by open_ b now =
    if cooling b now
    then (b, false)
    else allow_half_open (record b { state = half_open; probes = 0 })

unfoldable pub allow : Breaker → ℕ → Breaker × Bool
unfolding allow_by allow_half_open
allow b now = allow_by b.state b now

on_success_by : State → Breaker → Breaker
on_success_by open_ b = b
on_success_by _ b = record b { state = closed; failures = 0; probes = 0 }

unfoldable pub on_success : Breaker → Breaker
unfolding on_success_by
on_success b = on_success_by b.state b

on_failure_by : State → Breaker → ℕ → Breaker
on_failure_by half_open b now = record b {
  state = open_;
  opened_at = now;
  probes = 0;
  failures = b.failures + 1;
}
on_failure_by closed b now =
    if leb b.threshold (b.failures + 1)
    then record b { failures = b.failures + 1; state = open_; opened_at = now }
    else record b { failures = b.failures + 1 }
on_failure_by open_ b now = b

unfoldable pub on_failure : Breaker → ℕ → Breaker
unfolding on_failure_by
on_failure b now = on_failure_by b.state b now

-- What callers do, in the order in which the mutex lets them in, each with the clock's reading.
pub data Call : Type 0 where
  ask : ℕ → Call
  succeed : Call
  fail : ℕ → Call

unfoldable pub step : Breaker → Call → Breaker
step b (ask now) = (allow b now).0
step b succeed = on_success b
step b (fail now) = on_failure b now

unfoldable pub run : Breaker → List Call → Breaker
run b [] = b
run b (c ∷ cs) = run (step b c) cs
