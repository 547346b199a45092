-- ===== src/Resilience/Breaker/Invariant.antt =====
-- What holds of a breaker between two calls (internal/resilience/breaker.go).
use hstongapi4go.Common.{◌≡◌, ◌≢◌, ◌≤◌, ◌<◌, List, [], ◌∷◌, arith}
use hstongapi4go.Common.Int.{ℤ}
use hstongapi4go.Resilience.Breaker.{
  closed, half_open, Breaker, Call, ask, succeed, fail, new_breaker, allow, on_success, on_failure,
  step, run,
}

pub record IsValid (b : Breaker) : Type 0 where
  pub one_probe : b.half_open_probes ≡ 1
  pub no_probe : b.state ≢ half_open → b.probes ≡ 0
  pub probe_out : b.state ≡ half_open → b.probes ≡ 1
  pub threshold_pos : 0 < b.threshold
  pub cooldown_pos : 0 < b.cooldown
  pub counting : b.state ≡ closed → b.failures < b.threshold
  pub tripped : b.state ≢ closed → b.threshold ≤ b.failures

-- A new breaker is valid, whatever arguments it was given.
pub new_breaker-IsValid : (threshold cooldown : ℤ) → IsValid (new_breaker threshold cooldown)
unfolding new_breaker
new_breaker-IsValid threshold cooldown = ground arith

pub step-IsValid : (b : Breaker) (c : Call) → IsValid b → IsValid (step b c)
unfolding step allow on_success on_failure
step-IsValid b (ask now) v = ground arith
step-IsValid b succeed v = ground arith
step-IsValid b (fail now) v = ground arith

-- Whatever callers do and whatever the clock reads, a valid breaker, such as NewBreaker makes,
-- stays valid: one probe is out while half-open and none otherwise; while closed the failures are
-- below the threshold, and in the other states they have reached it.
pub run-IsValid : (b : Breaker) (cs : List Call) → IsValid b → IsValid (run b cs)
unfolding run
run-IsValid b [] v = v
run-IsValid b (c ∷ cs) v = run-IsValid (step b c) cs (step-IsValid b c v)
