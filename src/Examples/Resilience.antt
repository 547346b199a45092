-- ===== src/Examples/Resilience.antt =====
-- The retry policy and the circuit breaker at concrete inputs (internal/resilience).
use mathlib.Core.Path.{subst}
use hstongapi4go.Common.{◌+◌, ◌≡◌, refl, ◌≤◌, true, some, List, [], ◌∷◌, arith, length, All}
use hstongapi4go.Common.Int.{pos}
use hstongapi4go.Common.Bytes.{Bytes}
use hstongapi4go.Common.Text.{codes, contains, bytes_eq, trim_suffix, has_suffix}
use hstongapi4go.Errs.{GoError, nil_error, typed, rate_limit}
use hstongapi4go.Resilience.Breaker.{
  closed, open_, Breaker, ask, fail, new_breaker, allow, on_failure, step, run,
}
use hstongapi4go.Resilience.Breaker.Invariant.{IsValid, new_breaker-IsValid, run-IsValid}
use hstongapi4go.Resilience.Breaker.Runs.{answers, IsRefusal, one_probe}
use hstongapi4go.Resilience.Retry.{
  query, mutation_paths, is_mutation, strip_alias_suffix, default_policy, Env, Outcome,
  attempt_limit, do_policy, do_route,
}
use hstongapi4go.Resilience.Retry.Attempts.{Logs, IsFair, do_policy-IsFair, mutation_once}

-- A world that only keeps the attempts, with a context that never ends.
abbrev World : Type 0
World = List GoError

abbrev quiet : Env World
quiet = record { ctx_err = λ w. (nil_error, w); wait = λ d w. (nil_error, w); random = λ w. (7, w) }

abbrev busy : GoError
busy = typed "1011" rate_limit "service busy" "trade/TradeEntrust" nil_error

abbrev always_busy : World → GoError × World
always_busy w = (busy, busy ∷ w)

abbrev quiet_logs : Logs quiet always_busy (λ w. w)
quiet_logs = record {
  attempted = λ w. refl;
  checked = λ w. refl;
  waited = λ d w. refl;
  drawn = λ w. refl;
}

abbrev entrust : Bytes
entrust = codes "/trade/TradeEntrust"

entrust-is_mutation : is_mutation entrust ≡ true
unfolding is_mutation contains strip_alias_suffix bytes_eq trim_suffix has_suffix
entrust-is_mutation = refl

mutation_once_example :
    (o : Outcome World) × (do_route quiet (some always_busy) default_policy entrust [] ≡ some o)
    × (o.attempts ≤ 1)
    × (length o.world ≤ 0 + 1)
mutation_once_example =
    mutation_once quiet always_busy (λ w. w) quiet_logs default_policy entrust []
      entrust-is_mutation

do_policy-IsFair_example :
    (o : Outcome World) × (made : List GoError) × (do_policy quiet
        (some always_busy)
        default_policy
        query
        []
      ≡ some o)
    × IsFair (λ w. w) [] made 0 (attempt_limit default_policy query) o
do_policy-IsFair_example =
    do_policy-IsFair quiet always_busy (λ w. w) quiet_logs default_policy query []

entrust_listed : contains entrust mutation_paths ≡ true
unfolding contains bytes_eq
entrust_listed = refl

-- A breaker with a threshold of two failures and a cooldown of ten, new and opened at 5.
abbrev fresh : Breaker
fresh = record {
  state = closed;
  threshold = 2;
  cooldown = 10;
  half_open_probes = 1;
  failures = 0;
  probes = 0;
  opened_at = 0;
}

fresh-IsValid : IsValid fresh
unfolding new_breaker
fresh-IsValid = new_breaker-IsValid (pos 2) (pos 10)

abbrev tripped : Breaker
tripped = record fresh { state = open_; failures = 2; opened_at = 5 }

tripped_is : run fresh (fail 3 ∷ fail 5 ∷ []) ≡ tripped
unfolding run step on_failure
tripped_is = refl

tripped-IsValid : IsValid tripped
tripped-IsValid = subst IsValid tripped_is (run-IsValid fresh (fail 3 ∷ fail 5 ∷ []) fresh-IsValid)

one_probe_example :
    ((allow tripped 15).1 ≡ true)
    × All IsRefusal (answers (allow tripped 15).0 (ask 16 ∷ ask 90 ∷ []))
one_probe_example =
    one_probe tripped 15 (ask 16 ∷ ask 90 ∷ []) tripped-IsValid refl (omega arith) (tt, (tt, tt))
