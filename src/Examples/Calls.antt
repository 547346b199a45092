-- ===== src/Examples/Calls.antt =====
-- One call of the client, routes, errors and orders at concrete inputs (client, internal/errs and
-- pkg/domain).
use hstongapi4go.Common.{
  arith, ℕ, ◌+◌, ◌≡◌, refl, ◌≤◌, true, false, none, some, List, [], ◌∷◌, length,
}
use hstongapi4go.Common.Bytes.{Bytes}
use hstongapi4go.Common.Text.{codes, contains, bytes_eq, trim_suffix, has_suffix}
use hstongapi4go.Errs.{
  GoError, nil_error, typed, rate_limit, wrap, relogin_required, is_context_error,
}
use hstongapi4go.Client.Routes.{validate}
use hstongapi4go.Resilience.Breaker.{Breaker, open_, closed}
use hstongapi4go.Resilience.Retry.{Env, is_mutation, strip_alias_suffix, default_policy}
use hstongapi4go.Client.Execute.{Config, Store, Done, breaker_for, execute}
use hstongapi4go.Client.Execute.Once.{Counts, execute_mutation_once}

abbrev pub World : Type 0
World = List GoError

abbrev pub quiet : Env World
quiet = record { ctx_err = λ w. (nil_error, w); wait = λ d w. (nil_error, w); random = λ w. (7, w) }

abbrev pub clock : World → ℕ
clock w = 6

abbrev busy : GoError
busy = typed "1011" rate_limit "service busy" "trade/TradeEntrust" nil_error

abbrev pub send : Bytes → World → GoError × World
send path w = (busy, busy ∷ w)

-- A retry policy, a breaker of its own for the mutations, and a rate limiter.
abbrev pub config : Config World
config = record {
  mutation_breaker = some 1;
  query_breaker = none;
  circuit_breaker = some 0;
  retry_policy = some default_policy;
  rate_limiter = some (λ path w. (nil_error, w));
}

abbrev entrust : Bytes
entrust = codes "/trade/TradeEntrust"

entrust-is_mutation : is_mutation entrust ≡ true
unfolding is_mutation contains strip_alias_suffix bytes_eq trim_suffix has_suffix
entrust-is_mutation = refl

abbrev well : Breaker
well = record {
  state = closed;
  threshold = 2;
  cooldown = 10;
  half_open_probes = 1;
  failures = 0;
  probes = 0;
  opened_at = 0;
}

abbrev pub store : Store
store i = well

pub send-Counts : Counts quiet send config.rate_limiter (λ w. length w)
send-Counts = record { sent = λ path w. omega arith; checked = λ w. refl; waited = λ path w. refl }

execute_mutation_once_example :
    (d : Done World) × (execute quiet clock send "TradeEntrust" config store entrust [] ≡ some d)
    × (length d.world ≤ 0 + 1)
execute_mutation_once_example =
    execute_mutation_once quiet clock send "TradeEntrust" config entrust (λ w. length w) send-Counts
      store [] entrust-is_mutation

entrust_breaker : breaker_for config entrust ≡ some 1
unfolding breaker_for is_mutation contains strip_alias_suffix bytes_eq trim_suffix has_suffix
entrust_breaker = refl

-- A store whose breakers opened at 5.
abbrev tripped : Store
tripped i = record well { state = open_; failures = 2; opened_at = 5 }

entrust_valid : validate entrust ≡ true
unfolding validate contains bytes_eq
entrust_valid = refl

no_context : is_context_error nil_error ≡ false
unfolding is_context_error
no_context = refl

asks_login : relogin_required (wrap nil_error "1012" "op" "") ≡ true
unfolding relogin_required wrap
asks_login = refl
