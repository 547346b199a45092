-- ===== src/Client/Execute.antt =====
-- `execute` of client/client.go: the circuit breaker, the rate limiter and the retry policy around the
-- transport of one call. A configured breaker is a reference into a store, so that one breaker may
-- serve in several places. The transport, the rate limiter and the clock act on the world `W`.
pub mod Isolation
pub mod Once
use hstongapi4go.Common.{ℕ, String, Bool, true, false, Option, none, some, ◌==◌, if◌then◌else◌}
use hstongapi4go.Common.Bytes.{Bytes}
use hstongapi4go.Errs.{GoError, nil_error, opaque, wrapped}
use hstongapi4go.Resilience.Breaker.{Breaker, allow, on_success, on_failure}
use hstongapi4go.Resilience.Retry.{Policy, Env, Outcome, is_nil, is_mutation, do_route}

abbrev pub Store : Type 0
Store = ℕ → Breaker

abbrev pub store_at : ℕ → Breaker → Store → Store
store_at i b s j = if j == i then b else s j

-- The part of the client's configuration that `execute` reads.
pub record Config (W : Type 0) : Type 0 where
  pub mutation_breaker : Option ℕ
  pub query_breaker : Option ℕ
  pub circuit_breaker : Option ℕ
  pub retry_policy : Option Policy
  pub rate_limiter : Option (Bytes → W → GoError × W)

abbrev pub or_else : Option ℕ → Option ℕ → Option ℕ
or_else none b = b
or_else (some i) b = some i

-- The breaker of a path: its own, or the one for both.
unfoldable pub breaker_for : {W : Type 0} → Config W → Bytes → Option ℕ
breaker_for cfg path =
    if is_mutation path
    then or_else cfg.mutation_breaker cfg.circuit_breaker
    else or_else cfg.query_breaker cfg.circuit_breaker

pub record Done (W : Type 0) : Type 0 where
  pub error : GoError
  pub store : Store
  pub world : W

-- resilience.ErrCircuitOpen
abbrev pub err_circuit_open : GoError
err_circuit_open = opaque "resilience: circuit breaker is open"

module _ {W : Type 0} (env : Env W) (clock : W → ℕ) (transport_do : Bytes → W → GoError × W)
    (op : String) (cfg : Config W) where
  -- One attempt: the wait for the rate limiter, and the transport if it let the call go.
  unfoldable pub limited : Option (Bytes → W → GoError × W) → Bytes → W → GoError × W
  limited none path w = transport_do path w
  limited (some wait) path w =
      let waited = wait path w in if is_nil waited.0 then transport_do path waited.1 else waited

  unfoldable pub attempt : Bytes → W → GoError × W
  unfolding limited
  attempt path w = limited cfg.rate_limiter path w

  abbrev pub result_of : Option (Outcome W) → Option (GoError × W)
  result_of none = none
  result_of (some o) = some (o.error, o.world)

  attempted_by : Option Policy → Bytes → W → Option (GoError × W)
  attempted_by none path w = some (attempt path w)
  attempted_by (some p) path w = result_of (do_route env (some (attempt path)) p path w)

  unfoldable pub attempted : Bytes → W → Option (GoError × W)
  unfolding attempted_by
  attempted path w = attempted_by cfg.retry_policy path w

  -- What the breaker is told at the end.
  unfoldable pub settled : Option ℕ → GoError → W → Store → Store
  settled none e w s = s
  settled (some i) e w s =
      store_at i (if is_nil e then on_success (s i) else on_failure (s i) (clock w)) s

  abbrev pub finished : Option ℕ → Store → Option (GoError × W) → Option (Done W)
  finished cb s none = none
  finished cb s (some (e, w)) = some (record { error = e; store = settled cb e w s; world = w })

  execute_by : Option ℕ → Store → Bytes → W → Option (Done W)
  execute_by none s path w = finished none s (attempted path w)
  execute_by (some i) s path w =
      let asked = allow (s i) (clock w) in
      let s' = store_at i asked.0 s in
      let rest = finished (some i) s' (attempted path w) in
      if asked.1
      then rest
      else some (record { error = wrapped op err_circuit_open; store = s'; world = w })

  unfoldable pub execute : Store → Bytes → W → Option (Done W)
  unfolding execute_by
  execute s path w = execute_by (breaker_for cfg path) s path w
