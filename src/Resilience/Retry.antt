-- ===== src/Resilience/Retry.antt =====
-- internal/resilience/retry.go: the classes of endpoints and the retry policy. Durations are signed
-- 64-bit counts of nanoseconds. The context, the attempt and the timer are an environment `W`.
pub mod Paths
pub mod Backoff
pub mod Attempts
use hstongapi4go.Common.{
  ℕ, zero, suc, ◌+◌, ◌*◌, ◌/◌, ◌%◌, Bool, true, false, not, ◌&&◌, ◌||◌, Option, none, some, List,
  [], ◌∷◌, ltb, leb, if◌then◌else◌,
}
use hstongapi4go.Common.Int.{ℤ, pos, negsuc, pos_part, to_signed}
use hstongapi4go.Common.Bytes.{Bytes}
use hstongapi4go.Common.Text.{codes, bytes_eq, contains, trim_suffix}
use hstongapi4go.Errs.{GoError, nil_error, opaque, retryable}

pub data Class : Type 0 where
  query mutation : Class

abbrev pub mutation_paths : List Bytes
mutation_paths =
    codes "/trade/TradeEntrust"
    ∷ codes "/trade/TradeCancelEntrust"
    ∷ codes "/trade/TradeBatchCancelEntrust"
    ∷ codes "/trade/TradeChangeEntrust"
    ∷ codes "/trade/FuturesEntrust"
    ∷ codes "/trade/FuturesCancelEntrust"
    ∷ codes "/trade/FuturesModifyEntrust"
    ∷ codes "/trade/AlgoAddOrder"
    ∷ codes "/trade/AlgoCancelOrder"
    ∷ codes "/trade/AlgoCancelEntrust"
    ∷ codes "/trade/AlgoChangeOrder"
    ∷ codes "/trade/AlgoActionOrder"
    ∷ []

abbrev pub alias_suffix_msg_type : Bytes
alias_suffix_msg_type = codes "RequestMsgType"

abbrev pub alias_suffix_request : Bytes
alias_suffix_request = codes "Request"

unfoldable pub strip_alias_suffix : Bytes → Bytes
strip_alias_suffix p =
    let stripped = trim_suffix p alias_suffix_msg_type in
    if bytes_eq stripped p then trim_suffix p alias_suffix_request else stripped

unfoldable pub is_mutation : Bytes → Bool
is_mutation path = contains (strip_alias_suffix path) mutation_paths

unfoldable pub class_for_path : Bytes → Class
class_for_path path = if is_mutation path then mutation else query

pub record Policy : Type 0 where
  pub max_attempts : ℤ
  pub base_backoff : ℤ
  pub max_backoff : ℤ
  pub jitter : Bool

abbrev pub default_policy : Policy
default_policy = record {
  max_attempts = pos 3;
  base_backoff = pos 100000000;
  max_backoff = pos 2000000000;
  jitter = true;
}

abbrev pub is_positive : ℤ → Bool
is_positive (pos n) = ltb 0 n
is_positive (negsuc n) = false

-- `d *= 2` on an int64 that is positive.
unfoldable pub double : ℕ → ℤ
unfolding to_signed
double d = to_signed 9223372036854775808 (d * 2 % 18446744073709551616)

-- The loop of `Delay`, with the rounds that are left; `d` is positive in it.
pub delay_loop : ℕ → ℕ → ℤ → ℤ
delay_loop zero d cap = pos d
delay_loop (suc n) d cap = elim (is_positive cap && leb (pos_part cap) d) [
  | true ↦ pos d
  | false ↦ elim (double d) [
    | negsuc k ↦ cap
    | pos e ↦ elim (ltb 0 e) [ true ↦ delay_loop n e cap | false ↦ cap ]
  ]
]

-- The delay that the policy names, without its jitter.
abbrev pub capped : ℤ → ℤ → ℤ
capped cap (pos d) = if is_positive cap && ltb (pos_part cap) d then cap else pos d
capped cap (negsuc k) = negsuc k

unfoldable pub nominal_delay : Policy → ℕ → ℤ
unfolding delay_loop
nominal_delay p n = capped p.max_backoff (delay_loop n (pos_part p.base_backoff) p.max_backoff)

-- The jitter, with the number that rand.Int63n gives.
abbrev pub spread : ℤ → ℕ → ℤ
spread (negsuc k) random = negsuc k
spread (pos d) random = if ltb 0 (d / 2) then pos (d / 2 + random % (d / 2 + 1)) else pos d

-- `Delay(n)`, for a number n of attempts made; `random` is what the generator holds.
unfoldable pub delay : Policy → ℕ → ℕ → ℤ
delay p zero random = pos 0
delay p (suc n) random =
    if is_positive p.base_backoff
    then (if p.jitter then spread (nominal_delay p n) random else nominal_delay p n)
    else pos 0

-- What the loop of `Do` uses and the policy does not decide: the context's error, the timer that a
-- wait races against the context's end, and the random generator. Each answers and goes on.
pub record Env (W : Type 0) : Type 0 where
  pub ctx_err : W → GoError × W
  pub wait : ℤ → W → GoError × W
  pub random : W → ℕ × W

-- The result of `Do`: the number of attempts, the error, and the world left behind.
pub record Outcome (W : Type 0) : Type 0 where
  pub attempts : ℕ
  pub error : GoError
  pub world : W

abbrev pub is_nil : GoError → Bool
is_nil nil_error = true
is_nil _ = false

abbrev pub is_mutation_class : Class → Bool
is_mutation_class mutation = true
is_mutation_class query = false

-- `max`, after its two corrections.
abbrev pub attempt_limit : Policy → Class → ℕ
attempt_limit p mutation = 1
attempt_limit p query = if ltb 1 (pos_part p.max_attempts) then pos_part p.max_attempts else 1

module _ {W : Type 0} (env : Env W) where
  -- `sleepCtx` of internal/resilience/ratelimit.go.
  unfoldable pub sleep_ctx : ℤ → W → GoError × W
  sleep_ctx d w = if is_positive d then env.wait d w else env.ctx_err w

  -- The `for` of `Do`, on fuel.
  unfoldable pub do_loop : (W → GoError × W) → ℕ → Policy → Class → ℕ → ℕ → W → Option (Outcome W)
  do_loop fn zero p class limit attempts w = none
  do_loop fn (suc fuel) p class limit attempts w =
      let checked = env.ctx_err w in
      let tried = fn checked.1 in
      let n = attempts + 1 in
      let drawn = env.random tried.1 in
      let slept = sleep_ctx (delay p n drawn.0) drawn.1 in
      let rest = do_loop fn fuel p class limit n slept.1 in
      if not (is_nil checked.0)
      then some (record { attempts = attempts; error = checked.0; world = checked.1 })
      else if is_nil tried.0
      then some (record { attempts = n; error = nil_error; world = tried.1 })
      else if leb limit n || (is_mutation_class class || not (retryable tried.0))
      then some (record { attempts = n; error = tried.0; world = tried.1 })
      else if not (is_nil slept.0)
      then some (record { attempts = n; error = slept.0; world = slept.1 })
      else rest

  -- `Do`; an attempt function that is nil is refused. The fuel is the number of attempts allowed.
  unfoldable pub do_policy : Option (W → GoError × W) → Policy → Class → W → Option (Outcome W)
  do_policy none p class w =
      some (record { attempts = 0; error = opaque "resilience: nil attempt function"; world = w })
  do_policy (some fn) p class w =
      do_loop fn (attempt_limit p class) p class (attempt_limit p class) 0 w

  unfoldable pub do_route : Option (W → GoError × W) → Policy → Bytes → W → Option (Outcome W)
  do_route fn p path w = do_policy fn p (class_for_path path) w
