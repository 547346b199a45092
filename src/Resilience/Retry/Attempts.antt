-- ===== src/Resilience/Retry/Attempts.antt =====
-- How often an attempt is made, and after which errors (internal/resilience/retry.go).
use mathlib.Core.List.{append_assoc}
use hstongapi4go.Common.{
  ℕ, zero, suc, ◌+◌, ◌≡◌, refl, ap, sym, ◌∙◌, ◌≤◌, ◌<◌, Bool, true, false, not, ◌||◌, some, List,
  [], ◌∷◌, ◌++◌, arith, length, length-append, leb, All, Bool-cases, inl, inr,
}
use hstongapi4go.Common.Int.{ℤ}
use hstongapi4go.Errs.{GoError, nil_error, opaque, retryable}
use hstongapi4go.Common.Bytes.{Bytes}
use hstongapi4go.Resilience.Retry.{
  is_mutation, class_for_path, Class, query, mutation, Policy, Env, Outcome, is_nil,
  is_mutation_class, attempt_limit, sleep_ctx, do_loop, do_policy, do_route, delay,
}

-- A world that keeps the errors of the attempts made, newest first.
pub record Logs {W : Type 0} (env : Env W) (fn : W → GoError × W) (log : W → List GoError)
    : Type 0 where
  pub attempted : (w : W) → log (fn w).1 ≡ (fn w).0 ∷ log w
  pub checked : (w : W) → log (env.ctx_err w).1 ≡ log w
  pub waited : (d : ℤ) (w : W) → log (env.wait d w).1 ≡ log w
  pub drawn : (w : W) → log (env.random w).1 ≡ log w

abbrev pub tail : List GoError → List GoError
tail [] = []
tail (e ∷ es) = es

abbrev pub IsRetryable : GoError → Type 0
IsRetryable e = retryable e ≡ true

All-snoc :
    (es : List GoError) (e : GoError)
    → All IsRetryable es
    → IsRetryable e
    → All IsRetryable (es ++ e ∷ [])
All-snoc [] e h k = (k, tt)
All-snoc (x ∷ es) e h k = (h.0, All-snoc es e h.1 k)

tail-snoc :
    (es : List GoError) (e : GoError)
    → All IsRetryable (tail es)
    → IsRetryable e
    → All IsRetryable (tail (es ++ e ∷ []))
tail-snoc [] e h k = tt
tail-snoc (x ∷ es) e h k = All-snoc es e h k

-- The error of the newest attempt.
abbrev pub newest : List GoError → GoError
newest [] = opaque "no attempt"
newest (e ∷ es) = e

newest-append :
    (es ds : List GoError) → is_nil (newest es) ≡ true → is_nil (newest (es ++ ds)) ≡ true
newest-append [] ds h = absurd (cc)
newest-append (e ∷ es) ds h = h

implied : (a b : Bool) → (a ≡ true → b ≡ true) → (not a || b) ≡ true
implied true b f = f refl
implied false b f = refl

implies : (a b : Bool) → (not a || b) ≡ true → a ≡ true → b ≡ true
implies true b f h = f
implies false b f h = absurd (cc)

-- What a finished call says of the attempts `made` in it.
pub record IsFair {W : Type 0} (log : W → List GoError) (before : List GoError)
    (made : List GoError) (start limit : ℕ) (o : Outcome W) : Type 0 where
  pub logged : log o.world ≡ made ++ before
  pub counted : o.attempts ≡ start + length made
  pub limited : o.attempts ≤ limit
  pub justified : All IsRetryable (tail made)
  pub verdict : (not (is_nil o.error) || is_nil (newest made)) ≡ true

module _ {W : Type 0} (env : Env W) (fn : W → GoError × W) (log : W → List GoError)
    (laws : Logs env fn log) (p : Policy) (class : Class) (limit : ℕ) where
  log-sleep_ctx : (d : ℤ) (w : W) → log (sleep_ctx env d w).1 ≡ log w
  unfolding sleep_ctx
  log-sleep_ctx d w = ground (arith, laws.waited d w, laws.checked w)

  -- The world after one attempt that is to be followed by another.
  after : ℕ → W → W
  after n w =
      let tried = fn (env.ctx_err w).1 in
      let drawn = env.random tried.1 in (sleep_ctx env (delay p n drawn.0) drawn.1).1

  log-after : (n : ℕ) (w : W) → log (after n w) ≡ (fn (env.ctx_err w).1).0 ∷ log w
  unfolding after
  log-after n w =
      let tried = fn (env.ctx_err w).1 in
      let drawn = env.random tried.1 in
      log-sleep_ctx (delay p n drawn.0) drawn.1
      ∙ (laws.drawn tried.1
          ∙ (laws.attempted (env.ctx_err w).1 ∙ ap (λ l. tried.0 ∷ l) (laws.checked w)))

  abbrev Finishes : ℕ → ℕ → W → Type 0
  Finishes fuel attempts w =
      (o : Outcome W) × (made : List GoError) × (do_loop env fn fuel p class limit attempts w
        ≡ some o)
      × IsFair log (log w) made attempts limit o

  do_loop_fair :
      (fuel attempts : ℕ) (w : W) → 0 < fuel → fuel + attempts ≡ limit → Finishes fuel attempts w
  unfolding do_loop
  do_loop_fair zero attempts w pos e = absurd (omega arith)
  do_loop_fair (suc fuel) attempts w pos e =
      let checked = env.ctx_err w in
      let tried = fn checked.1 in
      let n = attempts + 1 in
      let drawn = env.random tried.1 in
      let slept = sleep_ctx env (delay p n drawn.0) drawn.1 in
      let once : log tried.1 ≡ (tried.0 ∷ []) ++ log w =
        laws.attempted checked.1 ∙ ap (λ l. tried.0 ∷ l) (laws.checked w) in
      let waits : log slept.1 ≡ (tried.0 ∷ []) ++ log w = unfold after in log-after n w in
      let stop = leb limit n || (is_mutation_class class || not (retryable tried.0)) in
      elim (Bool-cases (not (is_nil checked.0))) [
        | inl c ↦ (
          record { attempts = attempts; error = checked.0; world = checked.1 },
          [],
          rw c refl,
          record {
            logged = laws.checked w;
            counted = omega arith;
            limited = omega arith;
            justified = tt;
            verdict = implied (is_nil checked.0) false (λ v. cc);
          },
        )
        | inr c ↦ elim (Bool-cases (is_nil tried.0)) [
          | inl s ↦ (
            record { attempts = n; error = nil_error; world = tried.1 },
            tried.0 ∷ [],
            rw (c, s) refl,
            record {
              logged = once;
              counted = omega arith;
              limited = omega arith;
              justified = tt;
              verdict = implied true (is_nil tried.0) (λ v. s);
            },
          )
          | inr s ↦ elim (Bool-cases stop) [
            | inl z ↦ (
              record { attempts = n; error = tried.0; world = tried.1 },
              tried.0 ∷ [],
              rw (c, s, z) refl,
              record {
                logged = once;
                counted = omega arith;
                limited = omega arith;
                justified = tt;
                verdict = implied (is_nil tried.0) (is_nil tried.0) (λ v. v);
              },
            )
            | inr z ↦ elim (Bool-cases (not (is_nil slept.0))) [
              | inl y ↦ (
                record { attempts = n; error = slept.0; world = slept.1 },
                tried.0 ∷ [],
                rw (c, s, z, y) refl,
                record {
                  logged = waits;
                  counted = omega arith;
                  limited = omega arith;
                  justified = tt;
                  verdict = implied (is_nil slept.0) (is_nil tried.0) (λ v. cc);
                },
              )
              | inr y ↦
                  let (o, made, same, fair) =
                    do_loop_fair fuel n slept.1 (ground arith) (omega arith) in
                  (
                    o,
                    made ++ tried.0 ∷ [],
                    rw (c, s, z, y) same,
                    record {
                      logged =
                          fair.logged
                          ∙ (ap (λ l. made ++ l) waits
                              ∙ sym (append_assoc made (tried.0 ∷ []) (log w)));
                      counted = omega (arith, fair.counted, length-append made (tried.0 ∷ []));
                      limited = fair.limited;
                      justified = tail-snoc made tried.0 fair.justified (ground arith);
                      verdict =
                          implied (is_nil o.error) (is_nil (newest (made ++ tried.0 ∷ []))) (λ v.
                            newest-append made (tried.0 ∷ [])
                              (implies (is_nil o.error) (is_nil (newest made)) fair.verdict v));
                    },
                  )
            ]
          ]
        ]
      ]

-- Do always returns, in any world that keeps the errors of the attempts made. It makes at most the
-- attempts that the policy and the class allow, each attempt but the last failed with a retryable
-- error, and it reports success only if its last attempt succeeded.
pub do_policy-IsFair :
    {W : Type 0} (env : Env W) (fn : W → GoError × W) (log : W → List GoError)
    → Logs env fn log
    → (p : Policy) (class : Class) (w : W)
    → (o : Outcome W) × (made : List GoError) × (do_policy env (some fn) p class w ≡ some o)
      × IsFair log (log w) made 0 (attempt_limit p class) o
unfolding do_policy
do_policy-IsFair env fn log laws p query w =
    do_loop_fair env fn log laws p query (attempt_limit p query) (attempt_limit p query) 0 w
      (ground arith) (omega arith)
do_policy-IsFair env fn log laws p mutation w =
    do_loop_fair env fn log laws p mutation 1 1 0 w (omega arith) (omega arith)

-- An operation on a mutation endpoint is sent at most once, whatever the policy and whatever the
-- context, the timer and the Gateway answer: DoRoute returns, and at most one attempt was made.
-- The world keeps the errors of the attempts made.
pub mutation_once :
    {W : Type 0} (env : Env W) (fn : W → GoError × W) (log : W → List GoError)
    → Logs env fn log
    → (p : Policy) (path : Bytes) (w : W) → is_mutation path ≡ true
    → (o : Outcome W) × (do_route env (some fn) p path w ≡ some o)
      × (o.attempts ≤ 1)
      × (length (log o.world) ≤ length (log w) + 1)
unfolding do_route class_for_path
mutation_once env fn log laws p path w m =
    let (o, made, same, fair) = do_policy-IsFair env fn log laws p mutation w in
    (
      o,
      rw m same,
      fair.limited,
      rw fair.logged (omega (arith, length-append made (log w), fair.counted, fair.limited)),
    )
