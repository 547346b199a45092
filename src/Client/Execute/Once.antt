-- ===== src/Client/Execute/Once.antt =====
-- How often a call of the client reaches the transport (client/client.go, internal/resilience/retry.go).
use hstongapi4go.Common.{
  ℕ, ◌+◌, String, ◌≡◌, refl, ◌≤◌, true, not, Option, none, some, arith, Bool-cases, inl, inr,
}
use hstongapi4go.Common.Bytes.{Bytes}
use hstongapi4go.Errs.{GoError, nil_error, wrapped}
use hstongapi4go.Resilience.Breaker.{allow}
use hstongapi4go.Resilience.Retry.{
  Policy, Env, Outcome, is_nil, is_mutation, do_route, do_policy, do_loop, class_for_path,
}
use hstongapi4go.Client.Execute.{
  Config, Store, store_at, Done, breaker_for, err_circuit_open, limited, attempt, attempted,
  attempted_by, settled, execute, execute_by,
}

-- A rate limiter whose wait makes no request.
abbrev pub IsQuiet : {W : Type 0} → (W → ℕ) → Option (Bytes → W → GoError × W) → Type 0
IsQuiet made none = Unit
IsQuiet {W} made (some wait) = (path : Bytes) (w : W) → made (wait path w).1 ≡ made w

-- A world that counts the requests made: the transport makes one, and asking the context makes none.
pub record Counts {W : Type 0} (env : Env W) (transport_do : Bytes → W → GoError × W)
    (limiter : Option (Bytes → W → GoError × W)) (made : W → ℕ) : Type 0 where
  pub sent : (path : Bytes) (w : W) → made (transport_do path w).1 ≡ made w + 1
  pub checked : (w : W) → made (env.ctx_err w).1 ≡ made w
  pub waited : IsQuiet made limiter

module _ {W : Type 0} (env : Env W) (clock : W → ℕ) (transport_do : Bytes → W → GoError × W)
    (op : String) (cfg : Config W) (path : Bytes) (made : W → ℕ)
    (laws : Counts env transport_do cfg.rate_limiter made) where
  limited-made :
      (o : Option (Bytes → W → GoError × W))
      → IsQuiet made o
      → (w : W) → made (limited env clock transport_do op cfg o path w).1 ≤ made w + 1
  unfolding limited
  limited-made none q w = omega (arith, laws.sent path w)
  limited-made (some wait) q w = elim (Bool-cases (is_nil (wait path w).0)) [
    | inl e ↦ rw e (omega (arith, laws.sent path (wait path w).1, q path w))
    | inr e ↦ rw e (omega (arith, q path w))
  ]

  attempt-made : (w : W) → made (attempt env clock transport_do op cfg path w).1 ≤ made w + 1
  unfolding attempt
  attempt-made w = limited-made cfg.rate_limiter laws.waited w

  -- On a mutation the retry policy makes one attempt, unless the context has ended.
  do_route-made :
      (p : Policy) (w : W)
      → is_mutation path ≡ true
      → (o : Outcome W) × (do_route env (some (attempt env clock transport_do op cfg path)) p path w
          ≡ some o)
        × (made o.world ≤ made w + 1)
  unfolding do_route do_policy do_loop class_for_path
  do_route-made p w m =
      let checked = env.ctx_err w in
      let tried = attempt env clock transport_do op cfg path checked.1 in
      elim (Bool-cases (not (is_nil checked.0))) [
        | inl c ↦ (
          record { attempts = 0; error = checked.0; world = checked.1 },
          rw (m, c) refl,
          omega (arith, laws.checked w),
        )
        | inr c ↦ elim (Bool-cases (is_nil tried.0)) [
          | inl s ↦ (
            record { attempts = 1; error = nil_error; world = tried.1 },
            rw (m, c, s) refl,
            omega (arith, laws.checked w, attempt-made checked.1),
          )
          | inr s ↦ (
            record { attempts = 1; error = tried.0; world = tried.1 },
            rw (m, c, s) refl,
            omega (arith, laws.checked w, attempt-made checked.1),
          )
        ]
      ]

  abbrev Once : W → Option (GoError × W) → Type 0
  Once w r = (e : GoError) × (w' : W) × (r ≡ some (e, w')) × (made w' ≤ made w + 1)

  attempted-Once :
      (w : W) → is_mutation path ≡ true → Once w (attempted env clock transport_do op cfg path w)
  unfolding attempted attempted_by
  attempted-Once w m = go cfg.retry_policy
    where
      go : (p : Option Policy) → Once w (attempted_by env clock transport_do op cfg p path w)
      go none = (_, _, refl, attempt-made w)
      go (some p) =
          let (o, same, few) = do_route-made p w m in (o.error, o.world, rw same refl, few)

  -- A call to a mutation endpoint reaches the transport at most once, whatever breakers, rate limiter
  -- and retry policy are configured, whatever state the breakers are in, and whatever the transport,
  -- the limiter, the context and the timer answer; and the call returns. In a world that counts the
  -- runs of the transport, to which the limiter's wait and the context add none.
  pub execute_mutation_once :
      (s : Store) (w : W)
      → is_mutation path ≡ true
      → (d : Done W) × (execute env clock transport_do op cfg s path w ≡ some d)
        × (made d.world ≤ made w + 1)
  unfolding execute settled
  execute_mutation_once s w m = go (breaker_for cfg path)
    where
      go :
          (cb : Option ℕ)
          → (d : Done W) × (execute_by env clock transport_do op cfg cb s path w ≡ some d)
            × (made d.world ≤ made w + 1)
      go none =
          unfold execute_by in
          let (e, w', same, few) = attempted-Once w m in
          (record { error = e; store = s; world = w' }, rw same refl, few)
      go (some i) =
          unfold execute_by in
          let (e, w', same, few) = attempted-Once w m in
          let asked = allow (s i) (clock w) in
          let s' = store_at i asked.0 s in
          elim (Bool-cases asked.1) [
            | inl y ↦ (
              record {
                error = e;
                store = settled env clock transport_do op cfg (some i) e w' s';
                world = w';
              },
              rw (y, same) refl,
              few,
            )
            | inr y ↦ (
              record { error = wrapped op err_circuit_open; store = s'; world = w },
              rw y refl,
              omega arith,
            )
          ]
