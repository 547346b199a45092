-- ===== src/Client/Execute/Isolation.antt =====
-- Which breakers a call of the client reads and changes (client/client.go).
use hstongapi4go.Common.{
  ℕ, ◌+◌, ◌<◌, String, ◌≡◌, ◌≢◌, refl, sym, ap, ◌∙◌, false, Option, none, some, arith, ◌==◌,
  Bool-cases, inl, inr,
}
use hstongapi4go.Common.Bytes.{Bytes}
use hstongapi4go.Errs.{GoError, wrapped}
use hstongapi4go.Resilience.Breaker.{Breaker, open_, allow}
use hstongapi4go.Resilience.Breaker.Runs.{allow_cooling}
use hstongapi4go.Resilience.Retry.{Env}
use hstongapi4go.Client.Execute.{
  Config, Store, store_at, Done, breaker_for, err_circuit_open, attempted, finished, settled,
  execute, execute_by,
}

module _ {W : Type 0} (env : Env W) (clock : W → ℕ) (transport_do : Bytes → W → GoError × W)
    (op : String) (cfg : Config W) where
  abbrev runs : Store → Bytes → W → Option (Done W)
  runs = execute env clock transport_do op cfg

  store_at_ne : (i j : ℕ) (b : Breaker) (s : Store) → i ≢ j → store_at i b s j ≡ s j
  store_at_ne i j b s n = ground arith

  -- The store behind a call, which is the store before it where the call has no result.
  abbrev store_or : Store → Option (Done W) → Store
  store_or s none = s
  store_or s (some d) = d.store

  store_at_same : (i j : ℕ) (s : Store) → store_at i (s i) s j ≡ s j
  store_at_same i j s = elim (Bool-cases (j == i)) [
    | inl e ↦ let same : j ≡ i = ground arith in rw (e, same) refl
    | inr e ↦ rw e refl
  ]

  finished_ne :
      (i j : ℕ) (s : Store) (r : Option (GoError × W))
      → i ≢ j
      → store_or s (finished env clock transport_do op cfg (some i) s r) j ≡ s j
  unfolding settled
  finished_ne i j s none n = refl
  finished_ne i j s (some (e, w)) n = store_at_ne i j _ s n

  store_or_none :
      (s s' : Store) (r : Option (Done W)) (j : ℕ)
      → s' j ≡ s j
      → store_or s' r j ≡ s' j
      → store_or s r j ≡ s j
  store_or_none s s' none j h k = refl
  store_or_none s s' (some d) j h k = k ∙ h

  execute_by_ne :
      (i j : ℕ) (s : Store) (path : Bytes) (w : W)
      → i ≢ j
      → store_or s (execute_by env clock transport_do op cfg (some i) s path w) j ≡ s j
  unfolding execute_by
  execute_by_ne i j s path w n =
      let asked = allow (s i) (clock w) in
      let s' = store_at i asked.0 s in
      let same = store_at_ne i j asked.0 s n in
      elim (Bool-cases asked.1) [
        | inl e ↦
            let r = attempted env clock transport_do op cfg path w in
            rw e (
              store_or_none s s' (finished env clock transport_do op cfg (some i) s' r) j same
                (finished_ne i j s' r n))
        | inr e ↦ rw e same
      ]

  -- A call changes no breaker but the one that its path selects: a query's failures never open the
  -- breaker of the mutations, nor the other way round, where they are different breakers.
  pub execute_isolated :
      (s : Store) (path : Bytes) (w : W) (d : Done W) (i j : ℕ)
      → breaker_for cfg path ≡ some i
      → i ≢ j
      → runs s path w ≡ some d
      → d.store j ≡ s j
  unfolding execute
  execute_isolated s path w d i j b n h =
      ap (λ x. store_or s x j) (sym h) ∙ rw b (execute_by_ne i j s path w n)

  -- A call whose breaker is open and still cools down fails with ErrCircuitOpen: it reaches neither the
  -- rate limiter nor the transport, and changes no breaker.
  pub execute_refused :
      (s : Store) (path : Bytes) (w : W) (i : ℕ)
      → breaker_for cfg path ≡ some i
      → (s i).state ≡ open_
      → clock w < (s i).opened_at + (s i).cooldown
      → (d : Done W) × (runs s path w ≡ some d)
        × (d.error ≡ wrapped op err_circuit_open)
        × (d.world ≡ w)
        × ((j : ℕ) → d.store j ≡ s j)
  unfolding execute execute_by
  execute_refused s path w i b o c =
      let no : allow (s i) (clock w) ≡ (s i, false) =
        ground (arith, allow_cooling (s i) (clock w) o c) in
      rw (b, no) (_, refl, refl, refl, λ j. store_at_same i j s)
