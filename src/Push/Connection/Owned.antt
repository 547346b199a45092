-- ===== src/Push/Connection/Owned.antt =====
-- Which connections stay open (internal/push/client.go).
use mathlib.Core.Path.{subst}
use hstongapi4go.Common.{
  ℕ, ◌≡◌, refl, sym, Bool, true, false, not, ◌||◌, Option, none, some, List, [], ◌∷◌, arith, ◌==◌,
  All, Bool-cases, inl, inr,
}
use hstongapi4go.Push.Connection.{
  Client, new_client, Step, connect_dial, connect_store, run_dial, run_store, close_conn, close,
  step, run, is_some, set_at, close_conn_of, connect_dialled, connect_stored, run_dialled,
  run_stored, conn_closed, closing,
}

-- The steps of Connect, Close and closeConn.
abbrev pub is_connect : Step → Bool
is_connect (run_dial c) = false
is_connect (run_store c) = false
is_connect _ = true

abbrev holds : Option ℕ → ℕ → Bool
holds none c = false
holds (some d) c = c == d

-- Every open connection is the client's or that of a Connect under way, and a closed client has none.
pub record IsOwned (s : Client) : Type 0 where
  pub owned : (c : ℕ) → (not (s.opened c) || (holds s.conn c || s.connecting c)) ≡ true
  pub cleared : (not s.closed || not (is_some s.conn)) ≡ true

dial-IsOwned : (c : ℕ) (s : Client) → IsOwned s → IsOwned (connect_dialled c s)
unfolding connect_dialled
dial-IsOwned c s v = elim (Bool-cases (s.opened c)) [
  | inl e ↦ rw e v
  | inr e ↦ rw e record { owned = λ x. ground (arith, v.owned x); cleared = v.cleared }
]

taken :
    (conn : Option ℕ) (c x : ℕ) (o f : ℕ → Bool)
    → is_some conn ≡ false
    → (not (o x) || (holds conn x || f x)) ≡ true
    → (not (o x) || (holds (some c) x || set_at c false f x)) ≡ true
taken none c x o f n h = ground arith
taken (some d) c x o f n h = ground arith

released :
    (conn : Option ℕ) (x : ℕ) (o f : ℕ → Bool)
    → (not (o x) || (holds conn x || f x)) ≡ true
    → (not (close_conn_of conn o x) || (holds none x || f x)) ≡ true
released none x o f h = h
released (some d) x o f h = ground arith

or_right : (a b : Bool) → (a || b) ≡ false → b ≡ false
or_right false b h = h
or_right true b h = absurd (cc)

store-IsOwned : (c : ℕ) (s : Client) → IsOwned s → IsOwned (connect_stored c s)
unfolding connect_stored
store-IsOwned c s v = elim (Bool-cases (s.connecting c)) [
  | inr e ↦ rw e v
  | inl e ↦ elim (Bool-cases (s.closed || is_some s.conn)) [
    | inl f ↦ rw (e, f) record { owned = λ x. ground (arith, v.owned x); cleared = v.cleared }
    | inr f ↦
        rw (e, f)
          record {
            owned = λ x. taken s.conn c x s.opened s.connecting (or_right s.closed _ f) (v.owned x);
            cleared = ground (arith);
          }
  ]
]

conn_closed-IsOwned : (s : Client) → IsOwned s → IsOwned (conn_closed s)
unfolding conn_closed
conn_closed-IsOwned s v = record {
  owned = λ x. released s.conn x s.opened s.connecting (v.owned x);
  cleared = ground arith;
}

closing_once : (s : Client) → s.closed ≡ true → closing s ≡ s
unfolding closing
closing_once s e = ground arith

closing-IsOwned : (s : Client) → IsOwned s → IsOwned (closing s)
unfolding closing
closing-IsOwned s v = elim (Bool-cases s.closed) [
  | inl e ↦ subst IsOwned (sym (closing_once s e)) v
  | inr e ↦
      rw e
        record { owned = λ x. released s.conn x s.opened s.connecting (v.owned x); cleared = refl }
]

step-IsOwned : (x : Step) (s : Client) → is_connect x ≡ true → IsOwned s → IsOwned (step x s)
unfolding step
step-IsOwned (connect_dial c) s h v = dial-IsOwned c s v
step-IsOwned (connect_store c) s h v = store-IsOwned c s v
step-IsOwned (run_dial c) s h v = absurd (cc)
step-IsOwned (run_store c) s h v = absurd (cc)
step-IsOwned close_conn s h v = conn_closed-IsOwned s v
step-IsOwned close s h v = closing-IsOwned s v

abbrev pub AllConnect : List Step → Type 0
AllConnect = All (λ x. is_connect x ≡ true)

run-IsOwned : (xs : List Step) (s : Client) → AllConnect xs → IsOwned s → IsOwned (run xs s)
unfolding run
run-IsOwned [] s h v = v
run-IsOwned (x ∷ xs) s h v = run-IsOwned xs (step x s) h.1 (step-IsOwned x s h.0 v)

left_open :
    (s : Client) (c : ℕ) → IsOwned s → s.closed ≡ true → s.connecting c ≡ false → s.opened c ≡ false
left_open s c v h k = go s.conn (v.owned c) v.cleared
  where
    go :
        (conn : Option ℕ)
        → (not (s.opened c) || (holds conn c || s.connecting c)) ≡ true
        → (not s.closed || not (is_some conn)) ≡ true
        → s.opened c ≡ false
    go none a b = ground arith
    go (some d) a b = absurd (ground arith)

-- However Connect calls, Close and closeConn interleave from a new client, once the client is
-- closed the only connections open are those of a Connect that has dialled and not yet come to its
-- second lock: Connect and Close leak none.
pub connect_close_no_leak :
    (init_failed : Bool) (xs : List Step) (c : ℕ)
    → AllConnect xs
    → (run xs (new_client init_failed)).closed ≡ true
    → (run xs (new_client init_failed)).connecting c ≡ false
    → (run xs (new_client init_failed)).opened c ≡ false
connect_close_no_leak init_failed xs c h closed idle =
    left_open (run xs (new_client init_failed)) c
      (run-IsOwned xs (new_client init_failed) h record { owned = λ x. refl; cleared = refl })
      closed idle

-- A dial of Run that is under way when Close is called leaks its connection: from any client that is
-- not closed and has no connection, after the dial, the Close and Run's setConn the client is closed and yet holds the open
-- connection, and another Close changes nothing.
pub run_dial_leaks :
    (s : Client) (c : ℕ)
    → s.closed ≡ false
    → s.opened c ≡ false
    → s.conn ≡ none
    → ((run (run_dial c ∷ close ∷ run_store c ∷ []) s).closed ≡ true)
      × ((run (run_dial c ∷ close ∷ run_store c ∷ []) s).conn ≡ some c)
      × ((run (run_dial c ∷ close ∷ run_store c ∷ []) s).opened c ≡ true)
      × (closing (run (run_dial c ∷ close ∷ run_store c ∷ []) s)
          ≡ run (run_dial c ∷ close ∷ run_store c ∷ []) s)
unfolding run step run_dialled run_stored closing
run_dial_leaks s c h k n =
    let same : (c == c) ≡ true = ground arith in
    rw (k, run_dialled)
      (rw (h, closing) (rw (same, run_stored) (refl, refl, rw (n, same) refl, refl)))
