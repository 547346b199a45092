-- ===== src/Resilience/Breaker/Runs.antt =====
-- What a circuit breaker admits over sequences of calls (internal/resilience/breaker.go).
use hstongapi4go.Common.{
  ℕ, ◌+◌, ◌≡◌, refl, ap, ◌∙◌, ◌≤◌, ◌<◌, Bool, true, false, List, [], ◌∷◌, arith, All, length,
}
use hstongapi4go.Resilience.Breaker.{
  closed, open_, half_open, Breaker, Call, ask, succeed, fail, allow, on_success, on_failure, step,
  run,
}
use hstongapi4go.Resilience.Breaker.Invariant.{IsValid}

-- What the calls of a run are told: whether each call that asks is admitted.
unfoldable pub answers : Breaker → List Call → List Bool
answers b [] = []
answers b (ask now ∷ cs) = (allow b now).1 ∷ answers (allow b now).0 cs
answers b (succeed ∷ cs) = answers (on_success b) cs
answers b (fail now ∷ cs) = answers (on_failure b now) cs

-- The calls that ask do so before the instant.
abbrev pub AsksBefore : ℕ → Call → Type 0
AsksBefore t (ask now) = now < t
AsksBefore t _ = Unit

abbrev pub IsAsk : Call → Type 0
IsAsk (ask now) = Unit
IsAsk _ = ⊥

abbrev pub IsRefusal : Bool → Type 0
IsRefusal b = b ≡ false

pub allow_cooling :
    (b : Breaker) (now : ℕ)
    → b.state ≡ open_
    → now < b.opened_at + b.cooldown
    → allow b now ≡ (b, false)
unfolding allow
allow_cooling b now o h = ground arith

allow_probing :
    (b : Breaker) (now : ℕ)
    → b.state ≡ half_open
    → b.half_open_probes ≤ b.probes
    → allow b now ≡ (b, false)
unfolding allow
allow_probing b now o h = ground arith

on_success_open : (b : Breaker) → b.state ≡ open_ → on_success b ≡ b
unfolding on_success
on_success_open b o = ground arith

on_failure_open : (b : Breaker) (now : ℕ) → b.state ≡ open_ → on_failure b now ≡ b
unfolding on_failure
on_failure_open b now o = ground arith

-- Between its opening and the end of the cooldown an open breaker refuses every call, and nothing
-- that callers report changes it: neither a late success nor a late failure.
pub open-refuses :
    (b : Breaker) (cs : List Call)
    → b.state ≡ open_
    → All (AsksBefore (b.opened_at + b.cooldown)) cs
    → All IsRefusal (answers b cs) × (run b cs ≡ b)
unfolding answers run step
open-refuses b [] o h = (tt, refl)
open-refuses b (ask now ∷ cs) o h =
    let (refused, same) = open-refuses b cs o h.1 in
    let told = allow_cooling b now o h.0 in
    (rw told (refl, refused), ap (λ x. run x.0 cs) told ∙ same)
open-refuses b (succeed ∷ cs) o h = rw (on_success_open b o) (open-refuses b cs o h.1)
open-refuses b (fail now ∷ cs) o h = rw (on_failure_open b now o) (open-refuses b cs o h.1)

-- While the probe is out every call is refused, at any time.
half_open-refuses :
    (b : Breaker) (cs : List Call)
    → b.state ≡ half_open
    → b.half_open_probes ≤ b.probes
    → All IsAsk cs
    → All IsRefusal (answers b cs)
unfolding answers
half_open-refuses b [] o p a = tt
half_open-refuses b (ask now ∷ cs) o p a =
    rw (allow_probing b now o p) (refl, half_open-refuses b cs o p a.1)
half_open-refuses b (succeed ∷ cs) o p a = absurd a.0
half_open-refuses b (fail now ∷ cs) o p a = absurd a.0

-- The breaker with its probe out.
abbrev probing : Breaker → Breaker
probing b = record b { state = half_open; probes = 1 }

allow_cooled :
    (b : Breaker) (now : ℕ)
    → IsValid b
    → b.state ≡ open_
    → b.opened_at + b.cooldown ≤ now
    → allow b now ≡ (probing b, true)
unfolding allow
allow_cooled b now v o h = ground arith

-- The first call after the cooldown of a valid open breaker is admitted as the probe, and from
-- then on every call is refused at any time, as long as no outcome is reported.
pub one_probe :
    (b : Breaker) (now : ℕ) (cs : List Call)
    → IsValid b
    → b.state ≡ open_
    → b.opened_at + b.cooldown ≤ now
    → All IsAsk cs
    → ((allow b now).1 ≡ true) × All IsRefusal (answers (allow b now).0 cs)
one_probe b now cs v o h a =
    rw (allow_cooled b now v o h) (refl, half_open-refuses (probing b) cs refl (omega arith) a)

-- Failures reported one after the other, at the given instants.
abbrev pub failing : List ℕ → List Call
failing [] = []
failing (t ∷ ts) = fail t ∷ failing ts

counted :
    (b : Breaker) (t : ℕ)
    → b.state ≡ closed
    → b.failures + 1 < b.threshold
    → on_failure b t ≡ record b { failures = b.failures + 1 }
unfolding on_failure
counted b t c h = ground arith

below_threshold :
    (b : Breaker) (ts : List ℕ)
    → b.state ≡ closed
    → b.failures + length ts < b.threshold
    → run b (failing ts) ≡ record b { failures = b.failures + length ts }
unfolding run step
below_threshold b [] c h = ground arith
below_threshold b (t ∷ ts) c h =
    ap (λ x. run x (failing ts)) (counted b t c (omega arith))
    ∙ (below_threshold (record b { failures = b.failures + 1 }) ts c (omega arith) ∙ ground arith)

-- A closed breaker with no failure yet opens at exactly its threshold of consecutive failures: after
-- any smaller number it is closed, and the failure that makes the number up opens it, from that
-- failure's instant.
pub opens_at_threshold :
    (b : Breaker) (fewer ts : List ℕ) (last : ℕ)
    → b.state ≡ closed
    → b.failures ≡ 0
    → length fewer < b.threshold
    → length ts + 1 ≡ b.threshold
    → ((run b (failing fewer)).state ≡ closed)
      × ((on_failure (run b (failing ts)) last).state ≡ open_)
      × ((on_failure (run b (failing ts)) last).opened_at ≡ last)
unfolding on_failure
opens_at_threshold b fewer ts last c z h e =
    rw (below_threshold b fewer c (omega arith))
      (rw (below_threshold b ts c (omega arith)) (ground arith))

-- After the cooldown of a valid open breaker the probe decides: a success closes the breaker and
-- forgets the failures, and a failure opens it again with a new cooldown from that failure.
pub probe_decides :
    (b : Breaker) (now later : ℕ)
    → IsValid b
    → b.state ≡ open_
    → b.opened_at + b.cooldown ≤ now
    → ((on_success (allow b now).0).state ≡ closed)
      × ((on_success (allow b now).0).failures ≡ 0)
      × ((on_failure (allow b now).0 later).state ≡ open_)
      × ((on_failure (allow b now).0 later).opened_at ≡ later)
unfolding on_success on_failure
probe_decides b now later v o h = rw (allow_cooled b now v o h) (refl, refl, refl, refl)
