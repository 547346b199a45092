-- ===== src/Session/Machine.antt =====
-- internal/session/state.go: the session state machine. Each method is one critical section.
use hstongapi4go.Common.{ℕ, zero, suc, ◌≡◌, refl, Bool, true, false, List, [], ◌∷◌, arith}

pub data State : Type 0 where
  logged_out logging_in logged_in : State

abbrev pub begin_login : State → State × Bool
begin_login logged_out = (logging_in, true)
begin_login s = (s, false)

abbrev pub login_succeeded : State → State
login_succeeded logging_in = logged_in
login_succeeded s = s

abbrev pub login_failed : State → State
login_failed logging_in = logged_out
login_failed s = s

abbrev pub logout : State → State
logout s = logged_out

-- The answers that a number of callers of BeginLogin get, in the order in which the mutex lets them
-- in.
pub race : State → ℕ → List Bool
race s zero = []
race s (suc n) = (begin_login s).1 ∷ race (begin_login s).0 n

abbrev pub winners : List Bool → ℕ
winners [] = 0
winners (true ∷ bs) = suc (winners bs)
winners (false ∷ bs) = winners bs

no_winner : (n : ℕ) → winners (race logging_in n) ≡ 0
unfolding race
no_winner zero = refl
no_winner (suc n) = no_winner n

-- Of any number of callers that race to begin a login from the logged-out state exactly one wins.
pub race-one_winner : (n : ℕ) → winners (race logged_out (suc n)) ≡ 1
unfolding race
race-one_winner n = omega (arith, no_winner n)
