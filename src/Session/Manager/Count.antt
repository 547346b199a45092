-- ===== src/Session/Manager/Count.antt =====
-- Counting the logins under way among the calls of a session manager.
use mathlib.Core.Path.{subst}
use hstongapi4go.Common.{
  ℕ, zero, suc, ◌+◌, ◌≡◌, ◌≤◌, some, List, [], ◌∷◌, arith, get_elem?, set, All,
}
use hstongapi4go.Session.Machine.{State, logging_in}
use hstongapi4go.Session.Manager.{Call, calling}

abbrev pub in_flight : Call → ℕ
in_flight calling = 1
in_flight _ = 0

abbrev pub flights : List Call → ℕ
flights [] = 0
flights (c ∷ cs) = in_flight c + flights cs

-- 1 while the machine is logging in.
abbrev pub expected : State → ℕ
expected logging_in = 1
expected _ = 0

pub flights-set :
    (calls : List Call) (i : ℕ) (old new : Call)
    → get_elem? calls i ≡ some old
    → flights (set calls i new) + in_flight old ≡ flights calls + in_flight new
flights-set [] i old new h = absurd (cc)
flights-set (c ∷ cs) zero old new h = ground arith
flights-set (c ∷ cs) (suc i) old new h = omega (arith, flights-set cs i old new h)

pub flights-get :
    (calls : List Call) (i : ℕ) (old : Call)
    → get_elem? calls i ≡ some old
    → in_flight old ≤ flights calls
flights-get [] i old h = absurd (cc)
flights-get (c ∷ cs) zero old h = ground arith
flights-get (c ∷ cs) (suc i) old h = omega (arith, flights-get cs i old h)

module _ {κ} (P : Call → Type κ) where
  pub All-get :
      (calls : List Call) (i : ℕ) (c : Call) → get_elem? calls i ≡ some c → All P calls → P c
  All-get [] i c h a = absurd (cc)
  All-get (d ∷ cs) zero c h a = let e : d ≡ c = cc in subst P e a.0
  All-get (d ∷ cs) (suc i) c h a = All-get cs i c h a.1

  pub All-set : (calls : List Call) (i : ℕ) (c : Call) → P c → All P calls → All P (set calls i c)
  All-set [] i c p a = a
  All-set (d ∷ cs) zero c p a = (p, a.1)
  All-set (d ∷ cs) (suc i) c p a = (a.0, All-set cs i c p a.1)
