-- ===== src/Session/Gate/Flights.antt =====
-- Counting the logins of an account under way among the calls of the session service
-- (pkg/services/session.go).
use hstongapi4go.Common.{
  ℕ, zero, suc, ◌+◌, ◌≡◌, ◌≤◌, Option, none, some, List, [], ◌∷◌, arith, get_elem?, set,
}
use hstongapi4go.Common.Bytes.{Bytes}
use hstongapi4go.Common.Text.{bytes_eq}
use hstongapi4go.Session.Gate.{
  Call, leading, calling, saved, settling, publishing, login_asked, starting, establishing,
  following, logout_asked, logging_out, returned,
}
use hstongapi4go.Services.Registry.Index.{one_if}

-- The call leads the login of this account.
abbrev pub leads : Bytes → Call → ℕ
leads a (leading b k) = one_if (bytes_eq b a)
leads a (calling b k) = one_if (bytes_eq b a)
leads a (saved b k) = one_if (bytes_eq b a)
leads a (settling b k o) = one_if (bytes_eq b a)
leads a (publishing b k o) = one_if (bytes_eq b a)
leads a (login_asked b p) = 0
leads a (starting b) = 0
leads a (establishing b) = 0
leads a (following b k) = 0
leads a (logout_asked b) = 0
leads a (logging_out b) = 0
leads a (returned o) = 0

abbrev pub leaders : Bytes → List Call → ℕ
leaders a [] = 0
leaders a (c ∷ cs) = leads a c + leaders a cs

-- 1 while an attempt of the account is under way.
abbrev pub under_way : Option ℕ → ℕ
under_way none = 0
under_way (some k) = 1

pub leaders-set :
    (a : Bytes) (calls : List Call) (i : ℕ) (old new : Call)
    → get_elem? calls i ≡ some old
    → leaders a (set calls i new) + leads a old ≡ leaders a calls + leads a new
leaders-set a [] i old new h = absurd (cc)
leaders-set a (c ∷ cs) zero old new h = let e : c ≡ old = cc in rw e (omega arith)
leaders-set a (c ∷ cs) (suc i) old new h = omega (arith, leaders-set a cs i old new h)

pub leads-get :
    (a : Bytes) (calls : List Call) (i : ℕ) (old : Call)
    → get_elem? calls i ≡ some old
    → leads a old ≤ leaders a calls
leads-get a [] i old h = absurd (cc)
leads-get a (c ∷ cs) zero old h = let e : c ≡ old = cc in rw (← e) (omega arith)
leads-get a (c ∷ cs) (suc i) old h = omega (arith, leads-get a cs i old h)
