-- ===== src/Common/Decimal.antt =====
-- `strconv.Itoa` and `strconv.FormatInt` in base 10.
use hstongapi4go.Common.Int.{ℤ, pos, negsuc}
use hstongapi4go.Common.Bytes.{Bytes}
use hstongapi4go.Common.Tests.{ltb, if◌then◌else◌}
use Prim.Native.Nat.{ℕ, zero, suc, ◌+◌, ◌/◌, ◌%◌}
use mathlib.Core.List.{[], ◌∷◌, ◌++◌}

-- The digits of n, on fuel; n itself is enough.
unfoldable pub digits : ℕ → ℕ → Bytes
digits zero n = (b'0' + n % 10) ∷ []
digits (suc fuel) n =
    let rest = digits fuel (n / 10) in
    if ltb n 10 then (b'0' + n) ∷ [] else rest ++ ((b'0' + n % 10) ∷ [])

unfoldable pub itoa : ℤ → Bytes
itoa (pos n) = digits n n
itoa (negsuc n) = b'-' ∷ digits (suc n) (suc n)
