-- ===== src/Common/Int.antt =====
-- Signed integers over the native numbers, and Go's fixed-width conversions between signed and
-- unsigned words. `negsuc n` is -(n + 1).
use Prim.Native.Nat.{ℕ, ◌+◌, ◌-◌, ◌*◌, ◌%◌, ◌<◌}
use mathlib.Core.Path.{◌≡◌}
use mathlib.Core.Bool.{Bool, true, false}
use native.Mathlib.Omega.{arith}
use hstongapi4go.Common.Tests.{ltb, if◌then◌else◌}

pub data ℤ : Type 0 where
  pos : ℕ → ℤ
  negsuc : ℕ → ℤ

abbrev pub is_negative : ℤ → Bool
is_negative (pos n) = false
is_negative (negsuc n) = true

-- The value of a number that is not negative, and 0 otherwise.
abbrev pub pos_part : ℤ → ℕ
pos_part (pos n) = n
pos_part (negsuc n) = 0

-- `uintN(z)`, with `m = 2 ^ N`: the two's complement bit pattern of a value in range.
unfoldable pub to_unsigned : ℕ → ℤ → ℕ
to_unsigned m (pos n) = n % m
to_unsigned m (negsuc n) = (m - (n % m + 1))

-- `intN(u)`, with `2 * half = 2 ^ N`.
unfoldable pub to_signed : ℕ → ℕ → ℤ
to_signed half u = if ltb u half then pos u else negsuc (2 * half - 1 - u)

-- The values of an N-bit signed word.
abbrev pub InWord : ℕ → ℤ → Type 0
InWord half (pos n) = n < half
InWord half (negsuc n) = n < half

pub to_signed-to_unsigned_16 : (z : ℤ) → InWord 32768 z → to_signed 32768 (to_unsigned 65536 z) ≡ z
unfolding to_signed to_unsigned
to_signed-to_unsigned_16 (pos n) h = ground arith
to_signed-to_unsigned_16 (negsuc n) h = ground arith

pub to_signed-to_unsigned_32 :
    (z : ℤ) → InWord 2147483648 z → to_signed 2147483648 (to_unsigned 4294967296 z) ≡ z
unfolding to_signed to_unsigned
to_signed-to_unsigned_32 (pos n) h = ground arith
to_signed-to_unsigned_32 (negsuc n) h = ground arith

pub to_signed-to_unsigned_64 :
    (z : ℤ)
    → InWord 9223372036854775808 z
    → to_signed 9223372036854775808 (to_unsigned 18446744073709551616 z) ≡ z
unfolding to_signed to_unsigned
to_signed-to_unsigned_64 (pos n) h = ground arith
to_signed-to_unsigned_64 (negsuc n) h = ground arith

pub to_unsigned-lt : (m : ℕ) (z : ℤ) → 0 < m → to_unsigned m z < m
unfolding to_unsigned
to_unsigned-lt m (pos n) h = grind arith
to_unsigned-lt m (negsuc n) h = grind arith
