-- ===== src/Common/Bytes.antt =====
-- Byte slices as lists of numbers, and the little-endian words of Go's encoding/binary.
use Prim.Native.Nat.{ℕ, zero, suc, ◌+◌, ◌*◌, ◌/◌, ◌%◌, ◌^◌, ◌<◌}
use native.Mathlib.Nat.{pow-suc, mul_comm}
use mathlib.Core.Path.{◌≡◌, refl, ap}
use mathlib.Core.List.{List, [], ◌∷◌, ◌++◌}
use native.Mathlib.Omega.{arith}
use hstongapi4go.Common.Lists.{length, take, drop, take-append, drop-append_add}

abbrev pub Bytes : Type 0
Bytes = List ℕ

-- `binary.LittleEndian.PutUintN` for N = 8 * n.
unfoldable pub put_le : ℕ → ℕ → Bytes
put_le zero x = []
put_le (suc n) x = (x % 256) ∷ put_le n (x / 256)

-- `binary.LittleEndian.UintN`.
unfoldable pub get_le : Bytes → ℕ
get_le [] = 0
get_le (b ∷ bs) = b + 256 * get_le bs

-- `copy(b[off:off+len(src)], src)` into a slice that is long enough.
unfoldable pub copy_at : ℕ → Bytes → Bytes → Bytes
copy_at off src b = take off b ++ (src ++ drop (off + length src) b)

-- `b[off : off+n]`.
unfoldable pub slice : ℕ → ℕ → Bytes → Bytes
slice off n b = take n (drop off b)

pub length-put_le : (n x : ℕ) → length (put_le n x) ≡ n
unfolding put_le
length-put_le zero x = refl
length-put_le (suc n) x = ap suc (length-put_le n (x / 256))

pub get_le-put_le : (n x : ℕ) → x < 256 ^ n → get_le (put_le n x) ≡ x
unfolding put_le get_le
get_le-put_le zero x h = omega arith
get_le-put_le (suc n) x h =
    let below : x < 256 * 256 ^ n = omega (arith, pow-suc 256 n, mul_comm 256 (256 ^ n)) in
    omega (arith, get_le-put_le n (x / 256) (omega arith))

-- A copy over a part of its own size replaces that part and keeps what stands around it.
pub copy_at_lem :
    (off : ℕ) (src pre mid post : Bytes)
    → length pre ≡ off
    → length mid ≡ length src
    → copy_at off src (pre ++ (mid ++ post)) ≡ pre ++ (src ++ post)
unfolding copy_at
copy_at_lem off src pre mid post p m =
    rw (take-append off pre (mid ++ post) p, ← m, drop-append_add off pre mid post p)
