-- ===== src/Base/Bits.antt =====
-- Operations of C on the bits of unsigned numbers, for a width that is given.
use Prim.Native.Nat.{ℕ, zero, suc, ◌+◌, ◌-◌, ◌*◌, ◌/◌, ◌%◌, ◌≤◌}
use mathlib.Core.Path.{◌≡◌}
use mathlib.Core.Bool.{not, ◌&&◌, ◌||◌}
use native.Mathlib.Omega.{arith}
use heterogeneous_multicore.Base.{◌==◌, if◌then◌else◌, test_bit}

-- `a & ~b`
unfoldable pub and_not : ℕ → ℕ → ℕ → ℕ
and_not zero a b = 0
and_not (suc w) a b = (if a % 2 == 1 then 1 - b % 2 else 0) + 2 * and_not w (a / 2) (b / 2)

-- `a | b`
unfoldable pub or_bits : ℕ → ℕ → ℕ → ℕ
or_bits zero a b = 0
or_bits (suc w) a b = (if a % 2 == 1 then 1 else b % 2) + 2 * or_bits w (a / 2) (b / 2)

-- The two lowest bits, of a width that has them.
pub and_not-bit :
    (w a b k : ℕ)
    → k ≤ 1
    → test_bit (and_not (suc (suc w)) a b) k ≡ (test_bit a k && not (test_bit b k))
unfolding and_not
and_not-bit w a b zero h = ground arith
and_not-bit w a b (suc zero) h = ground arith
and_not-bit w a b (suc (suc k)) h = absurd (omega arith)

pub or_bits-bit :
    (w a b k : ℕ) → k ≤ 1 → test_bit (or_bits (suc (suc w)) a b) k ≡ (test_bit a k || test_bit b k)
unfolding or_bits
or_bits-bit w a b zero h = ground arith
or_bits-bit w a b (suc zero) h = ground arith
or_bits-bit w a b (suc (suc k)) h = absurd (omega arith)
