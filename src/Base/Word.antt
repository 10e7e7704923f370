-- ===== src/Base/Word.antt =====
-- Machine words as native numbers. A wrap-around is `% 2 ^ w`; a wrapping subtraction adds the
-- modulus first; a test of one bit reads that binary digit.
use Prim.Native.Nat.{ℕ, ◌+◌, ◌-◌, ◌*◌, ◌/◌, ◌%◌, ◌^◌, bit_and}
use mathlib.Core.Bool.{Bool}
use x68k_stackchan.Base.Tests.{◌==◌, ltb, if◌then◌else◌}

abbrev pub u8 : ℕ → ℕ
u8 n = n % 2 ^ 8

abbrev pub u16 : ℕ → ℕ
u16 n = n % 2 ^ 16

abbrev pub u32 : ℕ → ℕ
u32 n = n % 2 ^ 32

abbrev pub u64 : ℕ → ℕ
u64 n = n % 2 ^ 64

-- `a - b` and `-a` in `uint32_t`, and `a - b` in `uint64_t`.
abbrev pub sub32 : ℕ → ℕ → ℕ
sub32 a b = u32 (a + 2 ^ 32 - b)

abbrev pub sub64 : ℕ → ℕ → ℕ
sub64 a b = u64 (a + 2 ^ 64 - b)

-- The sign of an `int32_t`, held as its bit pattern.
abbrev pub is_neg32 : ℕ → Bool
is_neg32 d = if ltb d (2 ^ 31) then Bool.false else Bool.true

-- `static_cast<int64_t>` of an `int32_t`: the sign is carried into the upper half.
abbrev pub sign_extend64 : ℕ → ℕ
sign_extend64 d = if ltb d (2 ^ 31) then d else d + (2 ^ 64 - 2 ^ 32)

infixl 75 ◌<<<◌ ◌>>>◌
abbrev pub ◌<<<◌ : ℕ → ℕ → ℕ
x <<< k = x * 2 ^ k

abbrev pub ◌>>>◌ : ℕ → ℕ → ℕ
x >>> k = x / 2 ^ k

-- `(x & (1 << k)) != 0`.
abbrev pub test_bit : ℕ → ℕ → Bool
test_bit x k = (x / 2 ^ k) % 2 == 1

-- `x & ~m` on a byte, and `(x & m) != 0`.
abbrev pub clear8 : ℕ → ℕ → ℕ
clear8 x m = bit_and x (255 - m)

abbrev pub any_bit : ℕ → ℕ → Bool
any_bit x m = ltb 0 (bit_and x m)
