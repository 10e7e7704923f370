-- ===== src/Alu/AddSub.antt =====
-- `add` and `sub` against integer arithmetic: the value wraps, C is the unsigned and V the signed
-- overflow.
use x68k_stackchan.Base.{
  ℕ, ◌+◌, ◌-◌, ◌/◌, ◌%◌, ◌^◌, ◌≤◌, ◌<◌, ◌≡◌, ◌↔◌, true, false, arith, ltb, if◌then◌else◌,
}
use x68k_stackchan.Base.Int.{ℤ, pos, negsuc, ◌+ℤ◌, ◌-ℤ◌, ◌≤ℤ◌}
use x68k_stackchan.Alu.{Result, add, sub}

-- The operand sizes of the 68000, with the number of values of each.
pub data IsSize : ℕ → ℕ → Type 0 where
  byte_size : IsSize 1 (2 ^ 8)
  word_size : IsSize 2 (2 ^ 16)
  long_size : IsSize 4 (2 ^ 32)

-- A pattern below `m` as a two's complement number.
abbrev pub signed : ℕ → ℕ → ℤ
signed m x = if ltb x (m / 2) then pos x else negsuc (m - x - 1)

abbrev pub InRange : ℕ → ℤ → Type 0
InRange m x = (negsuc (m / 2 - 1) ≤ℤ x) × (x ≤ℤ pos (m / 2 - 1))

-- What an operation on `a` and `b` returns when `total` is the unsigned and `exact` the signed
-- result.
pub record IsResult (m wrapped : ℕ) (carry : Type 0) (exact : ℤ) (r : Result) : Type 0 where
  pub value : r.value ≡ wrapped
  pub zero_flag : (r.z ≡ true) ↔ (wrapped ≡ 0)
  pub negative : (r.n ≡ true) ↔ (m / 2 ≤ wrapped)
  pub carry_flag : (r.c ≡ true) ↔ carry
  pub no_overflow : (r.v ≡ false) ↔ (signed m wrapped ≡ exact)
  pub overflow : (r.v ≡ false) ↔ InRange m exact

add_byte :
    (a b : ℕ)
    → a < 2 ^ 8
    → b < 2 ^ 8
    → IsResult
        (2 ^ 8)
        ((a + b) % (2 ^ 8))
        (2 ^ 8 ≤ a + b)
        (signed (2 ^ 8) a +ℤ signed (2 ^ 8) b)
        (add a b 1)
unfolding add ◌+ℤ◌
add_byte a b p q = ground arith

add_word :
    (a b : ℕ)
    → a < 2 ^ 16
    → b < 2 ^ 16
    → IsResult
        (2 ^ 16)
        ((a + b) % (2 ^ 16))
        (2 ^ 16 ≤ a + b)
        (signed (2 ^ 16) a +ℤ signed (2 ^ 16) b)
        (add a b 2)
unfolding add ◌+ℤ◌
add_word a b p q = ground arith

add_long :
    (a b : ℕ)
    → a < 2 ^ 32
    → b < 2 ^ 32
    → IsResult
        (2 ^ 32)
        ((a + b) % (2 ^ 32))
        (2 ^ 32 ≤ a + b)
        (signed (2 ^ 32) a +ℤ signed (2 ^ 32) b)
        (add a b 4)
unfolding add ◌+ℤ◌
add_long a b p q = ground arith

sub_byte :
    (a b : ℕ)
    → a < 2 ^ 8
    → b < 2 ^ 8
    → IsResult
        (2 ^ 8)
        ((a + (2 ^ 8) - b) % (2 ^ 8))
        (a < b)
        (signed (2 ^ 8) a -ℤ signed (2 ^ 8) b)
        (sub a b 1)
unfolding sub ◌-ℤ◌
sub_byte a b p q = ground arith

sub_word :
    (a b : ℕ)
    → a < 2 ^ 16
    → b < 2 ^ 16
    → IsResult
        (2 ^ 16)
        ((a + (2 ^ 16) - b) % (2 ^ 16))
        (a < b)
        (signed (2 ^ 16) a -ℤ signed (2 ^ 16) b)
        (sub a b 2)
unfolding sub ◌-ℤ◌
sub_word a b p q = ground arith

sub_long :
    (a b : ℕ)
    → a < 2 ^ 32
    → b < 2 ^ 32
    → IsResult
        (2 ^ 32)
        ((a + (2 ^ 32) - b) % (2 ^ 32))
        (a < b)
        (signed (2 ^ 32) a -ℤ signed (2 ^ 32) b)
        (sub a b 4)
unfolding sub ◌-ℤ◌
sub_long a b p q = ground arith

-- Only the low bytes of the operands count.
operands :
    {size m : ℕ} (a b : ℕ)
    → IsSize size m
    → a < 2 ^ 32
    → b < 2 ^ 32
    → (add a b size ≡ add (a % m) (b % m) size) × (sub a b size ≡ sub (a % m) (b % m) size)
unfolding add sub
operands a b byte_size p q =
    let x : a % 2 ^ 8 % 2 ^ 8 ≡ a % 2 ^ 8 = omega arith in
    let y : b % 2 ^ 8 % 2 ^ 8 ≡ b % 2 ^ 8 = omega arith in (rw (x, y), rw (x, y))
operands a b word_size p q =
    let x : a % 2 ^ 16 % 2 ^ 16 ≡ a % 2 ^ 16 = omega arith in
    let y : b % 2 ^ 16 % 2 ^ 16 ≡ b % 2 ^ 16 = omega arith in (rw (x, y), rw (x, y))
operands a b long_size p q =
    let x : a % 2 ^ 32 ≡ a = omega arith in
    let y : b % 2 ^ 32 ≡ b = omega arith in (rw (x, y), rw (x, y))

-- For a size of 1, 2 or 4 bytes (with `m` values) and any 32-bit operands, of which the low bytes
-- count, `add` returns the sum modulo `m`; Z and N are the zero and the sign of that value, C says
-- that the unsigned sum does not fit, and V is clear exactly when the value, read as a two's
-- complement number, is the sum of the operands so read, which is exactly when that sum fits.
pub add-IsResult :
    {size m : ℕ} (a b : ℕ)
    → IsSize size m
    → a < 2 ^ 32
    → b < 2 ^ 32
    → IsResult m
        ((a % m + b % m) % m)
        (m ≤ a % m + b % m)
        (signed m (a % m) +ℤ signed m (b % m))
        (add a b size)
add-IsResult a b byte_size p q =
    rw ((operands a b byte_size p q).0)
      (add_byte (a % 2 ^ 8) (b % 2 ^ 8) (omega arith) (omega arith))
add-IsResult a b word_size p q =
    rw ((operands a b word_size p q).0)
      (add_word (a % 2 ^ 16) (b % 2 ^ 16) (omega arith) (omega arith))
add-IsResult a b long_size p q =
    rw ((operands a b long_size p q).0)
      (add_long (a % 2 ^ 32) (b % 2 ^ 32) (omega arith) (omega arith))

-- Under the same conditions `sub` returns the difference modulo `m`; C says that the subtrahend is
-- the larger as unsigned numbers, and Z, N and V are as for `add`, with the difference for the sum.
pub sub-IsResult :
    {size m : ℕ} (a b : ℕ)
    → IsSize size m
    → a < 2 ^ 32
    → b < 2 ^ 32
    → IsResult m
        ((a % m + m - b % m) % m)
        (a % m < b % m)
        (signed m (a % m) -ℤ signed m (b % m))
        (sub a b size)
sub-IsResult a b byte_size p q =
    rw ((operands a b byte_size p q).1)
      (sub_byte (a % 2 ^ 8) (b % 2 ^ 8) (omega arith) (omega arith))
sub-IsResult a b word_size p q =
    rw ((operands a b word_size p q).1)
      (sub_word (a % 2 ^ 16) (b % 2 ^ 16) (omega arith) (omega arith))
sub-IsResult a b long_size p q =
    rw ((operands a b long_size p q).1)
      (sub_long (a % 2 ^ 32) (b % 2 ^ 32) (omega arith) (omega arith))
