-- ===== src/Alu.antt =====
-- src/x68k/core/cpu/m68k_alu.h: arithmetic and flags of the 68000.
pub mod AddSub
pub mod Divide
pub mod DivideSigned
pub mod Bcd
mod Tests
use x68k_stackchan.Base.{
  ℕ, zero, suc, ◌+◌, ◌-◌, ◌*◌, ◌/◌, ◌%◌, ◌^◌, Bool, true, false, ◌&&◌, ◌||◌, not, u32, sub32, ltb,
  leb, ◌==◌, bool_eq, if◌then◌else◌, test_bit, bit_or, bit_and, bit_xor, ◌>>>◌, ◌<<<◌,
}

-- Sizes are the byte counts 1, 2 and 4; any other value is treated as 4, as `truncate` does.
abbrev pub byte : ℕ
byte = 1

abbrev pub word : ℕ
word = 2

abbrev pub long : ℕ
long = 4

-- `value & 0xFF` and `value & 0xFFFF` are remainders.
unfoldable pub truncate : ℕ → ℕ → ℕ
truncate value size =
    if size == byte then value % 2 ^ 8 else if size == word then value % 2 ^ 16 else value

-- The number of `signBit`'s one bit; `isNegative` tests it.
abbrev pub sign_index : ℕ → ℕ
sign_index size = size * 8 - 1

unfoldable pub is_negative : ℕ → ℕ → Bool
is_negative value size = test_bit value (sign_index size)

pub record Result : Type 0 where
  pub value : ℕ
  pub n : Bool
  pub z : Bool
  pub v : Bool
  pub c : Bool

unfoldable pub add : ℕ → ℕ → ℕ → Result
unfolding truncate is_negative
add dst src size =
    let d = truncate dst size in
    let s = truncate src size in
    let r = truncate (u32 (d + s)) size in
    let sm = is_negative s size in
    let dm = is_negative d size in
    let rm = is_negative r size in
    record {
      value = r;
      n = rm;
      z = r == 0;
      v = bool_eq sm dm && not (bool_eq rm dm);
      c = ltb (truncate 0xFFFF_FFFF size) (d + s);
    }

unfoldable pub sub : ℕ → ℕ → ℕ → Result
unfolding truncate is_negative
sub dst src size =
    let d = truncate dst size in
    let s = truncate src size in
    let r = truncate (sub32 d s) size in
    let sm = is_negative s size in
    let dm = is_negative d size in
    let rm = is_negative r size in
    record {
      value = r;
      n = rm;
      z = r == 0;
      v = not (bool_eq sm dm) && not (bool_eq rm dm);
      c = ltb d s;
    }

unfoldable pub accumulate_zero : Bool → Bool → Bool
accumulate_zero previous_z result_is_zero = previous_z && result_is_zero

pub record DivResult : Type 0 where
  pub quotient : ℕ
  pub remainder : ℕ
  pub overflow : Bool
  pub n : Bool
  pub z : Bool

-- The division loop that both routines share, with `i` bits to go: a shift, the next bit of the
-- dividend, and a subtraction where it fits. The pair is `remainder` and `quotient`.
unfoldable pub long_division : ℕ → ℕ → ℕ → ℕ → ℕ → ℕ × ℕ
long_division dividend d zero remainder quotient = (remainder, quotient)
long_division dividend d (suc i) remainder quotient =
    let shifted = bit_or (u32 (remainder <<< 1)) ((dividend >>> i) % 2) in
    let fits = leb d shifted in
    long_division dividend d i (if fits then shifted - d else shifted)
      (if fits then bit_or quotient (2 ^ i) else quotient)

abbrev pub overflowed : DivResult
overflowed = record { quotient = 0; remainder = 0; overflow = true; n = true; z = false }

abbrev pub divided : ℕ → ℕ → DivResult
divided quotient remainder = record {
  quotient = quotient % 2 ^ 16;
  remainder = remainder % 2 ^ 16;
  overflow = false;
  n = test_bit (quotient % 2 ^ 16) 15;
  z = quotient % 2 ^ 16 == 0;
}

unfoldable pub divide_unsigned : ℕ → ℕ → DivResult
divide_unsigned dividend divisor =
    let d = divisor % 2 ^ 16 in
    let (remainder, quotient) = long_division dividend d 16 (dividend >>> 16) 0 in
    if leb d (dividend >>> 16) then overflowed else divided quotient remainder

-- The part of `divideSigned` after the signs and the absolute values are taken.
unfoldable pub divide_magnitudes : Bool → Bool → ℕ → ℕ → DivResult
divide_magnitudes dividend_negative divisor_negative abs_dividend abs_divisor =
    let quotient_negative = not (bool_eq dividend_negative divisor_negative) in
    let (remainder, quotient) = long_division abs_dividend abs_divisor 16 (abs_dividend >>> 16) 0 in
    let abs_overflow = if quotient_negative then ltb 0x8000 quotient else ltb 0x7FFF quotient in
    let signed_quotient = if quotient_negative then sub32 0 quotient else quotient in
    let signed_remainder = if dividend_negative then sub32 0 remainder else remainder in
    if leb abs_divisor (abs_dividend >>> 16)
    then overflowed
    else if abs_overflow
    then overflowed
    else divided signed_quotient signed_remainder

unfoldable pub divide_signed : ℕ → ℕ → DivResult
divide_signed dividend divisor =
    let dividend_negative = test_bit dividend 31 in
    let divisor_negative = test_bit divisor 15 in
    divide_magnitudes dividend_negative divisor_negative
      (if dividend_negative then sub32 0 dividend else dividend)
      (if divisor_negative then sub32 0 divisor % 2 ^ 16 else divisor % 2 ^ 16)

abbrev pub bit : Bool → ℕ
bit b = if b then 1 else 0

-- `binary` is not cut to eight bits; the bit 4 of `d ^ s ^ binary` is the carry out of the low digit.
unfoldable pub bcd_add : ℕ → ℕ → Bool → Result
bcd_add dst src extend =
    let d = dst % 2 ^ 8 in
    let s = src % 2 ^ 8 in
    let binary = d + s + bit extend in
    let low_needs_carry = test_bit (bit_xor (bit_xor d s) binary) 4 || ltb 9 (binary % 16) in
    let low = if low_needs_carry then binary + 6 else binary in
    let high_needs_carry = ltb 0x9F low in
    let corrected = if high_needs_carry then low + 0x60 else low in
    record {
      value = corrected % 2 ^ 8;
      n = test_bit corrected 7;
      z = corrected % 2 ^ 8 == 0;
      v = not (test_bit binary 7) && test_bit corrected 7;
      c = high_needs_carry;
    }

unfoldable pub bcd_sub : ℕ → ℕ → Bool → Result
bcd_sub dst src extend =
    let d = dst % 2 ^ 8 in
    let s = src % 2 ^ 8 in
    let binary = sub32 (sub32 d s) (bit extend) in
    let low_borrowed = test_bit (bit_xor (bit_xor d s) binary) 4 in
    let low = if low_borrowed then sub32 binary 6 else binary in
    let binary_borrowed = test_bit binary 8 in
    let corrected = if binary_borrowed then sub32 low 0x60 else low in
    record {
      value = corrected % 2 ^ 8;
      n = test_bit corrected 7;
      z = corrected % 2 ^ 8 == 0;
      v = test_bit binary 7 && not (test_bit corrected 7);
      c = binary_borrowed || test_bit corrected 8;
    }

-- ABCD and SBCD in `execBcdAddSub`, from the operands to the flags: Z accumulates, with `previous_z`
-- the Z of before.
unfoldable pub bcd_add_sub : Bool → Bool → ℕ → ℕ → Bool → Result
bcd_add_sub is_add previous_z dst src extend =
    let r = if is_add then bcd_add dst src extend else bcd_sub dst src extend in
    record r { z = accumulate_zero previous_z (r.value == 0) }
