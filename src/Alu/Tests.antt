-- ===== src/Alu/Tests.antt =====
-- The arithmetic at concrete operands.
use x68k_stackchan.Base.{◌+◌, ◌-◌, ◌%◌, ◌^◌, ◌≤◌, ◌≡◌, refl, true, false, arith, ◌<◌}
use x68k_stackchan.Base.Int.{◌+ℤ◌}
use x68k_stackchan.Alu.{
  truncate, is_negative, long_division, divide_magnitudes, add, divide_unsigned, divide_signed,
  bcd_add_sub, bit,
}
use x68k_stackchan.Alu.AddSub.{IsResult, signed, byte_size, add-IsResult}
use x68k_stackchan.Alu.Divide.{IsDivU, divide_unsigned-IsDivU}
use x68k_stackchan.Alu.DivideSigned.{IsDivS, divide_signed-IsDivS}
use x68k_stackchan.Alu.Bcd.{IsDecimal, packed, bcd_add_sub-IsDecimal}

add_overflows : (add 0x7F 1 1).v ≡ true
unfolding add truncate is_negative
add_overflows = refl

divide_seven : (divide_unsigned 100 7).quotient ≡ 14
unfolding divide_unsigned long_division
divide_seven = refl

-- -100 by 7 is -14 with the remainder -2.
divide_negative : (divide_signed (2 ^ 32 - 100) 7).remainder ≡ 2 ^ 16 - 2
unfolding divide_signed divide_magnitudes long_division
divide_negative = refl

add-IsResult_example :
    IsResult
      (2 ^ 8)
      ((0x17F % 2 ^ 8 + 1 % 2 ^ 8) % 2 ^ 8)
      (2 ^ 8 ≤ 0x17F % 2 ^ 8 + 1 % 2 ^ 8)
      (signed (2 ^ 8) (0x17F % 2 ^ 8) +ℤ signed (2 ^ 8) (1 % 2 ^ 8))
      (add 0x17F 1 1)
add-IsResult_example = add-IsResult 0x17F 1 byte_size (omega arith) (omega arith)

divide_unsigned-IsDivU_example : IsDivU 100 (7 % 2 ^ 16) (divide_unsigned 100 7)
divide_unsigned-IsDivU_example = divide_unsigned-IsDivU 100 7 (omega arith) (omega arith)

divide_signed-IsDivS_example : IsDivS (2 ^ 32 - 100) 7 (divide_signed (2 ^ 32 - 100) 7)
divide_signed-IsDivS_example =
    divide_signed-IsDivS (2 ^ 32 - 100) 7 (omega arith) (omega arith) (omega arith)

bcd_add_sub-IsDecimal_example :
    IsDecimal false
      ((42 + 58 + bit false) % 100)
      (100 ≤ 42 + 58 + bit false)
      (bcd_add_sub true false (packed 42) (packed 58) false)
    × IsDecimal false
        ((42 + 100 - 58 - bit false) % 100)
        (42 < 58 + bit false)
        (bcd_add_sub false false (packed 42) (packed 58) false)
bcd_add_sub-IsDecimal_example = bcd_add_sub-IsDecimal false false 42 58 (omega arith) (omega arith)
