-- ===== src/Base/Digits.antt =====
-- The binary digits of the bit operations, and the tests of one bit of a byte.
use Prim.Native.Nat.{ℕ, zero, suc, ◌+◌, ◌*◌, ◌/◌, ◌%◌, ◌^◌, ◌≤◌, ◌<◌, min, bit_and, bit_or}
use Prim.Native.Nat.{bit_and-bitwise}
use mathlib.Core.Path.{◌≡◌, refl, ap, sym, ◌∙◌}
use mathlib.Core.Logic.{◌↔◌}
use mathlib.Core.Bool.{Bool, true, ◌&&◌}
use native.Mathlib.Nat.{pow-suc, div-div-eq-div-mul}
use native.Mathlib.Omega.{arith}
use x68k_stackchan.Base.Tests.{◌==◌, bool_eq, bool_eq-eq}
use x68k_stackchan.Base.Word.{any_bit}
use x68k_stackchan.Base.Bits.{all_below, all_below_sound, lowest, or_digit}

abbrev pub digit : ℕ → ℕ → ℕ
digit k x = x / 2 ^ k % 2

digit-half : (k x : ℕ) → digit (suc k) x ≡ digit k (x / 2)
digit-half k x =
    ap (λ (t : ℕ). t % 2)
      (ap (λ (t : ℕ). x / t) (omega (arith, pow-suc 2 k)) ∙ sym (div-div-eq-div-mul x 2 (2 ^ k)))

pub and_digit : (a b : ℕ) → bit_and a b ≡ bit_and (a / 2) (b / 2) * 2 + min (a % 2) (b % 2)
and_digit zero b = omega (arith, bit_and-bitwise 0 b, bit_and-bitwise 0 (b / 2))
and_digit (suc a) b =
    bit_and-bitwise (suc a) b
    ∙ lowest (λ y. 0) min (suc a) b (omega arith)
    ∙ ap (λ (high : ℕ). high * 2 + min (suc a % 2) (b % 2))
        (sym (bit_and-bitwise (suc a / 2) (b / 2)))

-- A digit of `&` is the lesser digit.
digit-and : (k a b : ℕ) → digit k (bit_and a b) ≡ min (digit k a) (digit k b)
digit-and zero a b = omega (arith, and_digit a b)
digit-and (suc k) a b =
    let half : bit_and a b / 2 ≡ bit_and (a / 2) (b / 2) = omega (arith, and_digit a b) in
    rw (digit-half k (bit_and a b), digit-half k a, digit-half k b, half)
      (digit-and k (a / 2) (b / 2))

and-le_fuel : (k a b : ℕ) → a ≤ k → bit_and a b ≤ a
and-le_fuel k zero b h = omega (arith, bit_and-bitwise 0 b)
and-le_fuel zero (suc a) b h = absurd (omega arith)
and-le_fuel (suc k) (suc a) b h =
    omega (arith, and_digit (suc a) b, and-le_fuel k (suc a / 2) (b / 2) (omega arith))

pub and-le : (a b : ℕ) → bit_and a b ≤ a
and-le a b = and-le_fuel a a b (omega arith)

and-le_right_fuel : (k a b : ℕ) → a ≤ k → bit_and a b ≤ b
and-le_right_fuel k zero b h = omega (arith, bit_and-bitwise 0 b)
and-le_right_fuel zero (suc a) b h = absurd (omega arith)
and-le_right_fuel (suc k) (suc a) b h =
    omega (arith, and_digit (suc a) b, and-le_right_fuel k (suc a / 2) (b / 2) (omega arith))

pub and-le_right : (a b : ℕ) → bit_and a b ≤ b
and-le_right a b = and-le_right_fuel a a b (omega arith)

or-le_fuel : (k a b : ℕ) → a ≤ k → b ≤ k → (a ≤ bit_or a b) × (b ≤ bit_or a b)
or-le_fuel zero zero zero p q = (omega arith, omega arith)
or-le_fuel zero (suc a) b p q = absurd (omega arith)
or-le_fuel zero zero (suc b) p q = absurd (omega arith)
or-le_fuel (suc k) a b p q =
    let rest = or-le_fuel k (a / 2) (b / 2) (omega arith) (omega arith) in
    (omega (arith, or_digit a b, rest.0), omega (arith, or_digit a b, rest.1))

pub or-le : (a b : ℕ) → (a ≤ bit_or a b) × (b ≤ bit_or a b)
or-le a b = or-le_fuel (a + b) a b (omega arith) (omega arith)

pub or-zero : (a b : ℕ) → (bit_or a b ≡ 0) ↔ ((a ≡ 0) × (b ≡ 0))
or-zero a b = (λ e. (omega (arith, or-le a b), omega (arith, or-le a b)), λ (p, q). rw (p, q) refl)

abbrev tested : ℕ → ℕ → Bool
tested i x = bool_eq (any_bit x (2 ^ i)) (digit i x == 1)

tested_table : all_below 8 (λ i. all_below 256 (tested i)) ≡ true
unfolding all_below
tested_table = refl

-- `(x & (1 << i)) != 0` of a byte is its binary digit.
pub any_bit-digit : (i x : ℕ) → i < 8 → x < 256 → any_bit x (2 ^ i) ≡ (digit i x == 1)
any_bit-digit i x p q =
    let row = all_below_sound 8 (λ i. all_below 256 (tested i)) i tested_table p in
    bool_eq-eq _ _ (all_below_sound 256 (tested i) x row q)

pub any_bit-and :
    (i x y : ℕ)
    → i < 8
    → x < 256
    → y < 256
    → any_bit (bit_and x y) (2 ^ i) ≡ (any_bit x (2 ^ i) && any_bit y (2 ^ i))
any_bit-and i x y p q r =
    rw
      (
        any_bit-digit i (bit_and x y) p (omega (arith, and-le x y)),
        any_bit-digit i x p q,
        any_bit-digit i y p r,
        digit-and i x y,
      )
      (least (digit i x) (digit i y) (omega arith) (omega arith))
  where
    least : (a b : ℕ) → a < 2 → b < 2 → (min a b == 1) ≡ ((a == 1) && (b == 1))
    least a b p q = ground arith
