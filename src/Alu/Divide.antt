-- ===== src/Alu/Divide.antt =====
-- DIVU and DIVS: the shift-and-subtract loop computes quotient and remainder.
use native.Mathlib.Nat.{
  pow-suc, one-le-pow, div-div-eq-div-mul, div-eq_of_lt-le, div-add-mod', le-div_iff_mul-le,
  div-lt_iff_lt-mul, mod-lt,
}
use x68k_stackchan.Base.{
  ℕ, zero, suc, ◌+◌, ◌-◌, ◌*◌, ◌/◌, ◌%◌, ◌^◌, ◌≤◌, ◌<◌, ◌≡◌, ◌↔◌, true, false, arith, leb, ap, refl,
  sym, bit_or, ◌>>>◌, ◌<<<◌, u32, Bool-cases, inl, inr, leb→le, leb-false,
}
use x68k_stackchan.Base.Bits.{bit_or_disjoint}
use x68k_stackchan.Alu.{DivResult, long_division, divide_unsigned, overflowed, divided}

-- The loop's result, read as the quotient and remainder of `x` by `d`.
pub record Quotient (x d : ℕ) (p : ℕ × ℕ) : Type 0 where
  pub product : x ≡ p.1 * d + p.0
  pub small : p.0 < d

shift_once : (x k : ℕ) → x / 2 ^ k ≡ 2 * (x / 2 ^ suc k) + x / 2 ^ k % 2
shift_once x k = omega (arith, div-div-eq-div-mul x (2 ^ k) 2, ap (λ (t : ℕ). x / t) (pow-suc 2 k))

-- One turn of the loop.
module _ (x d i r q : ℕ) (dl : d < 2 ^ 16) (rd : r < d) (e : x / 2 ^ suc i ≡ q * d + r) where
  abbrev shifted : ℕ
  shifted = bit_or (u32 (r <<< 1)) ((x >>> i) % 2)

  shifted_sum : shifted ≡ 2 * r + x / 2 ^ i % 2
  shifted_sum =
      let low : u32 (r <<< 1) ≡ r * 2 ^ 1 = omega arith in
      rw low (omega (arith, bit_or_disjoint 1 r (x / 2 ^ i % 2) (omega arith)))

  prefix : x / 2 ^ i ≡ 2 * q * d + shifted
  prefix = grind (arith, shift_once x i, shifted_sum, ap (λ (t : ℕ). 2 * t) e)

  no_bit : q * 2 ^ suc i ≡ (2 * q) * 2 ^ i
  no_bit = grind (arith, ap (λ (t : ℕ). q * t) (pow-suc 2 i))

  low_bit : bit_or (q * 2 ^ suc i) (2 ^ i) ≡ (2 * q + 1) * 2 ^ i
  low_bit =
      rw (bit_or_disjoint (suc i) q (2 ^ i) (omega (arith, pow-suc 2 i, one-le-pow i 2)))
        (grind (arith, no_bit))

pub long_division-Quotient :
    (x d : ℕ) (i r q : ℕ)
    → d < 2 ^ 16
    → r < d
    → x / 2 ^ i ≡ q * d + r
    → Quotient x d (long_division x d i r (q * 2 ^ i))
unfolding long_division
long_division-Quotient x d zero r q dl rd e = record { product = omega arith; small = rd }
long_division-Quotient x d (suc i) r q dl rd e =
    elim (Bool-cases (leb d (shifted x d i r q dl rd e))) [
      | inl f ↦ rw f (
          rw (low_bit x d i r q dl rd e) (
            long_division-Quotient x d i (shifted x d i r q dl rd e - d) (2 * q + 1) dl
              (omega (arith, sum, leb→le d (shifted x d i r q dl rd e) f))
              (omega (arith, pre, leb→le d (shifted x d i r q dl rd e) f))))
      | inr f ↦ rw f (
          rw (no_bit x d i r q dl rd e) (
            long_division-Quotient x d i (shifted x d i r q dl rd e) (2 * q) dl
              (leb-false d (shifted x d i r q dl rd e) f) pre))
    ]
  where
    sum : shifted x d i r q dl rd e ≡ 2 * r + x / 2 ^ i % 2
    sum = shifted_sum x d i r q dl rd e

    pre : x / 2 ^ i ≡ 2 * q * d + shifted x d i r q dl rd e
    pre = prefix x d i r q dl rd e

-- Quotient and remainder are the only ones.
Quotient-unique : (x d : ℕ) (p : ℕ × ℕ) → Quotient x d p → (p.1 ≡ x / d) × (p.0 ≡ x % d)
Quotient-unique x d (r, q) v =
    let quo : x / d ≡ q =
      div-eq_of_lt-le {k = q} d (omega (arith, v.product)) (omega (arith, v.product, v.small)) in
    (sym quo, omega (arith, v.product, div-add-mod' x d, ap (λ (t : ℕ). t * d) quo))

-- The part of both routines below the test for overflow.
pub division :
    (x d : ℕ)
    → 0 < d
    → d < 2 ^ 16
    → x < 2 ^ 32
    → x / 2 ^ 16 < d
    → ((long_division x d 16 (x / 2 ^ 16) 0).1 ≡ x / d)
      × ((long_division x d 16 (x / 2 ^ 16) 0).0 ≡ x % d)
division x d h k l m =
    Quotient-unique x d (long_division x d 16 (x / 2 ^ 16) 0)
      (long_division-Quotient x d 16 (x / 2 ^ 16) 0 k m (omega arith))

-- What DIVU gives for `x` by `d`: an overflow exactly when the quotient needs more than 16 bits,
-- and otherwise quotient and remainder, with N and Z of the quotient as a 16-bit number.
pub record IsDivU (x d : ℕ) (out : DivResult) : Type 0 where
  pub overflow_iff : (out.overflow ≡ true) ↔ (2 ^ 16 ≤ x / d)
  pub quotient : out.overflow ≡ false → out.quotient ≡ x / d
  pub remainder : out.overflow ≡ false → out.remainder ≡ x % d
  pub negative : out.overflow ≡ false → (out.n ≡ true) ↔ (2 ^ 15 ≤ x / d)
  pub zero_flag : out.overflow ≡ false → (out.z ≡ true) ↔ (x / d ≡ 0)
  pub flags : out.overflow ≡ true → (out.n ≡ true) × (out.z ≡ false)

-- For a 32-bit dividend and a divisor whose low 16 bits are not 0, the loop of shifts and
-- subtractions computes the integer quotient and remainder by those 16 bits, and `overflow` is set
-- exactly when the quotient does not fit 16 bits, with N set and Z clear.
pub divide_unsigned-IsDivU :
    (x divisor : ℕ)
    → x < 2 ^ 32
    → 0 < divisor % 2 ^ 16
    → IsDivU x (divisor % 2 ^ 16) (divide_unsigned x divisor)
unfolding divide_unsigned
divide_unsigned-IsDivU x divisor h k =
    let d = divisor % 2 ^ 16 in
    elim (Bool-cases (leb d (x / 2 ^ 16))) [
      | inl e ↦ rw e (
          over (
            (le-div_iff_mul-le {k = d} {x = 2 ^ 16} {y = x} k).1
              (omega (arith, leb→le d (x / 2 ^ 16) e))))
      | inr e ↦ rw e (fits (leb-false d (x / 2 ^ 16) e))
    ]
  where
    over : 2 ^ 16 ≤ x / (divisor % 2 ^ 16) → IsDivU x (divisor % 2 ^ 16) overflowed
    over p = record {
      overflow_iff = (λ _. p, λ _. refl);
      quotient = λ e. cc;
      remainder = λ e. cc;
      negative = λ e. cc;
      zero_flag = λ e. cc;
      flags = λ _. (refl, refl);
    }

    fits :
        x / 2 ^ 16 < divisor % 2 ^ 16
        → IsDivU x
            (divisor % 2 ^ 16)
            (let (r, q) = long_division x (divisor % 2 ^ 16) 16 (x / 2 ^ 16) 0 in divided q r)
    fits p =
        let d = divisor % 2 ^ 16 in
        let both = division x d k (omega arith) h p in
        let q = (long_division x d 16 (x / 2 ^ 16) 0).1 in
        let below : x / d < 2 ^ 16 =
          (div-lt_iff_lt-mul {k = d} {x = x} {y = 2 ^ 16} k).1 (omega arith) in
        let small : q < 2 ^ 16 = omega arith in
        let left : (long_division x d 16 (x / 2 ^ 16) 0).0 < 2 ^ 16 = omega (arith, mod-lt x k) in
        record {
          overflow_iff = ground arith;
          quotient = λ _. omega arith;
          remainder = λ _. omega arith;
          negative = λ _. ground arith;
          zero_flag = λ _. ground arith;
          flags = λ e. cc;
        }
