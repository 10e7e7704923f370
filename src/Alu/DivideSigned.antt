-- ===== src/Alu/DivideSigned.antt =====
-- DIVS: signed division by way of the magnitudes.
use native.Mathlib.Nat.{le-div_iff_mul-le, mod-lt, div-add-mod}
use x68k_stackchan.Base.{
  ℕ, ◌+◌, ◌-◌, ◌*◌, ◌/◌, ◌%◌, ◌^◌, ◌≤◌, ◌<◌, ◌≡◌, ◌∙◌, ap, sym, ◌↔◌, inl, inr, Bool, true, false,
  arith, ltb, leb, if◌then◌else◌, refl, sub32, test_bit, not, bool_eq, Bool-cases, leb→le,
  leb-false,
}
use x68k_stackchan.Base.Int.{◌+ℤ◌, ◌*ℤ◌, of_sign, of_sign-mul, of_sign-add, magnitude}
use x68k_stackchan.Alu.{
  DivResult, long_division, divide_magnitudes, divide_signed, overflowed, divided,
}
use x68k_stackchan.Alu.AddSub.{signed}
use x68k_stackchan.Alu.Divide.{division}

-- The absolute value, as the code takes it.
abbrev abs32 : ℕ → ℕ
abs32 x = if test_bit x 31 then sub32 0 x else x

abbrev abs16 : ℕ → ℕ
abs16 d = if test_bit d 15 then sub32 0 d % 2 ^ 16 else d % 2 ^ 16

abbrev opposite : ℕ → ℕ → Bool
opposite x d = not (bool_eq (test_bit x 31) (test_bit d 15))

-- The greatest magnitude of a 16-bit number with that sign.
abbrev room : Bool → ℕ
room s = if s then 2 ^ 15 else 2 ^ 15 - 1

signed32-abs : (x : ℕ) → x < 2 ^ 32 → signed (2 ^ 32) x ≡ of_sign (test_bit x 31) (abs32 x)
signed32-abs x h = ground arith

signed16-abs :
    (d : ℕ) → d < 2 ^ 32 → signed (2 ^ 16) (d % 2 ^ 16) ≡ of_sign (test_bit d 15) (abs16 d)
signed16-abs d h = ground arith

signed_pattern :
    (s : Bool) (n : ℕ)
    → n ≤ room s
    → signed (2 ^ 16) ((if s then sub32 0 n else n) % 2 ^ 16) ≡ of_sign s n
signed_pattern s n h = ground arith

abs_facts :
    (x d : ℕ)
    → x < 2 ^ 32
    → d < 2 ^ 32
    → (abs32 x ≤ 2 ^ 31) × (abs16 d ≤ 2 ^ 15) × (0 < d % 2 ^ 16 → 0 < abs16 d)
abs_facts x d h k = ground arith

room-le : (s : Bool) → room s ≤ 2 ^ 15
room-le s = ground arith

room_test :
    (s : Bool) (q : ℕ)
    → ((if s then ltb 0x8000 q else ltb 0x7FFF q) ≡ true → room s < q)
      × ((if s then ltb 0x8000 q else ltb 0x7FFF q) ≡ false → q ≤ room s)
room_test s q = (λ e. ground arith, λ e. ground arith)

of_sign-magnitude : (s : Bool) (n : ℕ) → magnitude (of_sign s n) ≡ n
of_sign-magnitude s n = ground arith

magnitude-lt : (s t : Bool) {m n : ℕ} → m < n → magnitude (of_sign s m) < magnitude (of_sign t n)
magnitude-lt s t h = ground arith

sign_back : (s t : Bool) → not (bool_eq t (not (bool_eq s t))) ≡ s
sign_back s t = ground arith

-- The magnitudes' part: an overflow exactly when the quotient has no room, else the quotient and
-- remainder of the magnitudes with their signs put back.
record IsSignedDivision (sx sd : Bool) (a e : ℕ) (out : DivResult) : Type 0 where
  overflow_iff : (out.overflow ≡ true) ↔ (room (not (bool_eq sx sd)) < a / e)
  quotient :
      out.overflow ≡ false → signed (2 ^ 16) out.quotient ≡ of_sign (not (bool_eq sx sd)) (a / e)
  remainder : out.overflow ≡ false → signed (2 ^ 16) out.remainder ≡ of_sign sx (a % e)
  flags : out.overflow ≡ true → (out.n ≡ true) × (out.z ≡ false)

module _ (sx sd : Bool) (a e : ℕ) (ha : a ≤ 2 ^ 31) (pe : 0 < e) (he : e ≤ 2 ^ 15) where
  abbrev minus : Bool
  minus = not (bool_eq sx sd)

  no_room : room minus < a / e → IsSignedDivision sx sd a e overflowed
  no_room p = record {
    overflow_iff = (λ _. p, λ _. refl);
    quotient = λ e. cc;
    remainder = λ e. cc;
    flags = λ _. (refl, refl);
  }

  fits :
      (q r : ℕ)
      → q ≡ a / e
      → r ≡ a % e
      → q ≤ room minus
      → IsSignedDivision sx sd a e
          (divided (if minus then sub32 0 q else q) (if sx then sub32 0 r else r))
  fits q r eq er p = record {
    overflow_iff = (λ e. cc, λ k. absurd (omega arith));
    quotient = λ _. signed_pattern minus q p ∙ ap (of_sign minus) eq;
    remainder = λ _. signed_pattern sx r (low sx (omega (arith, mod-lt a pe))) ∙ ap (of_sign sx) er;
    flags = λ e. cc;
  }
    where
      low : (s : Bool) → r < 2 ^ 15 → r ≤ room s
      low s h = ground arith

  divide_magnitudes-IsSignedDivision : IsSignedDivision sx sd a e (divide_magnitudes sx sd a e)
  unfolding divide_magnitudes
  divide_magnitudes-IsSignedDivision = elim (Bool-cases (leb e (a / 2 ^ 16))) [
    | inl o ↦ rw o (no_room (far o))
    | inr o ↦ rw o (elim (Bool-cases (if minus then ltb 0x8000 q else ltb 0x7FFF q)) [
      | inl k ↦ rw k (no_room (past (both o).0 ((room_test minus q).0 k)))
      | inr k ↦ rw k (fits q r (both o).0 (both o).1 ((room_test minus q).1 k))
    ])
  ]
    where
      q : ℕ
      q = (long_division a e 16 (a / 2 ^ 16) 0).1

      r : ℕ
      r = (long_division a e 16 (a / 2 ^ 16) 0).0

      far : leb e (a / 2 ^ 16) ≡ true → room minus < a / e
      far o =
          let big : 2 ^ 16 ≤ a / e =
            (le-div_iff_mul-le {k = e} {x = 2 ^ 16} {y = a} pe).1
              (omega (arith, leb→le e (a / 2 ^ 16) o)) in
          omega (arith, room-le minus)

      past : q ≡ a / e → room minus < q → room minus < a / e
      past e l = omega arith

      both : leb e (a / 2 ^ 16) ≡ false → (q ≡ a / e) × (r ≡ a % e)
      both o = division a e pe (omega arith) (omega arith) (leb-false e (a / 2 ^ 16) o)

-- What DIVS gives: the quotient truncated towards 0 with the remainder that goes with it, and an
-- overflow exactly when that quotient is no 16-bit number.
pub record IsDivS (x d : ℕ) (out : DivResult) : Type 0 where
  pub overflow_iff : (out.overflow ≡ true) ↔ (room (opposite x d) < abs32 x / abs16 d)
  pub identity :
      out.overflow ≡ false
      → signed (2 ^ 32) x
        ≡ signed (2 ^ 16) (d % 2 ^ 16) *ℤ signed (2 ^ 16) out.quotient
          +ℤ signed (2 ^ 16) out.remainder
  pub small :
      out.overflow ≡ false
      → magnitude (signed (2 ^ 16) out.remainder) < magnitude (signed (2 ^ 16) (d % 2 ^ 16))
  pub same_sign :
      out.overflow ≡ false
      → signed (2 ^ 16) out.remainder
        ≡ of_sign (test_bit x 31) (magnitude (signed (2 ^ 16) out.remainder))
  pub flags : out.overflow ≡ true → (out.n ≡ true) × (out.z ≡ false)

-- For a 32-bit dividend and a divisor whose low 16 bits are not 0, read as two's complement
-- numbers, `divide_signed` sets `overflow` exactly when the quotient of the magnitudes has no room
-- in 16 bits with its sign (2 ^ 15 if negative, one less if positive), with N set and Z clear;
-- otherwise the dividend is the divisor times the quotient plus the remainder, the remainder is
-- smaller than the divisor in magnitude, and it has the sign of the dividend.
pub divide_signed-IsDivS :
    (x d : ℕ) → x < 2 ^ 32 → d < 2 ^ 32 → 0 < d % 2 ^ 16 → IsDivS x d (divide_signed x d)
unfolding divide_signed
divide_signed-IsDivS x d h k p = record {
  overflow_iff = core.overflow_iff;
  identity = λ e.
      rw (signed32-abs x h, signed16-abs d k, core.quotient e, core.remainder e, of_sign-mul)
        (rw (sign_back sx sd, of_sign-add) (ap (of_sign sx) whole));
  small = λ e.
      rw (signed16-abs d k, core.remainder e)
        (magnitude-lt sx sd (mod-lt (abs32 x) ((abs_facts x d h k).2 p)));
  same_sign =
      λ e. rw (core.remainder e) (sym (ap (of_sign sx) (of_sign-magnitude sx (abs32 x % abs16 d))));
  flags = core.flags;
}
  where
    sx : Bool
    sx = test_bit x 31

    sd : Bool
    sd = test_bit d 15

    core : IsSignedDivision sx sd (abs32 x) (abs16 d) (divide_magnitudes sx sd (abs32 x) (abs16 d))
    core =
        divide_magnitudes-IsSignedDivision sx sd (abs32 x) (abs16 d) (abs_facts x d h k).0
          ((abs_facts x d h k).2 p) (abs_facts x d h k).1

    whole : abs32 x ≡ abs16 d * (abs32 x / abs16 d) + abs32 x % abs16 d
    whole = sym (div-add-mod (abs32 x) (abs16 d))
