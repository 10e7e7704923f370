-- ===== src/Alu/Bcd.antt =====
-- ABCD and SBCD on packed decimal operands, checked over all of them.
use x68k_stackchan.Base.{
  ℕ, ◌+◌, ◌-◌, ◌*◌, ◌/◌, ◌%◌, ◌≤◌, ◌<◌, ◌≡◌, ◌↔◌, refl, Bool, true, false, ◌&&◌, arith, ltb, leb,
  ◌==◌, bool_eq,
}
use x68k_stackchan.Base.Bits.{all_below, all_below_sound}
use x68k_stackchan.Alu.{Result, bit, accumulate_zero, bcd_add, bcd_sub, bcd_add_sub}

-- The packed form of a number below 100.
abbrev pub packed : ℕ → ℕ
packed m = m / 10 * 16 + m % 10

adds : Bool → ℕ → ℕ → Bool
adds x m n =
    let r = bcd_add (packed m) (packed n) x in
    let total = m + n + bit x in
    r.value == packed (total % 100)
    && bool_eq r.c (leb 100 total)
    && bool_eq (r.value == 0) (total % 100 == 0)

subtracts : Bool → ℕ → ℕ → Bool
subtracts x m n =
    let r = bcd_sub (packed m) (packed n) x in
    let rest = m + 100 - n - bit x in
    r.value == packed (rest % 100)
    && bool_eq r.c (ltb m (n + bit x))
    && bool_eq (r.value == 0) (rest % 100 == 0)

add_table : (x : Bool) → all_below 100 (λ m. all_below 100 (adds x m)) ≡ true
unfolding all_below adds bcd_add
add_table true = refl
add_table false = refl

subtract_table : (x : Bool) → all_below 100 (λ m. all_below 100 (subtracts x m)) ≡ true
unfolding all_below subtracts bcd_sub
subtract_table true = refl
subtract_table false = refl

-- A decimal result: the packed form of a two-digit value, the carry or borrow, and Z, which stays
-- clear where it was clear.
pub record IsDecimal (previous_z : Bool) (value : ℕ) (carry : Type 0) (r : Result) : Type 0 where
  pub digits : r.value ≡ packed value
  pub carry_flag : (r.c ≡ true) ↔ carry
  pub zero_flag : (r.z ≡ true) ↔ ((previous_z ≡ true) × (value ≡ 0))

adds-IsDecimal :
    (previous_z x : Bool) (m n : ℕ)
    → adds x m n ≡ true
    → IsDecimal previous_z
        ((m + n + bit x) % 100)
        (100 ≤ m + n + bit x)
        (bcd_add_sub true previous_z (packed m) (packed n) x)
unfolding adds bcd_add_sub accumulate_zero
adds-IsDecimal previous_z x m n entry = ground arith

subtracts-IsDecimal :
    (previous_z x : Bool) (m n : ℕ)
    → subtracts x m n ≡ true
    → IsDecimal previous_z
        ((m + 100 - n - bit x) % 100)
        (m < n + bit x)
        (bcd_add_sub false previous_z (packed m) (packed n) x)
unfolding subtracts bcd_add_sub accumulate_zero
subtracts-IsDecimal previous_z x m n entry = ground arith

-- On the packed forms of two numbers below 100, an X of 0 or 1 and any Z of before: ABCD gives the
-- packed form of their sum modulo 100, with C exactly when the sum reaches 100, and SBCD that of the
-- difference modulo 100, with C exactly when the subtrahend and X exceed the minuend. After either, Z
-- is set exactly when it was set before and the result is 0.
pub bcd_add_sub-IsDecimal :
    (previous_z x : Bool) (m n : ℕ)
    → m < 100
    → n < 100
    → IsDecimal previous_z
        ((m + n + bit x) % 100)
        (100 ≤ m + n + bit x)
        (bcd_add_sub true previous_z (packed m) (packed n) x)
      × IsDecimal previous_z
          ((m + 100 - n - bit x) % 100)
          (m < n + bit x)
          (bcd_add_sub false previous_z (packed m) (packed n) x)
bcd_add_sub-IsDecimal previous_z x m n p q =
    let add_row = all_below_sound 100 (λ k. all_below 100 (adds x k)) m (add_table x) p in
    let subtract_row =
      all_below_sound 100 (λ k. all_below 100 (subtracts x k)) m (subtract_table x) p in
    (
      adds-IsDecimal previous_z x m n (all_below_sound 100 (adds x m) n add_row q),
      subtracts-IsDecimal previous_z x m n (all_below_sound 100 (subtracts x m) n subtract_row q),
    )
