-- ===== src/Mfp/Channels.antt =====
-- The sixteen interrupt channels: a pair of registers, group A above group B, as one 16-bit word.
use x68k_stackchan.Base.{
  ℕ, zero, suc, ◌+◌, ◌*◌, ◌/◌, ◌%◌, ◌^◌, ◌<◌, ◌≡◌, refl, sym, ap, ◌∙◌, Bool, true, false, ◌&&◌,
  arith, ltb, ◌==◌, bool_eq, bool_eq-eq, if◌then◌else◌, any_bit, &&-true, ltb→lt,
}
use native.Mathlib.Nat.{pow-suc, div-div-eq-div-mul}
use x68k_stackchan.Base.Bits.{all_below, all_below_sound}
use x68k_stackchan.Base.Digits.{digit, or-zero}
use x68k_stackchan.Mfp.Interrupt.{allowed_above, block_mask}

abbrev pub pair : ℕ → ℕ → ℕ
pair a b = a * 256 + b

double : (k j : ℕ) → j ≡ k + 1 → 2 ^ j ≡ 2 ^ k * 2
double k j e = ap (λ (n : ℕ). 2 ^ n) (omega (arith, e)) ∙ pow-suc 2 k

pub eight : (i : ℕ) → 2 ^ (i + 8) ≡ 2 ^ i * 256
eight i = omega (
  arith,
  double i (i + 1) (omega arith),
  double (i + 1) (i + 2) (omega arith),
  double (i + 2) (i + 3) (omega arith),
  double (i + 3) (i + 4) (omega arith),
  double (i + 4) (i + 5) (omega arith),
  double (i + 5) (i + 6) (omega arith),
  double (i + 6) (i + 7) (omega arith),
  double (i + 7) (i + 8) (omega arith),
)

pub digit-pair_high : (i a b : ℕ) → b < 256 → digit (i + 8) (pair a b) ≡ digit i a
digit-pair_high i a b h =
    let whole : pair a b / 256 ≡ a = omega arith in
    ap (λ (t : ℕ). t % 2)
      (ap (λ (t : ℕ). pair a b / t) (omega (arith, eight i))
        ∙ sym (div-div-eq-div-mul (pair a b) 256 (2 ^ i))
        ∙ ap (λ (t : ℕ). t / 2 ^ i) whole)

pub digit-pair_low : (i a b : ℕ) → i < 8 → digit i (pair a b) ≡ digit i b
digit-pair_low zero a b h = omega arith
digit-pair_low (suc zero) a b h = omega arith
digit-pair_low (suc (suc zero)) a b h = omega arith
digit-pair_low (suc (suc (suc zero))) a b h = omega arith
digit-pair_low (suc (suc (suc (suc zero)))) a b h = omega arith
digit-pair_low (suc (suc (suc (suc (suc zero))))) a b h = omega arith
digit-pair_low (suc (suc (suc (suc (suc (suc zero)))))) a b h = omega arith
digit-pair_low (suc (suc (suc (suc (suc (suc (suc zero))))))) a b h = omega arith
digit-pair_low (suc (suc (suc (suc (suc (suc (suc (suc i)))))))) a b h = absurd (omega arith)

-- What is allowed above the bits in service: nothing at or below the highest of them.
allows : ℕ → ℕ → Bool
allows i s =
    bool_eq (any_bit (allowed_above 8 s 0) (2 ^ i)) (ltb s (2 ^ i)) && ltb (allowed_above 8 s 0) 256

allows_table : all_below 8 (λ i. all_below 256 (allows i)) ≡ true
unfolding all_below allows allowed_above
allows_table = refl

pub allowed_lem :
    (i s : ℕ)
    → i < 8
    → s < 256
    → (any_bit (allowed_above 8 s 0) (2 ^ i) ≡ ltb s (2 ^ i)) × (allowed_above 8 s 0 < 256)
unfolding allows
allowed_lem i s p q =
    let row = all_below_sound 8 (λ i. all_below 256 (allows i)) i allows_table p in
    let both = &&-true _ _ (all_below_sound 256 (allows i) s row q) in
    (bool_eq-eq _ _ both.0, ltb→lt _ _ both.1)

empty_allows : allowed_above 8 0 0 ≡ 0xFF
unfolding allowed_above
empty_allows = refl

pub block_mask-a : (a b : ℕ) → block_mask true a b ≡ allowed_above 8 a 0
block_mask-a a b = let z = or-zero a b in ground (arith, empty_allows)

pub block_mask-b : (a b : ℕ) → block_mask false a b ≡ (if a == 0 then allowed_above 8 b 0 else 0)
block_mask-b a b = let z = or-zero a b in ground (arith, empty_allows)
