-- ===== src/Base/Bits.antt =====
-- Laws of the bit operations at variables: by tables over a byte, and for disjoint fields.
use Prim.Native.Nat.{ℕ, zero, suc, ◌+◌, ◌-◌, ◌*◌, ◌/◌, ◌%◌, ◌^◌, ◌≤◌, ◌<◌, max, bit_or}
use Prim.Native.Nat.{digits, bit_or-bitwise}
use mathlib.Core.Path.{◌≡◌, refl, ap, sym, ◌∙◌, subst}
use mathlib.Core.Logic.{◌⊎◌, ◌≢◌, inl, inr}
use mathlib.Core.Bool.{Bool, true, ◌&&◌}
use x68k_stackchan.Base.Tests.{&&-true}
use native.Mathlib.Nat.{pow-suc}
use native.Mathlib.Omega.{arith}

split : (x y : ℕ) → (x ≡ y) ⊎ (x ≢ y)
split x y = ground arith

-- A test of all the numbers under a bound, by evaluation.
unfoldable pub all_below : ℕ → (ℕ → Bool) → Bool
all_below zero test = true
all_below (suc top) test = all_below top test && test top

pub all_below_sound :
    (bound : ℕ) (test : ℕ → Bool) (x : ℕ) → all_below bound test ≡ true → x < bound → test x ≡ true
unfolding all_below
all_below_sound zero test x passed below = absurd (omega arith)
all_below_sound (suc top) test x passed below =
    let (earlier, last) = &&-true (all_below top test) (test top) passed in
    elim (split x top) [
      | inl same ↦ subst (λ k. test k ≡ true) (sym same) last
      | inr other ↦ all_below_sound top test x earlier (omega arith)
    ]

-- The native operations recurse on binary digits with a count that is at least their number. More
-- of it changes nothing.
module _ (z : ℕ → ℕ) (op : ℕ → ℕ → ℕ) where
  grow : (count extra : ℕ) → suc count + extra ≡ suc (count + extra)
  grow count extra = omega arith

  exhausted : (count b : ℕ) → digits z op count 0 b ≡ z b
  exhausted zero b = refl
  exhausted (suc count) b = refl

  spare :
      (count extra a b : ℕ) → a ≤ count → digits z op (count + extra) a b ≡ digits z op count a b
  spare count extra zero b enough = exhausted (count + extra) b ∙ sym (exhausted count b)
  spare zero extra (suc a) b enough = absurd (omega arith)
  spare (suc count) extra (suc a) b enough = rw (grow count extra) (
      ap (λ (high : ℕ). high * 2 + op (suc a % 2) (b % 2))
        (spare count extra (suc a / 2) (b / 2) (omega arith)))

  -- The least digit by itself, for a number that is not 0.
  pub lowest :
      (a b : ℕ)
      → 0 < a
      → digits z op a a b ≡ digits z op (a / 2) (a / 2) (b / 2) * 2 + op (a % 2) (b % 2)
  lowest zero b positive = absurd (omega arith)
  lowest (suc a) b positive =
      let half = spare (suc a / 2) (a - suc a / 2) (suc a / 2) (b / 2) (omega arith) in
      let whole : suc a / 2 + (a - suc a / 2) ≡ a = omega arith in
      ap (λ (high : ℕ). high * 2 + op (suc a % 2) (b % 2))
        (subst
          (λ n. digits z op n (suc a / 2) (b / 2) ≡ digits z op (suc a / 2) (suc a / 2) (b / 2))
          whole half)

pub or_digit : (a b : ℕ) → bit_or a b ≡ bit_or (a / 2) (b / 2) * 2 + max (a % 2) (b % 2)
or_digit zero b = omega (arith, bit_or-bitwise 0 b, bit_or-bitwise 0 (b / 2))
or_digit (suc a) b =
    bit_or-bitwise (suc a) b
    ∙ lowest (λ y. y) max (suc a) b (omega arith)
    ∙ ap (λ (high : ℕ). high * 2 + max (suc a % 2) (b % 2))
        (sym (bit_or-bitwise (suc a / 2) (b / 2)))

or_nothing : (k a : ℕ) → a ≤ k → bit_or a 0 ≡ a
or_nothing k zero h = refl
or_nothing zero (suc a) h = absurd (omega arith)
or_nothing (suc k) (suc a) h =
    omega (arith, or_digit (suc a) 0, or_nothing k (suc a / 2) (omega arith))

-- `|` of a multiple of 2 ^ k and a number below 2 ^ k is their sum.
pub bit_or_disjoint : (k q r : ℕ) → r < 2 ^ k → bit_or (q * 2 ^ k) r ≡ q * 2 ^ k + r
bit_or_disjoint zero q r h = ground (arith, or_nothing (q * 1) (q * 1))
bit_or_disjoint (suc k) q r h =
    let double : q * 2 ^ suc k ≡ 2 * (q * 2 ^ k) =
      omega (arith, ap (λ (t : ℕ). q * t) (pow-suc 2 k)) in
    let half = bit_or_disjoint k q (r / 2) (omega (arith, pow-suc 2 k)) in
    ground (arith, or_digit (q * 2 ^ suc k) r, half, double)
