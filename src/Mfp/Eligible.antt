-- ===== src/Mfp/Eligible.antt =====
-- Which channels may interrupt, and where the loops of `acknowledgeInterrupt` find them.
use x68k_stackchan.Base.{
  ℕ, ◌+◌, ◌^◌, ◌<◌, ◌≡◌, ◌↔◌, refl, Bool, true, false, ◌&&◌, arith, ltb, ◌==◌, ==_iff,
  if◌then◌else◌, bit_and, any_bit, &&-true, ltb→lt,
}
use x68k_stackchan.Base.Bits.{all_below, all_below_sound}
use x68k_stackchan.Base.Digits.{digit, any_bit-digit, any_bit-and, and-le}
use x68k_stackchan.Mfp.Reg
use x68k_stackchan.Mfp.{Mfp}
use x68k_stackchan.Mfp.Channels.{
  pair, eight, digit-pair_high, digit-pair_low, allowed_lem, block_mask-a, block_mask-b,
}
use x68k_stackchan.Mfp.Interrupt.{
  allowed_above, block_mask, service_block_mask, pending_a, pending_b,
}

abbrev pub IsBytes : Mfp → Type 0
IsBytes m = (r : ℕ) → m.reg r < 256

-- The channels requested, unmasked and in service, as 16-bit words.
abbrev pub requested : Mfp → ℕ
requested m = pair (m.reg Reg.ipra) (m.reg Reg.iprb)

abbrev pub unmasked : Mfp → ℕ
unmasked m = pair (m.reg Reg.imra) (m.reg Reg.imrb)

abbrev pub in_service : Mfp → ℕ
in_service m = pair (m.reg Reg.isra) (m.reg Reg.isrb)

-- Channel `n` is requested and unmasked, and every channel in service is below it.
abbrev pub IsEligible : Mfp → ℕ → Type 0
IsEligible m n = (digit n (requested m) ≡ 1) × (digit n (unmasked m) ≡ 1) × (in_service m < 2 ^ n)

powers_table : all_below 8 (λ i. ltb (2 ^ i) 256) ≡ true
unfolding all_below
powers_table = refl

pub power-lt : (i : ℕ) → i < 8 → 2 ^ i < 256
power-lt i h = ltb→lt _ _ (all_below_sound 8 (λ i. ltb (2 ^ i) 256) i powers_table h)

masked :
    (i x y mask : ℕ) (P : Type 0)
    → i < 8
    → x < 256
    → y < 256
    → mask < 256
    → (any_bit mask (2 ^ i) ≡ true) ↔ P
    → (any_bit (bit_and (bit_and x y) mask) (2 ^ i) ≡ true)
      ↔ ((digit i x ≡ 1) × (digit i y ≡ 1) × P)
masked i x y mask P h p q r s =
    rw
      (
        any_bit-and i (bit_and x y) mask h (omega (arith, and-le x y, p)) r,
        any_bit-and i x y h p q,
        any_bit-digit i x h p,
        any_bit-digit i y h q,
      )
      (three _ _ _ P s)
  where
    three :
        (a b : ℕ) (c : Bool) (P : Type 0)
        → (c ≡ true) ↔ P
        → ((((a == 1) && (b == 1)) && c) ≡ true) ↔ ((a ≡ 1) × (b ≡ 1) × P)
    three a b c P s = (
      λ e.
          let (ab, t) = &&-true ((a == 1) && (b == 1)) c e in
          let (u, v) = &&-true (a == 1) (b == 1) ab in ((==_iff a 1).0 u, (==_iff b 1).0 v, s.0 t),
      λ (u, v, w). rw ((==_iff a 1).1 u, (==_iff b 1).1 v, s.1 w) refl,
    )

ltb_iff : (a b : ℕ) → (ltb a b ≡ true) ↔ (a < b)
ltb_iff a b = (λ e. ltb→lt a b e, λ h. ground arith)

free_a :
    (m : Mfp) (i : ℕ)
    → IsBytes m
    → (ltb (m.reg Reg.isra) (2 ^ i) ≡ true) ↔ (in_service m < 2 ^ (i + 8))
free_a m i h = ground (arith, ltb_iff (m.reg Reg.isra) (2 ^ i), eight i, h Reg.isrb)

free_b :
    (m : Mfp) (i : ℕ)
    → i < 8
    → (ltb (m.reg Reg.isrb) (2 ^ i) ≡ true) × (m.reg Reg.isra ≡ 0) ↔ (in_service m < 2 ^ i)
free_b m i p = ground (arith, ltb_iff (m.reg Reg.isrb) (2 ^ i), power-lt i p)

chosen : (b : Bool) (x y : ℕ) → any_bit (if b then x else 0) y ≡ (b && any_bit x y)
chosen true x y = refl
chosen false x y = ground (arith, and-le 0 y)

-- The bits of `pendingA` and `pendingB` are the eligible channels.
pub pending_a-IsEligible :
    (m : Mfp) (i : ℕ)
    → IsBytes m
    → i < 8
    → (any_bit (pending_a m) (2 ^ i) ≡ true) ↔ IsEligible m (i + 8)
unfolding pending_a service_block_mask
pending_a-IsEligible m i h p =
    let a = allowed_lem i (m.reg Reg.isra) p (h Reg.isra) in
    rw
      (
        block_mask-a (m.reg Reg.isra) (m.reg Reg.isrb),
        digit-pair_high i (m.reg Reg.ipra) (m.reg Reg.iprb) (h Reg.iprb),
        digit-pair_high i (m.reg Reg.imra) (m.reg Reg.imrb) (h Reg.imrb),
      )
      (masked i (m.reg Reg.ipra) (m.reg Reg.imra) (allowed_above 8 (m.reg Reg.isra) 0) _ p
        (h Reg.ipra) (h Reg.imra) a.1 (rw (a.0) (free_a m i h)))

pub pending_b-IsEligible :
    (m : Mfp) (i : ℕ) → IsBytes m → i < 8 → (any_bit (pending_b m) (2 ^ i) ≡ true) ↔ IsEligible m i
unfolding pending_b service_block_mask
pending_b-IsEligible m i h p =
    let a = allowed_lem i (m.reg Reg.isrb) p (h Reg.isrb) in
    rw
      (
        digit-pair_low i (m.reg Reg.ipra) (m.reg Reg.iprb) p,
        digit-pair_low i (m.reg Reg.imra) (m.reg Reg.imrb) p,
      )
      (masked i (m.reg Reg.iprb) (m.reg Reg.imrb)
        (block_mask false (m.reg Reg.isra) (m.reg Reg.isrb)) _ p (h Reg.iprb) (h Reg.imrb)
        (rw (block_mask-b (m.reg Reg.isra) (m.reg Reg.isrb)) (ground (arith, a.1)))
        (rw (block_mask-b (m.reg Reg.isra) (m.reg Reg.isrb)) (
          rw (chosen (m.reg Reg.isra == 0) (allowed_above 8 (m.reg Reg.isrb) 0) (2 ^ i), a.0)
            (ground (arith, free_b m i p)))))
