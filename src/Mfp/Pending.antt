-- ===== src/Mfp/Pending.antt =====
-- The test that every instruction makes for a pending interrupt, with its early exit.
use x68k_stackchan.Base.{
  ℕ, ◌+◌, ◌^◌, ◌<◌, ◌≡◌, ◌≢◌, ◌↔◌, ◌⊎◌, refl, subst, Bool, true, false, arith, ◌==◌, ==_iff,
  bit_and, any_bit, Bool-cases, inl, inr, some, none, Option-cases,
}
use x68k_stackchan.Base.Bits.{all_below, all_below_sound}
use x68k_stackchan.Base.Digits.{and-le, or-zero}
use x68k_stackchan.Mfp.Reg
use x68k_stackchan.Mfp.{Mfp}
use x68k_stackchan.Mfp.Eligible.{IsBytes, IsEligible, pending_a-IsEligible, pending_b-IsEligible}
use x68k_stackchan.Mfp.Priority.{IsHighest, highest-IsHighest, groups}
use x68k_stackchan.Mfp.Interrupt.{
  pending_a, pending_b, service_block_mask, highest, has_pending_interrupt,
}

and-zero : (x y : ℕ) → x ≡ 0 → bit_and x y ≡ 0
and-zero x y e = omega (arith, and-le x y)

-- The early exit changes nothing.
pending-both :
    (m : Mfp) → (has_pending_interrupt m ≡ false) ↔ ((pending_a m ≡ 0) × (pending_b m ≡ 0))
unfolding has_pending_interrupt pending_a pending_b
pending-both m = ground (
  arith,
  or-zero (bit_and (m.reg Reg.ipra) (m.reg Reg.imra)) (bit_and (m.reg Reg.iprb) (m.reg Reg.imrb)),
  or-zero (bit_and (bit_and (m.reg Reg.ipra) (m.reg Reg.imra)) (service_block_mask true m))
      (bit_and (bit_and (m.reg Reg.iprb) (m.reg Reg.imrb)) (service_block_mask false m)),
  and-zero (bit_and (m.reg Reg.ipra) (m.reg Reg.imra)) (service_block_mask true m),
  and-zero (bit_and (m.reg Reg.iprb) (m.reg Reg.imrb)) (service_block_mask false m),
)

finds : ℕ → Bool
finds x = elim (highest 8 x) [ none ↦ x == 0 | some b ↦ true ]

finds_table : all_below 256 finds ≡ true
unfolding all_below finds highest
finds_table = refl

-- A byte that is not 0 has a highest bit.
found : (x : ℕ) → x < 256 → x ≢ 0 → (i : ℕ) × (i < 8) × (any_bit x (2 ^ i) ≡ true)
unfolding finds
found x h ne = elim (Option-cases (highest 8 x)) [
  | inl e ↦ absurd (ne (empty e))
  | inr (i, e) ↦ let at = subst (IsHighest 8 x) e (highest-IsHighest 8 x) in (i, at.0, at.1)
]
  where
    row : finds x ≡ true
    row = all_below_sound 256 finds x finds_table h

    empty : highest 8 x ≡ none → x ≡ 0
    empty e = (==_iff x 0).0 (rw (e, finds) at row)

set-nonzero : (x y : ℕ) → any_bit x y ≡ true → x ≢ 0
set-nonzero x y h e = ground (arith, and-le x y)

zero_or : (x : ℕ) → (x ≡ 0) ⊎ (x ≢ 0)
zero_or x = ground arith

clash : {b : Bool} → b ≡ true → b ≡ false → ⊥
clash p q = cc

-- With byte registers, `has_pending_interrupt` answers whether some channel is requested, unmasked and
-- above every channel in service.
pub has_pending_interrupt_iff :
    (m : Mfp) → IsBytes m → (has_pending_interrupt m ≡ true) ↔ ((n : ℕ) × (n < 16) × IsEligible m n)
has_pending_interrupt_iff m h = (there, back)
  where
    byte_a : pending_a m < 256
    byte_a =
        unfold pending_a in
        ground (
          arith,
          and-le (bit_and (m.reg Reg.ipra) (m.reg Reg.imra)) (service_block_mask true m),
          and-le (m.reg Reg.ipra) (m.reg Reg.imra),
          h Reg.ipra,
        )

    byte_b : pending_b m < 256
    byte_b =
        unfold pending_b in
        ground (
          arith,
          and-le (bit_and (m.reg Reg.iprb) (m.reg Reg.imrb)) (service_block_mask false m),
          and-le (m.reg Reg.iprb) (m.reg Reg.imrb),
          h Reg.iprb,
        )

    there : has_pending_interrupt m ≡ true → (n : ℕ) × (n < 16) × IsEligible m n
    there e = elim (zero_or (pending_a m)) [
      | inr a ↦
          let (i, p, at) = found (pending_a m) byte_a a in
          (i + 8, omega arith, (pending_a-IsEligible m i h p).0 at)
      | inl a ↦ elim (zero_or (pending_b m)) [
        | inr b ↦
            let (i, p, at) = found (pending_b m) byte_b b in
            (i, omega arith, (pending_b-IsEligible m i h p).0 at)
        | inl b ↦ absurd (clash e ((pending-both m).1 (a, b)))
      ]
    ]

    back : (n : ℕ) × (n < 16) × IsEligible m n → has_pending_interrupt m ≡ true
    back (n, p, el) = elim (Bool-cases (has_pending_interrupt m)) [
      | inl t ↦ t
      | inr f ↦
          let (za, zb) = (pending-both m).0 f in
          elim (groups n p) [
            | inl lt ↦ absurd (set-nonzero _ _ ((pending_b-IsEligible m n h lt).1 el) zb)
            | inr (i, q, e) ↦
                absurd (
                  set-nonzero _ _ ((pending_a-IsEligible m i h q).1 (subst (IsEligible m) e el)) za)
          ]
    ]
