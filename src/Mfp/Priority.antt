-- ===== src/Mfp/Priority.antt =====
-- `acknowledgeInterrupt` and `hasPendingInterrupt` over the sixteen channels.
use x68k_stackchan.Base.{
  ℕ, zero, suc, ◌+◌, ◌-◌, ◌*◌, ◌/◌, ◌^◌, ◌≤◌, ◌<◌, ◌≡◌, ◌≢◌, ◌⊎◌, refl, sym, ◌∙◌, subst, Bool, true,
  false, arith, ltb, ◌==◌, ==_iff, if◌then◌else◌, bit_and, bit_or, clear8, any_bit, Bool-cases, inl,
  inr, ltb→lt, ltb-false, Option, some, none,
}
use x68k_stackchan.Base.Bits.{all_below, all_below_sound}
use x68k_stackchan.Base.Digits.{digit, any_bit-digit}
use x68k_stackchan.Mfp.Reg
use x68k_stackchan.Mfp.{Mfp, vr_software_eoi}
use x68k_stackchan.Mfp.Channels.{eight, digit-pair_high, digit-pair_low}
use x68k_stackchan.Mfp.Eligible.{
  IsBytes, IsEligible, requested, in_service, pending_a-IsEligible, pending_b-IsEligible, power-lt,
}
use x68k_stackchan.Mfp.Interrupt.{
  pending_a, pending_b, highest, accept, acknowledge_from, acknowledge_interrupt,
}

-- What a loop from `left` downwards finds.
abbrev pub IsHighest : ℕ → ℕ → Option ℕ → Type 0
IsHighest left p (some b) =
    (b < left)
    × (any_bit p (2 ^ b) ≡ true)
    × ((k : ℕ) → b < k → k < left → any_bit p (2 ^ k) ≡ false)
IsHighest left p none = (k : ℕ) → k < left → any_bit p (2 ^ k) ≡ false

same_or : (k n : ℕ) → (k ≡ n) ⊎ (k ≢ n)
same_or k n = ground arith

higher :
    (n p : ℕ) (o : Option ℕ) → any_bit p (2 ^ n) ≡ false → IsHighest n p o → IsHighest (suc n) p o
higher n p none e h = λ k lt. elim (same_or k n) [ inl s ↦ rw s e | inr d ↦ h k (omega arith) ]
higher n p (some b) e (lt, at, above) = (
  omega arith,
  at,
  λ k u v. elim (same_or k n) [ inl s ↦ rw s e | inr d ↦ above k u (omega arith) ],
)

pub highest-IsHighest : (left p : ℕ) → IsHighest left p (highest left p)
unfolding highest
highest-IsHighest zero p = λ k h. absurd (omega arith)
highest-IsHighest (suc n) p = elim (Bool-cases (any_bit p (2 ^ n))) [
  | inl t ↦ rw t (omega arith, t, λ k u v. absurd (omega arith))
  | inr f ↦ rw f (higher n p (highest n p) f (highest-IsHighest n p))
]

-- The CPU is given the register's upper digit and the channel; the request is withdrawn; the channel
-- is in service from now on when software ends the service. Nothing else changes.
pub record IsGiven (m : Mfp) (n : ℕ) (r : ℕ × Mfp) : Type 0 where
  pub vector : r.0 ≡ m.reg Reg.vr / 16 * 16 + n
  pub withdrawn : requested r.1 + 2 ^ n ≡ requested m
  pub serviced :
      in_service r.1 ≡ in_service m + (if any_bit (m.reg Reg.vr) vr_software_eoi then 2 ^ n else 0)
  pub others :
      (j : ℕ) → j ≢ Reg.ipra → j ≢ Reg.iprb → j ≢ Reg.isra → j ≢ Reg.isrb → r.1.reg j ≡ m.reg j
  pub clock :
      (r.1.prescale_counter ≡ m.prescale_counter)
      × (r.1.timer_value ≡ m.timer_value)
      × (r.1.running ≡ m.running)

numbers : ℕ → ℕ → Bool
numbers n vr = bit_or (bit_and vr 0xF0) n == vr / 16 * 16 + n

numbers_table : all_below 16 (λ n. all_below 256 (numbers n)) ≡ true
unfolding all_below numbers
numbers_table = refl

number_lem : (n vr : ℕ) → n < 16 → vr < 256 → bit_or (bit_and vr 0xF0) n ≡ vr / 16 * 16 + n
unfolding numbers
number_lem n vr p q =
    let row = all_below_sound 16 (λ n. all_below 256 (numbers n)) n numbers_table p in
    (==_iff _ _).0 (all_below_sound 256 (numbers n) vr row q)

clears : ℕ → ℕ → Bool
clears i x = if any_bit x (2 ^ i) then clear8 x (2 ^ i) + 2 ^ i == x else true

clears_table : all_below 8 (λ i. all_below 256 (clears i)) ≡ true
unfolding all_below clears
clears_table = refl

clear_lem : (i x : ℕ) → i < 8 → x < 256 → any_bit x (2 ^ i) ≡ true → clear8 x (2 ^ i) + 2 ^ i ≡ x
clear_lem i x p q h =
    let row = all_below_sound 8 (λ i. all_below 256 (clears i)) i clears_table p in
    let e : clears i x ≡ true = all_below_sound 256 (clears i) x row q in
    unfold clears in ground arith

raises : ℕ → ℕ → Bool
raises i x = if ltb x (2 ^ i) then bit_or x (2 ^ i) == x + 2 ^ i else true

raises_table : all_below 8 (λ i. all_below 256 (raises i)) ≡ true
unfolding all_below raises
raises_table = refl

raise_lem : (i x : ℕ) → i < 8 → x < 256 → x < 2 ^ i → bit_or x (2 ^ i) ≡ x + 2 ^ i
raise_lem i x p q h =
    let row = all_below_sound 8 (λ i. all_below 256 (raises i)) i raises_table p in
    let e : raises i x ≡ true = all_below_sound 256 (raises i) x row q in
    unfold raises in ground arith

any-digit : (i x : ℕ) → i < 8 → x < 256 → digit i x ≡ 1 → any_bit x (2 ^ i) ≡ true
any-digit i x p q h = any_bit-digit i x p q ∙ (==_iff _ 1).1 h

-- What the loop over group A does with channel `i + 8`, and the loop over group B with channel `i`.
accept-IsGiven_a :
    (m : Mfp) (i : ℕ)
    → IsBytes m
    → i < 8
    → IsEligible m (i + 8)
    → IsGiven m (i + 8) (accept Reg.ipra Reg.isra i (i + 8) m)
unfolding accept
accept-IsGiven_a m i h p (r, u, s) =
    let e = eight i in
    let cleared = clear_lem i (m.reg Reg.ipra) p (h Reg.ipra) (
      any-digit i (m.reg Reg.ipra) p (h Reg.ipra)
        (sym (digit-pair_high i (m.reg Reg.ipra) (m.reg Reg.iprb) (h Reg.iprb)) ∙ r)) in
    let raised = raise_lem i (m.reg Reg.isra) p (h Reg.isra) (omega (arith, h Reg.isrb)) in
    record {
      vector = number_lem (i + 8) (m.reg Reg.vr) (omega arith) (h Reg.vr);
      withdrawn = ground arith;
      serviced = ground arith;
      others = λ j a b c d. ground arith;
      clock = ground arith;
    }

accept-IsGiven_b :
    (m : Mfp) (i : ℕ)
    → IsBytes m
    → i < 8
    → IsEligible m i
    → IsGiven m i (accept Reg.iprb Reg.isrb i i m)
unfolding accept
accept-IsGiven_b m i h p (r, u, s) =
    let lt = power-lt i p in
    let cleared = clear_lem i (m.reg Reg.iprb) p (h Reg.iprb) (
      any-digit i (m.reg Reg.iprb) p (h Reg.iprb)
        (sym (digit-pair_low i (m.reg Reg.ipra) (m.reg Reg.iprb) p) ∙ r)) in
    let raised = raise_lem i (m.reg Reg.isrb) p (h Reg.isrb) (omega arith) in
    record {
      vector = number_lem i (m.reg Reg.vr) (omega arith) (h Reg.vr);
      withdrawn = ground arith;
      serviced = ground arith;
      others = λ j a b c d. ground arith;
      clock = ground arith;
    }

-- The channel of the highest number that may interrupt is given, or there is none and nothing
-- changes.
pub data IsRanked (m : Mfp) (r : ℕ × Mfp) : Type 0 where
  given :
      (n : ℕ)
      → n < 16
      → IsEligible m n
      → ((k : ℕ) → n < k → k < 16 → ¬ IsEligible m k)
      → IsGiven m n r
      → IsRanked m r
  idle : ((k : ℕ) → k < 16 → ¬ IsEligible m k) → r ≡ (0, m) → IsRanked m r

pub groups : (k : ℕ) → k < 16 → (k < 8) ⊎ ((i : ℕ) × (i < 8) × (k ≡ i + 8))
groups k h = elim (Bool-cases (ltb k 8)) [
  | inl t ↦ inl (ltb→lt k 8 t)
  | inr f ↦ let ge = ltb-false k 8 f in inr (k - 8, omega arith, omega arith)
]

module _ (m : Mfp) (h : IsBytes m) where
  none_a :
      (bound : ℕ)
      → ((k : ℕ) → bound ≤ k → k < 8 → any_bit (pending_a m) (2 ^ k) ≡ false)
      → (k : ℕ) → bound + 8 ≤ k
      → k < 16
      → ¬ IsEligible m k
  none_a bound all k ge lt el =
      let at : (k - 8) + 8 ≡ k = omega arith in
      let el' : IsEligible m ((k - 8) + 8) = subst (IsEligible m) (sym at) el in
      let set = (pending_a-IsEligible m (k - 8) h (omega arith)).1 el' in
      cc (set, all (k - 8) (omega arith) (omega arith))

  none_b :
      (bound : ℕ)
      → ((k : ℕ) → bound ≤ k → k < 8 → any_bit (pending_b m) (2 ^ k) ≡ false)
      → (k : ℕ) → bound ≤ k
      → k < 8
      → ¬ IsEligible m k
  none_b bound all k ge lt el =
      let set = (pending_b-IsEligible m k h lt).1 el in cc (set, all k ge lt)

  ranked :
      (a b : Option ℕ)
      → IsHighest 8 (pending_a m) a
      → IsHighest 8 (pending_b m) b
      → IsRanked m (acknowledge_from a b m)
  unfolding acknowledge_from
  ranked (some i) b (p, at, above) hb =
      let el = (pending_a-IsEligible m i h p).0 at in
      given (i + 8) (omega arith) el
        (λ k u v. none_a (i + 1) (λ j x y. above j (omega arith) y) k (omega arith) v)
        (accept-IsGiven_a m i h p el)
  ranked none (some i) ha (p, at, above) =
      let el = (pending_b-IsEligible m i h p).0 at in
      given i (omega arith) el
        (λ k u v. elim (groups k v) [
          | inl lt ↦ none_b (i + 1) (λ j x y. above j (omega arith) y) k (omega arith) lt
          | inr (j, q, e) ↦ none_a 0 (λ j x y. ha j y) k (omega arith) v
        ])
        (accept-IsGiven_b m i h p el)
  ranked none none ha hb =
      idle
        (λ k v. elim (groups k v) [
          | inl lt ↦ none_b 0 (λ j x y. hb j y) k (omega arith) lt
          | inr (j, q, e) ↦ none_a 0 (λ j x y. ha j y) k (omega arith) v
        ])
        refl

  -- With byte registers, `acknowledge_interrupt` gives the CPU the channel of the highest number that
  -- is requested, unmasked and above every channel in service, withdraws that request and nothing
  -- else, and puts the channel in service exactly when the vector register asks for software's end
  -- of interrupt; when there is no such channel it returns 0 and changes nothing.
  pub acknowledge_interrupt-IsRanked : IsRanked m (acknowledge_interrupt m)
  unfolding acknowledge_interrupt
  acknowledge_interrupt-IsRanked =
      ranked (highest 8 (pending_a m)) (highest 8 (pending_b m)) (highest-IsHighest 8 (pending_a m))
        (highest-IsHighest 8 (pending_b m))
