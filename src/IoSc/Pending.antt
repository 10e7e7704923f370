-- ===== src/IoSc/Pending.antt =====
-- Which interrupt is delivered.
use x68k_stackchan.Base.{
  subst, sym, ◌+◌, &&-true, ℕ, zero, suc, ◌+◌, ◌*◌, ◌/◌, ◌<◌, ◌≡◌, ◌≢◌, ◌↔◌, ◌⊎◌, refl, Bool, true,
  false, ◌&&◌, ◌||◌, arith, ◌==◌, if◌then◌else◌, bit_and, bit_or, any_bit, Bool-cases, inl, inr,
  Option, some, none,
}
use x68k_stackchan.Base.Bits.{all_below, all_below_sound}
use x68k_stackchan.IoSc.{
  IoSc, is_asserted, is_enabled, pending_from, pending_device, has_pending_interrupt, vector_of,
  acknowledge_interrupt,
}

-- The device's interrupt is enabled and its line is up.
abbrev pub IsPending : IoSc → ℕ → Type 0
IsPending c device = (is_enabled c.enable device ≡ true) × (is_asserted c.status device ≡ true)

-- What `pendingDevice()` answers: the pending device of the least number, or none.
abbrev pub IsFirst : IoSc → Option ℕ → Type 0
IsFirst c (some d) = (d < 4) × IsPending c d × ((e : ℕ) → e < d → ¬ IsPending c e)
IsFirst c none = (e : ℕ) → e < 4 → ¬ IsPending c e

split : (e i : ℕ) → (e ≡ i) ⊎ (e ≢ i)
split e i = ground arith

clash : (a b : Bool) → a ≡ true → b ≡ true → (a && b) ≡ false → ⊥
clash a b x y z = ground arith

not_yet :
    (c : IoSc) (i : ℕ)
    → (is_enabled c.enable i && is_asserted c.status i) ≡ false
    → ((e : ℕ) → e < i → ¬ IsPending c e)
    → (e : ℕ) → e < i + 1
    → ¬ IsPending c e
not_yet c i t before e lt (p, q) = elim (split e i) [
  | inl same ↦ absurd (
      clash _ _ p q
        (subst (λ x. (is_enabled c.enable x && is_asserted c.status x) ≡ false) (sym same) t))
  | inr other ↦ before e (omega arith) (p, q)
]

pending_from-IsFirst :
    (c : IoSc) (left i : ℕ)
    → i + left ≡ 4
    → ((e : ℕ) → e < i → ¬ IsPending c e)
    → IsFirst c (pending_from c left i)
unfolding pending_from
pending_from-IsFirst c zero i h before = λ e p. before e (omega arith)
pending_from-IsFirst c (suc left) i h before =
    elim (Bool-cases (is_enabled c.enable i && is_asserted c.status i)) [
      | inl t ↦ rw t (omega arith, &&-true _ _ t, before)
      | inr t ↦ rw t (pending_from-IsFirst c left (i + 1) (omega arith) (not_yet c i t before))
    ]

choice : Bool → Bool → Bool → Bool → Bool → Bool → Bool → Option ℕ
choice a b c d e f g =
    if a && b
    then some 0
    else if c && d
    then some 1
    else if e && f
    then some 2
    else if g && false
    then some 3
    else none

unrolled :
    (a b c d e f g : Bool)
    → (((a && b) || (c && d) || (e && f)) ≡ true) ↔ (choice a b c d e f g ≢ none)
unfolding choice
unrolled a b c d e f g = ground arith

-- The loop finds the pending device of the least number (FDC, then FDD, then HDD), or finds that
-- there is none, and the unrolled test agrees with it.
pub pending_device-IsFirst :
    (c : IoSc)
    → IsFirst c (pending_device c) × ((has_pending_interrupt c ≡ true) ↔ (pending_device c ≢ none))
unfolding pending_device has_pending_interrupt choice
pending_device-IsFirst c = (
  pending_from-IsFirst c 4 0 refl (λ e h. absurd (omega arith)),
  unrolled (any_bit c.enable 0x04) (any_bit c.status 0x80) (any_bit c.enable 0x02)
      (any_bit c.status 0x40) (any_bit c.enable 0x08) (any_bit c.status 0x10)
      (any_bit c.enable 0x01),
)

vectors : ℕ → ℕ → Bool
vectors device vector =
    bit_or (bit_and vector 0xFC) (bit_and device 0x03) == vector / 4 * 4 + device

vectors_table : all_below 4 (λ d. all_below 256 (vectors d)) ≡ true
unfolding all_below vectors
vectors_table = refl

given_nothing :
    (c : IoSc) (o : Option ℕ)
    → IsFirst c o
    → (c.vector ≡ 0) ⊎ ((e : ℕ) → e < 4 → ¬ IsPending c e)
    → vector_of c o ≡ 0
given_nothing c none first h = refl
given_nothing c (some d) (lt, p, before) (inl z) = ground arith
given_nothing c (some d) (lt, p, before) (inr never) = absurd (never d lt p)

least : (f d : ℕ) → ¬ (f < d) → ¬ (d < f) → f ≡ d
least f d a b = ground arith

given :
    (c : IoSc) (o : Option ℕ)
    → IsFirst c o
    → c.vector < 256
    → (d : ℕ) → d < 4
    → IsPending c d
    → ((e : ℕ) → e < d → ¬ IsPending c e)
    → c.vector ≢ 0
    → vector_of c o ≡ c.vector / 4 * 4 + d
given c none never h d lt p before set = absurd (never d lt p)
given c (some f) (flt, fp, fbefore) h d lt p before set =
    let same : f ≡ d = least f d (λ below. before f below fp) (λ below. fbefore d below p) in
    let row = all_below_sound 4 (λ d. all_below 256 (vectors d)) f vectors_table flt in
    let e : vectors f c.vector ≡ true = all_below_sound 256 (vectors f) c.vector row h in
    unfold vectors in ground (arith)

-- The CPU is given 0 when the vector register is unset or no device is pending.
pub acknowledge_interrupt-zero :
    (c : IoSc) → (c.vector ≡ 0) ⊎ ((e : ℕ) → e < 4 → ¬ IsPending c e) → acknowledge_interrupt c ≡ 0
unfolding acknowledge_interrupt
acknowledge_interrupt-zero c h = given_nothing c (pending_device c) (pending_device-IsFirst c).0 h

-- When the vector register is set, the CPU is given that register with the number of the first
-- pending device in its low two bits.
pub acknowledge_interrupt-first :
    (c : IoSc) (d : ℕ)
    → c.vector < 256
    → c.vector ≢ 0
    → d < 4
    → IsPending c d
    → ((e : ℕ) → e < d → ¬ IsPending c e)
    → acknowledge_interrupt c ≡ c.vector / 4 * 4 + d
unfolding acknowledge_interrupt
acknowledge_interrupt-first c d h set lt p before =
    given c (pending_device c) (pending_device-IsFirst c).0 h d lt p before set
