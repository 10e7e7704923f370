-- ===== src/Video/Registers.antt =====
-- Reads and writes of the video controller, and what a write damages.
use x68k_stackchan.Base.{
  ℕ, ◌-◌, ◌/◌, ◌%◌, ◌^◌, ◌≡◌, ◌≢◌, refl, sym, ◌∙◌, arith, Bool, true, false, ◌&&◌, ltb, ◌==◌,
  if◌then◌else◌, Bool-cases, inl, inr,
}
use x68k_stackchan.Video.{VideoController, read, is_supported, write}

-- The register at an address: the kind, and the entry of a palette.
abbrev pub place : ℕ → ℕ × ℕ
place addr =
    let offset = addr % 2 ^ 14 in
    if ltb offset 0x200
    then (0, (offset / 2) % 256)
    else if ltb offset 0x400
    then (1, ((offset - 0x200) / 2) % 16)
    else (offset, 0)

abbrev pub is_same : ℕ → ℕ → Bool
is_same a b = (place a).0 == (place b).0 && (place a).1 == (place b).1

-- After a write to a register that there is, the address reads as the value written, and any other one
-- as before unless it is another address of the same register.
pub read-write :
    (addr other value : ℕ) (v : VideoController)
    → is_supported (addr % 2 ^ 14) ≡ true
    → read other (write addr value v).1 ≡ (if is_same addr other then value else read other v)
unfolding read write
read-write addr other value v h = ground (arith, h)

same_read : (a b : ℕ) (v : VideoController) → is_same a b ≡ true → read a v ≡ read b v
unfolding read
same_read a b v h = ground (arith, h)

unsupported_write :
    (addr other value : ℕ) (v : VideoController)
    → is_supported (addr % 2 ^ 14) ≡ false
    → read other (write addr value v).1 ≡ read other v
unfolding read write
unsupported_write addr other value v h = ground (arith, h)

-- A write that would not change the register reads everywhere as before.
same_write :
    (addr other value : ℕ) (v : VideoController)
    → is_supported (addr % 2 ^ 14) ≡ true
    → read addr v ≡ value
    → read other (write addr value v).1 ≡ read other v
same_write addr other value v h e = elim (Bool-cases (is_same addr other)) [
  | inl s ↦ read-write addr other value v h ∙ rw s (sym e ∙ same_read addr other v s)
  | inr s ↦ read-write addr other value v h ∙ rw s refl
]

-- A write calls for the whole picture to be drawn again exactly when it changes what can be read: if
-- it calls for it, the address reads differently after the write, and if not, every address reads as
-- before.
pub write_damages :
    (addr value : ℕ) (v : VideoController)
    → ((write addr value v).0 ≡ true → read addr (write addr value v).1 ≢ read addr v)
      × ((write addr value v).0 ≡ false
          → (other : ℕ) → read other (write addr value v).1 ≡ read other v)
unfolding write
write_damages addr value v = (
  λ h.
      let differs : (read addr v == value) ≡ false = ground (arith, h) in
      let there : is_supported (addr % 2 ^ 14) ≡ true = ground (arith, h) in
      let self : is_same addr addr ≡ true = ground arith in
      let now : read addr (write addr value v).1 ≡ value =
        read-write addr addr value v there ∙ rw self refl in
      λ e. absurd (ground (arith, differs, now, e)),
  λ h other. elim (Bool-cases (is_supported (addr % 2 ^ 14))) [
    | inl s ↦ same_write addr other value v s (ground (arith, h, s))
    | inr s ↦ unsupported_write addr other value v s
  ],
)
