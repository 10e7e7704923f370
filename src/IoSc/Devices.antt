-- ===== src/IoSc/Devices.antt =====
-- The status and enable bits of the devices.
use x68k_stackchan.Base.{
  ℕ, ◌+◌, ◌*◌, ◌/◌, ◌%◌, ◌<◌, ◌≡◌, refl, Bool, true, false, ◌&&◌, arith, ltb, ◌==◌, bool_eq,
  bool_eq-eq, &&-true, ltb→lt, if◌then◌else◌, bit_and,
}
use x68k_stackchan.Base.Bits.{all_below, all_below_sound, bit_or_disjoint}
use x68k_stackchan.IoSc.{
  IoSc, read, write, set_source, set_fdc_line, source_status, device_fdc, is_asserted,
}

halves : ℕ → Bool
halves x = bit_and x 0xF0 == x / 16 * 16 && bit_and x 0x0F == x % 16

halves_table : all_below 256 halves ≡ true
unfolding all_below halves
halves_table = refl

pub halves_lem : (x : ℕ) → x < 256 → (bit_and x 0xF0 ≡ x / 16 * 16) × (bit_and x 0x0F ≡ x % 16)
halves_lem x h =
    let e : halves x ≡ true = all_below_sound 256 halves x halves_table h in
    unfold halves in ground arith

-- What software reads at $E9C001 after writing a byte there has the devices' status (a byte) in the
-- upper half, whatever was written, and the low half of the value written; the status and the vector
-- stay.
pub read-write_enable :
    (offset value : ℕ) (c : IoSc)
    → c.status < 256
    → value < 256
    → offset % 16 ≡ 1
    → (read offset (write offset value c) ≡ c.status / 16 * 16 + value % 16)
      × ((write offset value c).status ≡ c.status)
      × ((write offset value c).vector ≡ c.vector)
unfolding read write
read-write_enable offset value c hs hv e = (
  ground (
    arith,
    halves_lem c.status hs,
    halves_lem value hv,
    halves_lem (value % 16),
    bit_or_disjoint 4 (c.status / 16) (value % 16),
  ),
  ground arith,
  ground arith,
)

sets : Bool → ℕ → ℕ → ℕ → Bool
sets b device other status =
    bool_eq (is_asserted (source_status device b status) other)
      (if device == other then b else is_asserted status other)
    && ltb (source_status device b status) 256

sets_table : (b : Bool) → all_below 3 (λ d. all_below 3 (λ o. all_below 256 (sets b d o))) ≡ true
unfolding all_below sets
sets_table true = refl
sets_table false = refl

-- A device other than the printer that raises or drops its line changes the status bit of that
-- device to the new level and of no other, and keeps `status` a byte and the enable bits and vector
-- as they were (`status` was a byte).
pub set_source_lem :
    (device other : ℕ) (b : Bool) (c : IoSc)
    → device < 3
    → other < 3
    → c.status < 256
    → (is_asserted (set_source device b c).status other
        ≡ (if device == other then b else is_asserted c.status other))
      × ((set_source device b c).status < 256)
      × ((set_source device b c).enable ≡ c.enable)
      × ((set_source device b c).vector ≡ c.vector)
unfolding set_source sets
set_source_lem device other b c p q h =
    let d =
      all_below_sound 3 (λ d. all_below 3 (λ o. all_below 256 (sets b d o))) device (sets_table b)
        p in
    let o = all_below_sound 3 (λ o. all_below 256 (sets b device o)) other d q in
    let e : sets b device other c.status ≡ true =
      all_below_sound 256 (sets b device other) c.status o h in
    let both = &&-true _ _ e in (bool_eq-eq _ _ both.0, ltb→lt _ _ both.1, refl, refl)

-- The inlined FDC line is `set_source` of the FDC.
pub set_fdc_line-eq-set_source :
    (b : Bool) (c : IoSc) → set_fdc_line b c ≡ set_source device_fdc b c
unfolding set_fdc_line set_source
set_fdc_line-eq-set_source true c = refl
set_fdc_line-eq-set_source false c = refl
