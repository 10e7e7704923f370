-- ===== src/Mfp/Interrupt.antt =====
-- src/x68k/core/dev/mfp.{h,cpp}: the interrupts' sources, their blocking and their acknowledgement.
use x68k_stackchan.Base.{
  ℕ, zero, suc, ◌+◌, ◌^◌, Bool, true, false, not, ◌==◌, bool_eq, if◌then◌else◌, bit_and, bit_or,
  clear8, any_bit, Option, some, none,
}
use x68k_stackchan.Mfp.Reg
use x68k_stackchan.Mfp.{Mfp, vr_software_eoi, set_reg, raise}

unfoldable pub set_vertical_blank : Bool → Mfp → Mfp
set_vertical_blank active m =
    let before = m.reg Reg.gpip in
    let after = if active then clear8 before 0x10 else bit_or before 0x10 in
    let changed = set_reg Reg.gpip after m in
    let rising_wanted = any_bit (m.reg Reg.aer) 0x10 in
    if after == before
    then changed
    else if bool_eq (any_bit after 0x10) rising_wanted
    then raise false 0x40 changed
    else changed

unfoldable pub receive_keyboard_byte : ℕ → Mfp → Mfp
receive_keyboard_byte value m =
    let stored = set_reg Reg.udr value m in
    raise true 0x10 (set_reg Reg.rsr (bit_or (stored.reg Reg.rsr) 0x80) stored)

-- The loop of `serviceBlockMask` from the bit below `left` downwards.
unfoldable pub allowed_above : ℕ → ℕ → ℕ → ℕ
allowed_above zero serviced allowed = allowed
allowed_above (suc bit) serviced allowed =
    let rest = allowed_above bit serviced (bit_or allowed (2 ^ bit)) in
    if any_bit serviced (2 ^ bit) then allowed else rest

abbrev pub block_mask : Bool → ℕ → ℕ → ℕ
block_mask group_a isr_a isr_b =
    let serviced_in_a = not (isr_a == 0) in
    if bit_or isr_a isr_b == 0
    then 0xFF
    else if not (bool_eq group_a serviced_in_a)
    then (if group_a then 0xFF else 0x00)
    else allowed_above 8 (if serviced_in_a then isr_a else isr_b) 0

unfoldable pub service_block_mask : Bool → Mfp → ℕ
service_block_mask group_a m = block_mask group_a (m.reg Reg.isra) (m.reg Reg.isrb)

-- `pendingA` and `pendingB`.
unfoldable pub pending_a : Mfp → ℕ
pending_a m = bit_and (bit_and (m.reg Reg.ipra) (m.reg Reg.imra)) (service_block_mask true m)

unfoldable pub pending_b : Mfp → ℕ
pending_b m = bit_and (bit_and (m.reg Reg.iprb) (m.reg Reg.imrb)) (service_block_mask false m)

abbrev pub has_pending_interrupt_blocked : Mfp → Bool
has_pending_interrupt_blocked m = not (bit_or (pending_a m) (pending_b m) == 0)

unfoldable pub has_pending_interrupt : Mfp → Bool
has_pending_interrupt m =
    let any_pending =
      bit_or (bit_and (m.reg Reg.ipra) (m.reg Reg.imra))
        (bit_and (m.reg Reg.iprb) (m.reg Reg.imrb)) in
    if any_pending == 0 then false else has_pending_interrupt_blocked m

-- The bit at which a loop of `acknowledgeInterrupt` takes an interrupt, from below `left` downwards.
unfoldable pub highest : ℕ → ℕ → Option ℕ
highest zero pending = none
highest (suc bit) pending =
    let rest = highest bit pending in if any_bit pending (2 ^ bit) then some bit else rest

-- What a loop does at that bit; `number` is the interrupt's.
unfoldable pub accept : ℕ → ℕ → ℕ → ℕ → Mfp → ℕ × Mfp
accept pending in_service bit number m =
    let taken = set_reg pending (clear8 (m.reg pending) (2 ^ bit)) m in
    let served =
      if any_bit (m.reg Reg.vr) vr_software_eoi
      then set_reg in_service (bit_or (taken.reg in_service) (2 ^ bit)) taken
      else taken in
    (bit_or (bit_and (m.reg Reg.vr) 0xF0) number, served)

unfoldable pub acknowledge_from : Option ℕ → Option ℕ → Mfp → ℕ × Mfp
acknowledge_from (some bit) b m = accept Reg.ipra Reg.isra bit (bit + 8) m
acknowledge_from none (some bit) m = accept Reg.iprb Reg.isrb bit bit m
acknowledge_from none none m = (0, m)

unfoldable pub acknowledge_interrupt : Mfp → ℕ × Mfp
acknowledge_interrupt m = acknowledge_from (highest 8 (pending_a m)) (highest 8 (pending_b m)) m
