-- ===== src/IoSc.antt =====
-- src/x68k/core/dev/iosc.{h,cpp}: the I/O interrupt controller.
pub mod Devices
pub mod Pending
mod Tests
use x68k_stackchan.Base.{
  ℕ, zero, suc, ◌+◌, ◌%◌, Bool, true, false, ◌&&◌, ◌||◌, ltb, ◌==◌, if◌then◌else◌, bit_and, bit_or,
  clear8, any_bit, Option, some, none,
}

-- `enable_` ($E9C001, low half), `status_` (high half) and `vector_` ($E9C003).
pub record IoSc : Type 0 where
  pub enable : ℕ
  pub status : ℕ
  pub vector : ℕ

abbrev pub device_fdc : ℕ
device_fdc = 0

abbrev pub device_fdd : ℕ
device_fdd = 1

abbrev pub device_hdd : ℕ
device_hdd = 2

abbrev pub device_printer : ℕ
device_printer = 3

abbrev pub enable_mask_of : ℕ → ℕ
enable_mask_of device =
    if device == device_fdc
    then 0x04
    else if device == device_fdd
    then 0x02
    else if device == device_hdd
    then 0x08
    else if device == device_printer
    then 0x01
    else 0

abbrev pub status_mask_of : ℕ → ℕ
status_mask_of device =
    if device == device_fdc
    then 0x80
    else if device == device_fdd
    then 0x40
    else if device == device_hdd
    then 0x10
    else 0

abbrev pub reset : IoSc
reset = record { enable = 0; status = 0; vector = 0 }

-- Only the low four address bits select; 1 is `kRegEnable`, 3 is `kRegVector`.
unfoldable pub read : ℕ → IoSc → ℕ
read offset c =
    let reg = offset % 16 in
    if reg == 1
    then bit_or (bit_and c.status 0xF0) (bit_and c.enable 0x0F)
    else if reg == 3
    then c.vector
    else 0

unfoldable pub write : ℕ → ℕ → IoSc → IoSc
write offset value c =
    let reg = offset % 16 in
    if reg == 1
    then record c { enable = bit_and value 0x0F }
    else if reg == 3
    then record c { vector = value }
    else c

-- The new `status_` of `setSource`; a device with no status bit changes nothing.
abbrev pub source_status : ℕ → Bool → ℕ → ℕ
source_status device asserted status =
    let mask = status_mask_of device in
    if mask == 0 then status else if asserted then bit_or status mask else clear8 status mask

unfoldable pub set_source : ℕ → Bool → IoSc → IoSc
set_source device asserted c = record c { status = source_status device asserted c.status }

unfoldable pub set_fdc_line : Bool → IoSc → IoSc
set_fdc_line asserted c =
    if asserted
    then record c { status = bit_or c.status 0x80 }
    else record c { status = clear8 c.status 0x80 }

-- The tests of `pendingDevice()`'s loop for one device.
abbrev pub is_enabled : ℕ → ℕ → Bool
is_enabled enable device = any_bit enable (enable_mask_of device)

abbrev pub is_asserted : ℕ → ℕ → Bool
is_asserted status device = ltb 0 (status_mask_of device) && any_bit status (status_mask_of device)

-- The loop from device `i` on, with `left` devices to go; `none` is -1.
unfoldable pub pending_from : IoSc → ℕ → ℕ → Option ℕ
pending_from c zero i = none
pending_from c (suc left) i =
    let rest = pending_from c left (i + 1) in
    if is_enabled c.enable i && is_asserted c.status i then some i else rest

unfoldable pub pending_device : IoSc → Option ℕ
unfolding pending_from
pending_device c = pending_from c 4 0

unfoldable pub has_pending_interrupt : IoSc → Bool
has_pending_interrupt c =
    let fdc = any_bit c.enable 0x04 && any_bit c.status 0x80 in
    let fdd = any_bit c.enable 0x02 && any_bit c.status 0x40 in
    let hdd = any_bit c.enable 0x08 && any_bit c.status 0x10 in fdc || fdd || hdd

abbrev pub vector_of : IoSc → Option ℕ → ℕ
vector_of c none = 0
vector_of c (some device) =
    if c.vector == 0 then 0 else bit_or (bit_and c.vector 0xFC) (bit_and device 0x03)

unfoldable pub acknowledge_interrupt : IoSc → ℕ
unfolding pending_device
acknowledge_interrupt c = vector_of c (pending_device c)
