-- ===== src/Dmac.antt =====
-- src/x68k/core/dev/dmac.{h,cpp}: the DMA controller HD63450.
pub mod Loop
pub mod Cut
pub mod Transfer
pub mod Stream
mod Tests
use x68k_stackchan.Base.{
  ℕ, zero, suc, ◌+◌, ◌-◌, ◌*◌, ◌/◌, ◌%◌, ◌^◌, Bool, true, false, ◌&&◌, not, leb, ◌==◌,
  if◌then◌else◌, bit_and, bit_or, clear8, any_bit, u8, u32, sub32, update, Option, some, none,
}

-- What is wired to the controller: the devices of the channels, the memory and the monitor, with the
-- state that their calls share. `dma_read` answers whether it has a byte, and the byte; `report` is
-- the monitor's `completed`, without the time that it is given, or nothing.
pub record Wiring : Type 1 where
  pub W : Type 0
  pub has_device : ℕ → Bool
  pub has_memory : Bool
  pub dma_read : ℕ → W → Bool × ℕ × W
  pub dma_write : ℕ → ℕ → W → Bool × W
  pub try_read_to_memory : ℕ → ℕ → ℕ → W → ℕ × W
  pub dma_complete : ℕ → Bool → W → W
  pub mem_read : ℕ → W → ℕ × W
  pub mem_write : ℕ → ℕ → W → W
  pub report : ℕ → ℕ → ℕ → W → W

-- `channels_`: a register of a channel.
pub record Dmac : Type 0 where
  pub channels : ℕ → ℕ → ℕ

abbrev pub channel_stride : ℕ
channel_stride = 0x40

abbrev pub channel_count : ℕ
channel_count = 4

abbrev pub reg_csr : ℕ
reg_csr = 0x00

abbrev pub reg_cer : ℕ
reg_cer = 0x01

abbrev pub reg_ocr : ℕ
reg_ocr = 0x05

abbrev pub reg_ccr : ℕ
reg_ccr = 0x07

abbrev pub reg_mtc : ℕ
reg_mtc = 0x0A

abbrev pub reg_mar : ℕ
reg_mar = 0x0C

abbrev pub csr_complete : ℕ
csr_complete = 0x80

abbrev pub csr_active : ℕ
csr_active = 0x08

abbrev pub csr_error : ℕ
csr_error = 0x10

abbrev pub cer_bus_error_device : ℕ
cer_bus_error_device = 0x0A

abbrev pub ocr_direction_to_memory : ℕ
ocr_direction_to_memory = 0x80

abbrev pub ccr_start : ℕ
ccr_start = 0x80

abbrev pub reset : Dmac
reset = record { channels = λ channel reg. 0 }

unfoldable pub read : ℕ → Dmac → ℕ
read offset d =
    let channel = offset / channel_stride in
    if leb channel_count channel then 0 else d.channels channel (offset % channel_stride)

abbrev pub set_reg : ℕ → ℕ → ℕ → Dmac → Dmac
set_reg channel reg value d = record {
  channels = update d.channels channel (update (d.channels channel) reg value);
}

-- The big-endian registers MAR and MTC.
abbrev pub address_of : (ℕ → ℕ) → ℕ
address_of regs =
    regs reg_mar * 2 ^ 24
    + regs (reg_mar + 1) * 2 ^ 16
    + regs (reg_mar + 2) * 2 ^ 8
    + regs (reg_mar + 3)

abbrev pub count_of : (ℕ → ℕ) → ℕ
count_of regs = regs reg_mtc * 2 ^ 8 + regs (reg_mtc + 1)

-- The count that the register asks for: 0 stands for 65536.
abbrev pub requested_of : (ℕ → ℕ) → ℕ
requested_of regs = if count_of regs == 0 then 0x10000 else count_of regs

abbrev pub put_address : ℕ → (ℕ → ℕ) → ℕ → ℕ
put_address addr regs =
    update
      (update (update (update regs reg_mar (u8 (addr / 2 ^ 24))) (reg_mar + 1) (u8 (addr / 2 ^ 16)))
        (reg_mar + 2) (u8 (addr / 2 ^ 8)))
      (reg_mar + 3) (u8 addr)

abbrev pub put_count : ℕ → (ℕ → ℕ) → ℕ → ℕ
put_count count regs = update (update regs reg_mtc (u8 (count / 2 ^ 8))) (reg_mtc + 1) (u8 count)

-- The status at the end of a transfer.
abbrev pub put_status : Bool → (ℕ → ℕ) → ℕ → ℕ
put_status complete regs =
    let csr = regs reg_csr in
    let marked =
      if complete
      then update regs reg_csr (bit_or csr csr_complete)
      else update (update regs reg_csr (bit_or csr csr_error)) reg_cer cer_bus_error_device in
    update marked reg_csr (clear8 (marked reg_csr) csr_active)

module _ (wiring : Wiring) where
  open wiring use {
    W, has_device, has_memory, dma_read, dma_write, try_read_to_memory, dma_complete, mem_read,
    mem_write, report,
  }

  -- The loop of `runTransfer`: the address, the count that is left and the wiring's state.
  unfoldable pub to_device_loop : ℕ → ℕ → ℕ → W → ℕ × ℕ × W
  to_device_loop channel zero addr w = (addr, 0, w)
  to_device_loop channel (suc count) addr w =
      let (value, w1) = mem_read addr w in
      let (taken, w2) = dma_write channel value w1 in
      let rest = to_device_loop channel count (u32 (addr + 1)) w2 in
      if taken then rest else (addr, suc count, w2)

  unfoldable pub to_memory_loop : ℕ → ℕ → ℕ → W → ℕ × ℕ × W
  to_memory_loop channel zero addr w = (addr, 0, w)
  to_memory_loop channel (suc count) addr w =
      let (given, value, w1) = dma_read channel w in
      let rest = to_memory_loop channel count (u32 (addr + 1)) (mem_write addr value w1) in
      if given then rest else (addr, suc count, w1)

  unfoldable pub transfer : Bool → ℕ → ℕ → ℕ → W → ℕ × ℕ × W
  transfer to_device channel count addr w =
      let (block, w1) = try_read_to_memory channel addr count w in
      if to_device
      then to_device_loop channel count addr w
      else to_memory_loop channel (sub32 count block) (u32 (addr + block)) w1

  unfoldable pub run_transfer : ℕ → Dmac × W → Dmac × W
  run_transfer channel (d, w) =
      let regs = d.channels channel in
      let requested = requested_of regs in
      let to_device = not (any_bit (regs reg_ocr) ocr_direction_to_memory) in
      let (addr, count, w1) = transfer to_device channel requested (address_of regs) w in
      let complete = count == 0 in
      if not (has_device channel && has_memory) then (d, w) else (
        record {
          channels =
              update d.channels channel
                (put_status complete (put_count count (put_address addr regs)));
        },
        report channel requested count (dma_complete channel complete w1),
      )

  unfoldable pub write : ℕ → ℕ → Dmac × W → Dmac × W
  write offset value (d, w) =
      let channel = offset / channel_stride in
      let reg = offset % channel_stride in
      let stored = set_reg channel reg value d in
      if leb channel_count channel
      then (d, w)
      else if reg == reg_csr
      then (set_reg channel reg_csr (clear8 (d.channels channel reg_csr) value) d, w)
      else if reg == reg_ccr && any_bit value ccr_start
      then run_transfer channel (stored, w)
      else (stored, w)
