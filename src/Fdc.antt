-- ===== src/Fdc.antt =====
-- src/x68k/core/dev/fdc.{h,cpp}: the floppy controller uPD72065, its state and what reads it.
pub mod Format
pub mod Transfer
pub mod Command
pub mod Inv
pub mod Sectors
pub mod Overrun
pub mod Reading
pub mod Dma
pub mod Detect
pub mod Writing
pub mod Begin
mod Tests
use x68k_stackchan.Base.{
  ℕ, ◌+◌, ◌*◌, ◌/◌, ◌%◌, ◌^◌, Bool, true, false, ◌&&◌, ◌||◌, not, ltb, leb, ◌==◌, if◌then◌else◌,
  bit_and, bit_or, any_bit, u8, update, Option, some, none,
}

pub record FloppyGeometry : Type 0 where
  pub cylinders : ℕ
  pub heads : ℕ
  pub sectors_per_track : ℕ
  pub sector_size : ℕ

-- `FloppyImage`, of which the controller knows the interface only: `Disk` is the state of all the
-- images, and an image is named by its address. A sector is read into a buffer, which a failure may
-- change too.
pub record Disks : Type 1 where
  pub Disk : Type 0
  pub read_sector : ℕ → ℕ → ℕ → ℕ → (ℕ → ℕ) → Disk → Bool × (ℕ → ℕ) × Disk
  pub write_sector : ℕ → ℕ → ℕ → ℕ → (ℕ → ℕ) → Disk → Bool × Disk
  pub is_present : ℕ → Disk → Bool
  pub is_write_protected : ℕ → Disk → Bool
  pub geometry : ℕ → Disk → FloppyGeometry

pub data Phase : Type 0 where
  command : Phase
  execute : Phase
  result : Phase

-- `Transfer::None`, `Read` and `Write`.
pub data Direction : Type 0 where
  idle : Direction
  reading : Direction
  writing : Direction

-- The members. `overrun` is not one of them: it says that the code has written outside
-- `presentCylinder_`, or that an image has read a sector into `sectorBuffer_` that is longer than it;
-- after either the source gives the state no meaning.
pub record Fdc : Type 0 where
  pub phase : Phase
  pub command_bytes : ℕ → ℕ
  pub command_length : ℕ
  pub command_expected : ℕ
  pub result_bytes : ℕ → ℕ
  pub result_length : ℕ
  pub result_pos : ℕ
  pub interrupt_pending : Bool
  pub selected_drive : ℕ
  pub present_cylinder : ℕ → ℕ
  pub pending_st0 : ℕ
  pub interrupt_drive : ℕ
  pub images : ℕ → Option ℕ
  pub direction : Direction
  pub current_cylinder : ℕ
  pub current_head : ℕ
  pub current_record : ℕ
  pub current_n : ℕ
  pub end_of_track : ℕ
  pub multi_track : Bool
  pub sector_buffer : ℕ → ℕ
  pub sector_bytes : ℕ
  pub sector_pos : ℕ
  pub overrun : Bool

abbrev pub drive_count : ℕ
drive_count = 2

abbrev pub max_sector_size : ℕ
max_sector_size = 1024

abbrev pub command_size : ℕ
command_size = 9

abbrev pub status_rqm : ℕ
status_rqm = 0x80

abbrev pub status_dio : ℕ
status_dio = 0x40

abbrev pub status_cb : ℕ
status_cb = 0x10

abbrev pub cmd_specify : ℕ
cmd_specify = 0x03

abbrev pub cmd_sense_drive_status : ℕ
cmd_sense_drive_status = 0x04

abbrev pub cmd_recalibrate : ℕ
cmd_recalibrate = 0x07

abbrev pub cmd_sense_interrupt_status : ℕ
cmd_sense_interrupt_status = 0x08

abbrev pub cmd_seek : ℕ
cmd_seek = 0x0F

abbrev pub cmd_read_id : ℕ
cmd_read_id = 0x0A

abbrev pub cmd_write_id : ℕ
cmd_write_id = 0x0D

abbrev pub cmd_read_track : ℕ
cmd_read_track = 0x02

abbrev pub cmd_write_data : ℕ
cmd_write_data = 0x05

abbrev pub cmd_read_data : ℕ
cmd_read_data = 0x06

abbrev pub cmd_write_deleted : ℕ
cmd_write_deleted = 0x09

abbrev pub cmd_read_deleted : ℕ
cmd_read_deleted = 0x0C

abbrev pub cmd_flag_multi_track : ℕ
cmd_flag_multi_track = 0x80

abbrev pub st0_abnormal_termination : ℕ
st0_abnormal_termination = 0x40

abbrev pub st0_invalid_command : ℕ
st0_invalid_command = 0x80

abbrev pub st0_equipment_check : ℕ
st0_equipment_check = 0x10

abbrev pub st0_seek_end : ℕ
st0_seek_end = 0x20

abbrev pub st0_not_ready : ℕ
st0_not_ready = 0x08

abbrev pub st1_end_of_cylinder : ℕ
st1_end_of_cylinder = 0x80

abbrev pub st1_not_writable : ℕ
st1_not_writable = 0x02

abbrev pub st3_ready : ℕ
st3_ready = 0x20

abbrev pub st3_write_protected : ℕ
st3_write_protected = 0x40

abbrev pub st3_track0 : ℕ
st3_track0 = 0x10

abbrev pub st3_two_side : ℕ
st3_two_side = 0x08

abbrev pub st3_head_address : ℕ
st3_head_address = 0x04

-- `n & 0x07` is a remainder, here and in the other masks of low bits.
abbrev pub sector_size_from_n : ℕ → ℕ
sector_size_from_n n = 128 * 2 ^ (n % 8)

-- `reset()`; the images and the sector buffer stay.
unfoldable pub reset : Fdc → Fdc
reset f = record f {
  phase = command;
  command_bytes = λ i. 0;
  command_length = 0;
  command_expected = 0;
  result_bytes = λ i. 0;
  result_length = 0;
  result_pos = 0;
  interrupt_pending = false;
  selected_drive = 0;
  present_cylinder = λ drive. 0;
  pending_st0 = 0;
  interrupt_drive = 0;
  direction = idle;
  current_cylinder = 0;
  current_head = 0;
  current_record = 0;
  current_n = 0;
  end_of_track = 0;
  multi_track = false;
  sector_bytes = 0;
  sector_pos = 0;
}

unfoldable pub set_image : ℕ → Option ℕ → Fdc → Fdc
set_image drive image f =
    if leb drive_count drive then f else record f { images = update f.images drive image }

abbrev pub image_of : ℕ → Fdc → Option ℕ
image_of drive f = if leb drive_count drive then none else f.images drive

-- The number of parameters of a command, by its opcode.
unfoldable pub parameter_count : ℕ → ℕ
parameter_count command_byte =
    let opcode = command_byte % 2 ^ 5 in
    if opcode == cmd_specify
    then 2
    else if opcode == cmd_sense_drive_status || opcode == cmd_recalibrate || opcode == cmd_read_id
    then 1
    else if opcode == cmd_sense_interrupt_status
    then 0
    else if opcode == cmd_seek
    then 2
    else if opcode == cmd_write_id
    then 5
    else if opcode == cmd_read_track
        || opcode == cmd_write_data
        || opcode == cmd_read_data
        || opcode == cmd_write_deleted
        || opcode == cmd_read_deleted
    then 8
    else 0

abbrev pub status_of : Phase → Direction → ℕ → ℕ
status_of command direction length =
    if ltb 0 length then bit_or status_rqm status_cb else status_rqm
status_of execute reading length = bit_or (bit_or status_rqm status_cb) status_dio
status_of execute idle length = bit_or status_rqm status_cb
status_of execute writing length = bit_or status_rqm status_cb
status_of result direction length = bit_or (bit_or status_rqm status_dio) status_cb

unfoldable pub read_status : Fdc → ℕ
read_status f = status_of f.phase f.direction f.command_length

-- `writeDriveControl` and `writeDriveSelect`.
unfoldable pub write_drive_control : ℕ → Fdc → Fdc
write_drive_control value f = record f { selected_drive = value % 4 }

unfoldable pub write_drive_select : ℕ → Fdc → Fdc
write_drive_select value f = record f { selected_drive = value % 4 }

unfoldable pub unit_select : Fdc → ℕ
unit_select f = bit_or ((f.current_head % 2) * 4) (f.selected_drive % 4)

-- A write of `presentCylinder_[drive]`.
abbrev pub put_cylinder : ℕ → ℕ → Fdc → Fdc
put_cylinder drive value f =
    if ltb drive drive_count
    then record f { present_cylinder = update f.present_cylinder drive value }
    else record f { overrun = true }

-- ST0 for an end by an error, with no other cause than `cause`.
abbrev pub abnormal : ℕ → Fdc → ℕ
abnormal cause f = bit_or (bit_or st0_abnormal_termination cause) (unit_select f)
