-- ===== src/Fdc/Tests.antt =====
-- A disk whose bytes say where they stand, and commands on it.
use x68k_stackchan.Base.{
  ℕ, ◌+◌, ◌*◌, ◌%◌, ◌^◌, ◌<◌, ◌≡◌, refl, arith, true, false, ◌&&◌, ◌||◌, ltb, leb, ◌==◌,
  if◌then◌else◌, some, none, [], ◌∷◌,
}
use x68k_stackchan.Dmac.{Dmac, run_transfer, address_of, reg_ocr, reg_mtc, reg_mar}
use x68k_stackchan.Fdc.{
  Disks, Fdc, reset, command, execute, idle, reading, writing, drive_count, cmd_recalibrate,
  unit_select,
}
use x68k_stackchan.Fdc.Format.{detect_floppy_format}
use x68k_stackchan.Fdc.Transfer.{
  World, addressed, advance_sector, begin_read_write, current_image, dma_complete, dma_read,
  dma_write, finish_execute, store_current_sector, with_fdc,
}
use x68k_stackchan.Fdc.Command.{execute_command}
use x68k_stackchan.Fdc.Inv.{IsValid}
use x68k_stackchan.Fdc.Inv.Run.{inserts, reads, writes, gives, completes, serve, serve-IsValid}
use x68k_stackchan.Fdc.Overrun.{execute_command-overrun}
use x68k_stackchan.Fdc.Sectors.{onward, spot}
use x68k_stackchan.Fdc.Reading.{IsReading, read_into, loaded_at}
use x68k_stackchan.Fdc.Dma.{floppy, run_transfer-contents}
use x68k_stackchan.Fdc.Detect.{IsOf, detect_floppy_format-IsOf}
use x68k_stackchan.Fdc.Writing.{IsWriting, takes, partly, filled, dma_write-stored}
use x68k_stackchan.Fdc.Begin.{Began, begin_read_write-Began}

-- The side, the number and the place of a byte make it up.
abbrev mark : ℕ → ℕ → ℕ → ℕ
mark head number i = head * 100 + number * 10 + i

-- The disks are the last sector that was written. As the images of the program do, they refuse a sector
-- that is not in their geometry.
abbrev plain : Disks
plain = record {
  Disk = ℕ → ℕ;
  read_sector = λ image c h r buffer d.
      if (ltb c 77 && ltb h 2) && (ltb 0 r && leb r 8)
      then (true, read_into 1024 (mark h r) buffer, d)
      else (false, buffer, d);
  write_sector = λ image c h r buffer d. (true, buffer);
  is_present = λ image d. true;
  is_write_protected = λ image d. false;
  geometry =
      λ image d. record { cylinders = 77; heads = 2; sectors_per_track = 8; sector_size = 1024 };
}

abbrev bare : Fdc
bare = record {
  phase = command;
  command_bytes = λ i. 0;
  command_length = 0;
  command_expected = 0;
  result_bytes = λ i. 0;
  result_length = 0;
  result_pos = 0;
  interrupt_pending = false;
  selected_drive = 0;
  present_cylinder = λ drive. 0;
  pending_st0 = 0;
  interrupt_drive = 0;
  images = λ drive. some 7;
  direction = idle;
  current_cylinder = 0;
  current_head = 0;
  current_record = 0;
  current_n = 0;
  end_of_track = 0;
  multi_track = false;
  sector_buffer = λ i. 0;
  sector_bytes = 0;
  sector_pos = 0;
  overrun = false;
}

abbrev blank : ℕ → ℕ
blank a = 0

-- READ DATA of cylinder 0, side 0, from sector 7 up to 8, of both sides.
abbrev asked : Fdc
asked = record bare {
  phase = execute;
  direction = reading;
  multi_track = true;
  current_record = 7;
  current_n = 3;
  end_of_track = 8;
  sector_bytes = 1024;
}

asked-IsReading : IsReading plain mark 7 asked blank
unfolding current_image
asked-IsReading = record {
  runs = refl;
  reads = refl;
  sized = omega arith;
  fits = omega arith;
  side = omega arith;
  first = omega arith;
  ordered = omega arith;
  byte = omega arith;
  present = refl;
  holds = λ head number buffer s f l.
      let ok : ((true && ltb head 2) && (ltb 0 number && leb number 8)) ≡ true =
        ground (arith, s, f, l) in
      rw ok refl;
}

abbrev set_up : Dmac
set_up = record {
  channels = λ channel reg.
      if reg == reg_ocr
      then 0xB2
      else if reg == reg_mtc
      then 0x10
      else if reg == reg_mar + 2
      then 0x20
      else 0;
}

-- The third sector is sector 1 of side 1.
run_transfer-contents_example :
    (run_transfer
        (floppy plain)
        0
        (set_up, (loaded_at plain mark 7 asked blank asked-IsReading 0 7 0, blank))).1.1
      (address_of (set_up.channels 0) + (2 * 1024 + 5))
    ≡ mark 1 1 5
run_transfer-contents_example =
    run_transfer-contents plain mark 7 asked blank asked-IsReading 0 2 5 1 1 set_up blank refl
      (omega arith) (omega arith) refl (omega arith) (omega arith)

after_last : spot (onward 10 (some asked)) ≡ none
unfolding advance_sector
after_last = refl

abbrev given : Fdc
given = record bare {
  phase = execute;
  direction = writing;
  current_record = 1;
  current_n = 3;
  end_of_track = 8;
  sector_bytes = 1024;
}

given-IsWriting : IsWriting plain 7 given blank
unfolding current_image
given-IsWriting = record {
  runs = refl;
  writes = refl;
  sized = omega arith;
  fits = omega arith;
  present = refl;
}

dma_write-stored_example :
    ((n : ℕ)
      → n < 1024
      → (takes plain (mark 0 1) n (partly plain (mark 0 1) 7 given blank given-IsWriting 0)).disk
        ≡ blank)
    × ((takes plain (mark 0 1) 1024 (partly plain (mark 0 1) 7 given blank given-IsWriting 0)).disk
        ≡ filled blank 1024 (mark 0 1))
    × ((i : ℕ) → i < 1024 → filled blank 1024 (mark 0 1) i ≡ mark 0 1 i)
dma_write-stored_example = dma_write-stored plain (mark 0 1) 7 given blank given-IsWriting

-- Recalibrate of unit 2.
abbrev third : World plain
third = record {
  fdc = record bare {
    command_bytes = λ i. if i == 0 then 7 else if i == 1 then 2 else 0;
    command_length = 2;
    command_expected = 2;
  };
  disk = blank;
}

execute_command-overrun_example : (execute_command plain third).fdc.overrun ≡ (
    false
    || (third.fdc.command_bytes 0 % 2 ^ 5 == cmd_recalibrate
        && leb drive_count (third.fdc.command_bytes 1 % 4)))
execute_command-overrun_example = execute_command-overrun plain third

-- READ DATA of cylinder 1, where the head is not.
abbrev elsewhere : World plain
elsewhere = record {
  fdc = record bare {
    command_bytes = λ i. if i == 0 then 0x46 else if i == 2 then 1 else if i == 5 then 3 else i;
  };
  disk = blank;
}

begin_read_write-Began_example :
    Began plain false
      (addressed elsewhere.fdc)
      blank
      (current_image plain (record { fdc = addressed elsewhere.fdc; disk = blank }))
      (begin_read_write plain false elsewhere)
begin_read_write-Began_example = begin_read_write-Began plain false elsewhere

detect_floppy_format-IsOf_example : IsOf 1261824 (detect_floppy_format 1261824)
detect_floppy_format-IsOf_example = detect_floppy_format-IsOf 1261824

serve-IsValid_example :
    IsValid
      (serve plain
        (inserts 0 (some 7) ∷ writes 0x08 ∷ reads ∷ gives ∷ completes true ∷ [])
        (with_fdc plain (reset third.fdc) third)).fdc
serve-IsValid_example =
    serve-IsValid plain (inserts 0 (some 7) ∷ writes 0x08 ∷ reads ∷ gives ∷ completes true ∷ [])
      third

abbrev last_to_write : World plain
last_to_write = record {
  fdc = record given { current_record = 8; sector_pos = 1023 };
  disk = blank;
}

abbrev last_to_read : World plain
last_to_read = record {
  fdc = record asked { multi_track = false; current_record = 8; sector_pos = 1023 };
  disk = blank;
}

-- A transfer of the last sector to its end, which the DMA controller then reports as complete: a write
-- has ended abnormally, and a read ends normally.
write_of_last : (dma_complete plain true (dma_write plain 0 last_to_write).1).fdc.pending_st0 ≡ 0x40
unfolding dma_write dma_complete store_current_sector current_image advance_sector finish_execute
    unit_select
write_of_last = refl

read_of_last : (dma_complete plain true (dma_read plain last_to_read).2).fdc.pending_st0 ≡ 0
unfolding dma_read dma_complete finish_execute unit_select
read_of_last = refl
