-- ===== src/Fdc/Transfer.antt =====
-- src/x68k/core/dev/fdc.cpp, the transfer of sectors: beginReadWrite, dmaRead, dmaWrite and what they use.
use x68k_stackchan.Base.{
  ℕ, ◌+◌, ◌/◌, ◌%◌, Bool, true, false, ◌&&◌, ◌||◌, not, ltb, leb, ◌==◌, if◌then◌else◌, any_bit, u8,
  update, Option, some, none,
}
use x68k_stackchan.Fdc.{
  Disks, Fdc, Phase, command, execute, result, Direction, idle, reading, writing, max_sector_size,
  cmd_flag_multi_track, st0_not_ready, st1_end_of_cylinder, st1_not_writable, sector_size_from_n,
  image_of, unit_select, abnormal,
}

unfoldable pub finish_execute : Fdc → Fdc
finish_execute f = record f {
  direction = idle;
  sector_bytes = 0;
  sector_pos = 0;
  phase = command;
  command_length = 0;
  result_length = 0;
  result_pos = 0;
  interrupt_pending = true;
}

-- The end by an error: `pendingSt0_` is set before `finishExecute`.
abbrev pub failed : ℕ → Fdc → Fdc
failed cause f = finish_execute (record f { pending_st0 = abnormal cause f })

-- The same with a value in `result_[1]`.
abbrev pub failed_st1 : ℕ → Fdc → Fdc
failed_st1 st1 f =
    finish_execute
      (record f { pending_st0 = abnormal 0 f; result_bytes = update f.result_bytes 1 st1 })

-- The drive, the side and the sector of a command.
abbrev pub addressed : Fdc → Fdc
addressed f =
    let bytes = f.command_bytes in
    record f {
      selected_drive = bytes 1 % 4;
      current_head = (bytes 1 / 4) % 2;
      multi_track = any_bit (bytes 0) cmd_flag_multi_track;
      current_cylinder = bytes 2;
      current_record = bytes 4;
      current_n = bytes 5;
      end_of_track = bytes 6;
      interrupt_drive = bytes 1 % 4;
      direction = idle;
      sector_bytes = 0;
      sector_pos = 0;
    }

-- The next sector, or nothing at the end of the track.
unfoldable pub advance_sector : Fdc → Option Fdc
advance_sector f =
    if not (leb f.end_of_track f.current_record)
    then some (record f { current_record = u8 (f.current_record + 1) })
    else if f.multi_track && f.current_head % 2 == 0
    then some (record f { current_head = 1; current_record = 1 })
    else none

abbrev pub is_partial : Direction → ℕ → Bool
is_partial writing pos = ltb 0 pos
is_partial idle pos = false
is_partial reading pos = false

abbrev pub complete_in : Bool → Fdc → Phase → Fdc
complete_in is_complete f execute =
    let is_clean = is_complete && not (is_partial f.direction f.sector_pos) in
    finish_execute (record f { pending_st0 = if is_clean then unit_select f else abnormal 0 f })
complete_in is_complete f command = f
complete_in is_complete f result = f

module _ (disks : Disks) where
  open disks use {Disk, read_sector, write_sector, is_present, is_write_protected, geometry}

  -- The controller and the images.
  pub record World : Type 0 where
    pub fdc : Fdc
    pub disk : Disk

  abbrev pub present_in : Disk → Option ℕ → Option ℕ
  present_in d none = none
  present_in d (some image) = if is_present image d then some image else none

  unfoldable pub current_image : World → Option ℕ
  current_image w = present_in w.disk (image_of w.fdc.selected_drive w.fdc)

  -- `readSector` puts as many bytes into the buffer as the image's sectors have.
  abbrev pub load_from : World → Option ℕ → Bool × World
  load_from w none = (false, w)
  load_from w (some image) =
      let f = w.fdc in
      let (ok, buffer, disk) =
        read_sector image f.current_cylinder f.current_head f.current_record f.sector_buffer
          w.disk in
      let fits = leb (geometry image w.disk).sector_size max_sector_size in
      let loaded = record f {
        sector_buffer = buffer;
        overrun = if fits then f.overrun else true;
      } in
      (ok, record { fdc = if ok then record loaded { sector_pos = 0 } else loaded; disk = disk })

  unfoldable pub load_current_sector : World → Bool × World
  load_current_sector w = load_from w (current_image w)

  abbrev pub store_into : World → Option ℕ → Bool × World
  store_into w none = (false, w)
  store_into w (some image) =
      let f = w.fdc in
      let (ok, disk) =
        write_sector image f.current_cylinder f.current_head f.current_record f.sector_buffer
          w.disk in
      (ok, record w { disk = disk })

  unfoldable pub store_current_sector : World → Bool × World
  store_current_sector w = store_into w (current_image w)

  abbrev pub with_fdc : Fdc → World → World
  with_fdc f w = record w { fdc = f }

  -- The end of `beginReadWrite`, of a read: the first sector is loaded.
  abbrev pub first_sector : Bool × World → World
  first_sector (true, w) = w
  first_sector (false, w) = with_fdc (failed 0 w.fdc) w

  -- `beginReadWrite` once the image is known.
  abbrev pub begin_on : Bool → World → Option ℕ → World
  begin_on is_write w none = with_fdc (failed st0_not_ready w.fdc) w
  begin_on is_write w (some image) =
      let f = w.fdc in
      let wanted = sector_size_from_n f.current_n in
      let sized = record f { sector_bytes = wanted } in
      let running = record sized {
        direction = if is_write then writing else reading;
        phase = execute;
        command_length = 0;
        result_length = 0;
        sector_pos = 0;
      } in
      if is_write && is_write_protected image w.disk
      then with_fdc (failed 0 f) w
      else if not (wanted == (geometry image w.disk).sector_size)
          || not (leb wanted max_sector_size)
      then with_fdc (failed 0 f) w
      else if not (f.current_cylinder == f.present_cylinder f.selected_drive)
      then with_fdc (failed 0 sized) w
      else if is_write
      then with_fdc running w
      else first_sector (load_current_sector (with_fdc running w))

  unfoldable pub begin_read_write : Bool → World → World
  begin_read_write is_write w =
      let w' = with_fdc (addressed w.fdc) w in begin_on is_write w' (current_image w')

  -- The byte at the place in the sector, which moves on.
  abbrev pub take_byte : World → Bool × ℕ × World
  take_byte w =
      let f = w.fdc in
      (true, f.sector_buffer f.sector_pos, with_fdc (record f { sector_pos = f.sector_pos + 1 }) w)

  abbrev pub take_loaded : Bool × World → Bool × ℕ × World
  take_loaded (true, w) = take_byte w
  take_loaded (false, w) = (false, 0, with_fdc (failed 0 w.fdc) w)

  abbrev pub take_next : World → Option Fdc → Bool × ℕ × World
  take_next w none = (false, 0, with_fdc (failed_st1 st1_end_of_cylinder w.fdc) w)
  take_next w (some f) = take_loaded (load_current_sector (with_fdc f w))

  -- `dmaRead` in the phase and direction of a read.
  abbrev pub read_on : World → Bool × ℕ × World
  read_on w =
      if leb w.fdc.sector_bytes w.fdc.sector_pos
      then take_next w (advance_sector w.fdc)
      else take_byte w

  abbrev pub dma_read_in : World → Phase → Direction → Bool × ℕ × World
  dma_read_in w execute reading = read_on w
  dma_read_in w execute idle = (false, 0, w)
  dma_read_in w execute writing = (false, 0, w)
  dma_read_in w command direction = (false, 0, w)
  dma_read_in w result direction = (false, 0, w)

  unfoldable pub dma_read : World → Bool × ℕ × World
  dma_read w = dma_read_in w w.fdc.phase w.fdc.direction

  -- After a sector is stored: the next one, or the end.
  abbrev pub write_next : World → Option Fdc → Bool × World
  write_next w none = (true, with_fdc (failed_st1 st1_end_of_cylinder w.fdc) w)
  write_next w (some f) = (true, with_fdc (record f { sector_pos = 0 }) w)

  abbrev pub write_stored : Bool × World → Bool × World
  write_stored (false, w) = (false, with_fdc (failed_st1 st1_not_writable w.fdc) w)
  write_stored (true, w) = write_next w (advance_sector w.fdc)

  abbrev pub write_on : ℕ → World → Bool × World
  write_on value w =
      let f = w.fdc in
      let w' =
        with_fdc
          (record f {
            sector_buffer = update f.sector_buffer f.sector_pos value;
            sector_pos = f.sector_pos + 1;
          })
          w in
      if leb f.sector_bytes f.sector_pos || leb max_sector_size f.sector_pos
      then (false, with_fdc (failed 0 f) w)
      else if ltb (f.sector_pos + 1) f.sector_bytes
      then (true, w')
      else write_stored (store_current_sector w')

  abbrev pub dma_write_in : ℕ → World → Phase → Direction → Bool × World
  dma_write_in value w execute writing = write_on value w
  dma_write_in value w execute idle = (false, w)
  dma_write_in value w execute reading = (false, w)
  dma_write_in value w command direction = (false, w)
  dma_write_in value w result direction = (false, w)

  unfoldable pub dma_write : ℕ → World → Bool × World
  dma_write value w = dma_write_in value w w.fdc.phase w.fdc.direction

  unfoldable pub dma_complete : Bool → World → World
  dma_complete is_complete w = with_fdc (complete_in is_complete w.fdc w.fdc.phase) w
