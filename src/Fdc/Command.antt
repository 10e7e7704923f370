-- ===== src/Fdc/Command.antt =====
-- src/x68k/core/dev/fdc.cpp, the ports of the processor: the bytes of commands and results.
use x68k_stackchan.Base.{
  ℕ, ◌+◌, ◌/◌, ◌%◌, ◌^◌, Bool, true, false, ◌&&◌, ◌||◌, not, ltb, leb, ◌==◌, if◌then◌else◌, bit_or,
  update, Option, some, none,
}
use x68k_stackchan.Fdc.{
  Disks, Fdc, Phase, command, execute, result, Direction, idle, reading, writing, drive_count,
  command_size, cmd_specify, cmd_sense_drive_status, cmd_recalibrate, cmd_sense_interrupt_status,
  cmd_seek, cmd_read_id, cmd_write_id, cmd_read_track, cmd_write_data, cmd_read_data,
  cmd_write_deleted, cmd_read_deleted, st0_invalid_command, st0_equipment_check, st0_seek_end,
  st0_not_ready, st1_end_of_cylinder, st3_ready, st3_write_protected, st3_track0, st3_two_side,
  st3_head_address, image_of, parameter_count, unit_select, put_cylinder, abnormal,
}
use x68k_stackchan.Fdc.Transfer.{
  World, present_in, current_image, load_current_sector, with_fdc, advance_sector, begin_read_write,
  failed, failed_st1,
}

-- The end of a command without a result, with the interrupt where it has one.
abbrev pub to_command : Fdc → Fdc
to_command f = record f { phase = command; command_length = 0; result_length = 0 }

abbrev pub ended : ℕ → Fdc → Fdc
ended st0 f = to_command (record f { pending_st0 = st0; interrupt_pending = true })

-- The end of a command with a result.
abbrev pub to_result : Fdc → Fdc
to_result f = record f { phase = result; command_length = 0 }

abbrev pub invalid : Fdc → Fdc
invalid f =
    to_result
      (record f { result_bytes = update f.result_bytes 0 st0_invalid_command; result_length = 1 })

-- Drive and head of a command's second byte.
abbrev pub select : Fdc → Fdc
select f = record f {
  selected_drive = f.command_bytes 1 % 4;
  current_head = (f.command_bytes 1 / 4) % 2;
}

abbrev pub sense_interrupt : Fdc → Fdc
sense_interrupt f =
    let cylinder =
      if ltb f.interrupt_drive drive_count then f.present_cylinder f.interrupt_drive else 0 in
    if f.interrupt_pending
    then to_result (record f {
      result_bytes = update (update f.result_bytes 0 f.pending_st0) 1 cylinder;
      result_length = 2;
      interrupt_pending = false;
    })
    else invalid f

abbrev pub recalibrated : Fdc → Option ℕ → Fdc
recalibrated f (some image) = ended (bit_or st0_seek_end (unit_select f)) f
recalibrated f none = ended (bit_or st0_seek_end (abnormal st0_not_ready f)) f

-- READ ID leaves `pendingSt0_` as it was when there is a medium.
abbrev pub identified : Fdc → Option ℕ → Fdc
identified f none = ended (abnormal st0_not_ready f) f
identified f (some image) = ended f.pending_st0 f

-- READ TRACK and WRITE ID, which are not implemented.
abbrev pub refuse : Fdc → Fdc
refuse f =
    let selected = record (select f) { interrupt_drive = f.command_bytes 1 % 4 } in
    ended (abnormal st0_equipment_check selected) selected

-- Back to the phase of commands, with no result left.
abbrev pub cleared : Fdc → Fdc
cleared f = record f { phase = command; command_length = 0; result_length = 0; result_pos = 0 }

-- A byte of a command: the first one decides how many there are.
unfoldable pub collect : ℕ → Fdc → Fdc
collect value f =
    if f.command_length == 0
    then record f {
      command_bytes = update f.command_bytes 0 value;
      command_length = 1;
      command_expected = 1 + parameter_count value;
    }
    else if ltb f.command_length command_size
    then record f {
      command_bytes = update f.command_bytes f.command_length value;
      command_length = f.command_length + 1;
    }
    else f

module _ (disks : Disks) where
  open disks use {Disk, is_present, is_write_protected, geometry}

  -- The bits of ST3 that the medium gives.
  abbrev pub media_bits : Disk → Option ℕ → ℕ → ℕ
  media_bits d none st3 = st3
  media_bits d (some image) st3 =
      let ready = bit_or st3 st3_ready in
      if is_write_protected image d then bit_or ready st3_write_protected else ready

  unfoldable pub build_st3 : ℕ → World disks → ℕ
  build_st3 drive w =
      let f = w.fdc in
      let sided = bit_or (drive % 4) st3_two_side in
      let tracked =
        if ltb drive drive_count && f.present_cylinder drive == 0
        then bit_or sided st3_track0
        else sided in
      let headed =
        if not (f.current_head % 2 == 0) then bit_or tracked st3_head_address else tracked in
      media_bits w.disk (present_in disks w.disk (image_of drive f)) headed

  abbrev pub sense_drive : World disks → World disks
  sense_drive w =
      let f = select w.fdc in
      let st3 = build_st3 f.selected_drive (with_fdc disks f w) in
      with_fdc disks
        (to_result (record f { result_bytes = update f.result_bytes 0 st3; result_length = 1 })) w

  unfoldable pub recalibrate : World disks → World disks
  recalibrate w =
      let drive = w.fdc.command_bytes 1 % 4 in
      let moved = put_cylinder drive 0 (record w.fdc { selected_drive = drive }) in
      let f = record moved { interrupt_drive = drive; current_head = 0 } in
      with_fdc disks (recalibrated f (current_image disks (with_fdc disks f w))) w

  abbrev pub sought : Fdc → Disk → Option ℕ → Fdc
  sought f d none = ended (bit_or st0_seek_end (abnormal st0_not_ready f)) f
  sought f d (some image) =
      if ltb (f.command_bytes 2) (geometry image d).cylinders
      then ended (bit_or st0_seek_end (unit_select f))
          (put_cylinder f.selected_drive (f.command_bytes 2) f)
      else ended (bit_or st0_seek_end (abnormal 0 f)) f

  unfoldable pub seek : World disks → World disks
  seek w =
      let f = record (select w.fdc) { interrupt_drive = w.fdc.command_bytes 1 % 4 } in
      with_fdc disks (sought f w.disk (current_image disks (with_fdc disks f w))) w

  unfoldable pub read_id : World disks → World disks
  read_id w =
      let f = record (select w.fdc) { interrupt_drive = w.fdc.command_bytes 1 % 4 } in
      with_fdc disks (identified f (current_image disks (with_fdc disks f w))) w

  unfoldable pub execute_command : World disks → World disks
  execute_command w0 =
      let opcode = w0.fdc.command_bytes 0 % 2 ^ 5 in
      let f = record w0.fdc { result_pos = 0 } in
      let w = with_fdc disks f w0 in
      if opcode == cmd_specify
      then with_fdc disks (to_command f) w
      else if opcode == cmd_sense_interrupt_status
      then with_fdc disks (sense_interrupt f) w
      else if opcode == cmd_sense_drive_status
      then sense_drive w
      else if opcode == cmd_recalibrate
      then recalibrate w
      else if opcode == cmd_seek
      then seek w
      else if opcode == cmd_read_id
      then read_id w
      else if opcode == cmd_read_data || opcode == cmd_read_deleted
      then begin_read_write disks false w
      else if opcode == cmd_write_data || opcode == cmd_write_deleted
      then begin_read_write disks true w
      else if opcode == cmd_read_track || opcode == cmd_write_id
      then with_fdc disks (refuse f) w
      else with_fdc disks (invalid f) w

  -- The processor's read that empties the sector: the next one is loaded at once.
  abbrev pub refilled : Bool × World disks → World disks
  refilled (true, w) = w
  refilled (false, w) = with_fdc disks (failed 0 w.fdc) w

  abbrev pub refill : World disks → Option Fdc → World disks
  refill w none = with_fdc disks (failed_st1 st1_end_of_cylinder w.fdc) w
  refill w (some f) = refilled (load_current_sector disks (with_fdc disks f w))

  -- A byte of the sector.
  abbrev pub read_sector_byte : World disks → ℕ × World disks
  read_sector_byte w =
      let f = w.fdc in
      let moved = record f { sector_pos = f.sector_pos + 1 } in
      let w' = with_fdc disks moved w in
      if leb f.sector_bytes f.sector_pos then (0, w) else (
        f.sector_buffer f.sector_pos,
        if leb f.sector_bytes (f.sector_pos + 1) then refill w' (advance_sector moved) else w',
      )

  abbrev pub read_result_byte : World disks → ℕ × World disks
  read_result_byte w =
      let f = w.fdc in
      let moved = record f { result_pos = f.result_pos + 1 } in
      if leb f.result_length f.result_pos then (0, w) else (
        f.result_bytes f.result_pos,
        with_fdc disks (if leb f.result_length (f.result_pos + 1) then cleared moved else moved) w,
      )

  abbrev pub read_data_in : World disks → Phase → Direction → ℕ × World disks
  read_data_in w execute reading = read_sector_byte w
  read_data_in w execute idle = (0, w)
  read_data_in w execute writing = (0, w)
  read_data_in w command direction = (0, w)
  read_data_in w result direction = read_result_byte w

  unfoldable pub read_data : World disks → ℕ × World disks
  read_data w = read_data_in w w.fdc.phase w.fdc.direction

  unfoldable pub accept : ℕ → World disks → World disks
  accept value w =
      let f = collect value w.fdc in
      let w' = with_fdc disks f w in
      if leb f.command_expected f.command_length then execute_command w' else w'

  abbrev pub write_data_in : ℕ → World disks → Phase → World disks
  write_data_in value w command = accept value w
  write_data_in value w execute = w
  write_data_in value w result = accept value (with_fdc disks (cleared w.fdc) w)

  unfoldable pub write_data : ℕ → World disks → World disks
  write_data value w = write_data_in value w w.fdc.phase
