-- ===== src/Fdc/Overrun.antt =====
-- When a command writes outside the array of the cylinders or the buffer of a sector.
use x68k_stackchan.Base.{
  ℕ, ◌%◌, ◌^◌, ◌<◌, ◌≤◌, ◌≡◌, refl, sym, subst, leb-false, ◌∙◌, arith, Bool, true, false, ◌&&◌,
  ◌||◌, not, ltb, leb, ◌==◌, if◌then◌else◌, Bool-cases, branch, either, inl, inr, Option, some,
  none,
}
use x68k_stackchan.Fdc.{
  Disks, Fdc, execute, reading, writing, put_cylinder, drive_count, image_of, cmd_recalibrate,
  cmd_specify, cmd_sense_interrupt_status, cmd_sense_drive_status, max_sector_size,
  sector_size_from_n,
}
use x68k_stackchan.Fdc.Transfer.{
  World, load_from, finish_execute, load_current_sector, with_fdc, first_sector, begin_on,
  begin_read_write, current_image, present_in,
}
use x68k_stackchan.Fdc.Command.{
  refuse, invalid, select, sense_interrupt, recalibrated, recalibrate, sought, seek, identified,
  read_id, execute_command,
}

finish_execute-overrun : (f : Fdc) → (finish_execute f).overrun ≡ f.overrun
unfolding finish_execute
finish_execute-overrun f = refl

sense_interrupt-overrun : (f : Fdc) → (sense_interrupt f).overrun ≡ f.overrun
sense_interrupt-overrun f =
    branch (λ (g : Fdc). g.overrun ≡ f.overrun) f.interrupt_pending _ _ (λ e. refl) (λ e. refl)

put_cylinder-overrun :
    (drive value : ℕ) (f : Fdc)
    → (put_cylinder drive value f).overrun ≡ (f.overrun || leb drive_count drive)
put_cylinder-overrun drive value f = ground arith

recalibrated-overrun : (f : Fdc) (o : Option ℕ) → (recalibrated f o).overrun ≡ f.overrun
recalibrated-overrun f (some image) = refl
recalibrated-overrun f none = refl

identified-overrun : (f : Fdc) (o : Option ℕ) → (identified f o).overrun ≡ f.overrun
identified-overrun f none = refl
identified-overrun f (some image) = refl

sized_le : (wanted size : ℕ) → (not (wanted == size) || not (leb wanted 1024)) ≡ false → size ≤ 1024
sized_le wanted size h = ground (arith, h)

some-injective : {a b : ℕ} → some a ≡ some b → a ≡ b
some-injective h = ground (arith, h)

module _ (disks : Disks) where
  open disks use {Disk, read_sector, is_present, is_write_protected, geometry}

  -- The flag is as it is said to be.
  record Says (flag : Bool) (w : World disks) : Type 0 where
    so : w.fdc.overrun ≡ flag

  says : (flag : Bool) (w : World disks) → w.fdc.overrun ≡ flag → Says flag w
  says flag w e = record { so = e }

  nothing : (d : Disk) (image : ℕ) → present_in disks d none ≡ some image → ⊥
  nothing d image h = ground (h, arith)

  -- There is an image of a drive in range only.
  in_range :
      (d : Disk) (f : Fdc) (image : ℕ)
      → present_in disks d (image_of f.selected_drive f) ≡ some image
      → f.selected_drive < 2
  in_range d f image h = elim (Bool-cases (leb drive_count f.selected_drive)) [
    | inl e ↦ absurd (
        nothing d image (
          subst
            (λ b. present_in disks d (if b then none else f.images f.selected_drive) ≡ some image) e
            h))
    | inr e ↦ leb-false _ _ e
  ]

  sought-overrun :
      (f : Fdc) (d : Disk) (o : Option ℕ)
      → o ≡ present_in disks d (image_of f.selected_drive f)
      → (sought disks f d o).overrun ≡ f.overrun
  sought-overrun f d none e = refl
  sought-overrun f d (some image) e =
      let l = in_range d f image (sym e) in
      branch (λ (g : Fdc). g.overrun ≡ f.overrun)
        (ltb (f.command_bytes 2) (geometry image d).cylinders) _ _
        (λ h. put_cylinder-overrun f.selected_drive (f.command_bytes 2) f ∙ ground (arith, l))
        (λ h. refl)

  first_sector-overrun :
      (out : Bool × World disks) → (first_sector disks out).fdc.overrun ≡ out.1.fdc.overrun
  first_sector-overrun (true, w) = refl
  first_sector-overrun (false, w) = finish_execute-overrun _

  -- A load writes inside the buffer if the sectors of the image are not longer.
  load_from-overrun :
      (w : World disks) (o : Option ℕ)
      → ((image : ℕ) → o ≡ some image → (geometry image w.disk).sector_size ≤ 1024)
      → (load_from disks w o).1.fdc.overrun ≡ w.fdc.overrun
  load_from-overrun w none h = refl
  load_from-overrun w (some image) h =
      let f = w.fdc in
      let out =
        read_sector image f.current_cylinder f.current_head f.current_record f.sector_buffer
          w.disk in
      let fits : leb (geometry image w.disk).sector_size 1024 ≡ true =
        ground (arith, h image refl) in
      elim (Bool-cases out.0) [ inl e ↦ rw (e, fits) refl | inr e ↦ rw (e, fits) refl ]

  load_current_sector-overrun :
      (w : World disks) (image : ℕ)
      → current_image disks w ≡ some image
      → (geometry image w.disk).sector_size ≤ 1024
      → (load_current_sector disks w).1.fdc.overrun ≡ w.fdc.overrun
  unfolding load_current_sector
  load_current_sector-overrun w image e l = load_from-overrun w (current_image disks w) λ other h.
      subst (λ (i : ℕ). (geometry i w.disk).sector_size ≤ 1024) (some-injective (sym e ∙ h)) l

  running-overrun :
      (is_write : Bool) (image bytes : ℕ) (w : World disks)
      → current_image disks w ≡ some image
      → (geometry image w.disk).sector_size ≤ 1024
      → let w' =
          with_fdc disks
            (record w.fdc {
              sector_bytes = bytes;
              direction = if is_write then writing else reading;
              phase = execute;
              command_length = 0;
              result_length = 0;
              sector_pos = 0;
            })
            w in
        (if is_write then w' else first_sector disks (load_current_sector disks w')).fdc.overrun
        ≡ w.fdc.overrun
  unfolding current_image
  running-overrun true image bytes w e l = refl
  running-overrun false image bytes w e l =
      first_sector-overrun (load_current_sector disks (with_fdc disks _ w))
      ∙ load_current_sector-overrun _ image e l

  begin_on-overrun :
      (is_write : Bool) (w : World disks) (o : Option ℕ)
      → current_image disks w ≡ o
      → (begin_on disks is_write w o).fdc.overrun ≡ w.fdc.overrun
  begin_on-overrun is_write w none here = finish_execute-overrun _
  begin_on-overrun is_write w (some image) here =
      let f = w.fdc in
      let wanted = sector_size_from_n f.current_n in
      let odd =
        not (wanted == (geometry image w.disk).sector_size) || not (leb wanted max_sector_size) in
      elim (Bool-cases (is_write && is_write_protected image w.disk)) [
        | inl p ↦ rw p (finish_execute-overrun _)
        | inr p ↦ elim (Bool-cases odd) [
          | inl q ↦ rw (p, q) (finish_execute-overrun _)
          | inr q ↦
              elim (Bool-cases (not (f.current_cylinder == f.present_cylinder f.selected_drive))) [
                | inl r ↦ rw (p, q, r) (finish_execute-overrun _)
                | inr r ↦
                    rw (p, q, r)
                      (running-overrun is_write image wanted w here
                        (sized_le wanted (geometry image w.disk).sector_size q))
              ]
        ]
      ]

  begin_read_write-overrun :
      (is_write : Bool) (w : World disks)
      → (begin_read_write disks is_write w).fdc.overrun ≡ w.fdc.overrun
  unfolding begin_read_write
  begin_read_write-overrun is_write w = begin_on-overrun is_write _ _ refl

  seek-overrun : (w : World disks) → (seek disks w).fdc.overrun ≡ w.fdc.overrun
  unfolding seek current_image
  seek-overrun w =
      let f = record (select w.fdc) { interrupt_drive = w.fdc.command_bytes 1 % 4 } in
      sought-overrun f w.disk (current_image disks (with_fdc disks f w)) refl

  read_id-overrun : (w : World disks) → (read_id disks w).fdc.overrun ≡ w.fdc.overrun
  unfolding read_id
  read_id-overrun w = identified-overrun _ _

  recalibrate-overrun :
      (w : World disks)
      → (recalibrate disks w).fdc.overrun
        ≡ (w.fdc.overrun || leb drive_count (w.fdc.command_bytes 1 % 4))
  unfolding recalibrate
  recalibrate-overrun w =
      recalibrated-overrun _ _ ∙ put_cylinder-overrun (w.fdc.command_bytes 1 % 4) 0 _

  -- A command that is there in full writes outside the array of the cylinders or the buffer of a
  -- sector exactly when it is a Recalibrate of unit 2 or 3. No other command does, whatever its
  -- parameters and the media are, the first sector that a read puts into the buffer included.
  pub execute_command-overrun :
      (w : World disks)
      → (execute_command disks w).fdc.overrun ≡ (
          w.fdc.overrun
          || (w.fdc.command_bytes 0 % 2 ^ 5 == cmd_recalibrate
              && leb drive_count (w.fdc.command_bytes 1 % 4)))
  unfolding execute_command
  execute_command-overrun w0 =
      let opcode = w0.fdc.command_bytes 0 % 2 ^ 5 in
      let f = record w0.fdc { result_pos = 0 } in
      let w = with_fdc disks f w0 in
      let unit = leb drive_count (w0.fdc.command_bytes 1 % 4) in
      let flag = f.overrun || (opcode == cmd_recalibrate && unit) in
      let P : World disks → Type 0 = Says flag in
      let same : (x : World disks)
          → (opcode == cmd_recalibrate) ≡ false
          → x.fdc.overrun ≡ f.overrun
          → P x =
        λ x e q. says flag x (ground (arith, e, q)) in
      (branch P (opcode == cmd_specify) _ _ (λ e. same _ (ground (arith, e)) refl)
        (λ e.
          branch P (opcode == cmd_sense_interrupt_status) _ _
            (λ e. same _ (ground (arith, e)) (sense_interrupt-overrun f))
            (λ e.
              branch P (opcode == cmd_sense_drive_status) _ _ (λ e. same _ (ground (arith, e)) refl)
                (λ e.
                  branch P (opcode == cmd_recalibrate) _ _
                    (λ e. says _ _ (recalibrate-overrun w ∙ ground (arith, e)))
                    (λ n. either P _ _ _ (same (seek disks w) n (seek-overrun w)) (
                      either P _ _ _ (same (read_id disks w) n (read_id-overrun w)) (
                        either P _ _ _
                          (same (begin_read_write disks false w) n
                            (begin_read_write-overrun false w))
                          (either P _ _ _
                            (same (begin_read_write disks true w) n
                              (begin_read_write-overrun true w))
                            (either P _ _ _ (same (with_fdc disks (refuse f) w) n refl)
                              (same (with_fdc disks (invalid f) w) n refl)))))))))).so
