-- ===== src/Fdc/Begin.antt =====
-- How a command of reading or writing begins.
use x68k_stackchan.Base.{
  ℕ, ◌≡◌, refl, Bool, true, false, ◌&&◌, ◌||◌, not, leb, ◌==◌, if◌then◌else◌, Bool-cases, inl, inr,
  Option, some, none,
}
use x68k_stackchan.Fdc.{
  Disks, Fdc, command, execute, Direction, idle, reading, writing, max_sector_size,
  sector_size_from_n, st0_not_ready, unit_select, abnormal,
}
use x68k_stackchan.Fdc.Transfer.{
  World, addressed, finish_execute, failed, first_sector, begin_on, begin_read_write, current_image,
  load_current_sector, with_fdc,
}

module _ (disks : Disks) where
  open disks use {Disk, read_sector, is_write_protected, geometry}

  -- The end by an error with this ST0, which software can ask for, and with the images as they were.
  pub record EndsIn (st0 : ℕ) (d : Disk) (w : World disks) : Type 0 where
    pub phase : w.fdc.phase ≡ command
    pub direction : w.fdc.direction ≡ idle
    pub interrupt : w.fdc.interrupt_pending ≡ true
    pub cause : w.fdc.pending_st0 ≡ st0
    pub kept : w.disk ≡ d

  -- A transfer that runs, at the start of a sector of this size.
  pub record Runs (way : Direction) (bytes : ℕ) (w : World disks) : Type 0 where
    pub phase : w.fdc.phase ≡ execute
    pub direction : w.fdc.direction ≡ way
    pub sized : w.fdc.sector_bytes ≡ bytes
    pub from : w.fdc.sector_pos ≡ 0

  -- A command that cannot be carried out on the image: it is protected, its sectors have another size
  -- or are longer than the buffer, or the head is on another cylinder.
  abbrev pub refused : Bool → Fdc → Disk → ℕ → Bool
  refused is_write f d image =
      let wanted = sector_size_from_n f.current_n in
      (is_write && is_write_protected image d)
      || ((not (wanted == (geometry image d).sector_size) || not (leb wanted max_sector_size))
          || not (f.current_cylinder == f.present_cylinder f.selected_drive))

  -- What a transfer that is not refused begins with, by its direction and by how the first load goes.
  abbrev pub Begins : Bool → Fdc → Disk → Bool → World disks → Type 0
  Begins true f d loads w = Runs writing (sector_size_from_n f.current_n) w × (w.disk ≡ d)
  Begins false f d true w = Runs reading (sector_size_from_n f.current_n) w
  Begins false f d false w = EndsIn (abnormal 0 f) w.disk w

  abbrev pub Began : Bool → Fdc → Disk → Option ℕ → World disks → Type 0
  Began is_write f d none w = EndsIn (abnormal st0_not_ready f) d w
  Began is_write f d (some image) w =
      if refused is_write f d image
      then EndsIn (abnormal 0 f) d w
      else Begins is_write f d
          (read_sector image f.current_cylinder f.current_head f.current_record f.sector_buffer d).0
          w

  failed-EndsIn :
      (cause : ℕ) (f : Fdc) (w : World disks)
      → EndsIn (abnormal cause f) w.disk (with_fdc disks (failed cause f) w)
  unfolding finish_execute
  failed-EndsIn cause f w = record {
    phase = refl;
    direction = refl;
    interrupt = refl;
    cause = refl;
    kept = refl;
  }

  -- The state that a transfer begins in.
  abbrev running : Bool → Fdc → Fdc
  running is_write f = record f {
    sector_bytes = sector_size_from_n f.current_n;
    direction = if is_write then writing else reading;
    phase = execute;
    command_length = 0;
    result_length = 0;
    sector_pos = 0;
  }

  loaded-Begins :
      (f : Fdc) (d : Disk) (image : ℕ)
      → current_image disks (record { fdc = f; disk = d }) ≡ some image
      → Begins false f d
          (read_sector image f.current_cylinder f.current_head f.current_record f.sector_buffer d).0
          (first_sector disks
            (load_current_sector disks (record { fdc = running false f; disk = d })))
  unfolding load_current_sector current_image finish_execute unit_select
  loaded-Begins f d image p =
      elim (Bool-cases
        (read_sector image f.current_cylinder f.current_head f.current_record f.sector_buffer
          d).0) [
            | inl e ↦
                rw (p, e) (record { phase = refl; direction = refl; sized = refl; from = refl })
            | inr e ↦
                rw (p, e)
                  (record {
                    phase = refl;
                    direction = refl;
                    interrupt = refl;
                    cause = refl;
                    kept = refl;
                  })
          ]

  running-Begins :
      (is_write : Bool) (f : Fdc) (d : Disk) (image : ℕ)
      → current_image disks (record { fdc = f; disk = d }) ≡ some image
      → let w : World disks = record { fdc = running is_write f; disk = d } in
        Begins is_write f d
          (read_sector image f.current_cylinder f.current_head f.current_record f.sector_buffer d).0
          (if is_write then w else first_sector disks (load_current_sector disks w))
  running-Begins true f d image p =
      (record { phase = refl; direction = refl; sized = refl; from = refl }, refl)
  running-Begins false f d image p = loaded-Begins f d image p

  begin_on-Began :
      (is_write : Bool) (f : Fdc) (d : Disk) (o : Option ℕ)
      → current_image disks (record { fdc = f; disk = d }) ≡ o
      → Began is_write f d o (begin_on disks is_write (record { fdc = f; disk = d }) o)
  unfolding unit_select
  begin_on-Began is_write f d none p = failed-EndsIn st0_not_ready f (record { fdc = f; disk = d })
  begin_on-Began is_write f d (some image) p =
      let w : World disks = record { fdc = f; disk = d } in
      let wanted = sector_size_from_n f.current_n in
      let odd =
        not (wanted == (geometry image d).sector_size) || not (leb wanted max_sector_size) in
      elim (Bool-cases (is_write && is_write_protected image d)) [
        | inl a ↦ rw a (failed-EndsIn 0 f w)
        | inr a ↦ elim (Bool-cases odd) [
          | inl b ↦ rw (a, b) (failed-EndsIn 0 f w)
          | inr b ↦
              elim (Bool-cases (not (f.current_cylinder == f.present_cylinder f.selected_drive))) [
                | inl c ↦ rw (a, b, c) (failed-EndsIn 0 (record f { sector_bytes = wanted }) w)
                | inr c ↦ rw (a, b, c) (running-Begins is_write f d image p)
              ]
        ]
      ]

  -- READ DATA and WRITE DATA begin as follows. Without a medium in the drive they end at once, as not
  -- ready. On a protected medium (a write), with a sector size that is not the medium's or is more than
  -- 1024, or for another cylinder than the one the head is on, they end at once, abnormally. Each of
  -- these ends leaves the images and asks for an interrupt. Otherwise a write runs, at the start of a
  -- sector of that size, and a read runs so if the image gives the first sector, and ends abnormally if
  -- it does not.
  pub begin_read_write-Began :
      (is_write : Bool) (w : World disks)
      → let f = addressed w.fdc in
        Began is_write f w.disk
          (current_image disks (record { fdc = f; disk = w.disk }))
          (begin_read_write disks is_write w)
  unfolding begin_read_write
  begin_read_write-Began is_write w =
      begin_on-Began is_write (addressed w.fdc) w.disk
        (current_image disks (record { fdc = addressed w.fdc; disk = w.disk })) refl
