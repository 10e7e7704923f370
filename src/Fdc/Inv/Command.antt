-- ===== src/Fdc/Inv/Command.antt =====
-- The invariant of the floppy controller over a command that is there in full.
use x68k_stackchan.Base.{
  ℕ, ◌%◌, ◌<◌, ◌≤◌, ◌≡◌, refl, arith, true, false, ltb, Bool-cases, either, inl, inr, Option, some,
  none,
}
use x68k_stackchan.Fdc.{Disks, Fdc, idle, put_cylinder, drive_count}
use x68k_stackchan.Fdc.Transfer.{World, with_fdc, current_image}
use x68k_stackchan.Fdc.Command.{
  to_command, ended, invalid, select, sense_interrupt, sense_drive, recalibrated, recalibrate,
  sought, seek, identified, read_id, refuse, execute_command,
}
use x68k_stackchan.Fdc.Inv.Begin.{begin_read_write-IsValid}
use x68k_stackchan.Fdc.Inv.{IsValid}

-- A command is there in full: what it starts from.
pub record IsReady (f : Fdc) : Type 0 where
  pub chosen : f.selected_drive < 4
  pub within : f.command_expected ≤ 9
  pub stands : f.direction ≡ idle

ended-IsValid : (st0 : ℕ) (f : Fdc) → IsReady f → IsValid (ended st0 f)
ended-IsValid st0 f r = record {
  chosen = r.chosen;
  within = r.within;
  phased = record { stands = r.stands; short = λ h. absurd (omega arith) };
}

invalid-IsValid : (f : Fdc) → IsReady f → f.result_pos ≡ 0 → IsValid (invalid f)
invalid-IsValid f r z = record {
  chosen = r.chosen;
  within = r.within;
  phased = record { stands = r.stands; empty = refl; more = omega (arith, z); fits = omega arith };
}

sense_interrupt-IsValid : (f : Fdc) → IsReady f → f.result_pos ≡ 0 → IsValid (sense_interrupt f)
sense_interrupt-IsValid f r z = elim (Bool-cases f.interrupt_pending) [
  | inl e ↦ rw e (record {
    chosen = r.chosen;
    within = r.within;
    phased = record {
      stands = r.stands;
      empty = refl;
      more = omega (arith, z);
      fits = omega arith;
    };
  })
  | inr e ↦ rw e (record {
    chosen = r.chosen;
    within = r.within;
    phased = record {
      stands = r.stands;
      empty = refl;
      more = omega (arith, z);
      fits = omega arith;
    };
  })
]

put_cylinder-IsReady :
    (drive value : ℕ) (f : Fdc) → IsReady f → IsReady (put_cylinder drive value f)
put_cylinder-IsReady drive value f r = elim (Bool-cases (ltb drive drive_count)) [
  | inl e ↦ rw e (record { chosen = r.chosen; within = r.within; stands = r.stands })
  | inr e ↦ rw e (record { chosen = r.chosen; within = r.within; stands = r.stands })
]

refuse-IsValid : (f : Fdc) → IsReady f → IsValid (refuse f)
refuse-IsValid f r =
    let chosen = record (select f) { interrupt_drive = f.command_bytes 1 % 4 } in
    ended-IsValid _ chosen (record { chosen = omega arith; within = r.within; stands = r.stands })

module _ (disks : Disks) where
  open disks use {Disk, geometry}

  sense_drive-IsValid :
      (w : World disks) → IsReady w.fdc → w.fdc.result_pos ≡ 0 → IsValid (sense_drive disks w).fdc
  sense_drive-IsValid w r z = record {
    chosen = omega arith;
    within = r.within;
    phased = record {
      stands = r.stands;
      empty = refl;
      more = omega (arith, z);
      fits = omega arith;
    };
  }

  recalibrated-IsValid : (f : Fdc) (o : Option ℕ) → IsReady f → IsValid (recalibrated f o)
  recalibrated-IsValid f (some image) r = ended-IsValid _ f r
  recalibrated-IsValid f none r = ended-IsValid _ f r

  recalibrate-IsValid : (w : World disks) → IsReady w.fdc → IsValid (recalibrate disks w).fdc
  unfolding recalibrate
  recalibrate-IsValid w r =
      let drive = w.fdc.command_bytes 1 % 4 in
      let m =
        put_cylinder-IsReady drive 0 (record w.fdc { selected_drive = drive })
          (record { chosen = omega arith; within = r.within; stands = r.stands }) in
      recalibrated-IsValid _ (current_image disks _)
        (record { chosen = m.chosen; within = m.within; stands = m.stands })

  sought-IsValid : (f : Fdc) (d : Disk) (o : Option ℕ) → IsReady f → IsValid (sought disks f d o)
  sought-IsValid f d none r = ended-IsValid _ f r
  sought-IsValid f d (some image) r =
      elim (Bool-cases (ltb (f.command_bytes 2) (geometry image d).cylinders)) [
        | inl e ↦
            rw e (ended-IsValid _ _ (put_cylinder-IsReady f.selected_drive (f.command_bytes 2) f r))
        | inr e ↦ rw e (ended-IsValid _ f r)
      ]

  seek-IsValid : (w : World disks) → IsReady w.fdc → IsValid (seek disks w).fdc
  unfolding seek
  seek-IsValid w r =
      sought-IsValid _ w.disk (current_image disks _)
        (record { chosen = omega arith; within = r.within; stands = r.stands })

  identified-IsValid : (f : Fdc) (o : Option ℕ) → IsReady f → IsValid (identified f o)
  identified-IsValid f none r = ended-IsValid _ f r
  identified-IsValid f (some image) r = ended-IsValid _ f r

  read_id-IsValid : (w : World disks) → IsReady w.fdc → IsValid (read_id disks w).fdc
  unfolding read_id
  read_id-IsValid w r =
      identified-IsValid _ (current_image disks _)
        (record { chosen = omega arith; within = r.within; stands = r.stands })

  to_command-IsValid : (f : Fdc) → IsReady f → IsValid (to_command f)
  to_command-IsValid f r = record {
    chosen = r.chosen;
    within = r.within;
    phased = record { stands = r.stands; short = λ h. absurd (omega arith) };
  }

  pub execute_command-IsValid :
      (w : World disks) → IsReady w.fdc → IsValid (execute_command disks w).fdc
  unfolding execute_command
  execute_command-IsValid w0 r =
      let f = record w0.fdc { result_pos = 0 } in
      let w = with_fdc disks f w0 in
      let r' : IsReady f = record { chosen = r.chosen; within = r.within; stands = r.stands } in
      let P : World disks → Type 0 = λ w. IsValid w.fdc in
      either P _ _ _ (to_command-IsValid f r') (
        either P _ _ _ (sense_interrupt-IsValid f r' refl) (
          either P _ _ _ (sense_drive-IsValid w r' refl) (
            either P _ _ _ (recalibrate-IsValid w r') (
              either P _ _ _ (seek-IsValid w r') (
                either P _ _ _ (read_id-IsValid w r') (
                  either P _ _ _ (begin_read_write-IsValid disks false w r.within) (
                    either P _ _ _ (begin_read_write-IsValid disks true w r.within)
                      (either P _ _ _ (refuse-IsValid f r') (invalid-IsValid f r' refl)))))))))
