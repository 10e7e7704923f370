-- ===== src/Fdc/Inv/Begin.antt =====
-- The invariant of the floppy controller where a transfer begins and a sector is loaded.
use x68k_stackchan.Base.{
  ℕ, zero, suc, ◌%◌, ◌^◌, ◌<◌, ◌≤◌, ◌≡◌, refl, ◌∙◌, arith, Bool, true, false, ◌&&◌, ◌||◌, not, leb,
  ◌==◌, if◌then◌else◌, Bool-cases, inl, inr, Option, some, none,
}
use native.Mathlib.Nat.{pow-suc}
use x68k_stackchan.Fdc.{
  Disks, Fdc, execute, reading, writing, sector_size_from_n, max_sector_size, st0_not_ready,
}
use x68k_stackchan.Fdc.Transfer.{
  World, failed, load_from, load_current_sector, with_fdc, first_sector, begin_on, begin_read_write,
  current_image,
}
use x68k_stackchan.Fdc.Inv.{IsValid, Keeps, Keeps-refl, finish_execute-IsValid}

two_pos : (k : ℕ) → 0 < 2 ^ k
two_pos zero = omega arith
two_pos (suc k) = omega (arith, pow-suc 2 k, two_pos k)

sector_size_from_n_pos : (n : ℕ) → 0 < sector_size_from_n n
sector_size_from_n_pos n = omega (arith, two_pos (n % 8))

sized_le :
    (wanted size : ℕ) → (not (wanted == size) || not (leb wanted 1024)) ≡ false → wanted ≤ 1024
sized_le wanted size h = ground (arith, h)

module _ (disks : Disks) where
  open disks use {Disk, read_sector, write_sector, is_present, is_write_protected, geometry}

  -- A loaded sector is read from its start.
  load_from-Keeps :
      (w : World disks) (o : Option ℕ)
      → let out = load_from disks w o in
        Keeps w.fdc out.1.fdc × (out.0 ≡ true → out.1.fdc.sector_pos ≡ 0)
  load_from-Keeps w none = (Keeps-refl w.fdc, λ h. absurd (ground (h, arith)))
  load_from-Keeps w (some image) =
      let f = w.fdc in
      let out =
        read_sector image f.current_cylinder f.current_head f.current_record f.sector_buffer
          w.disk in
      elim (Bool-cases out.0) [
        | inl e ↦ rw e (
          record {
            drive = refl;
            expected = refl;
            phase = refl;
            direction = refl;
            length = refl;
            bytes = refl;
          },
          λ h. refl,
        )
        | inr e ↦ rw e (
          record {
            drive = refl;
            expected = refl;
            phase = refl;
            direction = refl;
            length = refl;
            bytes = refl;
          },
          λ h. absurd (ground (h, arith)),
        )
      ]

  pub load_current_sector-Keeps :
      (w : World disks)
      → let out = load_current_sector disks w in
        Keeps w.fdc out.1.fdc × (out.0 ≡ true → out.1.fdc.sector_pos ≡ 0)
  unfolding load_current_sector
  load_current_sector-Keeps w = load_from-Keeps w (current_image disks w)

  failed-IsValid :
      (cause : ℕ) (f : Fdc)
      → f.selected_drive < 4
      → f.command_expected ≤ 9
      → IsValid (failed cause f)
  failed-IsValid cause f c w = finish_execute-IsValid _ c w

  -- A read that has just loaded a sector, or that failed to.
  pub loaded-IsValid :
      (f : Fdc) (out : Bool × World disks)
      → f.selected_drive < 4
      → f.command_expected ≤ 9
      → f.phase ≡ execute
      → f.direction ≡ reading
      → f.command_length ≡ 0
      → 0 < f.sector_bytes
      → f.sector_bytes ≤ 1024
      → Keeps f out.1.fdc
      → (out.0 ≡ true → out.1.fdc.sector_pos ≡ 0)
      → IsValid (first_sector disks out).fdc
  loaded-IsValid f (false, w) c e p d l z b k s =
      failed-IsValid 0 w.fdc (rw k.drive c) (rw k.expected e)
  loaded-IsValid f (true, w) c e p d l z b k s = record {
    chosen = rw k.drive c;
    within = rw k.expected e;
    phased =
        rw (k.phase, p)
          (record {
            empty = k.length ∙ l;
            sized = omega (arith, k.bytes);
            fits = omega (arith, k.bytes);
            inside = rw (k.direction, d) (omega (arith, s refl));
          });
  }

  -- The start of a transfer whose sector is not empty and fits.
  running-IsValid :
      (is_write : Bool) (bytes : ℕ) (w : World disks)
      → w.fdc.selected_drive < 4
      → w.fdc.command_expected ≤ 9
      → 0 < bytes
      → bytes ≤ 1024
      → let w' =
          with_fdc disks
            (record w.fdc {
              sector_bytes = bytes;
              direction = if is_write then writing else reading;
              phase = execute;
              command_length = 0;
              result_length = 0;
              sector_pos = 0;
            })
            w in
        IsValid (if is_write then w' else first_sector disks (load_current_sector disks w')).fdc
  running-IsValid true bytes w c e z b = record {
    chosen = c;
    within = e;
    phased = record { empty = refl; sized = z; fits = b; inside = z };
  }
  running-IsValid false bytes w c e z b =
      let k = load_current_sector-Keeps (with_fdc disks _ w) in
      loaded-IsValid _ (load_current_sector disks (with_fdc disks _ w)) c e refl refl refl z b k.0
        k.1

  begin_on-IsValid :
      (is_write : Bool) (w : World disks) (o : Option ℕ)
      → w.fdc.selected_drive < 4
      → w.fdc.command_expected ≤ 9
      → IsValid (begin_on disks is_write w o).fdc
  begin_on-IsValid is_write w none c e = failed-IsValid st0_not_ready w.fdc c e
  begin_on-IsValid is_write w (some image) c e =
      let f = w.fdc in
      let wanted = sector_size_from_n f.current_n in
      let odd =
        not (wanted == (geometry image w.disk).sector_size) || not (leb wanted max_sector_size) in
      elim (Bool-cases (is_write && is_write_protected image w.disk)) [
        | inl p ↦ rw p (failed-IsValid 0 f c e)
        | inr p ↦ elim (Bool-cases odd) [
          | inl q ↦ rw (p, q) (failed-IsValid 0 f c e)
          | inr q ↦
              elim (Bool-cases (not (f.current_cylinder == f.present_cylinder f.selected_drive))) [
                | inl r ↦ rw (p, q, r) (failed-IsValid 0 _ c e)
                | inr r ↦
                    rw (p, q, r)
                      (running-IsValid is_write wanted w c e (sector_size_from_n_pos f.current_n)
                        (sized_le wanted _ q))
              ]
        ]
      ]

  pub begin_read_write-IsValid :
      (is_write : Bool) (w : World disks)
      → w.fdc.command_expected ≤ 9
      → IsValid (begin_read_write disks is_write w).fdc
  unfolding begin_read_write
  begin_read_write-IsValid is_write w e =
      begin_on-IsValid is_write _ (current_image disks _) (omega arith) e
