-- ===== src/Fdc/Inv/Write.antt =====
-- The invariant of the floppy controller over the bytes that the DMA controller writes.
use x68k_stackchan.Base.{
  ℕ, ◌+◌, ◌<◌, ◌≤◌, ◌≡◌, refl, ◌∙◌, arith, Bool, true, false, ◌||◌, ltb, ltb→lt, leb, Bool-cases,
  inl, inr, Option, some, none,
}
use x68k_stackchan.Fdc.{
  Disks, Fdc, Phase, command, execute, result, Direction, idle, reading, writing, max_sector_size,
}
use x68k_stackchan.Fdc.Transfer.{
  World, advance_sector, store_into, store_current_sector, write_next, write_stored, write_on,
  dma_write_in, dma_write,
}
use x68k_stackchan.Fdc.Inv.{IsValid, Onward, held, finish_execute-IsValid, advance_sector-Onward}

module _ (disks : Disks) where
  open disks use {Disk}

  -- The storing of a sector leaves the controller.
  store_into-fdc : (w : World disks) (o : Option ℕ) → (store_into disks w o).1.fdc ≡ w.fdc
  store_into-fdc w none = refl
  store_into-fdc w (some image) = refl

  write_next-IsValid :
      (w : World disks) (o : Option Fdc)
      → w.fdc.selected_drive < 4
      → w.fdc.command_expected ≤ 9
      → w.fdc.phase ≡ execute
      → w.fdc.direction ≡ writing
      → w.fdc.command_length ≡ 0
      → 0 < w.fdc.sector_bytes
      → w.fdc.sector_bytes ≤ 1024
      → Onward w.fdc o
      → IsValid (write_next disks w o).1.fdc
  write_next-IsValid w none c e p d l z b a = finish_execute-IsValid _ c e
  write_next-IsValid w (some f) c e p d l z b a = record {
    chosen = rw a.drive c;
    within = rw a.expected e;
    phased =
        rw (a.phase, p, a.direction, d)
          (record {
            empty = a.length ∙ l;
            sized = omega (arith, a.bytes, z);
            fits = omega (arith, a.bytes, b);
            inside = omega (arith, a.bytes, z);
          });
  }

  write_stored-IsValid :
      (out : Bool × World disks) (f : Fdc)
      → out.1.fdc ≡ f
      → f.selected_drive < 4
      → f.command_expected ≤ 9
      → f.phase ≡ execute
      → f.direction ≡ writing
      → f.command_length ≡ 0
      → 0 < f.sector_bytes
      → f.sector_bytes ≤ 1024
      → IsValid (write_stored disks out).1.fdc
  write_stored-IsValid (false, w) f q c e p d l z b = finish_execute-IsValid _ (rw q c) (rw q e)
  write_stored-IsValid (true, w) f q c e p d l z b =
      write_next-IsValid w (advance_sector w.fdc) (rw q c) (rw q e) (rw q p) (rw q d) (rw q l)
        (rw q z) (rw q b) (advance_sector-Onward w.fdc)

  write_on-IsValid :
      (value : ℕ) (w : World disks)
      → IsValid w.fdc
      → w.fdc.phase ≡ execute
      → w.fdc.direction ≡ writing
      → IsValid (write_on disks value w).1.fdc
  unfolding store_current_sector
  write_on-IsValid value w v p d =
      let f = w.fdc in
      let now = held f execute writing p d v in
      elim (Bool-cases (leb f.sector_bytes f.sector_pos || leb max_sector_size f.sector_pos)) [
        | inl e ↦ rw e (finish_execute-IsValid _ v.chosen v.within)
        | inr e ↦ elim (Bool-cases (ltb (f.sector_pos + 1) f.sector_bytes)) [
          | inl m ↦
              rw (e, m)
                (record {
                  chosen = v.chosen;
                  within = v.within;
                  phased =
                      rw (p, d)
                        (record {
                          empty = now.empty;
                          sized = now.sized;
                          fits = now.fits;
                          inside = ltb→lt _ _ m;
                        });
                })
          | inr m ↦
              rw (e, m)
                (write_stored-IsValid _ _ (store_into-fdc _ _) v.chosen v.within p d now.empty
                  now.sized now.fits)
        ]
      ]

  dma_write_in-IsValid :
      (value : ℕ) (w : World disks) (p : Phase) (d : Direction)
      → w.fdc.phase ≡ p
      → w.fdc.direction ≡ d
      → IsValid w.fdc
      → IsValid (dma_write_in disks value w p d).1.fdc
  dma_write_in-IsValid value w execute writing e e' v = write_on-IsValid value w v e e'
  dma_write_in-IsValid value w execute idle e e' v = v
  dma_write_in-IsValid value w execute reading e e' v = v
  dma_write_in-IsValid value w command d e e' v = v
  dma_write_in-IsValid value w result d e e' v = v

  pub dma_write-IsValid :
      (value : ℕ) (w : World disks) → IsValid w.fdc → IsValid (dma_write disks value w).1.fdc
  unfolding dma_write
  dma_write-IsValid value w v = dma_write_in-IsValid value w w.fdc.phase w.fdc.direction refl refl v
