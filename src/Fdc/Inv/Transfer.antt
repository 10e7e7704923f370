-- ===== src/Fdc/Inv/Transfer.antt =====
-- The invariant of the floppy controller over the bytes that the DMA controller reads, and the end.
use x68k_stackchan.Base.{
  ◌<◌, ◌≡◌, refl, ◌∙◌, arith, Bool, true, false, leb, leb-false, Bool-cases, inl, inr, Option, some,
  none,
}
use x68k_stackchan.Fdc.{
  Disks, Fdc, Phase, command, execute, result, Direction, idle, reading, writing,
}
use x68k_stackchan.Fdc.Transfer.{
  World, advance_sector, load_current_sector, with_fdc, first_sector, take_byte, take_loaded,
  take_next, read_on, dma_read_in, dma_read, complete_in, dma_complete,
}
use x68k_stackchan.Fdc.Inv.{
  IsValid, Keeps, Onward, held, finish_execute-IsValid, advance_sector-Onward,
}
use x68k_stackchan.Fdc.Inv.Begin.{load_current_sector-Keeps, loaded-IsValid}

module _ (disks : Disks) where
  open disks use {Disk}

  take_byte-IsValid :
      (w : World disks)
      → IsValid w.fdc
      → w.fdc.phase ≡ execute
      → w.fdc.direction ≡ reading
      → w.fdc.sector_pos < w.fdc.sector_bytes
      → IsValid (take_byte disks w).2.fdc
  take_byte-IsValid w v p d l =
      let now = held w.fdc execute reading p d v in
      record {
        chosen = v.chosen;
        within = v.within;
        phased =
            rw (p, d)
              (record {
                empty = now.empty;
                sized = now.sized;
                fits = now.fits;
                inside = omega (arith, l);
              });
      }

  take_loaded-IsValid :
      (out : Bool × World disks)
      → IsValid (first_sector disks out).fdc
      → (out.0 ≡ true
          → (out.1.fdc.phase ≡ execute)
            × (out.1.fdc.direction ≡ reading)
            × (out.1.fdc.sector_pos < out.1.fdc.sector_bytes))
      → IsValid (take_loaded disks out).2.fdc
  take_loaded-IsValid (false, w) v h = v
  take_loaded-IsValid (true, w) v h = let (p, d, l) = h refl in take_byte-IsValid w v p d l

  -- A read goes on with the next sector.
  pub refilled-IsValid :
      (w : World disks) (f : Fdc)
      → IsValid w.fdc
      → w.fdc.phase ≡ execute
      → w.fdc.direction ≡ reading
      → Keeps w.fdc f
      → let out = load_current_sector disks (with_fdc disks f w) in
        IsValid (first_sector disks out).fdc
        × (out.0 ≡ true
            → (out.1.fdc.phase ≡ execute)
              × (out.1.fdc.direction ≡ reading)
              × (out.1.fdc.sector_pos < out.1.fdc.sector_bytes))
  refilled-IsValid w f v p d a =
      let out = load_current_sector disks (with_fdc disks f w) in
      let (k, s) = load_current_sector-Keeps disks (with_fdc disks f w) in
      let now = held w.fdc execute reading p d v in
      (
        loaded-IsValid disks f out (rw a.drive v.chosen) (rw a.expected v.within) (a.phase ∙ p)
            (a.direction ∙ d) (a.length ∙ now.empty) (rw a.bytes now.sized) (rw a.bytes now.fits) k
            s,
        λ h. (
          k.phase ∙ a.phase ∙ p,
          k.direction ∙ a.direction ∙ d,
          omega (arith, s h, k.bytes, a.bytes, now.sized),
        ),
      )

  take_next-IsValid :
      (w : World disks) (o : Option Fdc)
      → IsValid w.fdc
      → w.fdc.phase ≡ execute
      → w.fdc.direction ≡ reading
      → Onward w.fdc o
      → IsValid (take_next disks w o).2.fdc
  take_next-IsValid w none v p d a = finish_execute-IsValid _ v.chosen v.within
  take_next-IsValid w (some f) v p d a =
      let (r, h) = refilled-IsValid w f v p d a in take_loaded-IsValid _ r h

  read_on-IsValid :
      (w : World disks)
      → IsValid w.fdc
      → w.fdc.phase ≡ execute
      → w.fdc.direction ≡ reading
      → IsValid (read_on disks w).2.fdc
  read_on-IsValid w v p d = elim (Bool-cases (leb w.fdc.sector_bytes w.fdc.sector_pos)) [
    | inl e ↦ rw e (take_next-IsValid w (advance_sector w.fdc) v p d (advance_sector-Onward w.fdc))
    | inr e ↦ rw e (take_byte-IsValid w v p d (leb-false _ _ e))
  ]

  dma_read_in-IsValid :
      (w : World disks) (p : Phase) (d : Direction)
      → w.fdc.phase ≡ p
      → w.fdc.direction ≡ d
      → IsValid w.fdc
      → IsValid (dma_read_in disks w p d).2.fdc
  dma_read_in-IsValid w execute reading e e' v = read_on-IsValid w v e e'
  dma_read_in-IsValid w execute idle e e' v = v
  dma_read_in-IsValid w execute writing e e' v = v
  dma_read_in-IsValid w command d e e' v = v
  dma_read_in-IsValid w result d e e' v = v

  pub dma_read-IsValid : (w : World disks) → IsValid w.fdc → IsValid (dma_read disks w).2.fdc
  unfolding dma_read
  dma_read-IsValid w v = dma_read_in-IsValid w w.fdc.phase w.fdc.direction refl refl v

  complete_in-IsValid :
      (complete : Bool) (f : Fdc) (p : Phase) → IsValid f → IsValid (complete_in complete f p)
  complete_in-IsValid complete f execute v = finish_execute-IsValid _ v.chosen v.within
  complete_in-IsValid complete f command v = v
  complete_in-IsValid complete f result v = v

  pub dma_complete-IsValid :
      (complete : Bool) (w : World disks)
      → IsValid w.fdc
      → IsValid (dma_complete disks complete w).fdc
  unfolding dma_complete
  dma_complete-IsValid complete w v = complete_in-IsValid complete w.fdc w.fdc.phase v
