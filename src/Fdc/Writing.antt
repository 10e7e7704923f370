-- ===== src/Fdc/Writing.antt =====
-- The writes of a sector: it reaches the image when it is whole.
use x68k_stackchan.Base.{
  ℕ, zero, suc, ◌+◌, ◌-◌, ◌<◌, ◌≤◌, ◌≡◌, refl, sym, ap, subst, ◌∙◌, arith, Bool, true, false, ◌||◌,
  ltb, leb, ◌==◌, ==_iff, if◌then◌else◌, Bool-cases, inl, inr, update, Option, some, none,
}
use x68k_stackchan.Fdc.{Disks, Fdc, execute, writing, max_sector_size}
use x68k_stackchan.Fdc.Transfer.{
  World, current_image, write_next, advance_sector, dma_write, dma_write_in, write_on, write_stored,
  store_current_sector,
}

-- A buffer with the first bytes of a flow.
abbrev pub filled : (ℕ → ℕ) → ℕ → (ℕ → ℕ) → ℕ → ℕ
filled buffer zero bytes = buffer
filled buffer (suc n) bytes = update (filled buffer n bytes) n (bytes n)

pub filled_lem :
    (buffer : ℕ → ℕ) (n : ℕ) (bytes : ℕ → ℕ) (i : ℕ)
    → filled buffer n bytes i ≡ (if ltb i n then bytes i else buffer i)
filled_lem buffer zero bytes i = ground arith
filled_lem buffer (suc n) bytes i = elim (Bool-cases (i == n)) [
  | inl e ↦
      let in_range : ltb i (suc n) ≡ true = ground (arith, e) in
      rw (e, in_range) (ap bytes (sym ((==_iff i n).0 e)))
  | inr e ↦
      let before : ltb i (suc n) ≡ ltb i n = ground (arith, e) in
      rw (e, before) (filled_lem buffer n bytes i)
]

module _ (disks : Disks) where
  open disks use {Disk, write_sector}

  -- The state after the first bytes of a flow, and what the last write said.
  abbrev pub takes : (ℕ → ℕ) → ℕ → World disks → World disks
  takes bytes zero w = w
  takes bytes (suc n) w = (dma_write disks (bytes n) (takes bytes n w)).1

  dma_write-write_on :
      (value : ℕ) (w : World disks)
      → w.fdc.phase ≡ execute
      → w.fdc.direction ≡ writing
      → dma_write disks value w ≡ write_on disks value w
  unfolding dma_write
  dma_write-write_on value w p d =
      ap (λ x. dma_write_in disks value w x w.fdc.direction) p
      ∙ ap (dma_write_in disks value w execute) d

  -- A write runs, to a sector that is neither empty nor longer than the buffer.
  pub record IsWriting (image : ℕ) (f : Fdc) (d : Disk) : Type 0 where
    pub runs : f.phase ≡ execute
    pub writes : f.direction ≡ writing
    pub sized : 0 < f.sector_bytes
    pub fits : f.sector_bytes ≤ max_sector_size
    pub present : current_image disks (record { fdc = f; disk = d }) ≡ some image

  -- What comes after a sector is stored leaves the image.
  write_next-disk : (w : World disks) (o : Option Fdc) → (write_next disks w o).1.disk ≡ w.disk
  write_next-disk w none = refl
  write_next-disk w (some f) = refl

  write_stored-disk : (out : Bool × World disks) → (write_stored disks out).1.disk ≡ out.1.disk
  write_stored-disk (true, w) = write_next-disk w (advance_sector w.fdc)
  write_stored-disk (false, w) = refl

  module _ (bytes : ℕ → ℕ) (image : ℕ) (f : Fdc) (d : Disk) (ready : IsWriting image f d) where
    abbrev pub partly : ℕ → World disks
    partly n = record {
      fdc = record f { sector_buffer = filled f.sector_buffer n bytes; sector_pos = n };
      disk = d;
    }

    takes-partly : (n : ℕ) → n < f.sector_bytes → takes bytes n (partly 0) ≡ partly n
    takes-partly zero l = refl
    takes-partly (suc n) l =
        let room : (leb f.sector_bytes n || leb max_sector_size n) ≡ false =
          ground (arith, l, ready.fits) in
        let more : ltb (n + 1) f.sector_bytes ≡ true = ground (arith, l) in
        let e : n + 1 ≡ suc n = omega arith in
        ap (λ (x : World disks). (dma_write disks (bytes n) x).1)
          (takes-partly n (omega (arith, l)))
        ∙ ap (λ (o : Bool × World disks). o.1)
            (dma_write-write_on (bytes n) (partly n) ready.runs ready.writes)
        ∙ rw (room, more, e) refl

    last-stored :
        (n : ℕ)
        → suc n ≡ f.sector_bytes
        → (takes bytes (suc n) (partly 0)).disk
          ≡ (write_sector image f.current_cylinder f.current_head f.current_record
              (filled f.sector_buffer (suc n) bytes)
              d).1
    unfolding store_current_sector current_image
    last-stored n l =
        let room : (leb f.sector_bytes n || leb max_sector_size n) ≡ false =
          ground (arith, l, ready.fits) in
        let full : ltb (n + 1) f.sector_bytes ≡ false = ground (arith, l) in
        ap (λ (x : World disks). (dma_write disks (bytes n) x).1.disk)
          (takes-partly n (omega (arith, l)))
        ∙ ap (λ (o : Bool × World disks). o.1.disk)
            (dma_write-write_on (bytes n) (partly n) ready.runs ready.writes)
        ∙ rw (room, full, ready.present) (write_stored-disk _)

    -- While a write runs whose sector has no bytes yet: as long as fewer bytes are written than the
    -- sector has, the images stay as they were; the last byte stores one sector at the place of the
    -- command, from a buffer that begins with the bytes written, in order.
    pub dma_write-stored :
        ((n : ℕ) → n < f.sector_bytes → (takes bytes n (partly 0)).disk ≡ d)
        × ((takes bytes f.sector_bytes (partly 0)).disk
            ≡ (write_sector image f.current_cylinder f.current_head f.current_record
                (filled f.sector_buffer f.sector_bytes bytes)
                d).1)
        × ((i : ℕ) → i < f.sector_bytes → filled f.sector_buffer f.sector_bytes bytes i ≡ bytes i)
    dma_write-stored = (
      λ n l. ap (λ (w : World disks). w.disk) (takes-partly n l),
      subst
          (λ (k : ℕ).
            (takes bytes k (partly 0)).disk
            ≡ (write_sector image f.current_cylinder f.current_head f.current_record
                (filled f.sector_buffer k bytes) d).1)
          whole (last-stored (f.sector_bytes - 1) whole),
      λ i l. filled_lem f.sector_buffer f.sector_bytes bytes i ∙ inside i l,
    )
      where
        whole : suc (f.sector_bytes - 1) ≡ f.sector_bytes
        whole = omega (arith, ready.sized)

        inside :
            (i : ℕ)
            → i < f.sector_bytes
            → (if ltb i f.sector_bytes then bytes i else f.sector_buffer i) ≡ bytes i
        inside i l = ground (arith, l)
