-- ===== src/Fdc/Dma.antt =====
-- src/x68k/core/machine.h, the floppy controller as the device of a channel of the DMA controller.
use x68k_stackchan.Base.{
  ℕ, zero, suc, ◌+◌, ◌*◌, ◌/◌, ◌%◌, ◌^◌, ◌<◌, ◌≤◌, ◌≡◌, refl, sym, ap, ◌∙◌, arith, Bool, true,
  false, ◌==◌, Bool-cases, inl, inr, some, Option-cases, u32, sub32, update, any_bit,
}
use native.Mathlib.Nat.{mod-lt, div-lt_iff_lt-mul, div-add-mod'}
use x68k_stackchan.Dmac.{
  Wiring, Dmac, to_memory_loop, transfer, run_transfer, address_of, requested_of, reg_ocr,
  ocr_direction_to_memory,
}
use x68k_stackchan.Fdc.{Disks, Fdc}
use x68k_stackchan.Fdc.Transfer.{World, dma_read, dma_write, dma_complete}
use x68k_stackchan.Fdc.Sectors.{place}
use x68k_stackchan.Fdc.Reading.{IsReading, after, loaded_at, dma_read-contents}

module _ (disks : Disks) where
  open disks use {Disk}

  -- The bridge, and a memory that is an array. There is no other device, and no block transfer.
  abbrev pub floppy : Wiring
  floppy = record {
    W = World disks × (ℕ → ℕ);
    has_device = λ channel. true;
    has_memory = true;
    dma_read = λ channel w. let (given, value, f) = dma_read disks w.0 in (given, value, (f, w.1));
    dma_write = λ channel value w. let (taken, f) = dma_write disks value w.0 in (taken, (f, w.1));
    try_read_to_memory = λ channel addr count w. (0, w);
    dma_complete = λ channel complete w. (dma_complete disks complete w.0, w.1);
    mem_read = λ addr w. (w.1 addr, w);
    mem_write = λ addr value w. (w.0, update w.1 addr value);
    report = λ channel requested left w. w;
  }

  -- What is below the address stays.
  loop-below :
      (channel count addr : ℕ) (w : World disks) (mem : ℕ → ℕ) (a : ℕ)
      → addr + count < 2 ^ 32
      → a < addr
      → (to_memory_loop floppy channel count addr (w, mem)).2.1 a ≡ mem a
  unfolding to_memory_loop
  loop-below channel zero addr w mem a h l = refl
  loop-below channel (suc count) addr w mem a h l =
      let on : u32 (addr + 1) ≡ addr + 1 = omega arith in
      let other : (a == addr) ≡ false = ground arith in
      elim (Bool-cases (dma_read disks w).0) [
        | inl e ↦
            rw (e, on)
              (loop-below channel count (addr + 1) (dma_read disks w).2
                  (update mem addr (dma_read disks w).1) a (omega arith) (omega arith)
                ∙ rw other refl)
        | inr e ↦ rw e refl
      ]

  -- A byte is stored once it and those before it are given.
  loop-stored :
      (channel count addr i : ℕ) (w : World disks) (mem : ℕ → ℕ)
      → addr + count < 2 ^ 32
      → i < count
      → ((j : ℕ) → j ≤ i → (dma_read disks (after disks j w)).0 ≡ true)
      → (to_memory_loop floppy channel count addr (w, mem)).2.1 (addr + i)
        ≡ (dma_read disks (after disks i w)).1
  unfolding to_memory_loop
  loop-stored channel zero addr i w mem h l g = absurd (omega arith)
  loop-stored channel (suc count) addr zero w mem h l g =
      let on : u32 (addr + 1) ≡ addr + 1 = omega arith in
      let same : (addr + 0 == addr) ≡ true = ground arith in
      rw (g 0 (omega arith), on)
        (loop-below channel count (addr + 1) (dma_read disks w).2
            (update mem addr (dma_read disks w).1) (addr + 0) (omega arith) (omega arith)
          ∙ rw same refl)
  loop-stored channel (suc count) addr (suc i) w mem h l g =
      let on : u32 (addr + 1) ≡ addr + 1 = omega arith in
      let rest =
        loop-stored channel count (addr + 1) i (dma_read disks w).2
          (update mem addr (dma_read disks w).1) (omega arith) (omega arith)
          (λ j k. g (suc j) (omega arith)) in
      let e : addr + suc i ≡ addr + 1 + i = omega arith in rw (g 0 (omega arith), on, e) rest

  transfer-stored :
      (channel count addr i : ℕ) (w : World disks) (mem : ℕ → ℕ)
      → addr + count < 2 ^ 32
      → count ≤ 2 ^ 16
      → i < count
      → ((j : ℕ) → j ≤ i → (dma_read disks (after disks j w)).0 ≡ true)
      → (transfer floppy false channel count addr (w, mem)).2.1 (addr + i)
        ≡ (dma_read disks (after disks i w)).1
  unfolding transfer
  transfer-stored channel count addr i w mem h k l g =
      let all : sub32 count 0 ≡ count = omega arith in
      let from : u32 (addr + 0) ≡ addr = omega arith in
      rw (all, from) (loop-stored channel count addr i w mem h l g)

  module _ (contents : ℕ → ℕ → ℕ → ℕ) (image : ℕ) (f : Fdc) (d : Disk)
      (ready : IsReading disks contents image f d) where
    -- There are places up to one that there is.
    earlier :
        (q k head number : ℕ)
        → place f.multi_track f.end_of_track f.current_head f.current_record q ≡ some (head, number)
        → k ≤ q
        → (s : ℕ × ℕ) × (place f.multi_track f.end_of_track f.current_head f.current_record k
            ≡ some s)
    earlier q k head number h l =
        elim (Option-cases (place f.multi_track f.end_of_track f.current_head f.current_record k)) [
          | inl e ↦ absurd (ground (arith, e, h, l, ready.ordered))
          | inr e ↦ e
        ]

    given :
        (q p head number : ℕ)
        → place f.multi_track f.end_of_track f.current_head f.current_record q ≡ some (head, number)
        → p < f.sector_bytes
        → (j : ℕ) → j ≤ q * f.sector_bytes + p
        → (dma_read disks (
            after disks j
              (loaded_at disks contents image f d ready f.current_head f.current_record 0))).0
          ≡ true
    given q p head number h l j k =
        let start = loaded_at disks contents image f d ready f.current_head f.current_record 0 in
        let part : j / f.sector_bytes * f.sector_bytes + j % f.sector_bytes ≡ j =
          div-add-mod' j f.sector_bytes in
        let next : suc q * f.sector_bytes ≡ q * f.sector_bytes + f.sector_bytes = grind arith in
        let below : j / f.sector_bytes < suc q =
          (div-lt_iff_lt-mul ready.sized).1 (omega (arith, next, l, k)) in
        let (s, e) = earlier q (j / f.sector_bytes) head number h (omega (arith, below)) in
        ap (λ (n : ℕ). (dma_read disks (after disks n start)).0) (sym part)
        ∙ ap (λ (o : Bool × ℕ × World disks). o.0)
            (dma_read-contents disks contents image f d ready (j / f.sector_bytes)
              (j % f.sector_bytes) s.0 s.1 e (mod-lt j ready.sized))

    -- While a read runs whose first sector is in the buffer, and an image whose sectors fit the buffer
    -- can read those of the cylinder from 1 up to the last one of the command on both sides, a channel
    -- set to transfer to memory that is connected to the controller: wherever the track has a sector
    -- `q` sectors on, and `p` is a byte of it within the count requested, `run_transfer` leaves the
    -- byte in memory at that distance from the channel's address.
    pub run_transfer-contents :
        (channel q p head number : ℕ) (dmac : Dmac) (mem : ℕ → ℕ)
        → let regs = dmac.channels channel in
          any_bit (regs reg_ocr) ocr_direction_to_memory ≡ true
          → address_of regs + requested_of regs < 2 ^ 32
          → requested_of regs ≤ 2 ^ 16
          → place f.multi_track f.end_of_track f.current_head f.current_record q
            ≡ some (head, number)
          → p < f.sector_bytes
          → q * f.sector_bytes + p < requested_of regs
          → (run_transfer floppy channel (
            dmac,
            (loaded_at disks contents image f d ready f.current_head f.current_record 0, mem),
          )).1.1
              (address_of regs + (q * f.sector_bytes + p))
            ≡ contents head number p
    unfolding run_transfer
    run_transfer-contents channel q p head number dmac mem t a c h l k =
        let regs = dmac.channels channel in
        rw t (
          transfer-stored channel (requested_of regs) (address_of regs) (q * f.sector_bytes + p) _
            mem a c k (given q p head number h l)
          ∙ ap (λ (o : Bool × ℕ × World disks). o.1)
              (dma_read-contents disks contents image f d ready q p head number h l))
