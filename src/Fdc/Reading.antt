-- ===== src/Fdc/Reading.antt =====
-- The bytes that a read gives, of one sector after the other.
use x68k_stackchan.Base.{
  ℕ, zero, suc, ◌+◌, ◌-◌, ◌*◌, ◌<◌, ◌≤◌, ◌≡◌, refl, sym, ap, ◌∙◌, arith, Bool, true, false, leb,
  inl, inr, Option, some, none, Option-cases, ltb, if◌then◌else◌, Bool-cases, fun_ext,
}
use x68k_stackchan.Fdc.{Disks, Fdc, execute, reading, max_sector_size}
use x68k_stackchan.Fdc.Transfer.{
  World, dma_read, dma_read_in, read_on, load_current_sector, current_image,
}
use x68k_stackchan.Fdc.Sectors.{place, next, advance_sector-next, next-place}

no_place : {A : Type 0} {a : A} → none ≡ some a → ⊥
no_place h = ground (arith, h)

-- The buffer after a sector of some bytes is read into it.
abbrev pub read_into : ℕ → (ℕ → ℕ) → (ℕ → ℕ) → ℕ → ℕ
read_into bytes sector buffer i = if ltb i bytes then sector i else buffer i

read_into-read_into :
    (bytes : ℕ) (sector sector' buffer : ℕ → ℕ)
    → read_into bytes sector (read_into bytes sector' buffer) ≡ read_into bytes sector buffer
read_into-read_into bytes sector sector' buffer =
    fun_ext λ i. elim (Bool-cases (ltb i bytes)) [ inl e ↦ rw e refl | inr e ↦ rw e refl ]

module _ (disks : Disks) where
  open disks use {Disk, read_sector, geometry}

  -- A read of the image runs. The sectors of its cylinder, on the two sides and from 1 up to the last
  -- one of the command, can be read, and hold `contents` (by the side, the number and the place): as
  -- many bytes as the command's sectors have go into the buffer, which is long enough for the image's. Reading does not change the image.
  pub record IsReading (contents : ℕ → ℕ → ℕ → ℕ) (image : ℕ) (f : Fdc) (d : Disk) : Type 0 where
    pub runs : f.phase ≡ execute
    pub reads : f.direction ≡ reading
    pub sized : 0 < f.sector_bytes
    pub fits : (geometry image d).sector_size ≤ max_sector_size
    pub side : f.current_head < 2
    pub first : 0 < f.current_record
    pub ordered : f.current_record ≤ f.end_of_track
    pub byte : f.end_of_track < 256
    pub present : current_image disks (record { fdc = f; disk = d }) ≡ some image
    pub holds :
        (head number : ℕ) (buffer : ℕ → ℕ)
        → head < 2
        → 0 < number
        → number ≤ f.end_of_track
        → read_sector image f.current_cylinder head number buffer d
          ≡ (true, read_into f.sector_bytes (contents head number) buffer, d)

  -- The state after some number of reads by the DMA controller.
  abbrev pub after : ℕ → World disks → World disks
  after zero w = w
  after (suc n) w = after n (dma_read disks w).2

  after-after : (m n : ℕ) (w : World disks) → after (m + n) w ≡ after n (after m w)
  after-after zero n w = let e : 0 + n ≡ n = omega arith in ap (λ (k : ℕ). after k w) e
  after-after (suc m) n w =
      let e : suc m + n ≡ suc (m + n) = omega arith in
      ap (λ (k : ℕ). after k w) e ∙ after-after m n (dma_read disks w).2

  dma_read-read_on :
      (w : World disks)
      → w.fdc.phase ≡ execute
      → w.fdc.direction ≡ reading
      → dma_read disks w ≡ read_on disks w
  unfolding dma_read
  dma_read-read_on w p d =
      ap (λ x. dma_read_in disks w x w.fdc.direction) p ∙ ap (dma_read_in disks w execute) d

  module _ (contents : ℕ → ℕ → ℕ → ℕ) (image : ℕ) (f : Fdc) (d : Disk)
      (ready : IsReading contents image f d) where
    abbrev buffer_of : ℕ → ℕ → ℕ → ℕ
    buffer_of head number = read_into f.sector_bytes (contents head number) f.sector_buffer

    -- With a sector in the buffer, at some place.
    abbrev pub loaded_at : ℕ → ℕ → ℕ → World disks
    loaded_at head number pos = record {
      fdc = record f {
        current_head = head;
        current_record = number;
        sector_buffer = buffer_of head number;
        sector_pos = pos;
      };
      disk = d;
    }

    within :
        (head number pos : ℕ)
        → pos < f.sector_bytes
        → dma_read disks (loaded_at head number pos)
          ≡ (true, contents head number pos, loaded_at head number (pos + 1))
    within head number pos l =
        let e : leb f.sector_bytes pos ≡ false = ground (arith, l) in
        let i : ltb pos f.sector_bytes ≡ true = ground (arith, l) in
        dma_read-read_on (loaded_at head number pos) ready.runs ready.reads ∙ rw (e, i) refl

    -- A place on the track.
    record OnTrack (head number : ℕ) : Type 0 where
      side : head < 2
      first : 0 < number
      last : number ≤ f.end_of_track

    loads :
        (head number head' number' pos : ℕ)
        → OnTrack head' number'
        → load_current_sector disks (record {
          fdc = record f {
            current_head = head';
            current_record = number';
            sector_buffer = buffer_of head number;
            sector_pos = pos;
          };
          disk = d;
        })
          ≡ (true, loaded_at head' number' 0)
    unfolding load_current_sector current_image
    loads head number head' number' pos l =
        let fits : leb (geometry image d).sector_size max_sector_size ≡ true =
          ground (arith, ready.fits) in
        rw
          (
            ready.present,
            fits,
            ready.holds head' number' (buffer_of head number) l.side l.first l.last,
            read_into-read_into f.sector_bytes (contents head' number') (contents head number)
                f.sector_buffer,
          )
          refl

    turns :
        (head number head' number' pos : ℕ)
        → f.sector_bytes ≤ pos
        → next f.multi_track f.end_of_track (some (head, number)) ≡ some (head', number')
        → OnTrack head' number'
        → dma_read disks (loaded_at head number pos)
          ≡ (true, contents head' number' 0, loaded_at head' number' 1)
    turns head number head' number' pos l n k =
        let e : leb f.sector_bytes pos ≡ true = ground (arith, l) in
        let sized : ltb 0 f.sector_bytes ≡ true = ground (arith, ready.sized) in
        let w = loaded_at head number pos in
        dma_read-read_on w ready.runs ready.reads
        ∙ rw (e, advance_sector-next w.fdc, n, loads head number head' number' pos k, sized) refl

    -- On through a sector.
    after-within :
        (j head number pos : ℕ)
        → pos + j ≤ f.sector_bytes
        → after j (loaded_at head number pos) ≡ loaded_at head number (pos + j)
    after-within zero head number pos l =
        let e : pos ≡ pos + 0 = omega arith in ap (loaded_at head number) e
    after-within (suc j) head number pos l =
        let e : pos + 1 + j ≡ pos + suc j = omega arith in
        ap (λ (o : Bool × ℕ × World disks). after j o.2) (within head number pos (omega arith))
        ∙ after-within j head number (pos + 1) (omega arith)
        ∙ ap (loaded_at head number) e

    start : World disks
    start = loaded_at f.current_head f.current_record 0

    at_place : ℕ → Option (ℕ × ℕ)
    at_place = place f.multi_track f.end_of_track f.current_head f.current_record

    place-next : (q : ℕ) → next f.multi_track f.end_of_track (at_place q) ≡ at_place (suc q)
    unfolding at_place
    place-next q =
        next-place f.multi_track f.end_of_track f.current_head f.current_record ready.first
          ready.ordered ready.byte q

    place-OnTrack : (q head number : ℕ) → at_place q ≡ some (head, number) → OnTrack head number
    unfolding at_place
    place-OnTrack q head number h = record {
      side = ground (arith, h, ready.side);
      first = ground (arith, h, ready.first, ready.ordered);
      last = ground (arith, h, ready.ordered);
    }

    -- A sector that is loaded is at its end once its bytes are read.
    through :
        (q head number : ℕ)
        → dma_read disks (after (q * f.sector_bytes) start)
          ≡ (true, contents head number 0, loaded_at head number 1)
        → after (suc q * f.sector_bytes) start ≡ loaded_at head number f.sector_bytes
    through q head number h =
        let j = f.sector_bytes - 1 in
        let split : suc q * f.sector_bytes ≡ q * f.sector_bytes + suc j =
          grind (arith, ready.sized) in
        let end : 1 + j ≡ f.sector_bytes = omega (arith, ready.sized) in
        ap (λ (k : ℕ). after k start) split
        ∙ after-after (q * f.sector_bytes) (suc j) start
        ∙ ap (λ (o : Bool × ℕ × World disks). after j o.2) h
        ∙ after-within j head number 1 (omega arith)
        ∙ ap (loaded_at head number) end

    begins :
        (q head number : ℕ)
        → at_place q ≡ some (head, number)
        → dma_read disks (after (q * f.sector_bytes) start)
          ≡ (true, contents head number 0, loaded_at head number 1)
    unfolding start at_place
    begins zero head number h =
        let none_yet : 0 * f.sector_bytes ≡ 0 = omega arith in
        let same_head : f.current_head ≡ head = ground (arith, h, ready.ordered) in
        let same_number : f.current_record ≡ number = ground (arith, h, ready.ordered) in
        ap (λ (k : ℕ). dma_read disks (after k start)) none_yet
        ∙ within f.current_head f.current_record 0 ready.sized
        ∙ ap (λ (x : ℕ). (true, contents x f.current_record 0, loaded_at x f.current_record 1))
            same_head
        ∙ ap (λ (x : ℕ). (true, contents head x 0, loaded_at head x 1)) same_number
    begins (suc q) head number h = elim (Option-cases (at_place q)) [
      | inl e ↦
          absurd (no_place (ap (next f.multi_track f.end_of_track) (sym e) ∙ place-next q ∙ h))
      | inr ((h0, r0), e) ↦
          ap (dma_read disks) (through q h0 r0 (begins q h0 r0 e))
          ∙ turns h0 r0 head number f.sector_bytes (omega arith)
              (ap (next f.multi_track f.end_of_track) (sym e) ∙ place-next q ∙ h)
              (place-OnTrack (suc q) head number h)
    ]

    -- While a read runs whose first sector is in the buffer: the byte that is `q` sectors and `p`
    -- bytes on from the first is given by the read of that number, as byte `p` of the sector at place
    -- `q` of the track, wherever there is one.
    pub dma_read-contents :
        (q p head number : ℕ)
        → place f.multi_track f.end_of_track f.current_head f.current_record q ≡ some (head, number)
        → p < f.sector_bytes
        → dma_read disks
            (after (q * f.sector_bytes + p) (loaded_at f.current_head f.current_record 0))
          ≡ (true, contents head number p, loaded_at head number (p + 1))
    unfolding start at_place
    dma_read-contents q zero head number h l =
        let e : q * f.sector_bytes + 0 ≡ q * f.sector_bytes = omega arith in
        ap (λ (k : ℕ). dma_read disks (after k start)) e ∙ begins q head number h
    dma_read-contents q (suc p) head number h l =
        let e : 1 + p ≡ suc p = omega arith in
        ap (dma_read disks) (
          after-after (q * f.sector_bytes) (suc p) start
          ∙ ap (λ (o : Bool × ℕ × World disks). after p o.2) (begins q head number h)
          ∙ after-within p head number 1 (omega (arith, l))
          ∙ ap (loaded_at head number) e)
        ∙ within head number (suc p) l
