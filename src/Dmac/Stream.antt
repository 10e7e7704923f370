-- ===== src/Dmac/Stream.antt =====
-- A transfer to memory, from a device that holds a list of bytes.
use x68k_stackchan.Base.{
  ℕ, zero, suc, ◌+◌, ◌-◌, ◌^◌, ◌≤◌, ◌<◌, ◌≡◌, refl, ap, ◌∙◌, true, false, ◌&&◌, arith,
  if◌then◌else◌, ltb, leb, min, any_bit, update, List, [], ◌∷◌, length, u32, sub32,
}
use x68k_stackchan.Dmac.{
  Wiring, Dmac, to_memory_loop, transfer, run_transfer, address_of, requested_of, reg_ocr,
  ocr_direction_to_memory,
}

-- The bytes that the device has left, and the memory. The device takes nothing, moves no blocks, and
-- is not monitored.
abbrev pub stream : Wiring
stream = record {
  W = List ℕ × (ℕ → ℕ);
  has_device = λ channel. true;
  has_memory = true;
  dma_read = λ channel w. elim w.0 [ [] ↦ (false, 0, w) | b ∷ bs ↦ (true, b, (bs, w.1)) ];
  dma_write = λ channel v w. (false, w);
  try_read_to_memory = λ channel addr count w. (0, w);
  dma_complete = λ channel complete w. w;
  mem_read = λ addr w. (w.1 addr, w);
  mem_write = λ addr v w. (w.0, update w.1 addr v);
  report = λ channel requested left w. w;
}

abbrev pub nth : List ℕ → ℕ → ℕ
nth [] i = 0
nth (x ∷ xs) zero = x
nth (x ∷ xs) (suc i) = nth xs i

-- The memory after the first bytes, as many as `count` at most, are stored from `addr` on.
abbrev pub stored : ℕ → ℕ → List ℕ → (ℕ → ℕ) → ℕ → ℕ
stored count addr bytes mem a =
    if leb addr a && ltb a (addr + min count (length bytes)) then nth bytes (a - addr) else mem a

nth-first : (b : ℕ) (bs : List ℕ) (i : ℕ) → i ≡ 0 → nth (b ∷ bs) i ≡ b
nth-first b bs zero h = refl
nth-first b bs (suc i) h = absurd (omega arith)

nth-next : (b : ℕ) (bs : List ℕ) (i j : ℕ) → i ≡ j + 1 → nth (b ∷ bs) i ≡ nth bs j
nth-next b bs zero j h = absurd (omega arith)
nth-next b bs (suc i) j h = ap (nth bs) (omega arith)

stored-next :
    (count addr b : ℕ) (bs : List ℕ) (mem : ℕ → ℕ) (a : ℕ)
    → stored count (addr + 1) bs (update mem addr b) a ≡ stored (suc count) addr (b ∷ bs) mem a
stored-next count addr b bs mem a =
    ground (arith, nth-first b bs (a - addr), nth-next b bs (a - addr) (a - (addr + 1)))

loop-stored :
    (channel count addr : ℕ) (bytes : List ℕ) (mem : ℕ → ℕ) (a : ℕ)
    → addr + count < 2 ^ 32
    → let out = to_memory_loop stream channel count addr (bytes, mem) in
      (out.2.1 a ≡ stored count addr bytes mem a) × (out.1 ≡ count - min count (length bytes))
unfolding to_memory_loop
loop-stored channel zero addr bytes mem a h = ground arith
loop-stored channel (suc count) addr [] mem a h = ground arith
loop-stored channel (suc count) addr (b ∷ bs) mem a h =
    let next : u32 (addr + 1) ≡ addr + 1 = omega arith in
    let rest = loop-stored channel count (addr + 1) bs (update mem addr b) a (omega arith) in
    rw next (rest.0 ∙ stored-next count addr b bs mem a, omega (arith, rest.1))

transfer-stored :
    (channel count addr : ℕ) (bytes : List ℕ) (mem : ℕ → ℕ) (a : ℕ)
    → addr + count < 2 ^ 32
    → count ≤ 2 ^ 16
    → (transfer stream false channel count addr (bytes, mem)).2.1 a ≡ stored count addr bytes mem a
unfolding transfer
transfer-stored channel count addr bytes mem a h k =
    let all : sub32 count 0 ≡ count = omega arith in
    let start : u32 (addr + 0) ≡ addr = omega arith in
    rw (all, start) (loop-stored channel count addr bytes mem a h).0

-- For a channel set to transfer to memory, whose last address does not pass 2 ^ 32, `run_transfer`
-- stores the device's bytes in order from the address in the register on, as many as are requested
-- or as the device has, and leaves the rest of the memory.
pub run_transfer-stored :
    (channel : ℕ) (d : Dmac) (bytes : List ℕ) (mem : ℕ → ℕ) (a : ℕ)
    → let regs = d.channels channel in
      any_bit (regs reg_ocr) ocr_direction_to_memory ≡ true
      → address_of regs + requested_of regs < 2 ^ 32
      → requested_of regs ≤ 2 ^ 16
      → (run_transfer stream channel (d, (bytes, mem))).1.1 a
        ≡ stored (requested_of regs) (address_of regs) bytes mem a
unfolding run_transfer
run_transfer-stored channel d bytes mem a e h k =
    let regs = d.channels channel in
    rw e (transfer-stored channel (requested_of regs) (address_of regs) bytes mem a h k)
