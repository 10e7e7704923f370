-- ===== src/Dmac/Cut.antt =====
-- Where a transfer stops: at the first byte that the device refuses.
use x68k_stackchan.Base.{
  ℕ, zero, suc, ◌+◌, ◌-◌, ◌^◌, ◌≤◌, ◌<◌, ◌≡◌, ap, ◌∙◌, Bool, true, false, arith, Bool-cases, inl,
  inr, u32, sub32,
}
use x68k_stackchan.Dmac.{Wiring, to_device_loop, to_memory_loop, transfer}
use x68k_stackchan.Dmac.Loop.{Lawful}

module _ (wiring : Wiring) where
  open wiring use {W, dma_read, dma_write, try_read_to_memory, mem_read, mem_write}

  -- One byte is moved between the memory at an address and the device, unless the device refuses.
  abbrev pub move_byte : Bool → ℕ → ℕ → W → Bool × W
  move_byte true channel addr w = let read = mem_read addr w in dma_write channel read.0 read.1
  move_byte false channel addr w =
      let read = dma_read channel w in (read.0, mem_write addr read.1 read.2)

  -- Whether the device accepts byte number `k`, when those before it have been moved.
  abbrev pub accepts : Bool → ℕ → ℕ → ℕ → W → Bool
  accepts to_device channel zero addr w = (move_byte to_device channel addr w).0
  accepts to_device channel (suc k) addr w =
      accepts to_device channel k (u32 (addr + 1)) (move_byte to_device channel addr w).1

  -- Of `count` bytes to move, `left` are left: the device accepts those before them, and refuses the
  -- first of them if there is one.
  pub record IsCut (to_device : Bool) (channel count addr : ℕ) (w : W) (left : ℕ) : Type 0 where
    pub within : left ≤ count
    pub moved : (k : ℕ) → k + left < count → accepts to_device channel k addr w ≡ true
    pub refused : 0 < left → accepts to_device channel (count - left) addr w ≡ false

  nothing_left : (to_device : Bool) (channel addr : ℕ) (w : W) → IsCut to_device channel 0 addr w 0
  nothing_left to_device channel addr w = record {
    within = omega arith;
    moved = λ k l. absurd (omega arith);
    refused = λ l. absurd (omega arith);
  }

  stops_here :
      (to_device : Bool) (channel count addr : ℕ) (w : W)
      → (move_byte to_device channel addr w).0 ≡ false
      → IsCut to_device channel (suc count) addr w (suc count)
  stops_here to_device channel count addr w e =
      let none_moved : suc count - suc count ≡ 0 = omega arith in
      record {
        within = omega arith;
        moved = λ k l. absurd (omega arith);
        refused = λ l. ap (λ (k : ℕ). accepts to_device channel k addr w) none_moved ∙ e;
      }

  one_more :
      (to_device : Bool) (channel count addr left : ℕ) (w : W)
      → (move_byte to_device channel addr w).0 ≡ true
      → IsCut to_device channel count (u32 (addr + 1)) (move_byte to_device channel addr w).1 left
      → IsCut to_device channel (suc count) addr w left
  one_more to_device channel count addr left w e c =
      let later : suc count - left ≡ suc (count - left) = omega (arith, c.within) in
      record {
        within = omega (arith, c.within);
        moved = first_or;
        refused = λ l. ap (λ (k : ℕ). accepts to_device channel k addr w) later ∙ c.refused l;
      }
    where
      first_or : (k : ℕ) → k + left < suc count → accepts to_device channel k addr w ≡ true
      first_or zero l = e
      first_or (suc k) l = c.moved k (omega arith)

  to_device-IsCut :
      (channel count addr : ℕ) (w : W)
      → IsCut true channel count addr w (to_device_loop wiring channel count addr w).1
  unfolding to_device_loop
  to_device-IsCut channel zero addr w = nothing_left true channel addr w
  to_device-IsCut channel (suc count) addr w =
      let sent = move_byte true channel addr w in
      elim (Bool-cases sent.0) [
        | inl t ↦ rw t (
            one_more true channel count addr _ w t
              (to_device-IsCut channel count (u32 (addr + 1)) sent.1))
        | inr f ↦ rw f (stops_here true channel count addr w f)
      ]

  to_memory-IsCut :
      (channel count addr : ℕ) (w : W)
      → IsCut false channel count addr w (to_memory_loop wiring channel count addr w).1
  unfolding to_memory_loop
  to_memory-IsCut channel zero addr w = nothing_left false channel addr w
  to_memory-IsCut channel (suc count) addr w =
      let got = move_byte false channel addr w in
      elim (Bool-cases got.0) [
        | inl t ↦ rw t (
            one_more false channel count addr _ w t
              (to_memory-IsCut channel count (u32 (addr + 1)) got.1))
        | inr f ↦ rw f (stops_here false channel count addr w f)
      ]

  -- What is moved as a block before the loop: nothing on the way to the device.
  abbrev pub block_of : Bool → ℕ → ℕ → ℕ → W → ℕ × W
  block_of true channel addr count w = (0, w)
  block_of false channel addr count w = try_read_to_memory channel addr count w

  pub transfer-IsCut :
      (to_device : Bool) (channel count addr : ℕ) (w : W)
      → Lawful wiring
      → addr < 2 ^ 32
      → count ≤ 2 ^ 16
      → let block = block_of to_device channel addr count w in
        IsCut to_device channel
          (count - block.0)
          (u32 (addr + block.0))
          block.1
          (transfer wiring to_device channel count addr w).1
  unfolding transfer
  transfer-IsCut true channel count addr w law h c =
      let from : u32 (addr + 0) ≡ addr = omega arith in
      let all : count - 0 ≡ count = omega arith in
      rw (from, all) (to_device-IsCut channel count addr w)
  transfer-IsCut false channel count addr w law h c =
      let block = try_read_to_memory channel addr count w in
      let le = law.bounded channel addr count w in
      let rest : sub32 count block.0 ≡ count - block.0 = omega (arith, le) in
      rw rest (to_memory-IsCut channel (count - block.0) (u32 (addr + block.0)) block.1)
