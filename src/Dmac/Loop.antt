-- ===== src/Dmac/Loop.antt =====
-- The loops of a transfer: how far the address and the count go.
use x68k_stackchan.Base.{
  ℕ, zero, suc, ◌+◌, ◌-◌, ◌%◌, ◌^◌, ◌≤◌, ◌<◌, ◌≡◌, Bool, true, false, arith, Bool-cases, inl, inr,
  u32, sub32,
}
use x68k_stackchan.Dmac.{Wiring, to_device_loop, to_memory_loop, transfer}

-- The documented behaviour of a block transfer: it does no more than is asked.
pub record Lawful (wiring : Wiring) : Type 0 where
  pub bounded :
      (channel addr count : ℕ) (w : wiring.W)
      → (wiring.try_read_to_memory channel addr count w).0 ≤ count

-- The count went down and the address went up by as much.
pub record IsMoved {A : Type 0} (count addr : ℕ) (out : ℕ × ℕ × A) : Type 0 where
  pub fewer : out.1 ≤ count
  pub onward : out.0 ≡ (addr + (count - out.1)) % 2 ^ 32

module _ (wiring : Wiring) where
  open wiring use {W, dma_read, dma_write, try_read_to_memory, mem_read, mem_write}

  stopped : (count addr : ℕ) (w : W) → addr < 2 ^ 32 → IsMoved count addr (addr, count, w)
  stopped count addr w h = record { fewer = omega arith; onward = omega arith }

  one_more :
      (count addr : ℕ) (out : ℕ × ℕ × W)
      → addr < 2 ^ 32
      → IsMoved count (u32 (addr + 1)) out
      → IsMoved (suc count) addr out
  one_more count addr out h m = record {
    fewer = omega (arith, m.fewer);
    onward = omega (arith, m.fewer, m.onward);
  }

  to_device-IsMoved :
      (channel count addr : ℕ) (w : W)
      → addr < 2 ^ 32
      → IsMoved count addr (to_device_loop wiring channel count addr w)
  unfolding to_device_loop
  to_device-IsMoved channel zero addr w h = stopped 0 addr w h
  to_device-IsMoved channel (suc count) addr w h =
      let read = mem_read addr w in
      let sent = dma_write channel read.0 read.1 in
      elim (Bool-cases sent.0) [
        | inl t ↦ rw t (
            one_more count addr _ h
              (to_device-IsMoved channel count (u32 (addr + 1)) sent.1 (omega arith)))
        | inr f ↦ rw f (stopped (suc count) addr sent.1 h)
      ]

  to_memory-IsMoved :
      (channel count addr : ℕ) (w : W)
      → addr < 2 ^ 32
      → IsMoved count addr (to_memory_loop wiring channel count addr w)
  unfolding to_memory_loop
  to_memory-IsMoved channel zero addr w h = stopped 0 addr w h
  to_memory-IsMoved channel (suc count) addr w h =
      let read = dma_read channel w in
      elim (Bool-cases read.0) [
        | inl t ↦ rw t (
            one_more count addr _ h (
              to_memory-IsMoved channel count (u32 (addr + 1)) (mem_write addr read.1 read.2)
                (omega arith)))
        | inr f ↦ rw f (stopped (suc count) addr read.2 h)
      ]

  pub transfer-IsMoved :
      (to_device : Bool) (channel count addr : ℕ) (w : W)
      → Lawful wiring
      → addr < 2 ^ 32
      → count ≤ 2 ^ 16
      → IsMoved count addr (transfer wiring to_device channel count addr w)
  unfolding transfer
  transfer-IsMoved true channel count addr w law h c = to_device-IsMoved channel count addr w h
  transfer-IsMoved false channel count addr w law h c =
      let block = try_read_to_memory channel addr count w in
      let le = law.bounded channel addr count w in
      let m =
        to_memory-IsMoved channel (sub32 count block.0) (u32 (addr + block.0)) block.1
          (omega arith) in
      record { fewer = omega (arith, m.fewer, le); onward = omega (arith, m.fewer, m.onward, le) }
