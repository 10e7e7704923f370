-- ===== src/Dmac/Tests.antt =====
-- A channel that is asked for four bytes from a device that has three.
use x68k_stackchan.Base.{
  ℕ, ◌+◌, ◌≤◌, ◌≡◌, ◌≢◌, refl, arith, if◌then◌else◌, ◌==◌, ◌-◌, false, u32, [], ◌∷◌,
}
use x68k_stackchan.Dmac.{
  Dmac, read, write, run_transfer, transfer, to_memory_loop, requested_of, reg_ocr, reg_mtc,
  reg_mar,
}
use x68k_stackchan.Dmac.Loop.{Lawful}
use x68k_stackchan.Dmac.Cut.{IsCut}
use x68k_stackchan.Dmac.Transfer.{IsBytes, IsEnded, run_transfer-IsEnded}
use x68k_stackchan.Dmac.Stream.{stream}

abbrev four : Dmac
four = record {
  channels = λ channel reg.
      if reg == reg_ocr
      then 0xB2
      else if reg == reg_mtc + 1
      then 4
      else if reg == reg_mar + 2
      then 0x20
      else 0;
}

abbrev blank : ℕ → ℕ
blank a = 0

four-IsBytes : IsBytes four
four-IsBytes channel reg = ground arith

stream-Lawful : Lawful stream
stream-Lawful = record { bounded = λ channel addr count w. omega arith }

-- Software starts the transfer and reads the status: an error, since a byte is missing.
error_seen : read 0x40 (write stream 0x47 0x80 (four, (0x58 ∷ 0x36 ∷ 0x38 ∷ [], blank))).0 ≡ 0x10
unfolding read write run_transfer transfer to_memory_loop
error_seen = refl

stored_third : (write stream 0x47 0x80 (four, (0x58 ∷ 0x36 ∷ 0x38 ∷ [], blank))).1.1 0x2002 ≡ 0x38
unfolding write run_transfer transfer to_memory_loop
stored_third = refl

run_transfer-IsEnded_example :
    (left : ℕ) × (left ≤ requested_of (four.channels 1))
    × IsCut stream false 1 (4 - 0) (u32 (0x2000 + 0)) (0x58 ∷ 0x36 ∷ 0x38 ∷ [], blank) left
    × IsEnded left
        (four.channels 1)
        ((run_transfer stream 1 (four, (0x58 ∷ 0x36 ∷ 0x38 ∷ [], blank))).0.channels 1)
    × ((other : ℕ)
        → other ≢ 1
        → (run_transfer stream 1 (four, (0x58 ∷ 0x36 ∷ 0x38 ∷ [], blank))).0.channels other
          ≡ four.channels other)
run_transfer-IsEnded_example =
    run_transfer-IsEnded stream 1 four (0x58 ∷ 0x36 ∷ 0x38 ∷ [], blank) stream-Lawful four-IsBytes
      refl refl
