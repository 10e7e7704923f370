-- ===== src/Fdc/Inv.antt =====
-- What holds of the floppy controller between any two calls.
pub mod Begin
pub mod Transfer
pub mod Write
pub mod Command
pub mod Ports
pub mod Run
use x68k_stackchan.Base.{
  ℕ, zero, suc, ◌+◌, ◌*◌, ◌/◌, ◌%◌, ◌^◌, ◌<◌, ◌≤◌, ◌≡◌, refl, ◌∙◌, subst, arith, Bool, true, false,
  ◌&&◌, ◌||◌, not, ltb, ltb→lt, leb, leb-false, ◌==◌, if◌then◌else◌, Bool-cases, inl, inr, Option,
  some, none, any_bit, u8,
}
use native.Mathlib.Nat.{pow-suc}
use x68k_stackchan.Fdc.{
  Disks, Fdc, Phase, command, execute, result, Direction, idle, reading, writing, reset, set_image,
  write_drive_control, write_drive_select, parameter_count, sector_size_from_n, max_sector_size,
  st0_not_ready, cmd_flag_multi_track,
}
use x68k_stackchan.Fdc.Transfer.{
  World, finish_execute, failed, failed_st1, advance_sector, load_from, load_current_sector,
  store_into, store_current_sector, with_fdc, first_sector, begin_on, begin_read_write,
  current_image, take_byte, take_loaded, take_next, read_on, dma_read_in, dma_read, write_next,
  write_stored, write_on, dma_write_in, dma_write, is_partial, complete_in, dma_complete,
}

-- In the phase of commands: less than a whole command is there.
pub record Collecting (direction : Direction) (length expected : ℕ) : Type 0 where
  pub stands : direction ≡ idle
  pub short : 0 < length → length < expected

abbrev pub Place : Direction → ℕ → ℕ → Type 0
Place idle pos bytes = ⊥
Place reading pos bytes = pos ≤ bytes
Place writing pos bytes = pos < bytes

-- In the phase of execution: the place is in the sector, and a write has room there.
pub record Running (direction : Direction) (length bytes pos : ℕ) : Type 0 where
  pub empty : length ≡ 0
  pub sized : 0 < bytes
  pub fits : bytes ≤ 1024
  pub inside : Place direction pos bytes

-- In the phase of results: there is one to read.
pub record Answering (direction : Direction) (length left pos : ℕ) : Type 0 where
  pub stands : direction ≡ idle
  pub empty : length ≡ 0
  pub more : pos < left
  pub fits : left ≤ 2

abbrev pub InPhase : Phase → Direction → ℕ → ℕ → ℕ → ℕ → ℕ → ℕ → Type 0
InPhase command direction length expected left done bytes pos = Collecting direction length expected
InPhase execute direction length expected left done bytes pos = Running direction length bytes pos
InPhase result direction length expected left done bytes pos = Answering direction length left done

-- The drive is one of four, no command is longer than its buffer, and the phase is as above.
pub record IsValid (f : Fdc) : Type 0 where
  pub chosen : f.selected_drive < 4
  pub within : f.command_expected ≤ 9
  pub phased :
      InPhase f.phase f.direction f.command_length f.command_expected f.result_length f.result_pos
        f.sector_bytes f.sector_pos

-- The phase of a valid state, once it is known.
pub held :
    (f : Fdc) (p : Phase) (d : Direction)
    → f.phase ≡ p
    → f.direction ≡ d
    → IsValid f
    → InPhase p d f.command_length f.command_expected f.result_length f.result_pos f.sector_bytes
        f.sector_pos
held f p d e e' v =
    subst
      (λ x.
        InPhase x d f.command_length f.command_expected f.result_length f.result_pos f.sector_bytes
          f.sector_pos)
      e
      (subst
        (λ x.
          InPhase f.phase x f.command_length f.command_expected f.result_length f.result_pos
            f.sector_bytes f.sector_pos)
        e' v.phased)

pub finish_execute-IsValid :
    (f : Fdc) → f.selected_drive < 4 → f.command_expected ≤ 9 → IsValid (finish_execute f)
unfolding finish_execute
finish_execute-IsValid f c w = record {
  chosen = c;
  within = w;
  phased = record { stands = refl; short = λ h. absurd (omega arith) };
}

pub reset-IsValid : (f : Fdc) → IsValid (reset f)
unfolding reset
reset-IsValid f = record {
  chosen = omega arith;
  within = omega arith;
  phased = record { stands = refl; short = λ h. absurd (omega arith) };
}

pub set_image-IsValid :
    (drive : ℕ) (image : Option ℕ) (f : Fdc) → IsValid f → IsValid (set_image drive image f)
unfolding set_image
set_image-IsValid drive image f v = elim (Bool-cases (leb 2 drive)) [
  | inl e ↦ rw e v
  | inr e ↦ rw e (record { chosen = v.chosen; within = v.within; phased = v.phased })
]

pub write_drive_control-IsValid :
    (value : ℕ) (f : Fdc) → IsValid f → IsValid (write_drive_control value f)
unfolding write_drive_control
write_drive_control-IsValid value f v = record {
  chosen = omega arith;
  within = v.within;
  phased = v.phased;
}

pub write_drive_select-IsValid :
    (value : ℕ) (f : Fdc) → IsValid f → IsValid (write_drive_select value f)
unfolding write_drive_select
write_drive_select-IsValid value f v = record {
  chosen = omega arith;
  within = v.within;
  phased = v.phased;
}

-- What the loading of a sector leaves of the state.
pub record Keeps (f f' : Fdc) : Type 0 where
  pub drive : f'.selected_drive ≡ f.selected_drive
  pub expected : f'.command_expected ≡ f.command_expected
  pub phase : f'.phase ≡ f.phase
  pub direction : f'.direction ≡ f.direction
  pub length : f'.command_length ≡ f.command_length
  pub bytes : f'.sector_bytes ≡ f.sector_bytes

pub Keeps-refl : (f : Fdc) → Keeps f f
Keeps-refl f = record {
  drive = refl;
  expected = refl;
  phase = refl;
  direction = refl;
  length = refl;
  bytes = refl;
}

-- The next sector, where there is one, is a change of the place on the disk only.
abbrev pub Onward : Fdc → Option Fdc → Type 0
Onward f none = Unit
Onward f (some g) = Keeps f g

pub advance_sector-Onward : (f : Fdc) → Onward f (advance_sector f)
unfolding advance_sector
advance_sector-Onward f = elim (Bool-cases (not (leb f.end_of_track f.current_record))) [
  | inl e ↦ rw e (record {
    drive = refl;
    expected = refl;
    phase = refl;
    direction = refl;
    length = refl;
    bytes = refl;
  })
  | inr e ↦ elim (Bool-cases (f.multi_track && f.current_head % 2 == 0)) [
    | inl m ↦
        rw (e, m)
          (record {
            drive = refl;
            expected = refl;
            phase = refl;
            direction = refl;
            length = refl;
            bytes = refl;
          })
    | inr m ↦ rw (e, m) tt
  ]
]
