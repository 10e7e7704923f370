-- ===== src/Fdc/Inv/Ports.antt =====
-- The invariant of the floppy controller over the ports of the processor.
use x68k_stackchan.Base.{
  ℕ, ◌+◌, ◌<◌, ◌≤◌, ◌≡◌, refl, ◌∙◌, arith, Bool, true, false, ltb, leb, ◌==◌, Bool-cases, either,
  inl, inr, Option, some, none, leb-false,
}
use x68k_stackchan.Fdc.{
  Disks, Fdc, Phase, command, execute, result, Direction, idle, reading, writing, parameter_count,
  command_size,
}
use x68k_stackchan.Fdc.Transfer.{World, load_current_sector, with_fdc, advance_sector, first_sector}
use x68k_stackchan.Fdc.Command.{
  refilled, refill, read_sector_byte, cleared, read_result_byte, read_data_in, read_data, collect,
  accept, write_data_in, write_data,
}
use x68k_stackchan.Fdc.Inv.Transfer.{refilled-IsValid}
use x68k_stackchan.Fdc.Inv.{IsValid, Onward, held, finish_execute-IsValid, advance_sector-Onward}
use x68k_stackchan.Fdc.Inv.Command.{IsReady, execute_command-IsValid}

parameter_count-le : (opcode : ℕ) → parameter_count opcode ≤ 8
unfolding parameter_count
parameter_count-le opcode = ground arith

collecting-IsValid :
    (f : Fdc) → IsReady f → f.phase ≡ command → f.command_length < f.command_expected → IsValid f
collecting-IsValid f r p l = record {
  chosen = r.chosen;
  within = r.within;
  phased = rw p (record { stands = r.stands; short = λ h. l });
}

-- A byte of a command changes the command only.
collect-IsReady :
    (value : ℕ) (f : Fdc)
    → IsReady f
    → IsReady (collect value f) × ((collect value f).phase ≡ f.phase)
unfolding collect
collect-IsReady value f r =
    let P : Fdc → Type 0 = λ g. IsReady g × (g.phase ≡ f.phase) in
    either P (f.command_length == 0) _ _
      (
        record {
          chosen = r.chosen;
          within = omega (arith, parameter_count-le value);
          stands = r.stands;
        },
        refl,
      )
      (either P (ltb f.command_length command_size) _ _
        (record { chosen = r.chosen; within = r.within; stands = r.stands }, refl) (r, refl))

module _ (disks : Disks) where
  open disks use {Disk}

  -- What a byte of a command leaves: either it is the last one, or more are to come.
  accept-IsValid :
      (value : ℕ) (w : World disks)
      → w.fdc.selected_drive < 4
      → w.fdc.command_expected ≤ 9
      → w.fdc.phase ≡ command
      → w.fdc.direction ≡ idle
      → IsValid (accept disks value w).fdc
  unfolding accept
  accept-IsValid value w c e p d =
      let f = collect value w.fdc in
      let (r, q) = collect-IsReady value w.fdc (record { chosen = c; within = e; stands = d }) in
      elim (Bool-cases (leb f.command_expected f.command_length)) [
        | inl h ↦ rw h (execute_command-IsValid disks (with_fdc disks f w) r)
        | inr h ↦ rw h (collecting-IsValid f r (q ∙ p) (leb-false _ _ h))
      ]

  write_data_in-IsValid :
      (value : ℕ) (w : World disks) (p : Phase)
      → w.fdc.phase ≡ p
      → IsValid w.fdc
      → IsValid (write_data_in disks value w p).fdc
  write_data_in-IsValid value w command p v =
      accept-IsValid value w v.chosen v.within p (held w.fdc command _ p refl v).stands
  write_data_in-IsValid value w execute p v = v
  write_data_in-IsValid value w result p v =
      accept-IsValid value (with_fdc disks (cleared w.fdc) w) v.chosen v.within refl
        (held w.fdc result _ p refl v).stands

  pub write_data-IsValid :
      (value : ℕ) (w : World disks) → IsValid w.fdc → IsValid (write_data disks value w).fdc
  unfolding write_data
  write_data-IsValid value w v = write_data_in-IsValid value w w.fdc.phase refl v

  refilled_lem :
      (out : Bool × World disks)
      → IsValid (first_sector disks out).fdc
      → IsValid (refilled disks out).fdc
  refilled_lem (true, w) v = v
  refilled_lem (false, w) v = v

  refill-IsValid :
      (w : World disks) (o : Option Fdc)
      → IsValid w.fdc
      → w.fdc.phase ≡ execute
      → w.fdc.direction ≡ reading
      → Onward w.fdc o
      → IsValid (refill disks w o).fdc
  refill-IsValid w none v p d a = finish_execute-IsValid _ v.chosen v.within
  refill-IsValid w (some f) v p d a =
      refilled_lem (load_current_sector disks (with_fdc disks f w))
        (refilled-IsValid disks w f v p d a).0

  read_sector_byte-IsValid :
      (w : World disks)
      → IsValid w.fdc
      → w.fdc.phase ≡ execute
      → w.fdc.direction ≡ reading
      → IsValid (read_sector_byte disks w).1.fdc
  read_sector_byte-IsValid w v p d =
      let f = w.fdc in
      let moved = record f { sector_pos = f.sector_pos + 1 } in
      let now = held f execute reading p d v in
      elim (Bool-cases (leb f.sector_bytes f.sector_pos)) [
        | inl e ↦ rw e v
        | inr e ↦
            let onward : IsValid moved = record {
              chosen = v.chosen;
              within = v.within;
              phased =
                  rw (p, d)
                    (record {
                      empty = now.empty;
                      sized = now.sized;
                      fits = now.fits;
                      inside = omega (arith, leb-false _ _ e);
                    });
            } in
            rw e (
              either (λ (x : World disks). IsValid x.fdc) _ _ _
                (refill-IsValid (with_fdc disks moved w) (advance_sector moved) onward p d
                  (advance_sector-Onward moved))
                onward)
      ]

  read_result_byte-IsValid :
      (w : World disks)
      → IsValid w.fdc
      → w.fdc.phase ≡ result
      → IsValid (read_result_byte disks w).1.fdc
  read_result_byte-IsValid w v p =
      let f = w.fdc in
      let moved = record f { result_pos = f.result_pos + 1 } in
      let now = held f result _ p refl v in
      elim (Bool-cases (leb f.result_length f.result_pos)) [
        | inl e ↦ rw e v
        | inr e ↦ elim (Bool-cases (leb f.result_length (f.result_pos + 1))) [
          | inl l ↦
              rw (e, l)
                (record {
                  chosen = v.chosen;
                  within = v.within;
                  phased = record { stands = now.stands; short = λ h. absurd (omega arith) };
                })
          | inr l ↦
              rw (e, l)
                (record {
                  chosen = v.chosen;
                  within = v.within;
                  phased = rw p (record {
                    stands = now.stands;
                    empty = now.empty;
                    more = leb-false _ _ l;
                    fits = now.fits;
                  });
                })
        ]
      ]

  read_data_in-IsValid :
      (w : World disks) (p : Phase) (d : Direction)
      → w.fdc.phase ≡ p
      → w.fdc.direction ≡ d
      → IsValid w.fdc
      → IsValid (read_data_in disks w p d).1.fdc
  read_data_in-IsValid w execute reading p d v = read_sector_byte-IsValid w v p d
  read_data_in-IsValid w execute idle p d v = v
  read_data_in-IsValid w execute writing p d v = v
  read_data_in-IsValid w command d p e v = v
  read_data_in-IsValid w result d p e v = read_result_byte-IsValid w v p

  pub read_data-IsValid : (w : World disks) → IsValid w.fdc → IsValid (read_data disks w).1.fdc
  unfolding read_data
  read_data-IsValid w v = read_data_in-IsValid w w.fdc.phase w.fdc.direction refl refl v
