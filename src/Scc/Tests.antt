-- ===== src/Scc/Tests.antt =====
-- The SCC as the ROM sets it up for the mouse.
use x68k_stackchan.Base.{
  ℕ, ◌≡◌, ◌≢◌, refl, true, false, arith, if◌then◌else◌, ◌==◌, List, [], ◌∷◌, ◌++◌,
}
use x68k_stackchan.Base.Int.{pos, negsuc}
use x68k_stackchan.Scc.{
  Scc, reset, reset_channel, read_control, write_control, write_wr0, store, master_control,
  rx_control, int_control, read_data, push_rx_byte, move_mouse, is_mouse_enabled, is_mode_enabled,
  wants_rx_interrupt, acknowledge_interrupt, has_pending_interrupt, refreshed, saturate_delta,
  buttons_of, build_rr0, peek,
}
use x68k_stackchan.Scc.Inv.{
  IsValid, Call, writes_control, reads_data, moves, acknowledges, step, run, run-IsValid,
}
use x68k_stackchan.Scc.Fifo.{contents}
use x68k_stackchan.Scc.Stream.{all_leave, all_come, run-flow}
use x68k_stackchan.Scc.Report.{handle, handle-report, reset_ius-hides_next}

abbrev writes_register : ℕ → ℕ → ℕ → List Call
writes_register channel reg value = writes_control channel reg ∷ writes_control channel value ∷ []

-- The vector through channel A, then the registers of channel B.
abbrev set_up : List Call
set_up =
    writes_register 1 2 0x50
    ++ writes_register 0 1 0x10
    ++ writes_register 0 3 0xC1
    ++ writes_register 0 5 0x62
    ++ writes_register 0 9 0x09

abbrev ready : Scc
ready = record {
  ch = λ channel.
      if channel == 0
      then record reset_channel {
        wr = λ reg.
            if reg == 1 then 0x10 else if reg == 3 then 0xC1 else if reg == 5 then 0x62 else 0;
      }
      else reset_channel;
  shared_wr = λ reg. if reg == 2 then 0x50 else if reg == 9 then 0x09 else 0;
}

set_up_enables : is_mouse_enabled (run set_up reset) ≡ true
unfolding run step write_control write_wr0 store master_control rx_control int_control refreshed
    is_mouse_enabled is_mode_enabled
set_up_enables = refl

set_up_shared : peek 1 9 (run set_up reset) ≡ 0x09
unfolding peek run step write_control write_wr0 store master_control rx_control int_control
    refreshed is_mode_enabled
set_up_shared = refl

-- The third report has no room.
third_refused :
    (move_mouse
      (pos 5)
      (pos 5)
      false
      false
      (move_mouse
        (pos 300)
        (negsuc 0)
        true
        false
        (move_mouse (negsuc 299) (pos 7) false true ready).1).1).0
    ≡ false
unfolding move_mouse push_rx_byte refreshed is_mouse_enabled is_mode_enabled saturate_delta
third_refused = refl

bytes_wait :
    contents (
      (move_mouse
          (pos 300)
          (negsuc 0)
          true
          false
          (move_mouse (negsuc 299) (pos 7) false true ready).1).1.ch
        0)
    ≡ 1 ∷ 128 ∷ 7 ∷ 2 ∷ 127 ∷ 255 ∷ []
unfolding move_mouse push_rx_byte refreshed is_mouse_enabled is_mode_enabled saturate_delta
bytes_wait = refl

status : (read_control 0 (move_mouse (pos 1) (pos 1) false false ready).1).0 ≡ 0x2D
unfolding read_control build_rr0 move_mouse push_rx_byte refreshed is_mouse_enabled is_mode_enabled
    saturate_delta
status = refl

reset-IsValid : IsValid reset
reset-IsValid channel = record { fits = omega arith; selects = omega arith; caused = λ e. cc }

run-IsValid_example :
    IsValid (run (set_up ++ moves (pos 3) (negsuc 4) true false ∷ acknowledges ∷ []) reset)
run-IsValid_example =
    run-IsValid (set_up ++ moves (pos 3) (negsuc 4) true false ∷ acknowledges ∷ []) reset
      reset-IsValid

run-flow_example :
    all_leave (moves (pos 3) (negsuc 4) true false ∷ reads_data 0 ∷ []) ready
      ++ contents ((run (moves (pos 3) (negsuc 4) true false ∷ reads_data 0 ∷ []) ready).ch 0)
    ≡ contents (ready.ch 0)
      ++ all_come (moves (pos 3) (negsuc 4) true false ∷ reads_data 0 ∷ []) ready
run-flow_example = run-flow (moves (pos 3) (negsuc 4) true false ∷ reads_data 0 ∷ []) ready

ready_enabled : is_mouse_enabled ready ≡ true
unfolding is_mouse_enabled
ready_enabled = refl

ready_wants : wants_rx_interrupt (ready.ch 0) (ready.shared_wr 9) ≡ true
unfolding is_mode_enabled
ready_wants = refl

abbrev moved : Scc
moved = (move_mouse (pos 3) (negsuc 4) true false ready).1

handle-report_example :
    ((move_mouse (pos 3) (negsuc 4) true false ready).0 ≡ true)
    × ((handle moved).0 ≡ (0x54, buttons_of true false))
    × ((handle (handle moved).1).0 ≡ (0x54, saturate_delta (pos 3)))
    × ((handle (handle (handle moved).1).1).0 ≡ (0x54, saturate_delta (negsuc 4)))
    × (contents ((handle (handle (handle moved).1).1).1.ch 0) ≡ [])
    × (((handle (handle (handle moved).1).1).1.ch 0).rx_interrupt_pending ≡ false)
    × (((handle (handle (handle moved).1).1).1.ch 0).pointer ≡ 8)
handle-report_example =
    handle-report (pos 3) (negsuc 4) true false ready ready_enabled refl refl ready_wants

reset_ius-hides_next_example :
    (((write_control 0 5 (write_control 0 0x38 ready)).ch 0).wr 8 ≡ 5)
    × (((write_control 0 5 (write_control 0 0x38 ready)).ch 0).pointer ≡ 0)
    × ((reg : ℕ)
        → reg ≢ 8
        → ((write_control 0 5 (write_control 0 0x38 ready)).ch 0).wr reg ≡ (ready.ch 0).wr reg)
reset_ius-hides_next_example = reset_ius-hides_next 0 5 ready (omega arith) refl

-- After one run of the handler the ROM's mouse-off sequence leaves RTS on.
still_enabled : is_mouse_enabled (run (writes_register 0 5 0x60) (handle moved).1) ≡ true
unfolding run step handle acknowledge_interrupt has_pending_interrupt read_data write_control
    write_wr0 store master_control rx_control int_control refreshed is_mouse_enabled is_mode_enabled
    move_mouse push_rx_byte saturate_delta
still_enabled = refl
