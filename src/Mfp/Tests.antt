-- ===== src/Mfp/Tests.antt =====
-- Timers and interrupts at concrete states.
use x68k_stackchan.Base.{
  ◌+◌, ◌%◌, ◌<◌, if◌then◌else◌, ◌==◌, ◌≡◌, refl, true, false, arith, List, [], ◌∷◌, All,
}
use x68k_stackchan.Mfp.Reg
use x68k_stackchan.Mfp.{
  Mfp, RunningTimer, reset, write, write_rest, write_data, write_control, write_enable,
}
use x68k_stackchan.Mfp.Tick.{
  tick_fast, tick_timers, tick_timer, tick_timer_counted, count_down, cycles_until_next_raise,
  next_raise_from, no_deadline,
}
use x68k_stackchan.Mfp.Counter.{tick_timer-counter}
use x68k_stackchan.Mfp.FastPath.{tick_fast-fast}
use x68k_stackchan.Mfp.Running.{Call, writes, ticks, step, run, IsCurrent, IsDriven, run-IsCurrent}
use x68k_stackchan.Mfp.Deadline.{IsAscending, IsBelow, tick_fast-before_deadline}
use x68k_stackchan.Mfp.Interrupt.{
  acknowledge_interrupt, acknowledge_from, highest, accept, pending_a, pending_b,
  service_block_mask,
}
use x68k_stackchan.Mfp.Eligible.{IsBytes}
use x68k_stackchan.Mfp.Priority.{IsRanked, acknowledge_interrupt-IsRanked}

abbrev timer_a : RunningTimer
timer_a = record { index = 0; prescale = 4 }

abbrev timer_c : RunningTimer
timer_c = record { index = 2; prescale = 200 }

-- Timer A has 5 decrements of 4 to go, timer C 100 of 200; both raise.
abbrev timers : Mfp
timers = record {
  reg = λ i. 0xFF;
  prescale_counter = λ i. 2;
  timer_value = λ i. if i == 0 then 5 else 100;
  running = timer_a ∷ timer_c ∷ [];
}

-- 5 * 4 - 2 cycles of the peripheral's clock, and twice as many of the CPU's.
timers_deadline : cycles_until_next_raise timers ≡ 36
unfolding cycles_until_next_raise next_raise_from
timers_deadline = refl

timers-IsBelow : All (IsBelow timers) timers.running
timers-IsBelow = (
  (omega arith, omega arith, omega arith, omega arith),
  ((omega arith, omega arith, omega arith, omega arith), tt),
)

timers-IsAscending : IsAscending timers.running
timers-IsAscending = ((omega arith, tt), (tt, tt))

tick_fast-fast_example : tick_fast true 48 timers ≡ tick_fast false 48 timers
tick_fast-fast_example = tick_fast-fast 48 timers (omega arith, (omega arith, tt))

tick_fast-before_deadline_example : (tick_fast true 34 timers).reg ≡ timers.reg
tick_fast-before_deadline_example =
    tick_fast-before_deadline true 34 timers timers-IsAscending timers-IsBelow
      (omega (arith, timers_deadline))

-- Timer A is enabled with one decrement of 200 to go, runs for 150, and is then switched to
-- decrements of 4.
abbrev switched : List Call
switched =
    writes Reg.iera 0x20
    ∷ writes Reg.tadr 1
    ∷ writes Reg.tacr 7
    ∷ ticks true 300
    ∷ writes Reg.tacr 1
    ∷ []

run-IsCurrent_example :
    IsCurrent (run switched reset)
    × All (IsDriven (run switched reset)) (run switched reset).running
run-IsCurrent_example = run-IsCurrent switched

-- No deadline is announced for that state, and the next tick of two cycles raises.
switched_deadline : cycles_until_next_raise (run switched reset) ≡ no_deadline
unfolding cycles_until_next_raise next_raise_from run step write write_rest write_data write_control
    write_enable tick_fast tick_timers tick_timer tick_timer_counted count_down
switched_deadline = refl

switched_raises : (tick_fast true 2 (run switched reset)).reg Reg.ipra ≡ 0x20
unfolding run step write write_rest write_data write_control write_enable tick_fast tick_timers
    tick_timer tick_timer_counted count_down
switched_raises = refl

tick_timer-counter_example :
    ((tick_timer true 11 timer_a timers).prescale_counter 0 ≡ (2 + 11) % 4)
    × ((tick_timer true 11 timer_a timers).prescale_counter 0 < 4)
tick_timer-counter_example = tick_timer-counter true 11 timer_a timers (omega arith) (omega arith)

-- The timer C and the serial receiver are requested, and the timer A is in service.
abbrev requests : Mfp
requests = record {
  reg = λ i.
      if i == Reg.ipra
      then 0x10
      else if i == Reg.iprb
      then 0x20
      else if i == Reg.imra
      then 0x10
      else if i == Reg.imrb
      then 0x20
      else if i == Reg.isrb
      then 0x40
      else if i == Reg.vr
      then 0x48
      else 0;
  prescale_counter = λ i. 0;
  timer_value = λ i. 0;
  running = [];
}

requests-IsBytes : IsBytes requests
requests-IsBytes r = ground arith

requests_vector : (acknowledge_interrupt requests).0 ≡ 0x4C
unfolding acknowledge_interrupt acknowledge_from highest accept pending_a pending_b
    service_block_mask
requests_vector = refl

acknowledge_interrupt-IsRanked_example : IsRanked requests (acknowledge_interrupt requests)
acknowledge_interrupt-IsRanked_example = acknowledge_interrupt-IsRanked requests requests-IsBytes
