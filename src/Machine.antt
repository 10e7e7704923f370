-- ===== src/Machine.antt =====
-- The event loop of src/x68k/core/machine.cpp over the clock of `Scheduler`.
pub mod Slice
pub mod Skip
pub mod Halt
pub mod Run
mod Tests
use x68k_stackchan.Base.{
  ℕ, suc, zero, ◌+◌, ◌-◌, ◌%◌, ◌^◌, ◌≡◌, ◌<◌, ◌≤◌, Bool, true, false, ◌&&◌, ◌||◌, not, min, u32,
  u64, sub64, ltb, leb, ◌==◌, if◌then◌else◌,
}
use x68k_stackchan.Scheduler.{
  Scheduler, settle, begin_slice, arm_deadline, reached_slice_end, slice_spent, count_reach,
  hold_for_pending_interrupt, inject_pending, advance, settle_loop, sync_unsettled, pending,
  consume, arm_limit, cpu_time,
}
use x68k_stackchan.Scheduler.Inv.{IsCoherent}

-- The rest of the machine as the event loop sees it. `tick` is `tickDevices`, `service` is
-- `serviceInterrupts`, `blocked` the three `hasPendingInterrupt` calls, `until_event` the least of
-- the three deadlines that `nextEventCycle` asks for, `sleeps` is `stopped` with no interrupt level
-- pending, `wakes` is an interrupt level pending. `execute` runs what one turn of the loop runs (a
-- poll skip, a native block or one instruction) and returns the cycles used, 0 if the CPU halted; it
-- may touch the clock, through the `materialize` and `rearm` of the I/O handlers.
pub record Board : Type 1 where
  pub D : Type 0
  pub tick : ℕ → D → D
  pub service : D → D
  pub blocked : D → Bool
  pub until_event : D → ℕ
  pub sleeps : D → Bool
  pub wakes : D → Bool
  pub execute : D × Scheduler → ℕ × (D × Scheduler)

-- `kStopStep`.
abbrev pub stop_step : ℕ
stop_step = 4

-- `jump`, rounded up to the cycles of a stopped CPU's steps.
unfoldable pub round_up : ℕ → ℕ
round_up jump =
    let remainder = jump % stop_step in
    if remainder == 0 then jump else u32 (jump + (stop_step - remainder))

module _ (b : Board) where
  open b use {D, tick, service, blocked, until_event, sleeps, wakes, execute}

  unfoldable pub next_event_cycle : D × Scheduler → ℕ
  next_event_cycle (d, s) = u64 (s.now + until_event d)

  unfoldable pub rearm_deadline : D × Scheduler → D × Scheduler
  rearm_deadline (d, s) = (d, arm_deadline (next_event_cycle (d, s)) s)

  unfoldable pub held : D × Scheduler → D × Scheduler
  held (d, s) = (d, hold_for_pending_interrupt s)

  -- One turn of `skipStopped()` past its first test: jump to the target, settle, serve interrupts.
  unfoldable pub jump_to : ℕ → D × Scheduler → D × Scheduler
  jump_to target (d, s) =
      let (d', s') = settle tick (d, inject_pending (round_up (u32 (sub64 target s.now))) s) in
      (service d', s')

  -- `skipStopped()`. The number is the fuel: a turn moves the devices' time on or is the last.
  unfoldable pub skip_stopped : ℕ → D × Scheduler → D × Scheduler
  unfolding next_event_cycle rearm_deadline held jump_to
  skip_stopped zero m = held m
  skip_stopped (suc fuel) m =
      let target = min (next_event_cycle m) m.1.slice_end in
      let m' = jump_to target m in
      let again = skip_stopped fuel m' in
      if leb target m.1.now
      then held m
      else if wakes m'.0 || reached_slice_end m'.1
      then rearm_deadline m'
      else if blocked m'.0
      then held m'
      else again

  -- `reachSlow()`; `true` ends the slice.
  unfoldable pub reach_slow : ℕ → D × Scheduler → (D × Scheduler) × Bool
  unfolding skip_stopped
  reach_slow fuel (d, s) =
      let (d', s') = settle tick (d, count_reach s) in
      let m : D × Scheduler = (service d', s') in
      if reached_slice_end m.1
      then (m, true)
      else if blocked m.0
      then (held m, false)
      else if sleeps m.0
      then (let m' = skip_stopped fuel m in (m', reached_slice_end m'.1))
      else (rearm_deadline m, false)

  -- The loop of `runEventDriven()`; `skips` is the fuel of a `skip_stopped` inside it.
  unfoldable pub run_loop : ℕ → ℕ → D × Scheduler → D × Scheduler
  unfolding reach_slow
  run_loop skips zero m = m
  run_loop skips (suc fuel) m =
      let (used, m') = execute m in
      let (s', slow) = advance used m'.1 in
      let r = reach_slow skips (m'.0, s') in
      let on = run_loop skips fuel (m'.0, s') in
      let on_slow = run_loop skips fuel r.0 in
      if used == 0 then settle tick m' else if slow then (if r.1 then r.0 else on_slow) else on

  -- `runEventDriven()`: the final machine and the cycles spent.
  unfoldable pub run_event_driven : ℕ → D × Scheduler → (D × Scheduler) × ℕ
  unfolding run_loop
  run_event_driven cycles (d, s) =
      let m = rearm_deadline (d, begin_slice cycles s) in
      let k = skip_stopped (cycles + 1) m in
      let end = run_loop (cycles + 1) (cycles + 1) m in
      let end_skipped = run_loop (cycles + 1) (cycles + 1) k in
      if sleeps m.0
      then (if reached_slice_end k.1
          then (k, slice_spent k.1)
          else (end_skipped, slice_spent end_skipped.1))
      else (end, slice_spent end.1)
