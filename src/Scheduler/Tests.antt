-- ===== src/Scheduler/Tests.antt =====
-- Runs of the clock on concrete states, and the theorems at them.
use x68k_stackchan.Base.{ℕ, ◌+◌, ◌-◌, ◌^◌, ◌≡◌, refl, true, false, arith, is_neg32}
use x68k_stackchan.Scheduler.{
  Scheduler, no_stats, cpu_time, pending, settle_loop, settle, advance, sync_unsettled,
}
use x68k_stackchan.Scheduler.Inv.{IsCoherent, cpu_time_exact}
use x68k_stackchan.Scheduler.Ops.{Fits}
use x68k_stackchan.Scheduler.Settle.{Settled, settle-Settled}

-- 100 cycles before a deadline at 1300, with 200 cycles that the devices have not seen.
abbrev busy : Scheduler
busy = record {
  debt = 2 ^ 32 - 100;
  now = 1000;
  unsettled = 1000;
  deadline_at = 1300;
  slice_end = 5000;
  slice_begin = 0;
  degraded = false;
  stats = no_stats;
}

-- The same clock with the devices caught up.
abbrev caught_up : Scheduler
caught_up = record busy { now = 1200 }

abbrev add_up : ℕ → ℕ → ℕ
add_up n d = n + d

busy-IsCoherent : IsCoherent busy
unfolding cpu_time
busy-IsCoherent = ground arith

caught_up-IsCoherent : IsCoherent caught_up
unfolding cpu_time
caught_up-IsCoherent = ground arith

busy-Fits : Fits 150 busy
unfolding cpu_time
busy-Fits = ground arith

busy_time : cpu_time busy ≡ 1200
unfolding cpu_time
busy_time = refl

caught_up_time : cpu_time caught_up ≡ 1200
unfolding cpu_time
caught_up_time = refl

settled_devices : (settle add_up (7, busy)).0 ≡ 207
unfolding settle settle_loop sync_unsettled pending
settled_devices = refl

advance_slow : (advance 150 busy).1 ≡ true
unfolding advance
advance_slow = refl

advance_fast : (advance 50 busy).1 ≡ false
unfolding advance
advance_fast = refl

cpu_time_exact_example :
    (is_neg32 busy.debt ≡ true → cpu_time busy + 2 ^ 32 ≡ busy.deadline_at + busy.debt)
    × (is_neg32 busy.debt ≡ false → cpu_time busy ≡ busy.deadline_at + busy.debt)
cpu_time_exact_example = cpu_time_exact {s = busy} busy-IsCoherent

settle-Settled_example :
    (total : ℕ) × (busy.now + total ≡ cpu_time busy)
    × Settled add_up total 7 busy (settle add_up (7, busy))
    × ((settle add_up (7, busy)).1.now ≡ cpu_time busy)
settle-Settled_example = settle-Settled add_up 7 busy busy-IsCoherent
