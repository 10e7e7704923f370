-- ===== src/Scheduler/Inv.antt =====
-- The invariant of the clock: what `debt`, `deadline_at` and `now` say together.
use x68k_stackchan.Base.{◌+◌, ◌^◌, ◌≤◌, ◌<◌, ◌≡◌, true, false, arith, is_neg32}
use x68k_stackchan.Scheduler.{Scheduler, cpu_time, pending, sync_unsettled, reset}

-- Times stay below 2 ^ 62, the debt is a 32-bit pattern that does not reach back before time 0, and
-- the cycles that the devices have not seen fit a `uint32_t`.
pub record IsCoherent (s : Scheduler) : Type 0 where
  pub debt_word : s.debt < 2 ^ 32
  pub deadline_room : s.deadline_at < 2 ^ 62
  pub debt_back : is_neg32 s.debt ≡ true → 2 ^ 32 ≤ s.deadline_at + s.debt
  pub now_behind : s.now ≤ cpu_time s
  pub window : cpu_time s < s.now + 2 ^ 32

-- `cpuTime()` and `syncUnsettled()` read the same time off `deadline_at` and `debt`.
pub unsettled-sync : {s : Scheduler} → IsCoherent s → (sync_unsettled s).unsettled ≡ cpu_time s
unfolding cpu_time sync_unsettled
unsettled-sync v = ground arith

-- The same time without a wrap: the sum of the deadline and the signed debt.
pub cpu_time_exact :
    {s : Scheduler}
    → IsCoherent s
    → (is_neg32 s.debt ≡ true → cpu_time s + 2 ^ 32 ≡ s.deadline_at + s.debt)
      × (is_neg32 s.debt ≡ false → cpu_time s ≡ s.deadline_at + s.debt)
unfolding cpu_time
cpu_time_exact v = ground arith

pub cpu_time-lt : {s : Scheduler} → IsCoherent s → cpu_time s < 2 ^ 63
unfolding cpu_time
cpu_time-lt v = ground arith

pub sync-IsCoherent :
    {s : Scheduler}
    → IsCoherent s
    → IsCoherent (sync_unsettled s) × (cpu_time (sync_unsettled s) ≡ cpu_time s)
unfolding cpu_time sync_unsettled
sync-IsCoherent v = ground arith

pub reset-IsCoherent : (s : Scheduler) → IsCoherent (reset s) × (cpu_time (reset s) ≡ 0)
unfolding cpu_time reset
reset-IsCoherent s = ground arith

-- After a sync the pending cycles are exactly those between the devices and the CPU.
pub pending-sync : {s : Scheduler} → IsCoherent s → s.now + pending (sync_unsettled s) ≡ cpu_time s
unfolding pending cpu_time sync_unsettled
pending-sync v = ground arith
