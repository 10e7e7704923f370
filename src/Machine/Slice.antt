-- ===== src/Machine/Slice.antt =====
-- A slice of the event loop: what holds of the clock between two turns, and that `skipStopped` and
-- `reachSlow` keep it.
use x68k_stackchan.Base.{ℕ, ◌+◌, ◌^◌, ◌≤◌, ◌<◌, ◌≡◌, arith}
use x68k_stackchan.Scheduler.{Scheduler, cpu_time, settle, arm_deadline, hold_for_pending_interrupt}
use x68k_stackchan.Scheduler.Inv.{IsCoherent}
use x68k_stackchan.Scheduler.Ops.{arm_deadline_lem, arm_deadline_kept, hold_lem}
use x68k_stackchan.Scheduler.Settle.{settle-Settled}
use x68k_stackchan.Machine.{round_up}

-- Slices of at most 2 ^ 28 cycles, at times below 2 ^ 60.
pub record IsSlice (start stop : ℕ) : Type 0 where
  pub forward : start ≤ stop
  pub short : stop ≤ start + 2 ^ 28
  pub early : stop < 2 ^ 60

-- The clock is in the slice: nothing is before its start.
pub record InSlice (start stop : ℕ) (s : Scheduler) : Type 0 where
  pub coherent : IsCoherent s
  pub begins : s.slice_begin ≡ start
  pub ends : s.slice_end ≡ stop
  pub now_from : start ≤ s.now
  pub deadline_from : start ≤ s.deadline_at

-- Between two instructions: before the end, no later than a deadline that is not past the end.
pub record Running (start stop : ℕ) (s : Scheduler) : Type 0 where
  pub inside : InSlice start stop s
  pub before : cpu_time s < stop
  pub deadline_to : s.deadline_at ≤ stop
  pub ahead : cpu_time s ≤ s.deadline_at

-- The devices have caught up with the CPU.
pub record Caught (start stop : ℕ) (s : Scheduler) : Type 0 where
  pub inside : InSlice start stop s
  pub caught : cpu_time s ≡ s.now

pub round_up_bounds :
    (jump : ℕ) → jump < 2 ^ 30 → (jump ≤ round_up jump) × (round_up jump ≤ jump + 3)
unfolding round_up
round_up_bounds jump h = ground arith

abbrev pub Stays : Scheduler → Scheduler → Type 0
Stays s t = (cpu_time t ≡ s.now) × (t.now ≡ s.now)

pub arm-InSlice :
    {start stop : ℕ} {s : Scheduler} (next : ℕ)
    → s.now < 2 ^ 61
    → Caught start stop s
    → InSlice start stop (arm_deadline next s) × Stays s (arm_deadline next s)
arm-InSlice {s = s} next room c = ground (
  arith,
  arm_deadline_lem next c.inside.coherent c.caught (omega arith),
  arm_deadline_kept next s,
)

pub arm-Running :
    {start stop : ℕ} {s : Scheduler} (next : ℕ)
    → IsSlice start stop
    → Caught start stop s
    → s.now < stop
    → Running start stop (arm_deadline next s)
arm-Running {s = s} next i c h = ground (
  arith,
  arm_deadline_lem next c.inside.coherent c.caught (omega arith),
  arm-InSlice next (omega arith) c,
)

pub hold-Running :
    {start stop : ℕ} {s : Scheduler}
    → IsSlice start stop
    → Caught start stop s
    → s.now < stop
    → Running start stop (hold_for_pending_interrupt s) × Stays s (hold_for_pending_interrupt s)
unfolding hold_for_pending_interrupt
hold-Running i c h =
    ground (arith, hold_lem 0 c.inside.coherent c.caught (omega arith) (omega arith))

-- `settle` keeps the slice and catches up.
pub settle-Caught :
    {D : Type 0} (tick : ℕ → D → D) {start stop : ℕ} (d : D) (s : Scheduler)
    → InSlice start stop s
    → Caught start stop (settle tick (d, s)).1
      × ((settle tick (d, s)).1.now ≡ cpu_time s)
      × (s.now ≤ (settle tick (d, s)).1.now)
settle-Caught tick d s v = ground (arith, settle-Settled tick d s v.coherent)
