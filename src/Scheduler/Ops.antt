-- ===== src/Scheduler/Ops.antt =====
-- What each operation of the clock does to the CPU's time, and that it keeps the invariant.
use x68k_stackchan.Base.{ℕ, ◌+◌, ◌%◌, ◌^◌, ◌≤◌, ◌<◌, ◌≡◌, ◌↔◌, true, false, arith, is_neg32}
use x68k_stackchan.Scheduler.{
  Scheduler, cpu_time, pending, advance, consume, inject_pending, arm_deadline,
  hold_for_pending_interrupt, wake, request_rearm, min_deadline, fallback_span, begin_slice,
}
use x68k_stackchan.Scheduler.Inv.{IsCoherent}

-- The debt after `used` more cycles still fits the positive half of an `int32_t`, and the devices
-- still fit the pending counter.
pub record Fits (used : ℕ) (s : Scheduler) : Type 0 where
  pub small : used < 2 ^ 30
  pub debt_room : is_neg32 s.debt ≡ false → s.debt + used < 2 ^ 31
  pub pending_room : cpu_time s + used < s.now + 2 ^ 32

-- For a coherent clock, when the cycles used fit its range, `advance` moves the CPU's time on by exactly the cycles used, keeps the
-- invariant and leaves the devices' time, and it asks for the slow path exactly when the CPU's time
-- has reached the deadline.
pub advance_lem :
    {s : Scheduler} (used : ℕ)
    → IsCoherent s
    → Fits used s
    → IsCoherent (advance used s).0
      × (cpu_time (advance used s).0 ≡ cpu_time s + used)
      × ((advance used s).0.now ≡ s.now)
      × (((advance used s).1 ≡ true) ↔ (s.deadline_at ≤ cpu_time s + used))
unfolding advance cpu_time
advance_lem {s} used v f = ground arith

pub consume_lem :
    {s : Scheduler} (cycles : ℕ)
    → IsCoherent s
    → s.now + cycles ≤ cpu_time s
    → IsCoherent (consume cycles s)
      × (cpu_time (consume cycles s) ≡ cpu_time s)
      × ((consume cycles s).now ≡ s.now + cycles)
unfolding consume cpu_time
consume_lem cycles v h = ground arith

-- Within its range, `inject_pending` moves the CPU's time on by exactly those cycles, keeps the
-- invariant and leaves the devices' time.
pub inject_pending_lem :
    {s : Scheduler} (cycles : ℕ)
    → IsCoherent s
    → Fits cycles s
    → IsCoherent (inject_pending cycles s)
      × (cpu_time (inject_pending cycles s) ≡ cpu_time s + cycles)
      × ((inject_pending cycles s).now ≡ s.now)
unfolding inject_pending cpu_time
inject_pending_lem cycles v f = ground arith

-- For a coherent clock before 2 ^ 62, waking loses no time: the invariant, the CPU's time and the
-- cycles between it and the devices stay, and an instruction of fewer than 2 ^ 31 cycles enters the
-- slow path.
pub wake_lem :
    {s : Scheduler} (used : ℕ)
    → IsCoherent s
    → cpu_time s < 2 ^ 62
    → used < 2 ^ 31
    → IsCoherent (wake s)
      × (cpu_time (wake s) ≡ cpu_time s)
      × (s.now + pending (wake s) ≡ cpu_time s)
      × ((advance used (wake s)).1 ≡ true)
unfolding wake cpu_time pending advance
wake_lem used v room h = ground arith

-- A rearm is a wake that the counters tell apart: the same clock, one more rearm.
pub request_rearm_lem :
    (s : Scheduler)
    → s.stats.wakes < 2 ^ 64
    → let w = wake s in
      let r = request_rearm s in
      (r.debt ≡ w.debt)
      × (r.now ≡ w.now)
      × (r.unsettled ≡ w.unsettled)
      × (r.deadline_at ≡ w.deadline_at)
      × (r.degraded ≡ w.degraded)
      × (r.stats.wakes ≡ s.stats.wakes)
      × (r.stats.rearms ≡ (s.stats.rearms + 1) % 2 ^ 64)
unfolding request_rearm wake
request_rearm_lem s h = ground arith

-- For a coherent clock whose devices have caught up, at a time before 2 ^ 62, both ways of setting a
-- deadline keep the invariant and the CPU's time; the deadline is not before now, in the degraded
-- mode it is now, and otherwise it is at least `min_deadline` cycles ahead and not past the event,
-- the slice's end or the fallback span.
pub arm_deadline_lem :
    {s : Scheduler} (next : ℕ)
    → IsCoherent s
    → cpu_time s ≡ s.now
    → s.now + fallback_span < 2 ^ 62
    → let t = arm_deadline next s in
      IsCoherent t
      × (cpu_time t ≡ s.now)
      × (t.now ≡ s.now)
      × (s.now ≤ t.deadline_at)
      × (t.degraded ≡ true → t.deadline_at ≡ s.now)
      × (t.degraded ≡ false
          → (s.now + min_deadline ≤ t.deadline_at)
            × (t.deadline_at ≤ next)
            × (t.deadline_at ≤ s.slice_end)
            × (t.deadline_at ≤ s.now + fallback_span))
unfolding arm_deadline cpu_time
arm_deadline_lem next v e room = ground arith

pub hold_lem :
    {s : Scheduler} (used : ℕ)
    → IsCoherent s
    → cpu_time s ≡ s.now
    → s.now < 2 ^ 62
    → used < 2 ^ 31
    → let t = hold_for_pending_interrupt s in
      IsCoherent t × (cpu_time t ≡ s.now) × (t.now ≡ s.now) × ((advance used t).1 ≡ true)
unfolding hold_for_pending_interrupt cpu_time advance
hold_lem used v e room h = ground arith

-- Setting a deadline leaves the slice alone.
pub arm_deadline_kept :
    (next : ℕ) (s : Scheduler)
    → ((arm_deadline next s).slice_begin ≡ s.slice_begin)
      × ((arm_deadline next s).slice_end ≡ s.slice_end)
unfolding arm_deadline
arm_deadline_kept next s = ground arith

-- A slice of `cycles` begins now; the clock does not move.
pub begin_slice-IsCoherent :
    {s : Scheduler} (cycles : ℕ)
    → IsCoherent s
    → IsCoherent (begin_slice cycles s)
      × (cpu_time (begin_slice cycles s) ≡ cpu_time s)
      × ((begin_slice cycles s).now ≡ s.now)
      × ((begin_slice cycles s).slice_begin ≡ s.now)
      × ((begin_slice cycles s).slice_end ≡ (s.now + cycles) % 2 ^ 64)
unfolding begin_slice cpu_time
begin_slice-IsCoherent cycles v = ground arith
