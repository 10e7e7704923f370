-- ===== src/Scheduler.antt =====
-- src/x68k/core/scheduler.h: the event-driven clock. The members are written as the header has
-- them: `debt` is the bit pattern of an `int32_t`, the absolute times are `uint64_t`.
pub mod Inv
pub mod Ops
pub mod Settle
mod Tests
use x68k_stackchan.Base.{
  ℕ, suc, zero, ◌+◌, ◌-◌, ◌%◌, ◌^◌, Bool, true, false, not, min, u32, u64, sub64, is_neg32,
  sign_extend64, ltb, leb, if◌then◌else◌, List, [], ◌∷◌,
}

-- `Scheduler::Stats`, counters of the slow path.
pub record Stats : Type 0 where
  pub reaches : ℕ
  pub armed_near : ℕ
  pub armed_far : ℕ
  pub held_pending : ℕ
  pub span_sum : ℕ
  pub rearms : ℕ
  pub wakes : ℕ

pub record Scheduler : Type 0 where
  pub debt : ℕ
  pub now : ℕ
  pub unsettled : ℕ
  pub deadline_at : ℕ
  pub slice_end : ℕ
  pub slice_begin : ℕ
  pub degraded : Bool
  pub stats : Stats

abbrev pub min_deadline : ℕ
min_deadline = 256

abbrev pub fallback_span : ℕ
fallback_span = 65536

abbrev pub max_settle_chunk : ℕ
max_settle_chunk = 65536

abbrev pub no_stats : Stats
no_stats = record {
  reaches = 0;
  armed_near = 0;
  armed_far = 0;
  held_pending = 0;
  span_sum = 0;
  rearms = 0;
  wakes = 0;
}

-- `reset()` leaves the counters alone.
unfoldable pub reset : Scheduler → Scheduler
reset s = record s {
  debt = 0;
  now = 0;
  unsettled = 0;
  deadline_at = 0;
  slice_end = 0;
  slice_begin = 0;
  degraded = true;
}

unfoldable pub reset_stats : Scheduler → Scheduler
reset_stats s = record s { stats = no_stats }

unfoldable pub pending : Scheduler → ℕ
pending s = u32 (sub64 s.unsettled s.now)

-- `-std::int64_t{debt_}` is the distance of the pattern from 2 ^ 32.
unfoldable pub cpu_time : Scheduler → ℕ
cpu_time s =
    if is_neg32 s.debt then sub64 s.deadline_at (2 ^ 32 - s.debt) else u64 (s.deadline_at + s.debt)

unfoldable pub count_reach : Scheduler → Scheduler
count_reach s = let c = s.stats in record s { stats = record c { reaches = u64 (c.reaches + 1) } }

unfoldable pub begin_slice : ℕ → Scheduler → Scheduler
begin_slice cycles s = record s { slice_begin = s.now; slice_end = u64 (s.now + cycles) }

unfoldable pub slice_spent : Scheduler → ℕ
slice_spent s = u32 (sub64 s.now s.slice_begin)

unfoldable pub reached_slice_end : Scheduler → Bool
reached_slice_end s = leb s.slice_end s.now

unfoldable pub inject_pending : ℕ → Scheduler → Scheduler
inject_pending cycles s = record s {
  unsettled = u64 (s.unsettled + cycles);
  debt = u32 (s.debt + cycles);
}

-- The addition and the comparison with zero that every instruction passes through.
unfoldable pub advance : ℕ → Scheduler → Scheduler × Bool
advance used s = let s' = record s { debt = u32 (s.debt + used) } in (s', not (is_neg32 s'.debt))

unfoldable pub consume : ℕ → Scheduler → Scheduler
consume cycles s = record s { now = u64 (s.now + cycles) }

unfoldable pub sync_unsettled : Scheduler → Scheduler
sync_unsettled s = record s { unsettled = u64 (s.deadline_at + sign_extend64 s.debt) }

-- `limit` of `armDeadline`: the nearest of the event, the end of the slice and the fallback.
unfoldable pub arm_limit : ℕ → Scheduler → ℕ
arm_limit next s = min (min next s.slice_end) (u64 (s.now + fallback_span))

unfoldable pub arm_deadline : ℕ → Scheduler → Scheduler
unfolding arm_limit
arm_deadline next s =
    let limit = arm_limit next s in
    let delta = if ltb s.now limit then limit - s.now else 0 in
    let c = s.stats in
    if ltb delta min_deadline
    then record s {
      degraded = true;
      deadline_at = s.now;
      debt = 0;
      stats = record c { armed_near = u64 (c.armed_near + 1) };
    }
    else record s {
      degraded = false;
      deadline_at = limit;
      stats = record c { armed_far = u64 (c.armed_far + 1); span_sum = u64 (c.span_sum + delta) };
      debt = u32 (2 ^ 32 - delta);
    }

unfoldable pub hold_for_pending_interrupt : Scheduler → Scheduler
hold_for_pending_interrupt s =
    let c = s.stats in
    record s {
      stats = record c { held_pending = u64 (c.held_pending + 1) };
      degraded = true;
      deadline_at = s.now;
      debt = 0;
    }

unfoldable pub wake : Scheduler → Scheduler
unfolding sync_unsettled
wake s =
    let c = s.stats in
    let s' = sync_unsettled (record s { stats = record c { wakes = u64 (c.wakes + 1) } }) in
    record s' { deadline_at = s'.unsettled; debt = 0; degraded = true }

unfoldable pub request_rearm : Scheduler → Scheduler
unfolding wake
request_rearm s =
    let c = s.stats in
    let s' = wake (record s { stats = record c { rearms = u64 (c.rearms + 1) } }) in
    let c' = s'.stats in record s' { stats = record c' { wakes = u64 (c'.wakes + 2 ^ 64 - 1) } }

-- The loop of `Machine::settle()` (src/x68k/core/machine.cpp): the pending cycles are handed to
-- the devices in pieces of at most `max_settle_chunk`. `tick` is `tickDevices` on the state of the
-- devices. A piece is at least one cycle, so `remaining` rounds are enough.
module _ {ℓ} {D : Type ℓ} (tick : ℕ → D → D) where
  unfoldable pub settle_loop : ℕ → ℕ → D × Scheduler → D × Scheduler
  settle_loop zero remaining m = m
  settle_loop (suc fuel) zero m = m
  settle_loop (suc fuel) (suc r) (d, s) =
      let chunk = min (suc r) max_settle_chunk in
      settle_loop fuel (suc r - chunk) (tick chunk d, consume chunk s)

  unfoldable pub settle : D × Scheduler → D × Scheduler
  unfolding settle_loop
  settle (d, s) = let s' = sync_unsettled s in settle_loop (pending s') (pending s') (d, s')

  -- `Machine::materialize()`: nothing happens when nothing is pending.
  unfoldable pub materialize : D × Scheduler → D × Scheduler
  unfolding settle
  materialize (d, s) =
      let s' = sync_unsettled s in elim (pending s') [ zero ↦ (d, s') | suc r ↦ settle (d, s') ]
