-- ===== src/Machine/Skip.antt =====
-- `skipStopped()` and `reachSlow()`: the skip of a stopped CPU ends, lands on the slice's grid, and
-- leaves the clock ready for the next instruction or the slice finished.
use x68k_stackchan.Base.{
  ℕ, zero, suc, ◌+◌, ◌-◌, ◌^◌, ◌≤◌, ◌<◌, ◌≡◌, inl, inr, false, ◌||◌, arith, min, u32, sub64, leb,
  if◌then◌else◌, Bool-cases, leb-false,
}
use x68k_stackchan.Scheduler.{
  Scheduler, cpu_time, arm_deadline, reached_slice_end, hold_for_pending_interrupt, inject_pending,
}
use x68k_stackchan.Scheduler.Inv.{cpu_time_exact}
use x68k_stackchan.Scheduler.Ops.{Fits, inject_pending_lem}
use x68k_stackchan.Machine.{
  Board, round_up, next_event_cycle, rearm_deadline, held, jump_to, skip_stopped,
}
use x68k_stackchan.Machine.Slice.{
  IsSlice, InSlice, Running, Caught, round_up_bounds, arm-InSlice, arm-Running, hold-Running,
  settle-Caught,
}

-- The clock after a slow path: caught up, and either ready for the next instruction or at most
-- `over` cycles past the end.
pub record Landed (start stop over from : ℕ) (s : Scheduler) : Type 0 where
  pub caught : Caught start stop s
  pub onward : from ≤ s.now
  pub near : s.now ≤ stop + over
  pub ready : s.now < stop → Running start stop s

-- Both ways of setting a deadline land.
pub held-Landed :
    {start stop over from : ℕ} {s : Scheduler}
    → IsSlice start stop
    → Caught start stop s
    → from ≤ s.now
    → s.now < stop
    → Landed start stop over from (hold_for_pending_interrupt s)
held-Landed i c p h = ground (arith, hold-Running i c h)

pub armed-Landed :
    {start stop over from : ℕ} {s : Scheduler} (next : ℕ)
    → IsSlice start stop
    → over < 2 ^ 30
    → Caught start stop s
    → from ≤ s.now
    → s.now ≤ stop + over
    → Landed start stop over from (arm_deadline next s)
armed-Landed {s = s} next i o c p h = record {
  caught = ground (arith, arm-InSlice next (omega arith) c);
  onward = ground (arith, arm-InSlice next (omega arith) c);
  near = ground (arith, arm-InSlice next (omega arith) c);
  ready = λ q. arm-Running next i c (ground (arith, arm-InSlice next (omega arith) c));
}

pub Landed-from :
    {start stop over from from' : ℕ} {s : Scheduler}
    → from ≤ from'
    → Landed start stop over from' s
    → Landed start stop over from s
Landed-from p l = record { caught = l.caught; onward = omega arith; near = l.near; ready = l.ready }

module _ (b : Board) {start stop : ℕ} (i : IsSlice start stop) where
  open b use {D, tick}

  inject-InSlice :
      (s : Scheduler) (jump : ℕ)
      → Caught start stop s
      → s.now < stop
      → jump ≤ stop - s.now + 3
      → InSlice start stop (inject_pending jump s)
        × (cpu_time (inject_pending jump s) ≡ s.now + jump)
        × ((inject_pending jump s).now ≡ s.now)
  unfolding inject_pending
  inject-InSlice s jump c h short =
      let exact = cpu_time_exact c.inside.coherent in
      let fits : Fits jump s = ground arith in
      ground (arith, inject_pending_lem jump c.inside.coherent fits)

  -- A jump to a target ahead and not past the end lands at most 3 cycles past it.
  jump_to-Caught :
      (target : ℕ) (m : D × Scheduler)
      → Caught start stop m.1
      → m.1.now < target
      → target ≤ stop
      → Caught start stop (jump_to b target m).1
        × (target ≤ (jump_to b target m).1.now)
        × ((jump_to b target m).1.now ≤ target + 3)
  unfolding jump_to
  jump_to-Caught target (d, s) c h k =
      let jump = round_up (u32 (sub64 target s.now)) in
      let gap : u32 (sub64 target s.now) ≡ target - s.now = omega arith in
      let bounds = round_up_bounds (u32 (sub64 target s.now)) (omega arith) in
      let injected = inject-InSlice s jump c (omega arith) (omega arith) in
      let done = settle-Caught tick d (inject_pending jump s) injected.0 in
      (done.0, omega arith, omega arith)

  pub skip_stopped-Landed :
      (fuel : ℕ) (m : D × Scheduler)
      → Caught start stop m.1
      → m.1.now < stop
      → stop < fuel + m.1.now + 1
      → Landed start stop 3 m.1.now (skip_stopped b fuel m).1
  unfolding skip_stopped reached_slice_end
  skip_stopped-Landed zero m c h f = absurd (omega arith)
  skip_stopped-Landed (suc fuel) m c h f = elim (Bool-cases (leb target m.1.now)) [
    | inl e ↦ rw e (held-Landed i c (omega arith) h)
    | inr e ↦ rw e (jumped (ltb_of e) (skip_stopped-Landed fuel m'))
  ]
    where
      target : ℕ
      target = min (next_event_cycle b m) m.1.slice_end

      m' : D × Scheduler
      m' = jump_to b target m

      ltb_of : leb target m.1.now ≡ false → m.1.now < target
      ltb_of e = leb-false target m.1.now e

      jumped :
          m.1.now < target
          → (Caught start stop m'.1
              → m'.1.now < stop
              → stop < fuel + m'.1.now + 1
              → Landed start stop 3 m'.1.now (skip_stopped b fuel m').1)
          → Landed start stop 3 m.1.now
              (if b.wakes m'.0 || reached_slice_end m'.1
                then rearm_deadline b m'
                else if b.blocked m'.0
                then held b m'
                else skip_stopped b fuel m').1
      jumped e ih =
          let landed = jump_to-Caught target m c e (omega arith) in
          let slice_end = landed.0.inside.ends in
          elim (Bool-cases (b.wakes m'.0)) [
            | inl w ↦ rw w (
                armed-Landed (next_event_cycle b m') i (omega arith) landed.0 (omega arith)
                  (omega arith))
            | inr w ↦ rw w (elim (Bool-cases (leb m'.1.slice_end m'.1.now)) [
              | inl r ↦ rw r (
                  armed-Landed (next_event_cycle b m') i (omega arith) landed.0 (omega arith)
                    (omega arith))
              | inr r ↦ rw r (
                  let before : m'.1.now < stop =
                    omega (arith, leb-false m'.1.slice_end m'.1.now r) in
                  elim (Bool-cases (b.blocked m'.0)) [
                    | inl k ↦ rw k (held-Landed i landed.0 (omega arith) before)
                    | inr k ↦ rw k (Landed-from (omega arith) (ih landed.0 before (omega arith)))
                  ])
            ])
          ]
