-- ===== src/Machine/Run.antt =====
-- `reachSlow()` and `runEventDriven()`: a slice ends, with the devices caught up, at its end or a
-- little past it.
use x68k_stackchan.Base.{
  ℕ, zero, suc, ◌+◌, ◌^◌, ◌≤◌, ◌<◌, ◌≡◌, ◌⊎◌, inl, inr, refl, ◌∙◌, sym, subst, true, false, arith,
  leb, ◌==◌, Bool-cases, leb-false, leb→le, ==_iff,
}
use x68k_stackchan.Scheduler.{
  Scheduler, cpu_time, settle, arm_deadline, reached_slice_end, slice_spent, count_reach,
  hold_for_pending_interrupt, advance, begin_slice,
}
use x68k_stackchan.Scheduler.Inv.{IsCoherent, cpu_time_exact}
use x68k_stackchan.Scheduler.Ops.{
  Fits, advance_lem, arm_deadline_lem, arm_deadline_kept, begin_slice-IsCoherent,
}
use x68k_stackchan.Machine.{
  Board, next_event_cycle, rearm_deadline, held, skip_stopped, reach_slow, run_loop,
  run_event_driven,
}
use x68k_stackchan.Machine.Halt.{entered, turn, HaltsFrom, halts_later}
use x68k_stackchan.Machine.Slice.{IsSlice, InSlice, Running, Caught, arm-InSlice, settle-Caught}
use x68k_stackchan.Machine.Skip.{
  Landed, held-Landed, armed-Landed, Landed-from, skip_stopped-Landed,
}

-- What the loop relies on: executing keeps the clock within its slice and does not move the CPU's
-- time (`advance` does that afterwards), and the cycles it reports are at most `longest`, unless
-- they end before the deadline (a poll skip).
pub record Lawful (b : Board) (longest : ℕ) : Type 0 where
  pub small : longest < 2 ^ 28
  pub keeps :
      (m : b.D × Scheduler) (start stop : ℕ)
      → Running start stop m.1
      → Running start stop (b.execute m).1.1
        × (cpu_time (b.execute m).1.1 ≡ cpu_time m.1)
        × (((b.execute m).0 ≤ longest)
            ⊎ (cpu_time m.1 + (b.execute m).0 < (b.execute m).1.1.deadline_at))

count_reach-InSlice :
    {start stop : ℕ} {s : Scheduler}
    → InSlice start stop s
    → InSlice start stop (count_reach s)
      × (cpu_time (count_reach s) ≡ cpu_time s)
      × ((count_reach s).now ≡ s.now)
unfolding count_reach cpu_time
count_reach-InSlice v = ground arith

Landed-over :
    {start stop over over' from : ℕ} {s : Scheduler}
    → over ≤ over'
    → Landed start stop over from s
    → Landed start stop over' from s
Landed-over p l = record {
  caught = l.caught;
  onward = l.onward;
  near = omega arith;
  ready = l.ready;
}

leb_of_lt : (a b : ℕ) → b < a → false ≡ leb a b
leb_of_lt a b h = ground arith

leb_of_le : (a b : ℕ) → a ≤ b → true ≡ leb a b
leb_of_le a b h = ground arith

module _ (b : Board) {start stop : ℕ} (i : IsSlice start stop) where
  open b use {D, tick, service}

  -- After a slow path the clock has landed, and the answer tells whether the slice is over.
  pub reach_slow-Landed :
      (fuel over : ℕ) (m : D × Scheduler)
      → 3 ≤ over
      → over < 2 ^ 30
      → InSlice start stop m.1
      → cpu_time m.1 ≤ stop + over
      → stop < fuel + cpu_time m.1 + 1
      → Landed start stop over (cpu_time m.1) (reach_slow b fuel m).0.1
        × ((reach_slow b fuel m).1 ≡ leb stop (reach_slow b fuel m).0.1.now)
  unfolding reach_slow count_reach reached_slice_end
  reach_slow-Landed fuel over (d, s) o k v near f = elim (Bool-cases (leb m.1.slice_end m.1.now)) [
    | inl r ↦ rw r (
      over_now (omega (arith, leb→le m.1.slice_end m.1.now r, caught.inside.ends)),
      leb_of_le stop m.1.now (omega (arith, leb→le m.1.slice_end m.1.now r, caught.inside.ends)),
    )
    | inr r ↦ rw r (
        let before : m.1.now < stop =
          omega (arith, leb-false m.1.slice_end m.1.now r, caught.inside.ends) in
        elim (Bool-cases (b.blocked m.0)) [
          | inl p ↦ rw p (
            held-Landed i caught from before,
            leb_of_lt stop (held b m).1.now (unfold held hold_for_pending_interrupt in before),
          )
          | inr p ↦ rw p (elim (Bool-cases (b.sleeps m.0)) [
            | inl q ↦ rw q (slept before)
            | inr q ↦ rw q (awake before)
          ])
        ])
  ]
    where
      counted :
          InSlice start stop (count_reach s)
          × (cpu_time (count_reach s) ≡ cpu_time s)
          × ((count_reach s).now ≡ s.now)
      counted = count_reach-InSlice v

      settled :
          Caught start stop (settle tick (d, count_reach s)).1
          × ((settle tick (d, count_reach s)).1.now ≡ cpu_time (count_reach s))
          × ((count_reach s).now ≤ (settle tick (d, count_reach s)).1.now)
      settled = settle-Caught tick d (count_reach s) counted.0

      m : D × Scheduler
      m = (service (settle tick (d, count_reach s)).0, (settle tick (d, count_reach s)).1)

      caught : Caught start stop m.1
      caught = settled.0

      from : cpu_time s ≤ m.1.now
      from = omega (arith, settled.1, counted.1)

      over_now : stop ≤ m.1.now → Landed start stop over (cpu_time s) m.1
      over_now h = record {
        caught = caught;
        onward = from;
        near = omega (arith, settled.1, counted.1);
        ready = λ q. absurd (omega arith);
      }

      slept :
          m.1.now < stop
          → Landed start stop over (cpu_time s) (skip_stopped b fuel m).1
            × (leb (skip_stopped b fuel m).1.slice_end (skip_stopped b fuel m).1.now
                ≡ leb stop (skip_stopped b fuel m).1.now)
      slept h =
          let l = skip_stopped-Landed b i fuel m caught h (omega (arith, from)) in
          (Landed-from from (Landed-over o l), rw (l.caught.inside.ends))

      awake :
          m.1.now < stop
          → Landed start stop over (cpu_time s) (rearm_deadline b m).1
            × (false ≡ leb stop (rearm_deadline b m).1.now)
      awake h =
          let l = armed-Landed (next_event_cycle b m) i k caught from (omega arith) in
          (
            l,
            leb_of_lt stop (arm_deadline (next_event_cycle b m) m.1).now
                (omega (arith, (arm-InSlice (next_event_cycle b m) (omega arith) caught).1)),
          )

-- A finished slice: the devices caught up, at most `over` cycles past the end, and not before the
-- end unless the CPU halted in one of the turns from `from` on.
pub record Done (b : Board) (start stop over skips : ℕ) (from m : b.D × Scheduler) : Type 0 where
  pub caught : Caught start stop m.1
  pub near : m.1.now ≤ stop + over
  pub full : (stop ≤ m.1.now) ⊎ HaltsFrom b skips from m

Done-later :
    (b : Board) {start stop over : ℕ} (skips : ℕ) (m x out : b.D × Scheduler)
    → turn b skips m ≡ x
    → Done b start stop over skips x out
    → Done b start stop over skips m out
Done-later b skips m x out e v = record {
  caught = v.caught;
  near = v.near;
  full = elim v.full [ inl l ↦ inl l | inr h ↦ inr (halts_later b skips m x out e h) ];
}

module _ (b : Board) {start stop : ℕ} (i : IsSlice start stop) {longest over : ℕ}
    (law : Lawful b longest) (o3 : 3 ≤ over) (ol : longest ≤ over) (ob : over < 2 ^ 30) where
  open b use {D, tick, execute}

  -- What `advance` leaves after an instruction.
  record Stepped (m : D × Scheduler) : Type 0 where
    inside : InSlice start stop (advance (execute m).0 (execute m).1.1).0
    moved : cpu_time (advance (execute m).0 (execute m).1.1).0 ≡ cpu_time m.1 + (execute m).0
    near : cpu_time m.1 + (execute m).0 ≤ stop + over
    onward :
        (advance (execute m).0 (execute m).1.1).1 ≡ false
        → Running start stop (advance (execute m).0 (execute m).1.1).0

  step-Stepped : (m : D × Scheduler) → Running start stop m.1 → Stepped m
  unfolding advance
  step-Stepped m v =
      let used = (execute m).0 in
      let s = (execute m).1.1 in
      let kept = law.keeps m start stop v in
      let room = law.small in
      let exact = cpu_time_exact kept.0.inside.coherent in
      let bound : cpu_time m.1 + used ≤ stop + over = ground arith in
      let fits : Fits used s = ground arith in
      let moved = advance_lem used kept.0.inside.coherent fits in
      record {
        inside = ground arith;
        moved = omega arith;
        near = bound;
        onward = λ e. ground arith;
      }

  pub run_loop-Done :
      (skips fuel : ℕ) (m : D × Scheduler)
      → Running start stop m.1
      → stop < skips + cpu_time m.1 + 1
      → stop < fuel + cpu_time m.1 + 1
      → Done b start stop over skips m (run_loop b skips fuel m)
  unfolding run_loop
  run_loop-Done skips zero m v k f = absurd (omega arith)
  run_loop-Done skips (suc fuel) m v k f = elim (Bool-cases ((execute m).0 == 0)) [
    | inl e ↦ rw e (halted ((==_iff (execute m).0 0).0 e))
    | inr e ↦ rw e (elim (Bool-cases (advance (execute m).0 (execute m).1.1).1) [
      | inl p ↦ rw p (elim (Bool-cases (reach_slow b skips m').1) [
        | inl q ↦ rw q (finished q)
        | inr q ↦ rw q (
            Done-later b skips m _ _ (rw p refl)
              (goes_on e q (run_loop-Done skips fuel (reach_slow b skips m').0)))
      ])
      | inr p ↦ rw p (
          Done-later b skips m m' _ (rw p refl) (
            run_loop-Done skips fuel m' (st.onward p) (omega (arith, st.moved))
              (omega (arith, st.moved, ran e))))
    ])
  ]
    where
      st : Stepped m
      st = step-Stepped m v

      m' : D × Scheduler
      m' = ((execute m).1.0, (advance (execute m).0 (execute m).1.1).0)

      ran : ((execute m).0 == 0) ≡ false → 0 < (execute m).0
      ran e = ground arith

      kept :
          Running start stop (execute m).1.1
          × (cpu_time (execute m).1.1 ≡ cpu_time m.1)
          × (((execute m).0 ≤ longest)
              ⊎ (cpu_time m.1 + (execute m).0 < (execute m).1.1.deadline_at))
      kept = law.keeps m start stop v

      halted : (execute m).0 ≡ 0 → Done b start stop over skips m (settle tick (execute m).1)
      halted e = record {
        caught = (settle-Caught tick (execute m).1.0 (execute m).1.1 kept.0.inside).0;
        near =
            omega
              (arith, (settle-Caught tick (execute m).1.0 (execute m).1.1 kept.0.inside).1, kept.1);
        full = inr (record { after = 0; halted = e; left = refl });
      }

      landed :
          Landed start stop over (cpu_time m'.1) (reach_slow b skips m').0.1
          × ((reach_slow b skips m').1 ≡ leb stop (reach_slow b skips m').0.1.now)
      landed =
          reach_slow-Landed b i skips over m' o3 ob st.inside (omega (arith, st.near, st.moved))
            (omega (arith, st.moved))

      finished :
          (reach_slow b skips m').1 ≡ true
          → Done b start stop over skips m (reach_slow b skips m').0
      finished q = record {
        caught = landed.0.caught;
        near = landed.0.near;
        full = inl (leb→le stop (reach_slow b skips m').0.1.now (sym landed.1 ∙ q));
      }

      goes_on :
          ((execute m).0 == 0) ≡ false
          → (reach_slow b skips m').1 ≡ false
          → (Running start stop (reach_slow b skips m').0.1
              → stop < skips + cpu_time (reach_slow b skips m').0.1 + 1
              → stop < fuel + cpu_time (reach_slow b skips m').0.1 + 1
              → Done b start stop over skips
                  (reach_slow b skips m').0
                  (run_loop b skips fuel (reach_slow b skips m').0))
          → Done b start stop over skips
              (reach_slow b skips m').0
              (run_loop b skips fuel (reach_slow b skips m').0)
      goes_on e q ih =
          let before : (reach_slow b skips m').0.1.now < stop =
            leb-false stop (reach_slow b skips m').0.1.now (sym landed.1 ∙ q) in
          let same = landed.0.caught.caught in
          ih (landed.0.ready before) (omega (arith, landed.0.onward, same, st.moved))
            (omega (arith, landed.0.onward, same, st.moved, ran e))

-- What `runEventDriven()` promises of a slice of `cycles`, from a clock whose devices have caught
-- up: it ends, with the devices caught up again, at most `over` cycles past the slice's end, and it
-- returns the cycles that the devices' time moved on by; these make up the slice, or the CPU halted
-- in a turn of this run, and the machine is the one it halted in.
pub record IsRun (b : Board) (cycles over : ℕ) (m : b.D × Scheduler) (out : (b.D × Scheduler) × ℕ)
    : Type 0 where
  pub coherent : IsCoherent out.0.1
  pub caught : cpu_time out.0.1 ≡ out.0.1.now
  pub spent : out.0.1.now ≡ m.1.now + out.1
  pub bounded : out.1 ≤ cycles + over
  pub full : (cycles ≤ out.1) ⊎ HaltsFrom b (cycles + 1) (entered b cycles m) out.0

Done-IsRun :
    (b : Board) {start stop over : ℕ} {d : b.D} {s : Scheduler} (cycles : ℕ)
    {from m : b.D × Scheduler}
    → entered b cycles (d, s) ≡ from
    → start ≡ s.now
    → stop ≡ start + cycles
    → over < 2 ^ 30
    → cycles ≤ 2 ^ 28
    → Done b start stop over (cycles + 1) from m
    → IsRun b cycles over (d, s) (m, slice_spent m.1)
unfolding slice_spent
Done-IsRun b {d = d} {s = s} cycles {m = m} start_at e f o k v = record {
  coherent = v.caught.inside.coherent;
  caught = v.caught.caught;
  spent = omega arith;
  bounded = omega arith;
  full = elim v.full [
    | inl l ↦ inl (omega (arith, l))
    | inr h ↦ inr (subst (λ x. HaltsFrom b (cycles + 1) x m) (sym start_at) h)
  ];
}

-- The entry of a slice: the deadline is set, nothing has run.
begin-Running :
    {s : Scheduler} (cycles next : ℕ)
    → IsSlice s.now (s.now + cycles)
    → 0 < cycles
    → IsCoherent s
    → cpu_time s ≡ s.now
    → Running s.now (s.now + cycles) (arm_deadline next (begin_slice cycles s))
      × Caught s.now (s.now + cycles) (arm_deadline next (begin_slice cycles s))
      × ((arm_deadline next (begin_slice cycles s)).now ≡ s.now)
begin-Running {s = s} cycles next i pos v c =
    let begun = begin_slice-IsCoherent cycles v in
    let l = arm_deadline_lem {s = begin_slice cycles s} next begun.0 (omega arith) (omega arith) in
    let k = arm_deadline_kept next (begin_slice cycles s) in
    (ground arith, ground arith, omega arith)

-- The event loop is total and accounts for every cycle: for any devices, and any execution step
-- that keeps the clock's discipline and takes at most `over` cycles, a slice of up to 2 ^ 28 cycles
-- started with the devices caught up comes, within the fuel that `run_event_driven` gives it, to its
-- end or to a turn of this run in which the CPU halts, whose machine it then returns with the devices
-- caught up. In either case the devices have caught up with the CPU, the cycles returned are exactly
-- those by which the devices' time moved on, and they exceed the slice by at most `over`; unless the
-- CPU halted in this run, they are not fewer than the slice.
pub run_event_driven-IsRun :
    (b : Board) (longest over cycles : ℕ) (d : b.D) (s : Scheduler)
    → Lawful b longest
    → 3 ≤ over
    → longest ≤ over
    → over < 2 ^ 30
    → 0 < cycles
    → cycles ≤ 2 ^ 28
    → IsCoherent s
    → cpu_time s ≡ s.now
    → s.now < 2 ^ 59
    → IsRun b cycles over (d, s) (run_event_driven b cycles (d, s))
unfolding run_event_driven
run_event_driven-IsRun b longest over cycles d s law o3 ol ob pos short v c room =
    elim (Bool-cases (b.sleeps d)) [
      | inl e ↦ rw e (elim (Bool-cases (reached_slice_end k.1)) [
        | inl r ↦ rw r (Done-IsRun b cycles (rw e refl) refl refl ob short (at_end r))
        | inr r ↦ rw r (
            Done-IsRun b cycles (rw e refl) refl refl ob short (
              ran k (landed.ready (not_end r))
                (omega (arith, landed.caught.caught, landed.onward, begun.2))))
      ])
      | inr e ↦ rw e (
          Done-IsRun b cycles (rw e refl) refl refl ob short
            (ran m begun.0 (omega (arith, begun.1.caught, begun.2))))
    ]
  where
    i : IsSlice s.now (s.now + cycles)
    i = omega arith

    m : b.D × Scheduler
    m = (d, arm_deadline (next_event_cycle b (d, begin_slice cycles s)) (begin_slice cycles s))

    begun :
        Running s.now (s.now + cycles) m.1 × Caught s.now (s.now + cycles) m.1 × (m.1.now ≡ s.now)
    begun = begin-Running cycles (next_event_cycle b (d, begin_slice cycles s)) i pos v c

    k : b.D × Scheduler
    k = skip_stopped b (cycles + 1) m

    landed : Landed s.now (s.now + cycles) 3 m.1.now k.1
    landed =
        skip_stopped-Landed b i (cycles + 1) m begun.1 (omega (arith, begun.2))
          (omega (arith, begun.2))

    ran :
        (x : b.D × Scheduler)
        → Running s.now (s.now + cycles) x.1
        → s.now ≤ cpu_time x.1
        → Done b s.now (s.now + cycles) over (cycles + 1) x (run_loop b (cycles + 1) (cycles + 1) x)
    ran x r p =
        run_loop-Done b i law o3 ol ob (cycles + 1) (cycles + 1) x r (omega arith) (omega arith)

    at_end : reached_slice_end k.1 ≡ true → Done b s.now (s.now + cycles) over (cycles + 1) k k
    at_end r = record {
      caught = landed.caught;
      near = omega (arith, landed.near);
      full = inl (
          unfold reached_slice_end in
          omega (arith, leb→le k.1.slice_end k.1.now r, landed.caught.inside.ends));
    }

    not_end : reached_slice_end k.1 ≡ false → k.1.now < s.now + cycles
    not_end r =
        unfold reached_slice_end in
        omega (arith, leb-false k.1.slice_end k.1.now r, landed.caught.inside.ends)
