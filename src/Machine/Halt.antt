-- ===== src/Machine/Halt.antt =====
-- The turns of the loop of `runEventDriven()`, and a slice that ends because the CPU halts in one.
use x68k_stackchan.Base.{ℕ, zero, suc, ◌+◌, ◌≡◌, sym, subst, if◌then◌else◌}
use x68k_stackchan.Scheduler.{Scheduler, settle, advance, begin_slice}
use x68k_stackchan.Machine.{Board, rearm_deadline, skip_stopped, reach_slow}

module _ (b : Board) where
  open b use {D, tick, sleeps, execute}

  -- The machine with which the loop starts.
  abbrev pub entered : ℕ → D × Scheduler → D × Scheduler
  entered cycles (d, s) =
      let m = rearm_deadline b (d, begin_slice cycles s) in
      if sleeps m.0 then skip_stopped b (cycles + 1) m else m

  -- One turn: what is executed, the clock, and the slow path if the deadline is reached.
  abbrev pub turn : ℕ → D × Scheduler → D × Scheduler
  turn skips m =
      let (used, m') = execute m in
      let (s', slow) = advance used m'.1 in
      if slow then (reach_slow b skips (m'.0, s')).0 else (m'.0, s')

  abbrev pub turns : ℕ → ℕ → D × Scheduler → D × Scheduler
  turns skips zero m = m
  turns skips (suc n) m = turns skips n (turn skips m)

  -- After some number of turns from `m` the CPU halts, and `out` is the machine that it halted in, with
  -- the devices caught up.
  pub record HaltsFrom (skips : ℕ) (m out : D × Scheduler) : Type 0 where
    pub after : ℕ
    pub halted : (execute (turns skips after m)).0 ≡ 0
    pub left : out ≡ settle tick (execute (turns skips after m)).1

  pub halts_later :
      (skips : ℕ) (m x out : D × Scheduler)
      → turn skips m ≡ x
      → HaltsFrom skips x out
      → HaltsFrom skips m out
  halts_later skips m x out e h = record {
    after = suc h.after;
    halted = subst (λ y. (execute (turns skips h.after y)).0 ≡ 0) (sym e) h.halted;
    left = subst (λ y. out ≡ settle tick (execute (turns skips h.after y)).1) (sym e) h.left;
  }
