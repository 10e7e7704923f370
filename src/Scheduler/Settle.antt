-- ===== src/Scheduler/Settle.antt =====
-- `Machine::settle()`: the devices are given exactly the pending time, in bounded pieces.
use x68k_stackchan.Base.{
  ℕ, zero, suc, ◌+◌, ◌-◌, ◌≤◌, ◌<◌, ◌≡◌, refl, ◌∙◌, List, [], ◌∷◌, arith, min, sum, All,
}
use x68k_stackchan.Scheduler.{
  Scheduler, cpu_time, pending, sync_unsettled, consume, settle_loop, settle, materialize,
  max_settle_chunk,
}
use x68k_stackchan.Scheduler.Inv.{IsCoherent, sync-IsCoherent, pending-sync}
use x68k_stackchan.Scheduler.Ops.{consume_lem}

-- Ticks, one after the other.
abbrev pub ticks {ℓ} : {D : Type ℓ} → (ℕ → D → D) → List ℕ → D → D
ticks tick [] d = d
ticks tick (c ∷ cs) d = ticks tick cs (tick c d)

-- A piece is not empty and at most `max_settle_chunk` long.
abbrev pub IsPiece : ℕ → Type 0
IsPiece c = (0 < c) × (c ≤ max_settle_chunk)

-- The devices went from `d` to `m.0` by pieces that make up `total`, and the clock from `s` to `m.1`
-- with its devices' time moved on by `total` and the CPU's time as before.
pub record Settled {ℓ} {D : Type ℓ} (tick : ℕ → D → D) (total : ℕ) (d : D) (s : Scheduler)
    (m : D × Scheduler) : Type ℓ where
  pub pieces : List ℕ
  pub each : All IsPiece pieces
  pub whole : sum pieces ≡ total
  pub handed : m.0 ≡ ticks tick pieces d
  pub coherent : IsCoherent m.1
  pub time_kept : cpu_time m.1 ≡ cpu_time s
  pub caught_up : m.1.now ≡ s.now + total
  pub kept_begin : m.1.slice_begin ≡ s.slice_begin
  pub kept_end : m.1.slice_end ≡ s.slice_end
  pub kept_deadline : m.1.deadline_at ≡ s.deadline_at

module _ {ℓ} {D : Type ℓ} (tick : ℕ → D → D) where
  pub settle_loop-Settled :
      (fuel remaining : ℕ) (d : D) (s : Scheduler)
      → remaining ≤ fuel
      → IsCoherent s
      → s.now + remaining ≤ cpu_time s
      → Settled tick remaining d s (settle_loop tick fuel remaining (d, s))
  unfolding settle_loop consume
  settle_loop-Settled zero remaining d s h v room = record {
    pieces = [];
    each = tt;
    whole = omega arith;
    handed = refl;
    coherent = v;
    time_kept = refl;
    caught_up = omega arith;
    kept_begin = refl;
    kept_end = refl;
    kept_deadline = refl;
  }
  settle_loop-Settled (suc fuel) zero d s h v room = record {
    pieces = [];
    each = tt;
    whole = refl;
    handed = refl;
    coherent = v;
    time_kept = refl;
    caught_up = omega arith;
    kept_begin = refl;
    kept_end = refl;
    kept_deadline = refl;
  }
  settle_loop-Settled (suc fuel) (suc r) d s h v room =
      let chunk = min (suc r) max_settle_chunk in
      let step = consume_lem {s = s} chunk v (omega arith) in
      let rest =
        settle_loop-Settled fuel (suc r - chunk) (tick chunk d) (consume chunk s) (omega arith)
          step.0 (omega arith) in
      record {
        pieces = chunk ∷ rest.pieces;
        each = ((omega arith, omega arith), rest.each);
        whole = omega (arith, rest.whole);
        handed = rest.handed;
        coherent = rest.coherent;
        time_kept = rest.time_kept ∙ step.1;
        caught_up = omega (arith, rest.caught_up, step.2);
        kept_begin = rest.kept_begin;
        kept_end = rest.kept_end;
        kept_deadline = rest.kept_deadline;
      }

  -- From a coherent clock `settle` terminates with the devices caught up: they are handed exactly
  -- the cycles between their time and the CPU's, in non-empty pieces of at most
  -- `max_settle_chunk`, the CPU's time does not move, and the invariant holds.
  pub settle-Settled :
      (d : D) (s : Scheduler)
      → IsCoherent s
      → (total : ℕ) × (s.now + total ≡ cpu_time s)
        × Settled tick total d s (settle tick (d, s))
        × ((settle tick (d, s)).1.now ≡ cpu_time s)
  unfolding settle sync_unsettled
  settle-Settled d s v =
      let s' = sync_unsettled s in
      let p = pending s' in
      let synced = sync-IsCoherent v in
      let gap = pending-sync v in
      let done =
        settle_loop-Settled p p d s' (omega arith) synced.0 (omega (arith, synced.1, same_now)) in
      (
        p,
        gap,
        record {
          pieces = done.pieces;
          each = done.each;
          whole = done.whole;
          handed = done.handed;
          coherent = done.coherent;
          time_kept = done.time_kept ∙ synced.1;
          caught_up = omega (arith, done.caught_up, same_now);
          kept_begin = done.kept_begin;
          kept_end = done.kept_end;
          kept_deadline = done.kept_deadline;
        },
        omega (arith, done.caught_up, same_now),
      )
    where
      same_now : (sync_unsettled s).now ≡ s.now
      same_now = refl

  -- From a coherent clock `materialize` leaves the devices caught up with the CPU, whose time does
  -- not move, and keeps the invariant, whether or not anything was pending.
  pub materialize_lem :
      (d : D) (s : Scheduler)
      → IsCoherent s
      → (cpu_time (materialize tick (d, s)).1 ≡ cpu_time s)
        × ((materialize tick (d, s)).1.now ≡ cpu_time s)
        × IsCoherent (materialize tick (d, s)).1
  unfolding materialize
  materialize_lem d s v = go (pending (sync_unsettled s)) refl
    where
      synced : IsCoherent (sync_unsettled s) × (cpu_time (sync_unsettled s) ≡ cpu_time s)
      synced = sync-IsCoherent v

      same_now : (sync_unsettled s).now ≡ s.now
      same_now = unfold sync_unsettled in refl

      after : D × Scheduler → Type 0
      after m = (cpu_time m.1 ≡ cpu_time s) × (m.1.now ≡ cpu_time s) × IsCoherent m.1

      go :
          (p : ℕ)
          → pending (sync_unsettled s) ≡ p
          → after
              (elim p [ zero ↦ (d, sync_unsettled s) | suc r ↦ settle tick (d, sync_unsettled s) ])
      go zero e = (synced.1, omega (arith, pending-sync v, same_now, e), synced.0)
      go (suc r) e =
          let done = settle-Settled d (sync_unsettled s) synced.0 in
          (done.2.time_kept ∙ synced.1, done.3 ∙ synced.1, done.2.coherent)
