-- ===== src/Mfp/Counter.antt =====
-- The prescale counter over a tick: `tickTimerCounted` takes out whole prescales and stops.
use x68k_stackchan.Base.{
  ℕ, zero, suc, ◌+◌, ◌-◌, ◌%◌, ◌^◌, ◌≤◌, ◌<◌, ◌≡◌, ap, sym, ◌∙◌, Bool, true, false, arith, leb,
  leb→le, leb-false, ltb, ltb→lt, Bool-cases, inl, inr, update, u32,
}
use native.Mathlib.Nat.{mod-eq-sub-mod, mod-eq_of_lt}
use x68k_stackchan.Mfp.{Mfp, RunningTimer}
use x68k_stackchan.Mfp.FastPath.{update-same, tick_timer-fast}
use x68k_stackchan.Mfp.Tick.{raise_timer, count_down, tick_timer_counted, tick_timer}

raise_kept : (i : ℕ) (m : Mfp) → (raise_timer i m).prescale_counter ≡ m.prescale_counter
raise_kept i m = ground arith

down-counter :
    (i p : ℕ) (m : Mfp) → (count_down i p m).prescale_counter i ≡ m.prescale_counter i - p
unfolding count_down
down-counter i p m = ground (arith, update-same m.prescale_counter i (m.prescale_counter i - p))

counted-counter :
    (fuel i p : ℕ) (m : Mfp)
    → 0 < p
    → m.prescale_counter i ≤ fuel
    → (tick_timer_counted fuel i p m).prescale_counter i ≡ m.prescale_counter i % p
unfolding tick_timer_counted
counted-counter zero i p m h f = sym (mod-eq_of_lt (omega arith))
counted-counter (suc fuel) i p m h f = elim (Bool-cases (leb p (m.prescale_counter i))) [
  | inl t ↦
      let le = leb→le p (m.prescale_counter i) t in
      let down = down-counter i p m in
      let rest : (tick_timer_counted fuel i p (count_down i p m)).prescale_counter i
          ≡ (count_down i p m).prescale_counter i % p =
        counted-counter fuel i p (count_down i p m) h (omega (arith, le)) in
      rw t (rest ∙ ap (λ (c : ℕ). c % p) down ∙ sym (mod-eq-sub-mod le))
  | inr e ↦ rw e (sym (mod-eq_of_lt (leb-false p (m.prescale_counter i) e)))
]

slow-counter :
    (n : ℕ) (t : RunningTimer) (m : Mfp)
    → 0 < t.prescale
    → m.prescale_counter t.index + n < 2 ^ 32
    → (tick_timer false n t m).prescale_counter t.index
      ≡ (m.prescale_counter t.index + n) % t.prescale
unfolding tick_timer
slow-counter n t m h room =
    let c = u32 (m.prescale_counter t.index + n) in
    let e : c ≡ m.prescale_counter t.index + n = omega arith in
    let counted : Mfp = record m { prescale_counter = update m.prescale_counter t.index c } in
    let at : counted.prescale_counter t.index ≡ c = update-same m.prescale_counter t.index c in
    elim (Bool-cases (ltb c t.prescale)) [
      | inl b ↦
          rw b (at ∙ sym (mod-eq_of_lt (ltb→lt c t.prescale b)) ∙ ap (λ (x : ℕ). x % t.prescale) e)
      | inr b ↦ rw b (
          counted-counter c t.index t.prescale counted h (omega arith)
          ∙ ap (λ (x : ℕ). x % t.prescale) (at ∙ e))
    ]

-- For a timer with a prescale whose counter does not overflow 32 bits, `tick_timer`, with or without
-- the shortcut, leaves in the prescale counter the remainder of the old counter plus the cycles by
-- the prescale: no cycle is lost, and the counter is again below the prescale.
pub tick_timer-counter :
    (fast : Bool) (n : ℕ) (t : RunningTimer) (m : Mfp)
    → 0 < t.prescale
    → m.prescale_counter t.index + n < 2 ^ 32
    → ((tick_timer fast n t m).prescale_counter t.index
        ≡ (m.prescale_counter t.index + n) % t.prescale)
      × ((tick_timer fast n t m).prescale_counter t.index < t.prescale)
tick_timer-counter fast n t m h room = (exact fast, omega (arith, exact fast))
  where
    exact :
        (b : Bool)
        → (tick_timer b n t m).prescale_counter t.index
          ≡ (m.prescale_counter t.index + n) % t.prescale
    exact false = slow-counter n t m h room
    exact true =
        ap (λ (x : Mfp). x.prescale_counter t.index) (tick_timer-fast n t m h)
        ∙ slow-counter n t m h room
