-- ===== src/Mfp/FastPath.antt =====
-- The two instances of `tickFast<FastPath>`.
use x68k_stackchan.Base.{
  ℕ, zero, suc, ◌+◌, ◌-◌, ◌/◌, ◌≤◌, ◌<◌, ◌≡◌, refl, ap, sym, ◌∙◌, Bool, true, false, ◌&&◌, arith,
  ltb, leb, if◌then◌else◌, ltb→lt, &&-true, update, List, [], ◌∷◌, u32, All, ltb-false,
}
use x68k_stackchan.Mfp.{Mfp, RunningTimer}
use x68k_stackchan.Mfp.Tick.{count_down, tick_timer_counted, tick_timer, tick_timers, tick_fast}

-- What is stored at an index is what is read there.
pub update-same : (f : ℕ → ℕ) (i v : ℕ) → update f i v i ≡ v
update-same f i v = ground arith

below_stops :
    (fuel i p : ℕ) (m : Mfp) → m.prescale_counter i < p → tick_timer_counted fuel i p m ≡ m
unfolding tick_timer_counted
below_stops zero i p m h = refl
below_stops (suc fuel) i p m h = ground arith

-- The state after the timer counts down once without a timeout.
abbrev dropped : ℕ → ℕ → Mfp → Mfp
dropped i p m = record m {
  prescale_counter = update m.prescale_counter i (m.prescale_counter i - p);
  timer_value = update m.timer_value i (m.timer_value i - 1);
}

count_down-dropped : (i p : ℕ) (m : Mfp) → 1 < m.timer_value i → count_down i p m ≡ dropped i p m
unfolding count_down
count_down-dropped i p m v = ground arith

once :
    (fuel i p : ℕ) (m : Mfp)
    → 0 < p
    → m.prescale_counter i ≤ fuel
    → p ≤ m.prescale_counter i
    → m.prescale_counter i - p < p
    → 1 < m.timer_value i
    → tick_timer_counted fuel i p m ≡ dropped i p m
unfolding tick_timer_counted
once zero i p m z f h r v = absurd (omega arith)
once (suc fuel) i p m z f h r v =
    let next = count_down-dropped i p m v in
    let at = update-same m.prescale_counter i (m.prescale_counter i - p) in
    let stop : tick_timer_counted fuel i p (dropped i p m) ≡ dropped i p m =
      below_stops fuel i p (dropped i p m) (omega arith) in
    let opened : leb p (m.prescale_counter i) ≡ true = ground arith in rw (opened, next) stop

-- A shortcut that agrees with the long way wherever it is taken changes nothing.
shortcut {ℓ} :
    {A : Type ℓ} (early quick : Bool) (x y z : A)
    → (early ≡ false → quick ≡ true → y ≡ z)
    → (if early then x else if quick then y else z) ≡ (if early then x else z)
shortcut true quick x y z h = refl
shortcut false true x y z h = h refl refl
shortcut false false x y z h = refl

-- Each timer by itself.
pub tick_timer-fast :
    (n : ℕ) (t : RunningTimer) (m : Mfp)
    → 0 < t.prescale
    → tick_timer true n t m ≡ tick_timer false n t m
unfolding tick_timer
tick_timer-fast n t m h =
    let c = u32 (m.prescale_counter t.index + n) in
    let counted : Mfp = record m { prescale_counter = update m.prescale_counter t.index c } in
    let at = update-same m.prescale_counter t.index c in
    let q = ltb (c - t.prescale) t.prescale && ltb 1 (m.timer_value t.index) in
    shortcut (ltb c t.prescale) q _ _ _ (λ e f.
      let conds = &&-true (ltb (c - t.prescale) t.prescale) (ltb 1 (m.timer_value t.index)) f in
      let le : t.prescale ≤ c = ltb-false c t.prescale e in
      let lt : c - t.prescale < t.prescale = ltb→lt (c - t.prescale) t.prescale conds.0 in
      let slow : tick_timer_counted c t.index t.prescale counted
          ≡ dropped t.index t.prescale counted =
        once c t.index t.prescale counted h (omega arith) (omega arith) (omega arith)
          (ltb→lt _ _ conds.1) in
      ap
        (λ (r : ℕ). record m {
          prescale_counter = update counted.prescale_counter t.index (r - t.prescale);
          timer_value = update m.timer_value t.index (m.timer_value t.index - 1);
        })
        (sym at)
      ∙ sym slow)

tick_timers-fast :
    (n : ℕ) (ts : List RunningTimer) (m : Mfp)
    → All (λ (t : RunningTimer). 0 < t.prescale) ts
    → tick_timers true n ts m ≡ tick_timers false n ts m
unfolding tick_timers
tick_timers-fast n [] m h = refl
tick_timers-fast n (t ∷ ts) m (p, h) =
    rw (tick_timer-fast n t m p) (tick_timers-fast n ts (tick_timer false n t m) h)

-- Both instances of `tickFast` do the same to every state whose running timers have a prescale: the
-- shortcut for one decrement without a timeout never changes the outcome.
pub tick_fast-fast :
    (cycles : ℕ) (m : Mfp)
    → All (λ (t : RunningTimer). 0 < t.prescale) m.running
    → tick_fast true cycles m ≡ tick_fast false cycles m
unfolding tick_fast
tick_fast-fast cycles m h = ground (arith, tick_timers-fast (cycles / 2) m.running m h)
