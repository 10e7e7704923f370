-- ===== src/Mfp/Deadline.antt =====
-- The deadline at which a timer next raises an interrupt.
use x68k_stackchan.Base.{
  ℕ, ◌+◌, ◌*◌, ◌/◌, ◌^◌, ◌≤◌, ◌<◌, ◌≡◌, ◌≢◌, refl, ap, ◌∙◌, Bool, true, false, not, arith, ltb,
  if◌then◌else◌, inl, inr, ◌⊎◌, List, [], ◌∷◌, All, any_bit,
}
use x68k_stackchan.Mfp.Reg
use x68k_stackchan.Mfp.{Mfp, RunningTimer}
use x68k_stackchan.Mfp.Tick.{
  tick_timer, tick_timers, tick_fast, timer_raises, timer_bit, need_raise, next_raise_from,
  cycles_until_next_raise, no_deadline,
}
use x68k_stackchan.Mfp.Short.{decrements, IsApart, IsQuiet, short_timer}

-- What the clock needs of a timer before `n` cycles that raise nothing.
abbrev IsReady : ℕ → Mfp → RunningTimer → Type 0
IsReady n m t = (t.index < 4) × (m.prescale_counter t.index + n < 2 ^ 32) × IsQuiet n t m

-- The timers stand in the order of their indices.
abbrev pub IsAscending : List RunningTimer → Type 0
IsAscending [] = Unit
IsAscending (t ∷ ts) = All (λ (u : RunningTimer). t.index < u.index) ts × IsAscending ts

IsReady-IsApart :
    (n i : ℕ) (m m' : Mfp) (u : RunningTimer)
    → IsApart i m m'
    → u.index ≢ i
    → IsReady n m u
    → IsReady n m' u
IsReady-IsApart n i m m' u (r, f) h (a, b, q) =
    let raises : timer_raises u.index m' ≡ timer_raises u.index m =
      ap
        (λ (g : ℕ → ℕ).
          any_bit (g (if ltb u.index 2 then Reg.iera else Reg.ierb)) (timer_bit u.index))
        r in
    let at = f u.index h in (a, rw (at.0) b, rw (at.0, at.1, raises) q)

IsReady-All :
    (n i : ℕ) (m m' : Mfp) (ts : List RunningTimer)
    → IsApart i m m'
    → All (λ (u : RunningTimer). i < u.index) ts
    → All (IsReady n m) ts
    → All (IsReady n m') ts
IsReady-All n i m m' [] k h r = tt
IsReady-All n i m m' (u ∷ us) k (h, hs) (r, rs) =
    (IsReady-IsApart n i m m' u k (λ e. absurd (omega arith)) r, IsReady-All n i m m' us k hs rs)

quiet_timers :
    (fast : Bool) (n : ℕ) (ts : List RunningTimer) (m : Mfp)
    → IsAscending ts
    → All (IsReady n m) ts
    → (tick_timers fast n ts m).reg ≡ m.reg
unfolding tick_timers
quiet_timers fast n [] m a r = refl
quiet_timers fast n (t ∷ ts) m (a, later) ((h, b, q), rs) =
    let k = short_timer fast n t m h b q in
    quiet_timers fast n ts (tick_timer fast n t m) later
      (IsReady-All n t.index m (tick_timer fast n t m) ts k a rs)
    ∙ k.0

-- The fold keeps a lower bound of what it has seen.
abbrev IsLater : ℕ → Mfp → RunningTimer → Type 0
IsLater cycles m t = (timer_raises t.index m ≡ false) ⊎ (cycles < need_raise t m)

below_both :
    (cycles : ℕ) (raises : Bool) (x best : ℕ)
    → cycles < (if not raises then best else if ltb x best then x else best)
    → (cycles < best) × ((raises ≡ false) ⊎ (cycles < x))
below_both cycles true x best h = ground arith
below_both cycles false x best h = (h, inl refl)

next_raise-IsLater :
    (cycles : ℕ) (m : Mfp) (ts : List RunningTimer) (best : ℕ)
    → cycles < next_raise_from m ts best
    → (cycles < best) × All (IsLater cycles m) ts
unfolding next_raise_from
next_raise-IsLater cycles m [] best h = (h, tt)
next_raise-IsLater cycles m (t ∷ ts) best h =
    let rest = next_raise-IsLater cycles m ts _ h in
    let here = below_both cycles (timer_raises t.index m) (need_raise t m) best rest.0 in
    (here.0, (here.1, rest.1))

product_bound : (d p : ℕ) → 1 ≤ d → d ≤ 256 → p ≤ 200 → (p ≤ d * p) × (d * p ≤ 51200)
product_bound d p a b c = (grind arith, grind arith)

-- The counter is short of the prescale, as the clock leaves it, and the timer's numbers are in range.
abbrev pub IsBelow : Mfp → RunningTimer → Type 0
IsBelow m t =
    (t.index < 4)
    × (t.prescale ≤ 200)
    × (m.timer_value t.index < 256)
    × (m.prescale_counter t.index < t.prescale)

ready :
    (cycles : ℕ) (m : Mfp) (t : RunningTimer)
    → cycles < no_deadline
    → IsBelow m t
    → IsLater cycles m t
    → IsReady (cycles / 2) m t
ready cycles m t l (a, p, v, c) (inl r) = (a, omega arith, inl r)
ready cycles m t l (a, p, v, c) (inr s) =
    let d = decrements (m.timer_value t.index) in
    let r : (1 ≤ d) × (d ≤ 256) = ground arith in
    let q : (t.prescale ≤ d * t.prescale) × (d * t.prescale ≤ 51200) =
      product_bound d t.prescale r.0 r.1 p in
    (a, omega arith, inr (omega arith))

ready-All :
    (cycles : ℕ) (m : Mfp) (ts : List RunningTimer)
    → cycles < no_deadline
    → All (IsBelow m) ts
    → All (IsLater cycles m) ts
    → All (IsReady (cycles / 2) m) ts
ready-All cycles m [] l b h = tt
ready-All cycles m (t ∷ ts) l (b, bs) (h, hs) =
    (ready cycles m t l b h, ready-All cycles m ts l bs hs)

-- When the running timers stand in the order of their indices, below 4, with values below 256 and
-- counters short of their prescales, which are at most 200, a tick of fewer cycles than
-- `cycles_until_next_raise` announces changes no register, so it raises no interrupt.
pub tick_fast-before_deadline :
    (fast : Bool) (cycles : ℕ) (m : Mfp)
    → IsAscending m.running
    → All (IsBelow m) m.running
    → cycles < cycles_until_next_raise m
    → (tick_fast fast cycles m).reg ≡ m.reg
unfolding tick_fast cycles_until_next_raise
tick_fast-before_deadline fast cycles m a b h =
    let later = next_raise-IsLater cycles m m.running no_deadline h in
    let quiet =
      quiet_timers fast (cycles / 2) m.running m a
        (ready-All cycles m m.running later.0 b later.1) in
    ground (arith, quiet)
