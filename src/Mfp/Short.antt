-- ===== src/Mfp/Short.antt =====
-- A tick of a timer that stays short of its timeout.
use x68k_stackchan.Base.{
  ℕ, zero, suc, ◌+◌, ◌-◌, ◌*◌, ◌^◌, ◌≤◌, ◌<◌, ◌≡◌, ◌≢◌, refl, ap, sym, ◌∙◌, Bool, true, false,
  arith, ltb, leb, ◌==◌, if◌then◌else◌, Bool-cases, inl, inr, ◌⊎◌, subst, fun_ext, update, u32,
  leb→le,
}
use x68k_stackchan.Mfp.{Mfp, RunningTimer, data_reg}
use x68k_stackchan.Mfp.FastPath.{update-same}
use x68k_stackchan.Mfp.Tick.{raise_timer, count_down, tick_timer_counted, tick_timer, timer_raises}

-- The decrements that a timer is from its timeout: the value 0 stands for 256.
abbrev pub decrements : ℕ → ℕ
decrements value = if value == 0 then 256 else value

-- The timer at index `i` with prescale `p` either cannot raise or is short of its timeout.
abbrev pub IsShort : ℕ → ℕ → ℕ → Mfp → Type 0
IsShort i p counter m = (timer_raises i m ≡ false) ⊎ (counter < decrements (m.timer_value i) * p)

-- The parts of the state that a timer with another index reads.
abbrev pub IsApart : ℕ → Mfp → Mfp → Type 0
IsApart i m m' =
    (m'.reg ≡ m.reg)
    × ((j : ℕ)
        → j ≢ i
        → (m'.prescale_counter j ≡ m.prescale_counter j) × (m'.timer_value j ≡ m.timer_value j))

IsApart-∙ : (i : ℕ) (a b c : Mfp) → IsApart i a b → IsApart i b c → IsApart i a c
IsApart-∙ i a b c (p, f) (q, g) = (q ∙ p, λ j h. ((g j h).0 ∙ (f j h).0, (g j h).1 ∙ (f j h).1))

silent : (i : ℕ) (m : Mfp) → i < 4 → timer_raises i m ≡ false → raise_timer i m ≡ m
silent i m h r = ground arith

update-other : {A : Type 0} (f : ℕ → A) (i : ℕ) (v : A) (j : ℕ) → j ≢ i → update f i v j ≡ f j
update-other f i v j h = ground arith

-- The state after one decrement of timer `i`, to the value `v`.
abbrev lower : ℕ → ℕ → ℕ → Mfp → Mfp
lower i p v m = record m {
  prescale_counter = update m.prescale_counter i (m.prescale_counter i - p);
  timer_value = update m.timer_value i v;
}

lower-IsApart : (i p v : ℕ) (m : Mfp) → IsApart i m (lower i p v m)
lower-IsApart i p v m =
    (refl, λ j h. (update-other m.prescale_counter i _ j h, update-other m.timer_value i v j h))

down-counts :
    (i p : ℕ) (m : Mfp)
    → 1 < decrements (m.timer_value i)
    → count_down i p m ≡ lower i p (decrements (m.timer_value i) - 1) m
unfolding count_down
down-counts i p m h = ground arith

again : (f : ℕ → ℕ) (i u v : ℕ) → update (update f i u) i v ≡ update f i v
again f i u v = fun_ext (λ j. ground arith)

down-reloads :
    (i p : ℕ) (m : Mfp)
    → i < 4
    → timer_raises i m ≡ false
    → decrements (m.timer_value i) ≡ 1
    → count_down i p m ≡ lower i p (m.reg (data_reg i)) m
unfolding count_down
down-reloads i p m h r e = ground (
  arith,
  again m.timer_value i 0 (m.reg (data_reg i)),
  silent i (lower i p (m.reg (data_reg i)) m) h r,
)

decrements-cases : (v : ℕ) → (decrements v ≡ 1) ⊎ (1 < decrements v)
decrements-cases v = ground arith

one_less : (c d p : ℕ) → 1 < d → p ≤ c → c < d * p → c - p < decrements (d - 1) * p
one_less c zero p h le lt = absurd (omega arith)
one_less c (suc zero) p h le lt = absurd (omega arith)
one_less c (suc (suc d)) p h le lt =
    let e : suc (suc d) * p ≡ suc d * p + p = ground arith in
    let f : decrements (suc (suc d) - 1) ≡ suc d = ground arith in
    let r : c - p < suc d * p = omega arith in rw f r

counted :
    (i p : ℕ) (m : Mfp)
    → p ≤ m.prescale_counter i
    → 1 < decrements (m.timer_value i)
    → IsShort i p (m.prescale_counter i) m
    → IsShort i p (m.prescale_counter i - p) (lower i p (decrements (m.timer_value i) - 1) m)
counted i p m le lt (inl r) = inl r
counted i p m le lt (inr s) = inr (
    rw (update-same m.timer_value i (decrements (m.timer_value i) - 1))
      (one_less (m.prescale_counter i) (decrements (m.timer_value i)) p lt le s))

no_room : (c d p : ℕ) → d ≡ 1 → p ≤ c → c < d * p → ⊥
no_room c d p e le lt = ground (arith, ap (λ (x : ℕ). x * p) e)

IsShort-down :
    (i p : ℕ) (m : Mfp)
    → i < 4
    → p ≤ m.prescale_counter i
    → IsShort i p (m.prescale_counter i) m
    → IsApart i m (count_down i p m)
      × ((count_down i p m).prescale_counter i ≡ m.prescale_counter i - p)
      × IsShort i p (m.prescale_counter i - p) (count_down i p m)
IsShort-down i p m h le s = elim (decrements-cases (m.timer_value i)) [
  | inl e ↦ elim s [
    | inl r ↦ rw (down-reloads i p m h r e) (
      lower-IsApart i p (m.reg (data_reg i)) m,
      update-same m.prescale_counter i (m.prescale_counter i - p),
      inl r,
    )
    | inr lt ↦ absurd (no_room _ _ _ e le lt)
  ]
  | inr lt ↦
      let d = decrements (m.timer_value i) - 1 in
      rw (down-counts i p m lt) (
        lower-IsApart i p d m,
        update-same m.prescale_counter i (m.prescale_counter i - p),
        counted i p m le lt s,
      )
]

-- The whole loop, for a timer that stays short of its timeout: no register changes, and nothing of
-- another timer.
short_counted :
    (fuel i p : ℕ) (m : Mfp)
    → i < 4
    → IsShort i p (m.prescale_counter i) m
    → IsApart i m (tick_timer_counted fuel i p m)
unfolding tick_timer_counted
short_counted zero i p m h s = (refl, λ j n. (refl, refl))
short_counted (suc fuel) i p m h s = elim (Bool-cases (leb p (m.prescale_counter i))) [
  | inl t ↦
      let m' = count_down i p m in
      let d = IsShort-down i p m h (leb→le p (m.prescale_counter i) t) s in
      rw t (
        IsApart-∙ i m m' (tick_timer_counted fuel i p m') d.0
          (short_counted fuel i p m' h (subst (λ c. IsShort i p c m') (sym d.1) d.2)))
  | inr f ↦ rw f (refl, λ j n. (refl, refl))
]

-- A timer is short of its timeout for `n` more cycles of the peripheral's clock.
abbrev pub IsQuiet : ℕ → RunningTimer → Mfp → Type 0
IsQuiet n t m = IsShort t.index t.prescale (m.prescale_counter t.index + n) m

one_of_three :
    (P : Mfp → Type 0) (b c : Bool) (x y z : Mfp)
    → P x
    → P y
    → P z
    → P (if b then x else if c then y else z)
one_of_three P true c x y z p q r = p
one_of_three P false true x y z p q r = q
one_of_three P false false x y z p q r = r

pub short_timer :
    (fast : Bool) (n : ℕ) (t : RunningTimer) (m : Mfp)
    → t.index < 4
    → m.prescale_counter t.index + n < 2 ^ 32
    → IsQuiet n t m
    → IsApart t.index m (tick_timer fast n t m)
unfolding tick_timer
short_timer fast n t m h b s =
    let c = u32 (m.prescale_counter t.index + n) in
    let counted : Mfp = record m { prescale_counter = update m.prescale_counter t.index c } in
    let e : c ≡ m.prescale_counter t.index + n = omega arith in
    let start : IsApart t.index m counted =
      (refl, λ j k. (update-other m.prescale_counter t.index c j k, refl)) in
    let s' : IsShort t.index t.prescale (counted.prescale_counter t.index) counted =
      subst (λ x. IsShort t.index t.prescale x counted)
        (sym (update-same m.prescale_counter t.index c ∙ e)) s in
    one_of_three (IsApart t.index m) (ltb c t.prescale) _ _ _ _ start
      (
        refl,
        λ j k. (
          update-other counted.prescale_counter t.index _ j k
              ∙ update-other m.prescale_counter t.index c j k,
          update-other m.timer_value t.index _ j k,
        ),
      )
      (IsApart-∙ t.index m counted (tick_timer_counted c t.index t.prescale counted) start
        (short_counted c t.index t.prescale counted h s'))
