-- ===== src/Mfp/Running.antt =====
-- The table of the running timers and the control registers it is computed from.
use x68k_stackchan.Base.{
  ◌⊎◌, subst, ℕ, zero, suc, ◌+◌, ◌/◌, ◌%◌, ◌^◌, ◌≤◌, ◌<◌, ◌≡◌, refl, sym, ◌∙◌, Bool, true, false,
  ◌||◌, arith, ◌==◌, if◌then◌else◌, Option, some, none, Bool-cases, inl, inr, update, List, [], ◌∷◌,
  All, any_bit, bit_and, bit_or,
}
use x68k_stackchan.Mfp.Reg
use x68k_stackchan.Mfp.{
  Mfp, RunningTimer, read, refresh_running_timers, reset, write, write_rest, write_control,
  write_data, write_vector, write_enable, set_reg, scan_timer, control_of, prescale_table,
}
use x68k_stackchan.Mfp.Interrupt.{
  set_vertical_blank, receive_keyboard_byte, acknowledge_from, acknowledge_interrupt, accept,
  highest, pending_a, pending_b,
}
use x68k_stackchan.Mfp.Tick.{
  raise_timer, count_down, tick_timer_counted, tick_timer, tick_timers, tick_fast,
}

-- The table is what the control registers give.
abbrev pub IsCurrent : Mfp → Type 0
IsCurrent m = m.running ≡ (refresh_running_timers m).running

abbrev IsKept : Mfp → Mfp → Type 0
IsKept m m' =
    (m'.reg Reg.tacr ≡ m.reg Reg.tacr)
    × (m'.reg Reg.tbcr ≡ m.reg Reg.tbcr)
    × (m'.reg Reg.tcdcr ≡ m.reg Reg.tcdcr)
    × (m'.running ≡ m.running)

kept : (m m' : Mfp) → IsKept m m' → IsCurrent m → IsCurrent m'
kept m m' (a, b, c, r) h = r ∙ h ∙ rw (a, b, c) refl

abbrev is_control : ℕ → Bool
is_control index = index == Reg.tacr || index == Reg.tbcr || index == Reg.tcdcr

rest-control :
    (index value : ℕ) (m : Mfp)
    → is_control index ≡ true
    → write_rest index value m ≡ write_control index value m
unfolding write_rest
rest-control index value m h = ground arith

write-control :
    (index value : ℕ) (m : Mfp)
    → is_control index ≡ true
    → write index value m ≡ write_control index value m
unfolding write
write-control index value m h = ground (arith, rest-control index value m h)

write_data-IsKept : (timer value : ℕ) (m : Mfp) → IsKept m (write_data timer value m)
unfolding write_data
write_data-IsKept timer value m = ground arith

write_vector-IsKept : (value : ℕ) (m : Mfp) → IsKept m (write_vector value m)
unfolding write_vector
write_vector-IsKept value m = ground arith

write_enable-IsKept :
    (index pending value : ℕ) (m : Mfp)
    → is_control index ≡ false
    → is_control pending ≡ false
    → IsKept m (write_enable index pending value m)
unfolding write_enable
write_enable-IsKept index pending value m h k = ground arith

set_reg-IsKept :
    (index value : ℕ) (m : Mfp) → is_control index ≡ false → IsKept m (set_reg index value m)
set_reg-IsKept index value m h = ground arith

if-IsKept :
    (b : Bool) (m x y : Mfp) → IsKept m x → (b ≡ false → IsKept m y) → IsKept m (if b then x else y)
if-IsKept true m x y p q = p
if-IsKept false m x y p q = q refl

rest-IsKept :
    (index value : ℕ) (m : Mfp) → is_control index ≡ false → IsKept m (write_rest index value m)
unfolding write_rest
rest-IsKept index value m h = ground (
  arith,
  set_reg-IsKept index value m h,
  set_reg-IsKept Reg.tsr (bit_or value 0x80) m refl,
  write_vector-IsKept value m,
  write_enable-IsKept Reg.iera Reg.ipra value m refl refl,
  write_enable-IsKept Reg.ierb Reg.iprb value m refl refl,
)

write-IsKept :
    (index value : ℕ) (m : Mfp) → is_control index ≡ false → IsKept m (write index value m)
unfolding write
write-IsKept index value m h = ground (
  arith,
  set_reg-IsKept index (bit_and (m.reg index) value) m h,
  write_data-IsKept 0 value m,
  write_data-IsKept 1 value m,
  write_data-IsKept 2 value m,
  write_data-IsKept 3 value m,
  rest-IsKept index value m h,
)

raise_timer-IsKept : (i : ℕ) (m : Mfp) → IsKept m (raise_timer i m)
raise_timer-IsKept i m = ground arith

count_down-IsKept : (i p : ℕ) (m : Mfp) → IsKept m (count_down i p m)
unfolding count_down
count_down-IsKept i p m = ground arith

counted-IsKept : (fuel i p : ℕ) (m : Mfp) → IsKept m (tick_timer_counted fuel i p m)
unfolding tick_timer_counted
counted-IsKept zero i p m = ground arith
counted-IsKept (suc fuel) i p m =
    ground (arith, counted-IsKept fuel i p (count_down i p m), count_down-IsKept i p m)

tick_timer-IsKept :
    (fast : Bool) (n : ℕ) (t : RunningTimer) (m : Mfp) → IsKept m (tick_timer fast n t m)
unfolding tick_timer
tick_timer-IsKept fast n t m =
    let c = (m.prescale_counter t.index + n) % 2 ^ 32 in
    ground (
      arith,
      counted-IsKept c t.index t.prescale
          (record m { prescale_counter = update m.prescale_counter t.index c }),
    )

tick_timers-IsKept :
    (fast : Bool) (n : ℕ) (ts : List RunningTimer) (m : Mfp) → IsKept m (tick_timers fast n ts m)
unfolding tick_timers
tick_timers-IsKept fast n [] m = ground arith
tick_timers-IsKept fast n (t ∷ ts) m =
    ground
      (arith, tick_timer-IsKept fast n t m, tick_timers-IsKept fast n ts (tick_timer fast n t m))

tick_fast-IsKept : (fast : Bool) (n : ℕ) (m : Mfp) → IsKept m (tick_fast fast n m)
unfolding tick_fast
tick_fast-IsKept fast n m = ground (arith, tick_timers-IsKept fast (n / 2) m.running m)

read-IsKept : (index : ℕ) (m : Mfp) → IsKept m (read index m).1
unfolding read
read-IsKept index m = ground arith

vertical-IsKept : (active : Bool) (m : Mfp) → IsKept m (set_vertical_blank active m)
unfolding set_vertical_blank
vertical-IsKept active m = ground arith

receive-IsKept : (value : ℕ) (m : Mfp) → IsKept m (receive_keyboard_byte value m)
unfolding receive_keyboard_byte
receive-IsKept value m = ground arith

acknowledge_from-IsKept : (a b : Option ℕ) (m : Mfp) → IsKept m (acknowledge_from a b m).1
unfolding acknowledge_from accept
acknowledge_from-IsKept (some bit) b m = ground arith
acknowledge_from-IsKept none (some bit) m = ground arith
acknowledge_from-IsKept none none m = ground arith

control-IsCurrent : (index value : ℕ) (m : Mfp) → IsCurrent (write_control index value m)
unfolding write_control
control-IsCurrent index value m = refl

write-IsCurrent : (index value : ℕ) (m : Mfp) → IsCurrent m → IsCurrent (write index value m)
write-IsCurrent index value m h = elim (Bool-cases (is_control index)) [
  | inl t ↦ rw (write-control index value m t) (control-IsCurrent index value m)
  | inr f ↦ kept m (write index value m) (write-IsKept index value m f) h
]

-- The calls of the machine.
pub data Call : Type 0 where
  reads : ℕ → Call
  writes : ℕ → ℕ → Call
  ticks : Bool → ℕ → Call
  vertical_blank : Bool → Call
  key : ℕ → Call
  acknowledge : Call

unfoldable pub step : Call → Mfp → Mfp
step (reads index) m = (read index m).1
step (writes index value) m = write index value m
step (ticks fast cycles) m = tick_fast fast cycles m
step (vertical_blank active) m = set_vertical_blank active m
step (key value) m = receive_keyboard_byte value m
step acknowledge m = (acknowledge_interrupt m).1

unfoldable pub run : List Call → Mfp → Mfp
run [] m = m
run (c ∷ cs) m = run cs (step c m)

step-IsCurrent : (c : Call) (m : Mfp) → IsCurrent m → IsCurrent (step c m)
unfolding step acknowledge_interrupt
step-IsCurrent (reads index) m h = kept m (read index m).1 (read-IsKept index m) h
step-IsCurrent (writes index value) m h = write-IsCurrent index value m h
step-IsCurrent (ticks fast cycles) m h =
    kept m (tick_fast fast cycles m) (tick_fast-IsKept fast cycles m) h
step-IsCurrent (vertical_blank active) m h =
    kept m (set_vertical_blank active m) (vertical-IsKept active m) h
step-IsCurrent (key value) m h = kept m (receive_keyboard_byte value m) (receive-IsKept value m) h
step-IsCurrent acknowledge m h =
    kept m (acknowledge_from (highest 8 (pending_a m)) (highest 8 (pending_b m)) m).1
      (acknowledge_from-IsKept (highest 8 (pending_a m)) (highest 8 (pending_b m)) m) h

-- A timer of the table is one of the four, has a prescale of the table, and is in delay mode.
abbrev pub IsDriven : Mfp → RunningTimer → Type 0
IsDriven m t =
    (t.index < 4)
    × (4 ≤ t.prescale)
    × (t.prescale ≤ 200)
    × (t.prescale ≡ prescale_table (bit_and (control_of m.reg t.index) 7))

table_bounds :
    (k : ℕ) → (prescale_table k ≡ 0) ⊎ ((4 ≤ prescale_table k) × (prescale_table k ≤ 200))
table_bounds k = ground arith

scan-IsDriven :
    (m : Mfp) (i : ℕ) (ts : List RunningTimer)
    → i < 4
    → All (IsDriven m) ts
    → All (IsDriven m) (scan_timer m.reg i ts)
scan-IsDriven m i ts h rest = elim (Bool-cases (any_bit (control_of m.reg i) 0x08)) [
  | inl t ↦ rw t rest
  | inr f ↦ elim (table_bounds (bit_and (control_of m.reg i) 7)) [
    | inl z ↦
        let e : (prescale_table (bit_and (control_of m.reg i) 7) == 0) ≡ true = ground arith in
        rw (f, e) rest
    | inr b ↦
        let e : (prescale_table (bit_and (control_of m.reg i) 7) == 0) ≡ false = ground arith in
        rw (f, e) ((h, b.0, b.1, refl), rest)
  ]
]

current : (cs : List Call) (m : Mfp) → IsCurrent m → IsCurrent (run cs m)
unfolding run
current [] m h = h
current (c ∷ cs) m h = current cs (step c m) (step-IsCurrent c m h)

current-IsDriven : (m : Mfp) → IsCurrent m → All (IsDriven m) m.running
current-IsDriven m h = subst (All (IsDriven m)) (sym h) (
    scan-IsDriven m 0 _ (omega arith) (
      scan-IsDriven m 1 _ (omega arith)
        (scan-IsDriven m 2 _ (omega arith) (scan-IsDriven m 3 [] (omega arith) tt))))

-- After any sequence of calls from reset the table of running timers is the one that the control
-- registers give, and each of its timers is one of the four with the prescale, between 4 and 200,
-- that its control register selects.
pub run-IsCurrent :
    (cs : List Call)
    → IsCurrent (run cs reset) × All (IsDriven (run cs reset)) (run cs reset).running
unfolding run
run-IsCurrent cs = (current cs reset refl, current-IsDriven (run cs reset) (current cs reset refl))
