-- ===== src/Mfp/Tick.antt =====
-- src/x68k/core/dev/mfp.{h,cpp}: the timers' clock and their deadlines.
use x68k_stackchan.Base.{
  ℕ, zero, suc, ◌+◌, ◌-◌, ◌*◌, ◌/◌, Bool, true, false, ◌&&◌, not, ltb, leb, ◌==◌, if◌then◌else◌,
  any_bit, u32, sub32, u64, sub64, update, List, [], ◌∷◌,
}
use x68k_stackchan.Mfp.Reg
use x68k_stackchan.Mfp.{Mfp, RunningTimer, data_reg, raise}

-- The `switch (index)` at a timeout.
abbrev pub raise_timer : ℕ → Mfp → Mfp
raise_timer index m =
    if index == 0
    then raise true 0x20 m
    else if index == 1
    then raise true 0x01 m
    else if index == 2
    then raise false 0x20 m
    else raise false 0x10 m

-- One turn of the loop of `tickTimerCounted`.
unfoldable pub count_down : ℕ → ℕ → Mfp → Mfp
count_down index prescale m =
    let value = if m.timer_value index == 0 then 0xFF else m.timer_value index - 1 in
    let counted = record m {
      prescale_counter = update m.prescale_counter index (m.prescale_counter index - prescale);
      timer_value = update m.timer_value index value;
    } in
    if not (value == 0)
    then counted
    else raise_timer index (record counted {
      timer_value = update counted.timer_value index (counted.reg (data_reg index));
    })

-- The loop, with fuel. The counter drops by the prescale, which is at least 4, so the counter itself
-- is enough.
unfoldable pub tick_timer_counted : ℕ → ℕ → ℕ → Mfp → Mfp
tick_timer_counted zero index prescale m = m
tick_timer_counted (suc fuel) index prescale m =
    let rest = tick_timer_counted fuel index prescale (count_down index prescale m) in
    if leb prescale (m.prescale_counter index) then rest else m

-- The body of the loop of `tickFast<FastPath>` for one timer.
unfoldable pub tick_timer : Bool → ℕ → RunningTimer → Mfp → Mfp
tick_timer fast mfp_cycles t m =
    let counter = u32 (m.prescale_counter t.index + mfp_cycles) in
    let counted = record m { prescale_counter = update m.prescale_counter t.index counter } in
    let remainder = counter - t.prescale in
    if ltb counter t.prescale
    then counted
    else if fast && ltb remainder t.prescale && ltb 1 (m.timer_value t.index)
    then record m {
      prescale_counter = update counted.prescale_counter t.index remainder;
      timer_value = update m.timer_value t.index (m.timer_value t.index - 1);
    }
    else tick_timer_counted counter t.index t.prescale counted

unfoldable pub tick_timers : Bool → ℕ → List RunningTimer → Mfp → Mfp
tick_timers fast mfp_cycles [] m = m
tick_timers fast mfp_cycles (t ∷ ts) m =
    tick_timers fast mfp_cycles ts (tick_timer fast mfp_cycles t m)

unfoldable pub tick_fast : Bool → ℕ → Mfp → Mfp
tick_fast fast cycles m =
    let mfp_cycles = cycles / 2 in
    if mfp_cycles == 0 then m else tick_timers fast mfp_cycles m.running m

abbrev pub no_deadline : ℕ
no_deadline = 0xFFFFFFFF

abbrev pub timer_bit : ℕ → ℕ
timer_bit i = if i == 0 then 0x20 else if i == 1 then 0x01 else if i == 2 then 0x20 else 0x10

abbrev pub timer_raises : ℕ → Mfp → Bool
timer_raises index m =
    any_bit (m.reg (if ltb index 2 then Reg.iera else Reg.ierb)) (timer_bit index)

-- `needCpu` of `cyclesUntilNextRaise` and of `cyclesUntilAnyTimerChange`.
abbrev pub need_raise : RunningTimer → Mfp → ℕ
need_raise t m =
    let value = m.timer_value t.index in
    let decrements = if value == 0 then 256 else value in
    u64 (sub64 (decrements * t.prescale) (m.prescale_counter t.index) * 2)

abbrev pub need_change : RunningTimer → Mfp → ℕ
need_change t m = u32 (sub32 t.prescale (m.prescale_counter t.index) * 2)

unfoldable pub next_raise_from : Mfp → List RunningTimer → ℕ → ℕ
next_raise_from m [] best = best
next_raise_from m (t ∷ ts) best = next_raise_from m ts (
    if not (timer_raises t.index m)
    then best
    else if ltb (need_raise t m) best
    then need_raise t m
    else best)

unfoldable pub cycles_until_next_raise : Mfp → ℕ
cycles_until_next_raise m = next_raise_from m m.running no_deadline

unfoldable pub next_change_from : Mfp → List RunningTimer → ℕ → ℕ
next_change_from m [] best = best
next_change_from m (t ∷ ts) best =
    next_change_from m ts (if ltb (need_change t m) best then need_change t m else best)

unfoldable pub cycles_until_any_timer_change : Mfp → ℕ
cycles_until_any_timer_change m = next_change_from m m.running no_deadline
