-- ===== src/Mfp.antt =====
-- src/x68k/core/dev/mfp.{h,cpp}: the multi-function peripheral MC68901 (interrupts and timers).
pub mod Reg
pub mod Tick
pub mod Interrupt
pub mod Channels
pub mod Eligible
pub mod Priority
pub mod Pending
pub mod FastPath
pub mod Running
pub mod Short
pub mod Deadline
pub mod Counter
mod Tests
use x68k_stackchan.Base.{
  ℕ, zero, suc, ◌+◌, ◌-◌, ◌*◌, ◌/◌, ◌%◌, ◌^◌, Bool, true, false, ◌&&◌, ◌||◌, not, ltb, leb, ◌==◌,
  bool_eq, if◌then◌else◌, bit_and, bit_or, clear8, any_bit, u8, u32, sub32, sub64, update, List, [],
  ◌∷◌,
}

-- `RunningTimer`: a timer that the internal clock drives, and its prescale.
pub record RunningTimer : Type 0 where
  pub index : ℕ
  pub prescale : ℕ

-- The members of `Mfp`; `running_` and `runningCount_` together are the list `running`.
pub record Mfp : Type 0 where
  pub reg : ℕ → ℕ
  pub prescale_counter : ℕ → ℕ
  pub timer_value : ℕ → ℕ
  pub running : List RunningTimer

abbrev pub vr_software_eoi : ℕ
vr_software_eoi = 0x08

-- `kPrescaleTable`, indexed by three bits.
abbrev pub prescale_table : ℕ → ℕ
prescale_table i =
    if i == 0
    then 0
    else if i == 1
    then 4
    else if i == 2
    then 10
    else if i == 3
    then 16
    else if i == 4
    then 50
    else if i == 5
    then 64
    else if i == 6
    then 100
    else 200

-- `ctl[i]` of `refreshRunningTimers`.
abbrev pub control_of : (ℕ → ℕ) → ℕ → ℕ
control_of reg i =
    if i == 0
    then reg Reg.tacr
    else if i == 1
    then reg Reg.tbcr
    else if i == 2
    then bit_and (reg Reg.tcdcr / 16) 7
    else bit_and (reg Reg.tcdcr) 7

-- One turn of the loop of `refreshRunningTimers`, before the timers `rest`.
abbrev pub scan_timer : (ℕ → ℕ) → ℕ → List RunningTimer → List RunningTimer
scan_timer reg i rest =
    let ctl = control_of reg i in
    if any_bit ctl 0x08
    then rest
    else let prescale = prescale_table (bit_and ctl 7) in
      if prescale == 0 then rest else record { index = i; prescale = prescale } ∷ rest

abbrev pub refresh_running_timers : Mfp → Mfp
refresh_running_timers m = record m {
  running = scan_timer m.reg 0 (scan_timer m.reg 1 (scan_timer m.reg 2 (scan_timer m.reg 3 [])));
}

abbrev pub reset : Mfp
reset = refresh_running_timers record {
  reg = update (update (λ i. 0) Reg.gpip (clear8 0xFF (bit_or 0x02 0x04))) Reg.tsr 0x80;
  prescale_counter = λ i. 0;
  timer_value = λ i. 0;
  running = [];
}

-- `kTimerDataRegs` and `kDataReg`: the data register of a timer.
abbrev pub data_reg : ℕ → ℕ
data_reg i =
    if i == 0 then Reg.tadr else if i == 1 then Reg.tbdr else if i == 2 then Reg.tcdr else Reg.tddr

unfoldable pub read : ℕ → Mfp → ℕ × Mfp
read index m =
    if leb Reg.count index
    then (0, m)
    else if index == data_reg 0
    then (m.timer_value 0, m)
    else if index == data_reg 1
    then (m.timer_value 1, m)
    else if index == data_reg 2
    then (m.timer_value 2, m)
    else if index == data_reg 3
    then (m.timer_value 3, m)
    else let value = m.reg index in
      if index == Reg.udr
      then (value, record m { reg = update m.reg Reg.rsr (clear8 (m.reg Reg.rsr) 0x80) })
      else (value, m)

abbrev pub clear_prescaler_if_stopped : ℕ → ℕ → Mfp → Mfp
clear_prescaler_if_stopped index control m =
    if bit_and control 0x0F == 0
    then record m { prescale_counter = update m.prescale_counter index 0 }
    else m

abbrev pub load_timer_if_stopped : ℕ → ℕ → ℕ → Mfp → Mfp
load_timer_if_stopped index control value m =
    if bit_and control 0x0F == 0
    then record m { timer_value = update m.timer_value index value }
    else m

-- `reg_[index] = value`.
abbrev pub set_reg : ℕ → ℕ → Mfp → Mfp
set_reg index value m = record m { reg = update m.reg index value }

-- The cases of `write`'s switch that write a timer's data register.
unfoldable pub write_data : ℕ → ℕ → Mfp → Mfp
write_data timer value m =
    let stored = set_reg (data_reg timer) value m in
    load_timer_if_stopped timer (control_of stored.reg timer) value stored

-- The cases that write a timer's control register.
unfoldable pub write_control : ℕ → ℕ → Mfp → Mfp
write_control index value m =
    let stored = set_reg index value m in
    let cleared =
      if index == Reg.tacr
      then clear_prescaler_if_stopped 0 value stored
      else if index == Reg.tbcr
      then clear_prescaler_if_stopped 1 value stored
      else clear_prescaler_if_stopped 3 (bit_and value 7)
          (clear_prescaler_if_stopped 2 (bit_and (value / 16) 7) stored) in
    refresh_running_timers cleared

unfoldable pub write_vector : ℕ → Mfp → Mfp
write_vector value m =
    let stored = set_reg Reg.vr value m in
    if bit_and value vr_software_eoi == 0
    then set_reg Reg.isrb 0 (set_reg Reg.isra 0 stored)
    else stored

-- The cases `kIera` and `kIerb`, with the pending register of the group.
unfoldable pub write_enable : ℕ → ℕ → ℕ → Mfp → Mfp
write_enable index pending value m =
    let stored = set_reg index value m in
    set_reg pending (bit_and (stored.reg pending) value) stored

-- The cases of the switch from `kTsr` on.
unfoldable pub write_rest : ℕ → ℕ → Mfp → Mfp
write_rest index value m =
    if index == Reg.tsr
    then set_reg Reg.tsr (bit_or value 0x80) m
    else if index == Reg.tacr || index == Reg.tbcr || index == Reg.tcdcr
    then write_control index value m
    else if index == Reg.vr
    then write_vector value m
    else if index == Reg.iera
    then write_enable Reg.iera Reg.ipra value m
    else if index == Reg.ierb
    then write_enable Reg.ierb Reg.iprb value m
    else set_reg index value m

unfoldable pub write : ℕ → ℕ → Mfp → Mfp
write index value m =
    if leb Reg.count index
    then m
    else if index == Reg.ipra || index == Reg.iprb || index == Reg.isra || index == Reg.isrb
    then set_reg index (bit_and (m.reg index) value) m
    else if index == Reg.tadr
    then write_data 0 value m
    else if index == Reg.tbdr
    then write_data 1 value m
    else if index == Reg.tcdr
    then write_data 2 value m
    else if index == Reg.tddr
    then write_data 3 value m
    else if index == Reg.gpip
    then m
    else if index == Reg.udr
    then m
    else write_rest index value m

abbrev pub peek : ℕ → Mfp → ℕ
peek index m = if ltb index Reg.count then m.reg index else 0

-- `raise(groupA, bit)`.
abbrev pub raise : Bool → ℕ → Mfp → Mfp
raise group_a bit m =
    let enable = if group_a then Reg.iera else Reg.ierb in
    let pending = if group_a then Reg.ipra else Reg.iprb in
    if bit_and (m.reg enable) bit == 0 then m else set_reg pending (bit_or (m.reg pending) bit) m
