-- ===== src/Rtc.antt =====
-- src/x68k/core/dev/rtc.{h,cpp}: the real-time clock RP5C15.
pub mod Calendar
pub mod Carry
pub mod Registers
mod Tests
use x68k_stackchan.Base.{
  ℕ, zero, suc, ◌+◌, ◌-◌, ◌*◌, ◌/◌, ◌%◌, ◌^◌, Bool, true, false, ◌&&◌, ◌||◌, ltb, leb, ◌==◌,
  if◌then◌else◌, any_bit, u32, sub32, update,
}

-- `year` has two decimal digits; `bank1` and `mode` are the registers behind the bank switch.
pub record Rtc : Type 0 where
  pub second : ℕ
  pub minute : ℕ
  pub hour : ℕ
  pub day : ℕ
  pub month : ℕ
  pub year : ℕ
  pub weekday : ℕ
  pub cycle_accumulator : ℕ
  pub bank1 : ℕ → ℕ
  pub mode : ℕ

abbrev pub cycles_per_second : ℕ
cycles_per_second = 10_000_000

abbrev pub mode_register : ℕ
mode_register = 0xD

abbrev pub reg_count : ℕ
reg_count = 0x10

unfoldable pub days_in_month : ℕ → ℕ → ℕ
days_in_month month year =
    if month == 2
    then (if year % 4 == 0 then 29 else 28)
    else if month == 4 || month == 6 || month == 9 || month == 11
    then 30
    else 31

abbrev pub reset : Rtc
reset = record {
  second = 0;
  minute = 0;
  hour = 0;
  day = 1;
  month = 1;
  year = 26;
  weekday = 0;
  cycle_accumulator = 0;
  bank1 = λ i. 0;
  mode = 0;
}

unfoldable pub set_date_time : ℕ → ℕ → ℕ → ℕ → ℕ → ℕ → Rtc → Rtc
set_date_time year month day hour minute second r =
    let month' = if leb 1 month && leb month 12 then month else 1 in
    let max_day = days_in_month month' (year % 100) in
    record r {
      year = year % 100;
      month = month';
      day = if leb 1 day && leb day max_day then day else 1;
      hour = hour % 24;
      minute = minute % 60;
      second = second % 60;
    }

abbrev pub bank1_selected : Rtc → Bool
bank1_selected r = r.mode % 2 == 1

-- The cases of `read`'s switch.
unfoldable pub digit_of : ℕ → Rtc → ℕ
digit_of index r =
    if index == 0x0
    then r.second % 10
    else if index == 0x1
    then r.second / 10
    else if index == 0x2
    then r.minute % 10
    else if index == 0x3
    then r.minute / 10
    else if index == 0x4
    then r.hour % 10
    else if index == 0x5
    then r.hour / 10
    else if index == 0x6
    then r.weekday
    else if index == 0x7
    then r.day % 10
    else if index == 0x8
    then r.day / 10
    else if index == 0x9
    then r.month % 10
    else if index == 0xA
    then r.month / 10
    else if index == 0xB
    then r.year % 10
    else if index == 0xC
    then r.year / 10
    else if index == mode_register
    then r.mode % 16
    else 0

-- A value is returned as a byte.
unfoldable pub read : ℕ → Rtc → ℕ
read index r =
    if bank1_selected r && ltb index mode_register
    then r.bank1 index % 16
    else digit_of index r % 2 ^ 8

abbrev pub with_ones : ℕ → ℕ → ℕ
with_ones old nibble = old / 10 * 10 + nibble

abbrev pub with_tens : ℕ → ℕ → ℕ
with_tens old nibble = nibble * 10 + old % 10

-- The cases of `write`'s switch.
unfoldable pub set_digit : ℕ → ℕ → Rtc → Rtc
set_digit index nibble r =
    if index == 0x0
    then record r { second = with_ones r.second nibble }
    else if index == 0x1
    then record r { second = with_tens r.second nibble }
    else if index == 0x2
    then record r { minute = with_ones r.minute nibble }
    else if index == 0x3
    then record r { minute = with_tens r.minute nibble }
    else if index == 0x4
    then record r { hour = with_ones r.hour nibble }
    else if index == 0x5
    then record r { hour = with_tens r.hour nibble }
    else if index == 0x6
    then record r { weekday = nibble % 7 }
    else if index == 0x7
    then record r { day = with_ones r.day nibble }
    else if index == 0x8
    then record r { day = with_tens r.day nibble }
    else if index == 0x9
    then record r { month = with_ones r.month nibble }
    else if index == 0xA
    then record r { month = with_tens r.month nibble }
    else if index == 0xB
    then record r { year = with_ones r.year nibble }
    else if index == 0xC
    then record r { year = with_tens r.year nibble }
    else r

unfoldable pub write : ℕ → ℕ → Rtc → Rtc
write index value r =
    let nibble = value % 16 in
    if index == mode_register
    then record r { mode = nibble }
    else if bank1_selected r && ltb index mode_register
    then record r { bank1 = update r.bank1 index nibble }
    else set_digit index nibble r

-- The part of `advanceOneSecond` from the hour on.
unfoldable pub advance_day : Rtc → Rtc
advance_day r =
    let day' = r.day + 1 in
    let month' = r.month + 1 in
    let weekday' = (r.weekday + 1) % 7 in
    if leb day' (days_in_month r.month r.year)
    then record r { hour = 0; weekday = weekday'; day = day' }
    else if leb month' 12
    then record r { hour = 0; weekday = weekday'; day = 1; month = month' }
    else record r { hour = 0; weekday = weekday'; day = 1; month = 1; year = (r.year + 1) % 100 }

unfoldable pub advance_one_second : Rtc → Rtc
advance_one_second r =
    if ltb (r.second + 1) 60
    then record r { second = r.second + 1 }
    else if ltb (r.minute + 1) 60
    then record r { second = 0; minute = r.minute + 1 }
    else if ltb (r.hour + 1) 24
    then record r { second = 0; minute = 0; hour = r.hour + 1 }
    else advance_day (record r { second = 0; minute = 0 })

-- The loop takes a second's cycles each time, so the cycles themselves are enough fuel.
unfoldable pub carry_loop : ℕ → Rtc → Rtc
carry_loop zero r = r
carry_loop (suc fuel) r =
    let rest = carry_loop fuel (
      advance_one_second
        (record r { cycle_accumulator = r.cycle_accumulator - cycles_per_second })) in
    if leb cycles_per_second r.cycle_accumulator then rest else r

unfoldable pub tick_carry : Rtc → Rtc
tick_carry r = carry_loop r.cycle_accumulator r

unfoldable pub tick_fast : Bool → ℕ → Rtc → Rtc
tick_fast fast cycles r =
    let counted = record r { cycle_accumulator = u32 (r.cycle_accumulator + cycles) } in
    if fast && ltb counted.cycle_accumulator cycles_per_second then counted else tick_carry counted

abbrev pub cycles_until_carry : Rtc → ℕ
cycles_until_carry r = sub32 cycles_per_second r.cycle_accumulator
