-- ===== src/Rtc/Tests.antt =====
-- The clock at concrete dates.
use x68k_stackchan.Base.{◌≡◌, refl, true, arith}
use x68k_stackchan.Rtc.{
  Rtc, reset, days_in_month, advance_one_second, advance_day, tick_fast, tick_carry, carry_loop,
}
use x68k_stackchan.Rtc.Calendar.{IsValid}
use x68k_stackchan.Rtc.Carry.{IsLater, tick_fast-IsLater}

-- A leap day, one second before midnight.
abbrev leap_day : Rtc
leap_day = record reset {
  second = 59;
  minute = 59;
  hour = 23;
  day = 29;
  month = 2;
  year = 28;
  weekday = 2;
  cycle_accumulator = 9_999_990;
}

leap_day-IsValid : IsValid leap_day
unfolding days_in_month
leap_day-IsValid = ground arith

march : (tick_fast true 12 leap_day).month ≡ 3
unfolding tick_fast tick_carry carry_loop advance_one_second advance_day days_in_month
march = refl

tick_fast-IsLater_example : IsLater 12 leap_day (tick_fast true 12 leap_day)
tick_fast-IsLater_example = tick_fast-IsLater true 12 leap_day leap_day-IsValid (omega arith)
