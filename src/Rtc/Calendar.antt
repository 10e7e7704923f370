-- ===== src/Rtc/Calendar.antt =====
-- The calendar as a count of seconds since the beginning of year 0 of the century.
use x68k_stackchan.Base.{
  ℕ, ◌+◌, ◌-◌, ◌*◌, ◌/◌, ◌%◌, ◌≤◌, ◌<◌, ◌≡◌, arith, ltb, leb, ◌==◌, if◌then◌else◌, Bool-cases, inl,
  inr, ltb→lt, ltb-false, ap, ◌∙◌,
}
use x68k_stackchan.Rtc.{Rtc, days_in_month, set_date_time, advance_day, advance_one_second}

-- A date that exists.
pub record IsValid (r : Rtc) : Type 0 where
  pub second_in : r.second < 60
  pub minute_in : r.minute < 60
  pub hour_in : r.hour < 24
  pub day_from : 1 ≤ r.day
  pub day_to : r.day ≤ days_in_month r.month r.year
  pub month_from : 1 ≤ r.month
  pub month_to : r.month ≤ 12
  pub year_in : r.year < 100
  pub weekday_in : r.weekday < 7

-- The days of the months before, in a common year, and the leap day after February.
abbrev pub days_before_month : ℕ → ℕ → ℕ
days_before_month month year =
    (if month == 1
      then 0
      else if month == 2
      then 31
      else if month == 3
      then 59
      else if month == 4
      then 90
      else if month == 5
      then 120
      else if month == 6
      then 151
      else if month == 7
      then 181
      else if month == 8
      then 212
      else if month == 9
      then 243
      else if month == 10
      then 273
      else if month == 11
      then 304
      else 334)
    + (if year % 4 == 0 then (if leb month 2 then 0 else 1) else 0)

-- Every fourth year has a leap day, year 0 among them.
abbrev pub day_number : Rtc → ℕ
day_number r = r.year * 365 + (r.year + 3) / 4 + days_before_month r.month r.year + (r.day - 1)

abbrev pub days_per_century : ℕ
days_per_century = 36525

abbrev pub seconds_of_day : Rtc → ℕ
seconds_of_day r = (r.hour * 60 + r.minute) * 60 + r.second

abbrev pub time_of : Rtc → ℕ
time_of r = day_number r * 86400 + seconds_of_day r

abbrev pub seconds_per_century : ℕ
seconds_per_century = days_per_century * 86400

day-advance :
    (r : Rtc) → IsValid r → day_number (advance_day r) ≡ (day_number r + 1) % days_per_century
unfolding advance_day days_in_month
day-advance r v = ground (arith, v)

pub day-lt : (r : Rtc) → IsValid r → day_number r < days_per_century
unfolding days_in_month
day-lt r v = ground (arith, v)

day-IsValid : (r : Rtc) → IsValid r → IsValid (advance_day r)
unfolding advance_day days_in_month
day-IsValid r v = ground (arith, v)

day-midnight :
    (r : Rtc)
    → ((advance_day r).hour ≡ 0)
      × ((advance_day r).minute ≡ r.minute)
      × ((advance_day r).second ≡ r.second)
      × ((advance_day r).cycle_accumulator ≡ r.cycle_accumulator)
unfolding advance_day
day-midnight r = ground arith

pub advance-IsValid :
    (r : Rtc)
    → IsValid r
    → IsValid (advance_one_second r)
      × ((advance_one_second r).cycle_accumulator ≡ r.cycle_accumulator)
unfolding advance_one_second
advance-IsValid r v =
    let r' : Rtc = record r { second = 0; minute = 0 } in
    ground (arith, v, day-IsValid r', day-midnight r')

-- The four ways to count on, in numbers.
module _ (d h m s : ℕ) (dl : d < days_per_century) (hl : h < 24) (ml : m < 60) (sl : s < 60) where
  abbrev moment : ℕ
  moment = d * 86400 + ((h * 60 + m) * 60 + s)

  by_second :
      s + 1 < 60 → d * 86400 + ((h * 60 + m) * 60 + (s + 1)) ≡ (moment + 1) % seconds_per_century
  by_second e = omega arith

  by_minute :
      60 ≤ s + 1
      → m + 1 < 60
      → d * 86400 + ((h * 60 + (m + 1)) * 60 + 0) ≡ (moment + 1) % seconds_per_century
  by_minute e f = omega arith

  by_hour :
      60 ≤ s + 1
      → 60 ≤ m + 1
      → h + 1 < 24
      → d * 86400 + (((h + 1) * 60 + 0) * 60 + 0) ≡ (moment + 1) % seconds_per_century
  by_hour e f g = omega arith

  by_day :
      60 ≤ s + 1
      → 60 ≤ m + 1
      → 24 ≤ h + 1
      → (d + 1) % days_per_century * 86400 + 0 ≡ (moment + 1) % seconds_per_century
  by_day e f g = omega arith

-- For a date that exists, `advance_one_second` gives the date one second later: the next number in
-- the count of seconds of a century with a leap day every fourth year, and after the last the first.
pub time-advance_one_second :
    (r : Rtc)
    → IsValid r
    → IsValid (advance_one_second r)
      × (time_of (advance_one_second r) ≡ (time_of r + 1) % seconds_per_century)
unfolding advance_one_second
time-advance_one_second r v = (
  (advance-IsValid r v).0,
  elim (Bool-cases (ltb (r.second + 1) 60)) [
    | inl t ↦
        rw t
          (by_second d r.hour r.minute r.second dl v.hour_in v.minute_in v.second_in (ltb→lt _ _ t))
    | inr f ↦ rw f (elim (Bool-cases (ltb (r.minute + 1) 60)) [
      | inl t ↦ rw t (
          by_minute d r.hour r.minute r.second dl v.hour_in v.minute_in v.second_in
            (ltb-false _ _ f) (ltb→lt _ _ t))
      | inr g ↦ rw g (elim (Bool-cases (ltb (r.hour + 1) 24)) [
        | inl t ↦ rw t (
            by_hour d r.hour r.minute r.second dl v.hour_in v.minute_in v.second_in
              (ltb-false _ _ f) (ltb-false _ _ g) (ltb→lt _ _ t))
        | inr e ↦ rw e (
            midnight (
              by_day d r.hour r.minute r.second dl v.hour_in v.minute_in v.second_in
                (ltb-false _ _ f) (ltb-false _ _ g) (ltb-false _ _ e)))
      ])
    ])
  ],
)
  where
    d : ℕ
    d = day_number r

    dl : d < days_per_century
    dl = day-lt r v

    r' : Rtc
    r' = record r { second = 0; minute = 0 }

    v' : IsValid r'
    v' = record {
      second_in = omega arith;
      minute_in = omega arith;
      hour_in = v.hour_in;
      day_from = v.day_from;
      day_to = v.day_to;
      month_from = v.month_from;
      month_to = v.month_to;
      year_in = v.year_in;
      weekday_in = v.weekday_in;
    }

    midnight :
        (d + 1) % days_per_century * 86400 + 0 ≡ (time_of r + 1) % seconds_per_century
        → time_of (advance_day r') ≡ (time_of r + 1) % seconds_per_century
    midnight e =
        let n = day-midnight r' in
        let k : day_number (advance_day r') ≡ (d + 1) % days_per_century = day-advance r' v' in
        let z : seconds_of_day (advance_day r') ≡ 0 = omega (arith, n.0, n.1, n.2) in
        ap (λ (x : ℕ). x * 86400 + seconds_of_day (advance_day r')) k
        ∙ ap (λ (x : ℕ). (d + 1) % days_per_century * 86400 + x) z
        ∙ e

-- Any six numbers give a date that exists.
pub set_date_time-IsValid :
    (year month day hour minute second : ℕ) (r : Rtc)
    → r.weekday < 7
    → IsValid (set_date_time year month day hour minute second r)
unfolding set_date_time days_in_month
set_date_time-IsValid year month day hour minute second r w = ground arith
