-- ===== src/Rtc/Carry.antt =====
-- The clock's tick: whole seconds are counted on, the rest waits in the accumulator.
use x68k_stackchan.Base.{
  ℕ, zero, suc, ◌+◌, ◌-◌, ◌*◌, ◌/◌, ◌%◌, ◌^◌, ◌≤◌, ◌<◌, ◌≡◌, refl, ap, ◌∙◌, Bool, true, false,
  arith, ltb, leb, if◌then◌else◌, Bool-cases, inl, inr, leb→le, leb-false, ltb→lt, &&-true, ◌&&◌,
  u32,
}
use x68k_stackchan.Rtc.{
  Rtc, advance_one_second, advance_day, carry_loop, tick_carry, tick_fast, cycles_per_second,
  cycles_until_carry,
}
use x68k_stackchan.Rtc.Calendar.{
  IsValid, time_of, day_number, day-lt, seconds_per_century, advance-IsValid,
  time-advance_one_second,
}

-- `n` seconds later.
abbrev pub seconds_later : ℕ → Rtc → Rtc
seconds_later zero r = r
seconds_later (suc n) r = seconds_later n (advance_one_second r)

-- The clock went on by `total` cycles.
pub record IsLater (total : ℕ) (r r' : Rtc) : Type 0 where
  pub valid : IsValid r'
  pub rest : r'.cycle_accumulator ≡ (r.cycle_accumulator + total) % cycles_per_second
  pub time :
      time_of r'
      ≡ (time_of r + (r.cycle_accumulator + total) / cycles_per_second) % seconds_per_century

time-lt : (r : Rtc) → IsValid r → time_of r < seconds_per_century
time-lt r v =
    bound (day_number r) r.hour r.minute r.second (day-lt r v) v.hour_in v.minute_in v.second_in
  where
    bound :
        (d h m s : ℕ)
        → d < 36525
        → h < 24
        → m < 60
        → s < 60
        → d * 86400 + ((h * 60 + m) * 60 + s) < seconds_per_century
    bound d h m s p q u w = omega arith

again :
    (t c : ℕ)
    → cycles_per_second ≤ c
    → ((t + 1) % seconds_per_century + (c - cycles_per_second) / cycles_per_second)
        % seconds_per_century
      ≡ (t + c / cycles_per_second) % seconds_per_century
again t c h = omega arith

still :
    (t c : ℕ)
    → t < seconds_per_century
    → c < cycles_per_second
    → t ≡ (t + c / cycles_per_second) % seconds_per_century
still t c h p = omega arith

moved : (r : Rtc) → IsValid r → (c : ℕ) → IsValid (record r { cycle_accumulator = c })
moved r v c = record {
  second_in = v.second_in;
  minute_in = v.minute_in;
  hour_in = v.hour_in;
  day_from = v.day_from;
  day_to = v.day_to;
  month_from = v.month_from;
  month_to = v.month_to;
  year_in = v.year_in;
  weekday_in = v.weekday_in;
}

short-IsLater : (r : Rtc) → r.cycle_accumulator < cycles_per_second → IsValid r → IsLater 0 r r
short-IsLater r h v = record {
  valid = v;
  rest = omega arith;
  time =
      still (time_of r) r.cycle_accumulator (time-lt r v) h
      ∙ ap (λ (c : ℕ). (time_of r + c / cycles_per_second) % seconds_per_century) (omega arith);
}

loop-IsLater :
    (fuel : ℕ) (r : Rtc) → r.cycle_accumulator ≤ fuel → IsValid r → IsLater 0 r (carry_loop fuel r)
unfolding carry_loop
loop-IsLater zero r h v = short-IsLater r (omega arith) v
loop-IsLater (suc fuel) r h v = elim (Bool-cases (leb cycles_per_second r.cycle_accumulator)) [
  | inr f ↦ rw f (short-IsLater r (leb-false _ _ f) v)
  | inl t ↦ rw t (
      later (leb→le _ _ t)
        (loop-IsLater fuel (advance_one_second r1) (omega (arith, next.1, leb→le _ _ t)) next.0))
]
  where
    c : ℕ
    c = r.cycle_accumulator - cycles_per_second

    r1 : Rtc
    r1 = record r { cycle_accumulator = c }

    v1 : IsValid r1
    v1 = moved r v c

    next : IsValid (advance_one_second r1) × ((advance_one_second r1).cycle_accumulator ≡ c)
    next = advance-IsValid r1 v1

    later :
        cycles_per_second ≤ r.cycle_accumulator
        → IsLater 0 (advance_one_second r1) (carry_loop fuel (advance_one_second r1))
        → IsLater 0 r (carry_loop fuel (advance_one_second r1))
    later le l = record {
      valid = l.valid;
      rest = omega (arith, l.rest, next.1);
      time =
          l.time
          ∙ ap
              (λ (x : ℕ).
                (time_of (advance_one_second r1) + x / cycles_per_second) % seconds_per_century)
              (omega (arith, next.1))
          ∙ ap (λ (x : ℕ). (x + c / cycles_per_second) % seconds_per_century)
              (time-advance_one_second r1 v1).1
          ∙ again (time_of r) r.cycle_accumulator le
          ∙ ap (λ (x : ℕ). (time_of r + x / cycles_per_second) % seconds_per_century) (omega arith);
    }

counted-IsLater :
    (cycles : ℕ) (r r' : Rtc)
    → r.cycle_accumulator + cycles < 2 ^ 32
    → IsLater 0 (record r { cycle_accumulator = u32 (r.cycle_accumulator + cycles) }) r'
    → IsLater cycles r r'
counted-IsLater cycles r r' room l =
    let e : u32 (r.cycle_accumulator + cycles) ≡ r.cycle_accumulator + cycles = omega arith in
    record {
      valid = l.valid;
      rest = omega (arith, l.rest, e);
      time =
          l.time
          ∙ ap (λ (x : ℕ). (time_of r + x / cycles_per_second) % seconds_per_century)
              (omega (arith, e));
    }

-- For a date that exists and cycles that do not overflow the accumulator, `tick_fast`, with or without
-- its shortcut, goes on by exactly the cycles given: the date is later by the whole seconds that they
-- and the accumulator make up, in the count of seconds of a century, and the accumulator holds the
-- rest; so the date exists and the accumulator is below a second.
pub tick_fast-IsLater :
    (fast : Bool) (cycles : ℕ) (r : Rtc)
    → IsValid r
    → r.cycle_accumulator + cycles < 2 ^ 32
    → IsLater cycles r (tick_fast fast cycles r)
unfolding tick_fast tick_carry
tick_fast-IsLater fast cycles r v room =
    counted-IsLater cycles r _ room (elim (Bool-cases (fast && ltb c cycles_per_second)) [
      | inl t ↦ rw t (short-IsLater counted (ltb→lt c cycles_per_second (&&-true fast _ t).1) v')
      | inr f ↦ rw f (loop-IsLater c counted (omega arith) v')
    ])
  where
    c : ℕ
    c = u32 (r.cycle_accumulator + cycles)

    counted : Rtc
    counted = record r { cycle_accumulator = c }

    v' : IsValid counted
    v' = moved r v c

loop-short : (fuel : ℕ) (r : Rtc) → r.cycle_accumulator < cycles_per_second → carry_loop fuel r ≡ r
unfolding carry_loop
loop-short zero r h = refl
loop-short (suc fuel) r h = ground arith

advance-accumulator : (r : Rtc) → (advance_one_second r).cycle_accumulator ≡ r.cycle_accumulator
unfolding advance_one_second advance_day
advance-accumulator r = ground arith

loop-once :
    (fuel : ℕ) (r : Rtc)
    → cycles_per_second ≤ fuel
    → r.cycle_accumulator ≡ cycles_per_second
    → carry_loop fuel r ≡ advance_one_second (record r { cycle_accumulator = 0 })
unfolding carry_loop
loop-once zero r h e = absurd (omega arith)
loop-once (suc fuel) r h e =
    let r0 : Rtc = record r { cycle_accumulator = 0 } in
    let empty : r.cycle_accumulator - cycles_per_second ≡ 0 = omega arith in
    let opened : leb cycles_per_second r.cycle_accumulator ≡ true = ground arith in
    rw (opened) (
      ap (λ (c : ℕ). carry_loop fuel (advance_one_second (record r { cycle_accumulator = c })))
        empty
      ∙ loop-short fuel (advance_one_second r0) (omega (arith, advance-accumulator r0)))

either {ℓ} : {A : Type ℓ} (b : Bool) (x y z : A) → x ≡ z → y ≡ z → (if b then x else y) ≡ z
either true x y z p q = p
either false x y z p q = q

tick_fast-before_carry :
    (fast : Bool) (cycles : ℕ) (r : Rtc)
    → r.cycle_accumulator < cycles_per_second
    → cycles < cycles_until_carry r
    → tick_fast fast cycles r ≡ record r { cycle_accumulator = r.cycle_accumulator + cycles }
unfolding tick_fast tick_carry
tick_fast-before_carry fast cycles r h lt =
    let e : u32 (r.cycle_accumulator + cycles) ≡ r.cycle_accumulator + cycles = omega arith in
    let same = ap (λ (c : ℕ). record r { cycle_accumulator = c }) e in
    either _ _ _ _ same (loop-short _ _ (omega arith) ∙ same)

tick_fast-at_carry :
    (fast : Bool) (r : Rtc)
    → r.cycle_accumulator < cycles_per_second
    → tick_fast fast (cycles_until_carry r) r
      ≡ advance_one_second (record r { cycle_accumulator = 0 })
unfolding tick_fast tick_carry
tick_fast-at_carry fast r h =
    let e : u32 (r.cycle_accumulator + cycles_until_carry r) ≡ cycles_per_second = omega arith in
    let no_shortcut : (fast
          && ltb (u32 (r.cycle_accumulator + cycles_until_carry r)) cycles_per_second)
        ≡ false =
      ground arith in
    rw no_shortcut (
      loop-once _
        (record r { cycle_accumulator = u32 (r.cycle_accumulator + cycles_until_carry r) })
        (omega arith) e)

-- With less than a second in the accumulator `cycles_until_carry` is exact: a tick of fewer cycles
-- changes nothing but the accumulator, and one of as many cycles is one second, with or without the
-- shortcut.
pub cycles_until_carry-exact :
    (fast : Bool) (cycles : ℕ) (r : Rtc)
    → r.cycle_accumulator < cycles_per_second
    → cycles < cycles_until_carry r
    → (tick_fast fast cycles r ≡ record r { cycle_accumulator = r.cycle_accumulator + cycles })
      × (tick_fast fast (cycles_until_carry r) r
          ≡ advance_one_second (record r { cycle_accumulator = 0 }))
cycles_until_carry-exact fast cycles r h lt =
    (tick_fast-before_carry fast cycles r h lt, tick_fast-at_carry fast r h)
