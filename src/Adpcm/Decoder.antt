-- ===== src/Adpcm/Decoder.antt =====
-- The decoder: its signal, its step, and the samples.
use x68k_stackchan.Base.{
  ℕ, ◌+◌, ◌*◌, ◌/◌, ◌%◌, ◌<◌, ◌≤◌, ◌≡◌, ap, ◌∙◌, arith, Bool, true, false, not, if◌then◌else◌,
  any_bit, either, Option, some, none, List, [], ◌∷◌, u32, sub32,
}
use x68k_stackchan.Base.Int.{ℤ, pos, negsuc, pos_part, neg_part, ◌+ℤ◌, ◌*ℤ◌, of_sign}
use x68k_stackchan.Base.Digits.{any_bit-digit}
use x68k_stackchan.Adpcm.{
  Adpcm, command_stop, clamp_signal, clamp_index, to_i16, difference, step_size, step_adjust,
  decode_nibble, reset, set_sample_rate, write_command, write_data, next_nibble, sound,
  render_one_sample,
}

abbrev pub IsBetween : ℕ → ℕ → ℤ → Type 0
IsBetween low high z = (neg_part z ≤ low) × (pos_part z ≤ high)

-- The signal is one of 12 bits, the index is one of the table, and the last sample is one that the
-- decoder makes.
pub record IsSound (a : Adpcm) : Type 0 where
  pub signal : IsBetween 2048 2047 a.signal
  pub index : a.step_index ≤ 48
  pub last : IsBetween 16384 16376 a.last_sample

clamp_signal-IsBetween : (z : ℤ) → IsBetween 2048 2047 (clamp_signal z)
clamp_signal-IsBetween (pos n) = ground arith
clamp_signal-IsBetween (negsuc n) = ground arith

clamp_index-le : (z : ℤ) → clamp_index z ≤ 48
clamp_index-le (pos n) = ground arith
clamp_index-le (negsuc n) = omega arith

-- A cast of a number that fits changes nothing.
to_i16_same : (z : ℤ) → IsBetween 32768 32767 z → to_i16 z ≡ z
to_i16_same (pos n) h = ground (arith, h)
to_i16_same (negsuc n) h = ground (arith, h)

eightfold :
    (z : ℤ) → (pos_part (z *ℤ pos 8) ≡ 8 * pos_part z) × (neg_part (z *ℤ pos 8) ≡ 8 * neg_part z)
unfolding ◌*ℤ◌
eightfold (pos n) = ground arith
eightfold (negsuc n) = ground arith

sample_same : (z : ℤ) → IsBetween 2048 2047 z → to_i16 (to_i16 z *ℤ pos 8) ≡ z *ℤ pos 8
sample_same z h =
    ap (λ (x : ℤ). to_i16 (x *ℤ pos 8)) (to_i16_same z (omega (arith, h), omega (arith, h)))
    ∙ to_i16_same (z *ℤ pos 8) (omega (arith, h, eightfold z), omega (arith, h, eightfold z))

-- A sample that was just made, from the decoder's new signal.
sound_lem :
    (nibble : ℕ) (a : Adpcm)
    → IsSound (sound (some nibble, a)).1
      × ((sound (some nibble, a)).0 ≡ (sound (some nibble, a)).1.signal *ℤ pos 8)
unfolding decode_nibble
sound_lem nibble a =
    let signal =
      clamp_signal
        (a.signal +ℤ of_sign (any_bit nibble 8) (difference (step_size a.step_index) nibble)) in
    let fits =
      clamp_signal-IsBetween
        (a.signal +ℤ of_sign (any_bit nibble 8) (difference (step_size a.step_index) nibble)) in
    let same = sample_same signal fits in
    (
      record {
        signal = fits;
        index = clamp_index-le (pos a.step_index +ℤ step_adjust (nibble % 8));
        last =
            rw same (omega (arith, fits, eightfold signal), omega (arith, fits, eightfold signal));
      },
      same,
    )

sound-IsSound : (o : Option ℕ) (a : Adpcm) → IsSound a → IsSound (sound (o, a)).1
sound-IsSound none a h = record {
  signal = h.signal;
  index = h.index;
  last = (omega arith, omega arith);
}
sound-IsSound (some nibble) a h = (sound_lem nibble a).0

next_nibble-IsSound : (a : Adpcm) → IsSound a → IsSound (next_nibble a).1
unfolding next_nibble
next_nibble-IsSound a h =
    let P : Option ℕ × Adpcm → Type 0 = λ o. IsSound o.1 in
    either P a.high_nibble_pending _ _
      (record { signal = h.signal; index = h.index; last = h.last })
      (either P _ _ _ h (record { signal = h.signal; index = h.index; last = h.last }))

render_one_sample-IsSound : (a : Adpcm) → IsSound a → IsSound (render_one_sample a).1
unfolding render_one_sample
render_one_sample-IsSound a h =
    let P : ℤ × Adpcm → Type 0 = λ o. IsSound o.1 in
    let due = record a {
      resample_phase = sub32 (u32 (a.resample_phase + a.adpcm_rate)) a.output_rate;
    } in
    let h' : IsSound due = record { signal = h.signal; index = h.index; last = h.last } in
    either P (not a.playing) _ _ h (
      either P _ _ _
        (sound-IsSound (next_nibble due).0 (next_nibble due).1 (next_nibble-IsSound due h'))
        (record { signal = h.signal; index = h.index; last = h.last }))

-- A call.
pub data Call : Type 0 where
  resets : Call
  commands : ℕ → Call
  writes : ℕ → Call
  sets : ℕ → ℕ → Call
  renders : Call

abbrev pub step : Call → Adpcm → Adpcm
step resets a = reset a
step (commands value) a = write_command value a
step (writes value) a = write_data value a
step (sets output adpcm) a = set_sample_rate output adpcm a
step renders a = (render_one_sample a).1

abbrev pub run : List Call → Adpcm → Adpcm
run [] a = a
run (c ∷ cs) a = run cs (step c a)

reset-IsSound : (a : Adpcm) → IsSound (reset a)
unfolding reset
reset-IsSound a = record {
  signal = (omega arith, omega arith);
  index = omega arith;
  last = (omega arith, omega arith);
}

write_command-IsSound : (value : ℕ) (a : Adpcm) → IsSound a → IsSound (write_command value a)
unfolding write_command
write_command-IsSound value a h =
    let signal : IsBetween 2048 2047 (pos 0) = (omega arith, omega arith) in
    let index : 0 ≤ 48 = omega arith in
    let last : IsBetween 16384 16376 (pos 0) = (omega arith, omega arith) in
    either IsSound (any_bit value command_stop) _ _
      (record { signal = signal; index = index; last = last })
      (either IsSound _ _ _ (record { signal = h.signal; index = h.index; last = h.last }) h)

write_data-IsSound : (value : ℕ) (a : Adpcm) → IsSound a → IsSound (write_data value a)
unfolding write_data
write_data-IsSound value a h =
    either IsSound _ _ _ h (record { signal = h.signal; index = h.index; last = h.last })

step-IsSound : (c : Call) (a : Adpcm) → IsSound a → IsSound (step c a)
unfolding set_sample_rate
step-IsSound resets a h = reset-IsSound a
step-IsSound (commands value) a h = write_command-IsSound value a h
step-IsSound (writes value) a h = write_data-IsSound value a h
step-IsSound (sets output adpcm) a h = record { signal = h.signal; index = h.index; last = h.last }
step-IsSound renders a h = render_one_sample-IsSound a h

run_from : (cs : List Call) (a : Adpcm) → IsSound a → IsSound (run cs a)
run_from [] a h = h
run_from (c ∷ cs) a h = run_from cs (step c a) (step-IsSound c a h)

-- From a state that a reset leaves, any resets, commands, data, settings of the rates and samples keep
-- the signal in the 12 bits from -2048 to 2047, the index within the table of 49 steps, and the last
-- sample between -16384 and 16376.
pub run-IsSound : (cs : List Call) (a : Adpcm) → IsSound (run cs (reset a))
run-IsSound cs a = run_from cs (reset a) (reset-IsSound a)

-- The shifts of the decoder against one division.
parts_le :
    (step : ℕ) (b2 b1 b0 : Bool) (m : ℕ)
    → m ≡ (if b2 then 4 else 0) + (if b1 then 2 else 0) + (if b0 then 1 else 0)
    → let parts =
        step / 8
        + (if b2 then step else 0)
        + (if b1 then step / 2 else 0)
        + (if b0 then step / 4 else 0) in
      (parts ≤ step * (2 * m + 1) / 8) × (step * (2 * m + 1) / 8 ≤ parts + 2)
parts_le step true true true m e = rw e (omega arith, omega arith)
parts_le step true true false m e = rw e (omega arith, omega arith)
parts_le step true false true m e = rw e (omega arith, omega arith)
parts_le step true false false m e = rw e (omega arith, omega arith)
parts_le step false true true m e = rw e (omega arith, omega arith)
parts_le step false true false m e = rw e (omega arith, omega arith)
parts_le step false false true m e = rw e (omega arith, omega arith)
parts_le step false false false m e = rw e (omega arith, omega arith)

code_bits :
    (n : ℕ)
    → n < 256
    → n % 8
      ≡ (if any_bit n 4 then 4 else 0)
        + (if any_bit n 2 then 2 else 0)
        + (if any_bit n 1 then 1 else 0)
code_bits n l =
    rw
      (
        any_bit-digit 2 n (omega arith) l,
        any_bit-digit 1 n (omega arith) l,
        any_bit-digit 0 n (omega arith) l,
      )
      (ground arith)

-- For a nibble that is a byte, whose three low bits are the number m: the change of the signal that the
-- decoder adds up from shifts is at most step * (2 * m + 1) / 8, and at most 2 less than that.
pub difference-le :
    (step nibble : ℕ)
    → nibble < 256
    → (difference step nibble ≤ step * (2 * (nibble % 8) + 1) / 8)
      × (step * (2 * (nibble % 8) + 1) / 8 ≤ difference step nibble + 2)
difference-le step nibble l =
    parts_le step (any_bit nibble 4) (any_bit nibble 2) (any_bit nibble 1) (nibble % 8)
      (code_bits nibble l)
