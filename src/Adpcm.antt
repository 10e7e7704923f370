-- ===== src/Adpcm.antt =====
-- src/x68k/core/dev/adpcm.{h,cpp}, class Adpcm: the bytes that the processor writes, decoded into samples.
pub mod Decoder
pub mod Ring
pub mod Fifo
pub mod Rate
mod Tests
use x68k_stackchan.Base.{
  ℕ, zero, suc, ◌+◌, ◌-◌, ◌/◌, ◌%◌, ◌^◌, Bool, true, false, ◌&&◌, not, ltb, leb, ◌==◌,
  if◌then◌else◌, any_bit, u32, sub32, update, Option, some, none, List, [], ◌∷◌,
}
use x68k_stackchan.Base.Int.{ℤ, pos, negsuc, pos_part, neg_part, ◌+ℤ◌, ◌*ℤ◌, of_sign}

-- The members.
pub record Adpcm : Type 0 where
  pub signal : ℤ
  pub step_index : ℕ
  pub fifo : ℕ → ℕ
  pub fifo_head : ℕ
  pub fifo_count : ℕ
  pub high_nibble_pending : Bool
  pub current_byte : ℕ
  pub playing : Bool
  pub output_rate : ℕ
  pub adpcm_rate : ℕ
  pub resample_phase : ℕ
  pub last_sample : ℤ

abbrev pub command_play : ℕ
command_play = 0x02

abbrev pub command_stop : ℕ
command_stop = 0x04

abbrev pub status_playing : ℕ
status_playing = 0x80

abbrev pub fifo_bytes : ℕ
fifo_bytes = 256

abbrev pub default_sample_rate : ℕ
default_sample_rate = 15625

abbrev pub step_index_max : ℕ
step_index_max = 48

-- `kStepSizeTable`.
abbrev pub step_sizes : List ℕ
step_sizes =
    16 ∷ 17 ∷ 19 ∷ 21 ∷ 23 ∷ 25 ∷ 28 ∷ 31 ∷ 34 ∷ 37 ∷ 41 ∷ 45 ∷ 50 ∷ 55 ∷ 60 ∷ 66 ∷ 73 ∷ 80 ∷ 88
    ∷ 97 ∷ 107 ∷ 118 ∷ 130 ∷ 143 ∷ 157 ∷ 173 ∷ 190 ∷ 209 ∷ 230 ∷ 253 ∷ 279 ∷ 307 ∷ 337 ∷ 371 ∷ 408
    ∷ 449 ∷ 494 ∷ 544 ∷ 598 ∷ 658 ∷ 724 ∷ 796 ∷ 876 ∷ 963 ∷ 1060 ∷ 1166 ∷ 1282 ∷ 1411 ∷ 1552 ∷ []

-- An entry of a table. The index is in range where the code reads one.
abbrev pub entry : List ℕ → ℕ → ℕ
entry [] i = 0
entry (x ∷ xs) i = let rest = entry xs (i - 1) in if i == 0 then x else rest

abbrev pub step_size : ℕ → ℕ
step_size i = entry step_sizes i

-- `kStepAdjustTable`.
abbrev pub step_adjust : ℕ → ℤ
step_adjust code =
    if ltb code 4
    then negsuc 0
    else if code == 4
    then pos 2
    else if code == 5
    then pos 4
    else if code == 6
    then pos 6
    else pos 8

-- The two bounds of the signal, -2048 and 2047, and those of the index.
abbrev pub clamp_signal : ℤ → ℤ
clamp_signal (pos n) = if ltb 2047 n then pos 2047 else pos n
clamp_signal (negsuc n) = if ltb 2047 n then negsuc 2047 else negsuc n

abbrev pub clamp_index : ℤ → ℕ
clamp_index (pos n) = if ltb step_index_max n then step_index_max else n
clamp_index (negsuc n) = 0

-- A cast to `int16_t`.
abbrev pub to_i16 : ℤ → ℤ
to_i16 z =
    let bits = (pos_part z + (2 ^ 16 - neg_part z % 2 ^ 16)) % 2 ^ 16 in
    if ltb bits (2 ^ 15) then pos bits else negsuc (2 ^ 16 - 1 - bits)

-- The size of the change that a nibble stands for.
abbrev pub difference : ℕ → ℕ → ℕ
difference step nibble =
    step / 8
    + (if any_bit nibble 4 then step else 0)
    + (if any_bit nibble 2 then step / 2 else 0)
    + (if any_bit nibble 1 then step / 4 else 0)

-- `decodeNibble`: the sample, and the state.
unfoldable pub decode_nibble : ℕ → Adpcm → ℤ × Adpcm
decode_nibble nibble a =
    let change = of_sign (any_bit nibble 8) (difference (step_size a.step_index) nibble) in
    let signal = clamp_signal (a.signal +ℤ change) in
    let index = clamp_index (pos a.step_index +ℤ step_adjust (nibble % 8)) in
    (to_i16 signal, record a { signal = signal; step_index = index })

abbrev pub reset_decoder : Adpcm → Adpcm
reset_decoder a = record a { signal = pos 0; step_index = 0 }

unfoldable pub reset : Adpcm → Adpcm
reset a = record (reset_decoder a) {
  fifo = λ i. 0;
  fifo_head = 0;
  fifo_count = 0;
  high_nibble_pending = false;
  current_byte = 0;
  playing = false;
  resample_phase = 0;
  last_sample = pos 0;
}

unfoldable pub set_sample_rate : ℕ → ℕ → Adpcm → Adpcm
set_sample_rate output adpcm a = record a {
  output_rate = if output == 0 then default_sample_rate else output;
  adpcm_rate = if adpcm == 0 then default_sample_rate else adpcm;
  resample_phase = 0;
}

unfoldable pub write_command : ℕ → Adpcm → Adpcm
write_command value a =
    if any_bit value command_stop
    then record (reset_decoder a) {
      playing = false;
      fifo_head = 0;
      fifo_count = 0;
      high_nibble_pending = false;
      resample_phase = 0;
      last_sample = pos 0;
    }
    else if any_bit value command_play
    then record a { playing = true }
    else a

unfoldable pub read_status : Adpcm → ℕ
read_status a = if a.playing && ltb 0 a.fifo_count then status_playing else 0

unfoldable pub write_data : ℕ → Adpcm → Adpcm
write_data value a = if leb fifo_bytes a.fifo_count then a else record a {
  fifo = update a.fifo ((a.fifo_head + a.fifo_count) % fifo_bytes) value;
  fifo_count = a.fifo_count + 1;
}

-- `nextNibble`: the nibble where there is one, and the state. The flag says that the low half of the
-- byte is still to be read.
unfoldable pub next_nibble : Adpcm → Option ℕ × Adpcm
next_nibble a =
    let byte = a.fifo a.fifo_head in
    if a.high_nibble_pending
    then (some (a.current_byte % 16), record a { high_nibble_pending = false })
    else if a.fifo_count == 0
    then (none, a)
    else (
      some ((byte / 16) % 16),
      record a {
        current_byte = byte;
        fifo_head = (a.fifo_head + 1) % fifo_bytes;
        fifo_count = a.fifo_count - 1;
        high_nibble_pending = true;
      },
    )

-- The end of `renderOneSample`, with the nibble that was read.
abbrev pub sound : Option ℕ × Adpcm → ℤ × Adpcm
sound (none, a) = (pos 0, record a { last_sample = pos 0 })
sound (some nibble, a) =
    let (decoded, a') = decode_nibble nibble a in
    let sample = to_i16 (decoded *ℤ pos 8) in (sample, record a' { last_sample = sample })

-- Whether the next sample of the output needs a new one.
abbrev pub is_due : Adpcm → Bool
is_due a = leb a.output_rate (u32 (a.resample_phase + a.adpcm_rate))

unfoldable pub render_one_sample : Adpcm → ℤ × Adpcm
render_one_sample a =
    let phase = u32 (a.resample_phase + a.adpcm_rate) in
    if not a.playing
    then (pos 0, a)
    else if is_due a
    then sound (next_nibble (record a { resample_phase = sub32 phase a.output_rate }))
    else (a.last_sample, record a { resample_phase = phase })

-- `renderSamples`.
unfoldable pub render_samples : ℕ → Adpcm → List ℤ × Adpcm
render_samples zero a = ([], a)
render_samples (suc frames) a =
    let (sample, a') = render_one_sample a in
    let (samples, a'') = render_samples frames a' in (sample ∷ samples, a'')
