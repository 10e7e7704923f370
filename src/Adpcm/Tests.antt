-- ===== src/Adpcm/Tests.antt =====
-- Two bytes played at half the output's rate.
use x68k_stackchan.Base.{◌+◌, ◌*◌, ◌/◌, ◌≡◌, refl, arith, true, false, [], ◌∷◌, ◌++◌, drop}
use x68k_stackchan.Base.Int.{pos, ◌+ℤ◌, ◌*ℤ◌}
use x68k_stackchan.Adpcm.{
  Adpcm, difference, decode_nibble, reset, write_data, next_nibble, render_one_sample,
  render_samples,
}
use x68k_stackchan.Adpcm.Decoder.{IsSound, commands, writes, renders, run, run-IsSound}
use x68k_stackchan.Adpcm.Fifo.{waiting, all_left, all_entered, run-nibbles}
use x68k_stackchan.Adpcm.Rate.{render_samples-waiting}

abbrev quiet : Adpcm
quiet = record {
  signal = pos 0;
  step_index = 0;
  fifo = λ i. 0;
  fifo_head = 255;
  fifo_count = 0;
  high_nibble_pending = false;
  current_byte = 0;
  playing = true;
  output_rate = 31250;
  adpcm_rate = 15625;
  resample_phase = 0;
  last_sample = pos 0;
}

-- The samples of the nibbles 7 and 0: each twice, but the first of a sample before it.
played :
    (render_samples 5 (write_data 0x70 quiet)).0
    ≡ pos 0 ∷ pos 240 ∷ pos 240 ∷ pos 272 ∷ pos 272 ∷ []
unfolding render_samples render_one_sample write_data next_nibble decode_nibble ◌+ℤ◌ ◌*ℤ◌
played = refl

-- The ring goes round.
wrapped : waiting (write_data 0x34 (write_data 0x12 quiet)) ≡ 1 ∷ 2 ∷ 3 ∷ 4 ∷ []
unfolding write_data
wrapped = refl

-- The sum of shifts is not the quotient.
apart : (difference 19 3 ≡ 15) × (19 * (2 * 3 + 1) / 8 ≡ 16)
apart = (refl, refl)

run-IsSound_example :
    IsSound (run (commands 2 ∷ writes 0x7F ∷ renders ∷ renders ∷ []) (reset quiet))
run-IsSound_example = run-IsSound (commands 2 ∷ writes 0x7F ∷ renders ∷ renders ∷ []) quiet

run-nibbles_example :
    all_left (writes 0x12 ∷ writes 0x34 ∷ renders ∷ renders ∷ commands 4 ∷ []) quiet
      ++ waiting (run (writes 0x12 ∷ writes 0x34 ∷ renders ∷ renders ∷ commands 4 ∷ []) quiet)
    ≡ waiting quiet
      ++ all_entered (writes 0x12 ∷ writes 0x34 ∷ renders ∷ renders ∷ commands 4 ∷ []) quiet
run-nibbles_example =
    run-nibbles (writes 0x12 ∷ writes 0x34 ∷ renders ∷ renders ∷ commands 4 ∷ []) quiet
      (record { starts = omega arith; fits = omega arith })

render_samples-waiting_example :
    waiting (render_samples 5 (write_data 0x34 (write_data 0x12 quiet))).1
    ≡ drop ((0 + 5 * 15625) / 31250) (waiting (write_data 0x34 (write_data 0x12 quiet)))
unfolding write_data
render_samples-waiting_example =
    render_samples-waiting 5 (write_data 0x34 (write_data 0x12 quiet))
      (record { plays = refl; slower = omega arith; small = omega arith; phase = omega arith })
      (record { starts = omega arith; fits = omega arith })
