-- ===== src/Adpcm/Rate.antt =====
-- How many nibbles the samples of the output take.
use x68k_stackchan.Base.{
  ℕ, zero, suc, ◌+◌, ◌-◌, ◌*◌, ◌/◌, ◌^◌, ◌<◌, ◌≤◌, ◌≡◌, refl, sym, subst, ◌∙◌, arith, Bool, true,
  false, not, ◌==◌, if◌then◌else◌, Bool-cases, inl, inr, Option, some, none, u32, sub32, ap, drop,
  drop-drop,
}
use native.Mathlib.Nat.{div-eq_of_lt-le}
use x68k_stackchan.Base.Int.{ℤ, pos}
use x68k_stackchan.Adpcm.{
  Adpcm, next_nibble, decode_nibble, sound, is_due, render_one_sample, render_samples,
}
use x68k_stackchan.Adpcm.Fifo.{waiting, InRange, next_nibble-drop, sound-waiting}

-- What a sample leaves of the playing and the rates.
record Keeps (a a' : Adpcm) : Type 0 where
  plays : a'.playing ≡ a.playing
  output : a'.output_rate ≡ a.output_rate
  adpcm : a'.adpcm_rate ≡ a.adpcm_rate
  phase : a'.resample_phase ≡ a.resample_phase

next_nibble-Keeps : (a : Adpcm) → Keeps a (next_nibble a).1
unfolding next_nibble
next_nibble-Keeps a = elim (Bool-cases a.high_nibble_pending) [
  | inl e ↦ rw e (record { plays = refl; output = refl; adpcm = refl; phase = refl })
  | inr e ↦ elim (Bool-cases (a.fifo_count == 0)) [
    | inl z ↦ rw (e, z) (record { plays = refl; output = refl; adpcm = refl; phase = refl })
    | inr z ↦ rw (e, z) (record { plays = refl; output = refl; adpcm = refl; phase = refl })
  ]
]

sound-Keeps : (o : Option ℕ) (a : Adpcm) → Keeps a (sound (o, a)).1
unfolding decode_nibble
sound-Keeps none a = record { plays = refl; output = refl; adpcm = refl; phase = refl }
sound-Keeps (some nibble) a = record { plays = refl; output = refl; adpcm = refl; phase = refl }

-- The state while sound is played, with the ADPCM's rate not above the output's, and the phase within one
-- sample of the output's clock.
pub record IsPlaying (a : Adpcm) : Type 0 where
  pub plays : a.playing ≡ true
  pub slower : a.adpcm_rate ≤ a.output_rate
  pub small : a.output_rate < 2 ^ 31
  pub phase : a.resample_phase < a.output_rate

-- The phase after one sample, and whether that was a new one.
record IsMoved (a a' : Adpcm) : Type 0 where
  playing : IsPlaying a'
  output : a'.output_rate ≡ a.output_rate
  adpcm : a'.adpcm_rate ≡ a.adpcm_rate
  phase :
      (if is_due a then 1 else 0) * a.output_rate + a'.resample_phase
      ≡ a.resample_phase + a.adpcm_rate

renewed-IsMoved :
    (a a' : Adpcm)
    → IsPlaying a
    → is_due a ≡ true
    → Keeps
        (record a { resample_phase = sub32 (u32 (a.resample_phase + a.adpcm_rate)) a.output_rate })
        a'
    → IsMoved a a'
renewed-IsMoved a a' h e k =
    let there : a.output_rate ≤ a.resample_phase + a.adpcm_rate =
      ground (arith, e, h.phase, h.slower, h.small) in
    let phase : a'.resample_phase ≡ a.resample_phase + a.adpcm_rate - a.output_rate =
      omega (arith, k.phase, there, h.phase, h.slower, h.small) in
    record {
      playing = record {
        plays = k.plays ∙ h.plays;
        slower = omega (arith, k.output, k.adpcm, h.slower);
        small = omega (arith, k.output, h.small);
        phase = omega (arith, phase, k.output, h.phase, h.slower);
      };
      output = k.output;
      adpcm = k.adpcm;
      phase = rw e (omega (arith, phase, there));
    }

kept-IsMoved :
    (a a' : Adpcm)
    → IsPlaying a
    → is_due a ≡ false
    → Keeps (record a { resample_phase = u32 (a.resample_phase + a.adpcm_rate) }) a'
    → IsMoved a a'
kept-IsMoved a a' h e k =
    let there : a.resample_phase + a.adpcm_rate < a.output_rate =
      ground (arith, e, h.phase, h.slower, h.small) in
    let phase : a'.resample_phase ≡ a.resample_phase + a.adpcm_rate =
      omega (arith, k.phase, there, h.small) in
    record {
      playing = record {
        plays = k.plays ∙ h.plays;
        slower = omega (arith, k.output, k.adpcm, h.slower);
        small = omega (arith, k.output, h.small);
        phase = omega (arith, phase, k.output, there);
      };
      output = k.output;
      adpcm = k.adpcm;
      phase = rw e (omega (arith, phase));
    }

live {ℓ} :
    {A : Type ℓ} (b c : Bool) (x y z : A)
    → b ≡ true
    → c ≡ true
    → (if not b then x else if c then y else z) ≡ y
live b c x y z p q = rw (p, q) refl

kept {ℓ} :
    {A : Type ℓ} (b c : Bool) (x y z : A)
    → b ≡ true
    → c ≡ false
    → (if not b then x else if c then y else z) ≡ z
kept b c x y z p q = rw (p, q) refl

render_one_sample-IsMoved : (a : Adpcm) → IsPlaying a → IsMoved a (render_one_sample a).1
unfolding render_one_sample
render_one_sample-IsMoved a h =
    let on = record a { resample_phase = u32 (a.resample_phase + a.adpcm_rate) } in
    let due = record a {
      resample_phase = sub32 (u32 (a.resample_phase + a.adpcm_rate)) a.output_rate;
    } in
    let out = sound (next_nibble due) in
    let P : ℤ × Adpcm → Type 0 = λ o. IsMoved a o.1 in
    elim (Bool-cases (is_due a)) [
      | inl e ↦
          let k = next_nibble-Keeps due in
          let s = sound-Keeps (next_nibble due).0 (next_nibble due).1 in
          subst P (sym (live a.playing (is_due a) (pos 0, a) out (a.last_sample, on) h.plays e)) (
            renewed-IsMoved a out.1 h e (record {
              plays = s.plays ∙ k.plays;
              output = s.output ∙ k.output;
              adpcm = s.adpcm ∙ k.adpcm;
              phase = s.phase ∙ k.phase;
            }))
      | inr e ↦
          subst P (sym (kept a.playing (is_due a) (pos 0, a) out (a.last_sample, on) h.plays e)) (
            kept-IsMoved a on h e
              (record { plays = refl; output = refl; adpcm = refl; phase = refl }))
    ]

-- How often the clock of the ADPCM ticks among some samples.
unfoldable ticks : ℕ → Adpcm → ℕ
ticks zero a = 0
ticks (suc n) a = (if is_due a then 1 else 0) + ticks n (render_one_sample a).1

sums :
    (d r out out' rate rate' p p' x n : ℕ)
    → out' ≡ out
    → rate' ≡ rate
    → d * out + p' ≡ p + rate
    → r * out' + x ≡ p' + n * rate'
    → (d + r) * out + x ≡ p + suc n * rate
sums d r out out' rate rate' p p' x n e f g h =
    let g' : d * out' + p' ≡ p + rate' = rw (e, f) g in
    let all : (d + r) * out' + x ≡ p + suc n * rate' = grind (arith, g', h) in
    subst (λ (t : ℕ). (d + r) * t + x ≡ p + suc n * rate) e
      (subst (λ (t : ℕ). (d + r) * out' + x ≡ p + suc n * t) f all)

rate_lem :
    (n : ℕ) (a : Adpcm)
    → IsPlaying a
    → (ticks n a * a.output_rate + (render_samples n a).1.resample_phase
        ≡ a.resample_phase + n * a.adpcm_rate)
      × ((render_samples n a).1.resample_phase < a.output_rate)
unfolding ticks render_samples
rate_lem zero a h = (omega arith, h.phase)
rate_lem (suc n) a h =
    let m = render_one_sample-IsMoved a h in
    let rest = rate_lem n (render_one_sample a).1 m.playing in
    (sums _ _ _ _ _ _ _ _ _ n m.output m.adpcm m.phase rest.0, omega (arith, rest.1, m.output))

ticks_lem :
    (n : ℕ) (a : Adpcm)
    → IsPlaying a
    → ticks n a ≡ (a.resample_phase + n * a.adpcm_rate) / a.output_rate
ticks_lem n a h =
    let r = rate_lem n a h in
    let next : (ticks n a + 1) * a.output_rate ≡ ticks n a * a.output_rate + a.output_rate =
      grind arith in
    sym (div-eq_of_lt-le a.output_rate (omega (arith, r.0)) (omega (arith, r.0, r.1, next)))

-- A sample takes a nibble when the clock ticks, and else none.
render_one_sample-drop :
    (a : Adpcm)
    → IsPlaying a
    → InRange a
    → InRange (render_one_sample a).1
      × (waiting (render_one_sample a).1 ≡ drop (if is_due a then 1 else 0) (waiting a))
unfolding render_one_sample
render_one_sample-drop a h r =
    let on = record a { resample_phase = u32 (a.resample_phase + a.adpcm_rate) } in
    let due = record a {
      resample_phase = sub32 (u32 (a.resample_phase + a.adpcm_rate)) a.output_rate;
    } in
    let out = sound (next_nibble due) in
    let P : ℤ × Adpcm → Bool → Type 0 =
      λ o b. InRange o.1 × (waiting o.1 ≡ drop (if b then 1 else 0) (waiting a)) in
    elim (Bool-cases (is_due a)) [
      | inl e ↦
          let read = next_nibble-drop due (record { starts = r.starts; fits = r.fits }) in
          let rest = sound-waiting (next_nibble due).0 (next_nibble due).1 read.0 in
          subst (λ o. P o (is_due a))
            (sym (live a.playing (is_due a) (pos 0, a) out (a.last_sample, on) h.plays e))
            (subst (P out) (sym e) (rest.0, rest.1 ∙ read.1))
      | inr e ↦
          subst (λ o. P o (is_due a))
            (sym (kept a.playing (is_due a) (pos 0, a) out (a.last_sample, on) h.plays e))
            (subst (P (a.last_sample, on)) (sym e)
              (record { starts = r.starts; fits = r.fits }, refl))
    ]

render_samples-ticks :
    (n : ℕ) (a : Adpcm)
    → IsPlaying a
    → InRange a
    → waiting (render_samples n a).1 ≡ drop (ticks n a) (waiting a)
unfolding ticks render_samples
render_samples-ticks zero a h r = refl
render_samples-ticks (suc n) a h r =
    let one = render_one_sample-drop a h r in
    let moved = render_one_sample-IsMoved a h in
    let rest = ticks n (render_one_sample a).1 in
    render_samples-ticks n (render_one_sample a).1 moved.playing one.0
    ∙ ap (drop rest) one.1
    ∙ drop-drop (if is_due a then 1 else 0) rest (waiting a)

-- While sound is played at a rate that is not above the output's, which is below 2 ^ 31, and the FIFO's
-- head and count are in range: the next `n` samples take from the FIFO exactly as many nibbles, the
-- first ones, as the ADPCM's clock ticks in that time, its ticks counted from the phase, that is
-- (phase + n * rate) / output rate, rounded down, or all that wait if there are fewer.
pub render_samples-waiting :
    (n : ℕ) (a : Adpcm)
    → IsPlaying a
    → InRange a
    → waiting (render_samples n a).1
      ≡ drop ((a.resample_phase + n * a.adpcm_rate) / a.output_rate) (waiting a)
render_samples-waiting n a h r =
    render_samples-ticks n a h r ∙ ap (λ (k : ℕ). drop k (waiting a)) (ticks_lem n a h)
