-- ===== src/Adpcm/Fifo.antt =====
-- The bytes that wait, as the nibbles that are still to be decoded.
use x68k_stackchan.Base.{
  ℕ, suc, ◌+◌, ◌-◌, ◌/◌, ◌%◌, ◌<◌, ◌≤◌, ◌≡◌, refl, sym, ap, ◌∙◌, arith, Bool, true, false, not, leb,
  ◌==◌, if◌then◌else◌, any_bit, Bool-cases, inl, inr, Option, some, none, List, [], ◌∷◌, ◌++◌, drop,
  Option-cases, flow-append, update, u32, sub32,
}
use mathlib.Core.List.{append-nil, append_assoc}
use x68k_stackchan.Base.Int.{ℤ, pos}
use x68k_stackchan.Adpcm.{
  Adpcm, command_stop, command_play, fifo_bytes, decode_nibble, reset, set_sample_rate,
  write_command, write_data, next_nibble, sound, is_due, render_one_sample,
}
use x68k_stackchan.Adpcm.Decoder.{Call, resets, commands, writes, sets, renders, step, run}
use x68k_stackchan.Adpcm.Ring.{window, popped, pushed}

-- The two nibbles of a byte, the high one first.
abbrev pub nibbles_of : ℕ → List ℕ
nibbles_of byte = (byte / 16) % 16 ∷ byte % 16 ∷ []

abbrev pub nibbles : List ℕ → List ℕ
nibbles [] = []
nibbles (b ∷ bs) = nibbles_of b ++ nibbles bs

nibbles-append : (xs ys : List ℕ) → nibbles (xs ++ ys) ≡ nibbles xs ++ nibbles ys
nibbles-append [] ys = refl
nibbles-append (x ∷ xs) ys = ap (λ l. nibbles_of x ++ l) (nibbles-append xs ys)

-- What is still to be decoded: the low half of a byte that was begun, and the FIFO.
abbrev pub half_of : Bool → ℕ → List ℕ
half_of begun byte = if begun then byte % 16 ∷ [] else []

abbrev pub waiting : Adpcm → List ℕ
waiting a =
    half_of a.high_nibble_pending a.current_byte ++ nibbles (window a.fifo a.fifo_head a.fifo_count)

pub record InRange (a : Adpcm) : Type 0 where
  pub starts : a.fifo_head < 256
  pub fits : a.fifo_count ≤ 256

abbrev read_of : Option ℕ → List ℕ
read_of none = []
read_of (some nibble) = nibble ∷ []

both {ℓ} :
    {A B : Type ℓ} (P : A → B → Type 0) (b : Bool) (x y : A) (u v : B)
    → P x u
    → P y v
    → P (if b then x else y) (if b then u else v)
both P true x y u v p q = p
both P false x y u v p q = q

-- A read takes the first nibble that waits, and has none when none waits.
record IsRead (a : Adpcm) (o : Option ℕ) (a' : Adpcm) : Type 0 where
  ranges : InRange a'
  same : waiting a ≡ read_of o ++ waiting a'

next_nibble-IsRead : (a : Adpcm) → InRange a → IsRead a (next_nibble a).0 (next_nibble a).1
unfolding next_nibble
next_nibble-IsRead a r = elim (Bool-cases a.high_nibble_pending) [
  | inl e ↦ rw e (record { ranges = record { starts = r.starts; fits = r.fits }; same = refl })
  | inr e ↦ elim (Bool-cases (a.fifo_count == 0)) [
    | inl z ↦
        rw (e, z) (record { ranges = record { starts = r.starts; fits = r.fits }; same = refl })
    | inr z ↦
        let left : a.fifo_count ≡ suc (a.fifo_count - 1) = ground (arith, z) in
        rw (e, z)
          (record {
            ranges = record { starts = omega arith; fits = omega (arith, r.fits) };
            same =
                ap nibbles
                  (popped a.fifo a.fifo_head a.fifo_count (a.fifo_count - 1) r.starts left);
          })
  ]
]

next_nibble-none : (a : Adpcm) → (next_nibble a).0 ≡ none → waiting a ≡ []
unfolding next_nibble
next_nibble-none a = elim (Bool-cases a.high_nibble_pending) [
  | inl e ↦ rw e (λ o. absurd (ground (arith, o)))
  | inr e ↦ elim (Bool-cases (a.fifo_count == 0)) [
    | inl z ↦ let empty : a.fifo_count ≡ 0 = ground (arith, z) in rw (e, empty) (λ o. refl)
    | inr z ↦ rw (e, z) (λ o. absurd (ground (arith, o)))
  ]
]

-- A read leaves those behind the first one.
pub next_nibble-drop :
    (a : Adpcm)
    → InRange a
    → InRange (next_nibble a).1 × (waiting (next_nibble a).1 ≡ drop 1 (waiting a))
next_nibble-drop a r =
    let read = next_nibble-IsRead a r in
    let rest = waiting (next_nibble a).1 in
    (
      read.ranges,
      elim (Option-cases (next_nibble a).0) [
        | inl e ↦
            let empty = next_nibble-none a e in
            sym (read.same ∙ ap (λ o. read_of o ++ rest) e) ∙ empty ∙ sym (ap (drop 1) empty)
        | inr (n, e) ↦ sym (ap (drop 1) (read.same ∙ ap (λ o. read_of o ++ rest) e))
      ],
    )

taken :
    (value : ℕ) (a : Adpcm)
    → a.fifo_count < 256
    → half_of a.high_nibble_pending a.current_byte
        ++ nibbles (
            window
              (update a.fifo ((a.fifo_head + a.fifo_count) % 256) value)
              a.fifo_head
              (a.fifo_count + 1))
      ≡ waiting a ++ nibbles_of value
taken value a l =
    ap (λ w. half_of a.high_nibble_pending a.current_byte ++ nibbles w)
      (pushed a.fifo a.fifo_head a.fifo_count value l)
    ∙ ap (λ w. half_of a.high_nibble_pending a.current_byte ++ w)
        (nibbles-append (window a.fifo a.fifo_head a.fifo_count) (value ∷ []))
    ∙ sym (
        append_assoc (half_of a.high_nibble_pending a.current_byte)
          (nibbles (window a.fifo a.fifo_head a.fifo_count)) (nibbles_of value))

write_data-waiting :
    (value : ℕ) (a : Adpcm)
    → InRange a
    → InRange (write_data value a)
      × (waiting (write_data value a)
          ≡ waiting a ++ (if leb fifo_bytes a.fifo_count then [] else nibbles_of value))
unfolding write_data
write_data-waiting value a r = elim (Bool-cases (leb 256 a.fifo_count)) [
  | inl e ↦ rw e (r, sym (append-nil (waiting a)))
  | inr e ↦
      rw e
        (record { starts = r.starts; fits = ground (arith, e) }, taken value a (ground (arith, e)))
]

-- The end of a sample leaves the FIFO.
pub sound-waiting :
    (o : Option ℕ) (a : Adpcm)
    → InRange a
    → InRange (sound (o, a)).1 × (waiting (sound (o, a)).1 ≡ waiting a)
unfolding decode_nibble
sound-waiting none a r = (record { starts = r.starts; fits = r.fits }, refl)
sound-waiting (some nibble) a r = (record { starts = r.starts; fits = r.fits }, refl)

-- The state in which a sample reads its nibble.
abbrev due_of : Adpcm → Adpcm
due_of a = record a { resample_phase = sub32 (u32 (a.resample_phase + a.adpcm_rate)) a.output_rate }

-- The nibbles that a call gives up: to the decoder, or where a stop or a reset drops them.
abbrev pub leaves : Call → Adpcm → List ℕ
leaves resets a = waiting a
leaves (commands value) a = if any_bit value command_stop then waiting a else []
leaves (writes value) a = []
leaves (sets output adpcm) a = []
leaves renders a =
    if not a.playing then [] else if is_due a then read_of (next_nibble (due_of a)).0 else []

-- Those that it takes.
abbrev pub enters : Call → Adpcm → List ℕ
enters (writes value) a = if leb fifo_bytes a.fifo_count then [] else nibbles_of value
enters resets a = []
enters (commands value) a = []
enters (sets output adpcm) a = []
enters renders a = []

abbrev pub all_left : List Call → Adpcm → List ℕ
all_left [] a = []
all_left (c ∷ cs) a = leaves c a ++ all_left cs (step c a)

abbrev pub all_entered : List Call → Adpcm → List ℕ
all_entered [] a = []
all_entered (c ∷ cs) a = enters c a ++ all_entered cs (step c a)

record IsKept (a : Adpcm) (out new : List ℕ) (a' : Adpcm) : Type 0 where
  ranges : InRange a'
  same : out ++ waiting a' ≡ waiting a ++ new

nothing : (a a' : Adpcm) → InRange a' → waiting a' ≡ waiting a → IsKept a [] [] a'
nothing a a' r e = record { ranges = r; same = e ∙ sym (append-nil (waiting a)) }

reset-IsKept : (a : Adpcm) → IsKept a (waiting a) [] (reset a)
unfolding reset
reset-IsKept a = record {
  ranges = record { starts = omega arith; fits = omega arith };
  same = refl;
}

write_command-IsKept :
    (value : ℕ) (a : Adpcm)
    → InRange a
    → IsKept a (if any_bit value command_stop then waiting a else []) [] (write_command value a)
unfolding write_command
write_command-IsKept value a r = elim (Bool-cases (any_bit value command_stop)) [
  | inl e ↦
      rw e (record { ranges = record { starts = omega arith; fits = omega arith }; same = refl })
  | inr e ↦ elim (Bool-cases (any_bit value command_play)) [
    | inl p ↦ rw (e, p) (nothing a _ (record { starts = r.starts; fits = r.fits }) refl)
    | inr p ↦ rw (e, p) (nothing a a r refl)
  ]
]

render_one_sample-IsKept :
    (a : Adpcm) → InRange a → IsKept a (leaves renders a) [] (render_one_sample a).1
unfolding render_one_sample
render_one_sample-IsKept a r =
    let P : List ℕ → ℤ × Adpcm → Type 0 = λ l o. IsKept a l [] o.1 in
    let on = record a { resample_phase = u32 (a.resample_phase + a.adpcm_rate) } in
    let due = due_of a in
    let given = read_of (next_nibble due).0 in
    let read = next_nibble-IsRead due (record { starts = r.starts; fits = r.fits }) in
    let rest = sound-waiting (next_nibble due).0 (next_nibble due).1 read.ranges in
    both P (not a.playing) [] (if is_due a then given else []) (pos 0, a)
      (if is_due a then sound (next_nibble due) else (a.last_sample, on)) (nothing a a r refl)
      (both P (is_due a) given [] (sound (next_nibble due)) (a.last_sample, on)
        (record {
          ranges = rest.0;
          same = ap (λ l. given ++ l) rest.1 ∙ sym read.same ∙ sym (append-nil (waiting a));
        })
        (nothing a on (record { starts = r.starts; fits = r.fits }) refl))

step-IsKept : (c : Call) (a : Adpcm) → InRange a → IsKept a (leaves c a) (enters c a) (step c a)
unfolding set_sample_rate
step-IsKept resets a r = reset-IsKept a
step-IsKept (commands value) a r = write_command-IsKept value a r
step-IsKept (writes value) a r =
    let (ranges, same) = write_data-waiting value a r in record { ranges = ranges; same = same }
step-IsKept (sets output adpcm) a r = nothing a _ (record { starts = r.starts; fits = r.fits }) refl
step-IsKept renders a r = render_one_sample-IsKept a r

-- Over any calls, from a state whose head and count are in the range of the FIFO: the nibbles given
-- up, to the decoder or where a stop or a reset drops them, with those that then wait, are the nibbles
-- that waited and then those of the bytes that found room, in order and the high one of each first.
pub run-nibbles :
    (cs : List Call) (a : Adpcm)
    → InRange a
    → all_left cs a ++ waiting (run cs a) ≡ waiting a ++ all_entered cs a
run-nibbles [] a r = sym (append-nil (waiting a))
run-nibbles (c ∷ cs) a r =
    let k = step-IsKept c a r in
    flow-append (waiting a) (waiting (step c a)) (waiting (run cs (step c a))) (leaves c a)
      (all_left cs (step c a)) (enters c a) (all_entered cs (step c a)) k.same
      (run-nibbles cs (step c a) k.ranges)
