-- ===== src/Fdc/Sectors.antt =====
-- The order of the sectors of a transfer, and the bytes that a read gives to the DMA controller.
use x68k_stackchan.Base.{
  ℕ, zero, suc, ◌+◌, ◌-◌, ◌%◌, ◌<◌, ◌≤◌, ◌≡◌, refl, sym, ap, ◌∙◌, arith, Bool, true, false, ◌&&◌,
  ltb, leb, ◌==◌, if◌then◌else◌, Bool-cases, inl, inr, Option, some, none, u8,
}
use x68k_stackchan.Fdc.{Fdc}
use x68k_stackchan.Fdc.Transfer.{advance_sector}

-- The side and the number of the sector that is `q` sectors on from the one given: up to the end of
-- the track, and with both sides on from the first sector of side 1.
abbrev pub place : Bool → ℕ → ℕ → ℕ → ℕ → Option (ℕ × ℕ)
place multi last head number q =
    if leb (number + q) last
    then some (head, number + q)
    else if (multi && head % 2 == 0) && leb (number + q - last) last
    then some (1, number + q - last)
    else none

-- The sector after one.
abbrev pub next : Bool → ℕ → Option (ℕ × ℕ) → Option (ℕ × ℕ)
next multi last none = none
next multi last (some (head, number)) =
    if ltb number last
    then some (head, u8 (number + 1))
    else if multi && head % 2 == 0
    then some (1, 1)
    else none

abbrev pub moved_to : Fdc → Option (ℕ × ℕ) → Option Fdc
moved_to f none = none
moved_to f (some (head, number)) = some (record f { current_head = head; current_record = number })

-- `advance_sector` changes the place only.
pub advance_sector-next :
    (f : Fdc)
    → advance_sector f
      ≡ moved_to f (next f.multi_track f.end_of_track (some (f.current_head, f.current_record)))
unfolding advance_sector
advance_sector-next f = elim (Bool-cases (ltb f.current_record f.end_of_track)) [
  | inl e ↦
      let e' : leb f.end_of_track f.current_record ≡ false = ground (arith, e) in rw (e, e') refl
  | inr e ↦
      let e' : leb f.end_of_track f.current_record ≡ true = ground (arith, e) in
      elim (Bool-cases (f.multi_track && f.current_head % 2 == 0)) [
        | inl m ↦ rw (e, e', m) refl
        | inr m ↦ rw (e, e', m) refl
      ]
]

module _ (multi : Bool) (last head number : ℕ) (first : 0 < number) (ordered : number ≤ last)
    (byte : last < 256) where
  pub next-place :
      (q : ℕ)
      → next multi last (place multi last head number q) ≡ place multi last head number (suc q)
  next-place q = ground arith

-- Sectors gone on with.
abbrev pub onward : ℕ → Option Fdc → Option Fdc
onward q none = none
onward zero (some f) = some f
onward (suc q) (some f) = onward q (advance_sector f)

abbrev pub spot : Option Fdc → Option (ℕ × ℕ)
spot none = none
spot (some f) = some (f.current_head, f.current_record)

-- The places, by the numbers alone.
abbrev places : Bool → ℕ → ℕ → Option (ℕ × ℕ) → Option (ℕ × ℕ)
places multi last zero o = o
places multi last (suc q) o = places multi last q (next multi last o)

places-none : (multi : Bool) (last q : ℕ) → places multi last q none ≡ none
places-none multi last zero = refl
places-none multi last (suc q) = places-none multi last q

moved_to-moved :
    (f : Fdc) (head number : ℕ) (o : Option (ℕ × ℕ))
    → moved_to (record f { current_head = head; current_record = number }) o ≡ moved_to f o
moved_to-moved f head number none = refl
moved_to-moved f head number (some s) = refl

onward-places :
    (q : ℕ) (f : Fdc) (o : Option (ℕ × ℕ))
    → spot (onward q (moved_to f o)) ≡ places f.multi_track f.end_of_track q o
onward-places zero f none = refl
onward-places zero f (some s) = refl
onward-places (suc q) f none = sym (places-none f.multi_track f.end_of_track q)
onward-places (suc q) f (some (h, r)) =
    let g = record f { current_head = h; current_record = r } in
    ap (λ (o : Option Fdc). spot (onward q o))
      (advance_sector-next g
        ∙ moved_to-moved f h r (next f.multi_track f.end_of_track (some (h, r))))
    ∙ onward-places q f (next f.multi_track f.end_of_track (some (h, r)))

places-place :
    (multi : Bool) (last head number : ℕ)
    → 0 < number
    → number ≤ last
    → last < 256
    → (q k : ℕ)
    → places multi last q (place multi last head number k) ≡ place multi last head number (q + k)
places-place multi last head number f o b zero k = ap (place multi last head number) (omega arith)
places-place multi last head number f o b (suc q) k =
    ap (places multi last q) (next-place multi last head number f o b k)
    ∙ places-place multi last head number f o b q (suc k)
    ∙ ap (place multi last head number) (omega arith)

-- For a first sector that is not 0 and not past the last one, which is a byte, the sector that is `q`
-- calls of `advance_sector` on is the one `q` numbers further: on the same side up to the last sector,
-- then, where the command takes both sides and began on side 0, from sector 1 of side 1 up to the last
-- sector; after that there is none.
pub onward-place :
    (q : ℕ) (f : Fdc)
    → 0 < f.current_record
    → f.current_record ≤ f.end_of_track
    → f.end_of_track < 256
    → spot (onward q (some f))
      ≡ place f.multi_track f.end_of_track f.current_head f.current_record q
onward-place q f a b c =
    let start : place f.multi_track f.end_of_track f.current_head f.current_record 0
        ≡ some (f.current_head, f.current_record) =
      ground (arith, b) in
    onward-places q f (some (f.current_head, f.current_record))
    ∙ ap (places f.multi_track f.end_of_track q) (sym start)
    ∙ places-place f.multi_track f.end_of_track f.current_head f.current_record a b c q 0
    ∙ ap (place f.multi_track f.end_of_track f.current_head f.current_record) (omega arith)
