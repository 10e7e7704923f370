-- ===== src/Sram/Saved.antt =====
-- The mark `dirty` against what was last saved, loaded or formatted.
use x68k_stackchan.Base.{
  ℕ, ◌≡◌, refl, false, ltb, ◌==◌, ◌&&◌, if◌then◌else◌, Bool-cases, inl, inr, Option, some, none,
  List, [], ◌∷◌,
}
use x68k_stackchan.Sram.Factory.{factory_content, format_defaults-factory_content}
use x68k_stackchan.Sram.{
  Sram, sram_size, write8, write16, has_magic, load_image, format_defaults, clear_dirty,
}

-- A call; `saves` is `clearDirty`, after the content has been written out.
pub data Call : Type 0 where
  writes8 : ℕ → ℕ → Call
  writes16 : ℕ → ℕ → Call
  loads : Option (ℕ → ℕ) → ℕ → Call
  formats : Call
  saves : Call

unfoldable pub step : Call → Sram → Sram
step (writes8 offset value) s = write8 offset value s
step (writes16 offset value) s = write16 offset value s
step (loads image length) s = (load_image image length s).0
step formats s = format_defaults s
step saves s = clear_dirty s

-- The content that can be had again without the memory after a call, `known` being that of before: what
-- has been written out by `saves`, the image of a load if it is one of the memory's size with the
-- magic, and the content of the factory after a format.
unfoldable pub known_after : Call → Sram → (ℕ → ℕ) → ℕ → ℕ
known_after (writes8 offset value) s known = known
known_after (writes16 offset value) s known = known
known_after (loads none length) s known = known
known_after (loads (some image) length) s known =
    if length == sram_size && has_magic image then image else known
known_after formats s known = factory_content
known_after saves s known = s.content

unfoldable pub run : List Call → Sram → Sram
run [] s = s
run (c ∷ cs) s = run cs (step c s)

unfoldable pub known_by : List Call → Sram → (ℕ → ℕ) → ℕ → ℕ
known_by [] s known = known
known_by (c ∷ cs) s known = known_by cs (step c s) (known_after c s known)

abbrev pub IsKnown : Sram → (ℕ → ℕ) → Type 0
IsKnown s known = s.dirty ≡ false → s.content ≡ known

write8-IsKnown :
    (offset value : ℕ) (s : Sram) (known : ℕ → ℕ)
    → IsKnown s known
    → IsKnown (write8 offset value s) known
unfolding write8
write8-IsKnown offset value s known h = elim (Bool-cases (ltb offset 0x4000)) [
  | inl i ↦ rw i (λ e. cc)
  | inr o ↦ rw o h
]

load_image-IsKnown :
    (image : Option (ℕ → ℕ)) (length : ℕ) (s : Sram) (known : ℕ → ℕ)
    → IsKnown s known
    → IsKnown (load_image image length s).0 (known_after (loads image length) s known)
unfolding load_image known_after
load_image-IsKnown none length s known h = h
load_image-IsKnown (some image) length s known h = elim (Bool-cases (length == 0x4000)) [
  | inl l ↦ elim (Bool-cases (has_magic image)) [
    | inl m ↦ rw (l, m) (λ e. refl)
    | inr m ↦ rw (l, m) h
  ]
  | inr l ↦ rw l h
]

step-IsKnown :
    (c : Call) (s : Sram) (known : ℕ → ℕ)
    → IsKnown s known
    → IsKnown (step c s) (known_after c s known)
unfolding step known_after write16
step-IsKnown (writes8 offset value) s known h = write8-IsKnown offset value s known h
step-IsKnown (writes16 offset value) s known h =
    write8-IsKnown _ _ _ known (write8-IsKnown offset _ s known h)
step-IsKnown (loads none length) s known h = load_image-IsKnown none length s known h
step-IsKnown (loads (some image) length) s known h =
    load_image-IsKnown (some image) length s known h
step-IsKnown formats s known h = λ e. format_defaults-factory_content s
step-IsKnown saves s known h = λ e. refl

-- After any calls from a state in which this holds: while the mark `dirty` is not set, the content is
-- what was last written out by a save, the image of a load if it was of the memory's size with the
-- magic, or after a format the content of the factory, whichever came last.
pub run-IsKnown :
    (cs : List Call) (s : Sram) (known : ℕ → ℕ)
    → IsKnown s known
    → IsKnown (run cs s) (known_by cs s known)
unfolding run known_by
run-IsKnown [] s known h = h
run-IsKnown (c ∷ cs) s known h =
    run-IsKnown cs (step c s) (known_after c s known) (step-IsKnown c s known h)
