-- ===== src/Sram/Factory.antt =====
-- What `formatDefaults` makes, byte by byte.
use x68k_stackchan.Base.{
  ℕ, zero, suc, ◌+◌, ◌*◌, ◌≤◌, ◌<◌, ◌≡◌, refl, sym, ◌∙◌, arith, Bool, true, false, ltb, ◌==◌,
  ==_iff, Bool-cases, inl, inr, List, [], ◌∷◌, update, fun_ext, length,
}
use x68k_stackchan.Base.Bits.{all_below, all_below_sound}
use x68k_stackchan.Sram.{
  Sram, write8, write16, write32, copied, magic_text, write_palette, default_text_palette,
  format_defaults,
}

-- The bytes up to the number of SASI drives, in rows of 16, as they stand in the memory: the magic, the
-- addresses, the boot device, the screen mode and the palette.
abbrev factory_bytes : List ℕ
factory_bytes =
    0x82 ∷ 0x77 ∷ 0x36 ∷ 0x38 ∷ 0x30 ∷ 0x30 ∷ 0x30 ∷ 0x57 ∷ 0x00 ∷ 0x20 ∷ 0x00 ∷ 0x00 ∷ 0x00 ∷ 0xBF
    ∷ 0xFF ∷ 0xFC ∷ 0x00 ∷ 0xED ∷ 0x01 ∷ 0x00 ∷ 0x00 ∷ 0x00 ∷ 0x00 ∷ 0x00 ∷ 0x80 ∷ 0x00 ∷ 0x00
    ∷ 0x00 ∷ 0x00 ∷ 0x10 ∷ 0x00 ∷ 0x00 ∷ 0x00 ∷ 0x00 ∷ 0x00 ∷ 0x00 ∷ 0x00 ∷ 0x00 ∷ 0x00 ∷ 0x00
    ∷ 0x00 ∷ 0x00 ∷ 0x00 ∷ 0x00 ∷ 0x00 ∷ 0x00 ∷ 0x00 ∷ 0x00 ∷ 0xFF ∷ 0xFF ∷ 0x07 ∷ 0xFF ∷ 0xF8
    ∷ 0x3F ∷ 0x07 ∷ 0xC1 ∷ 0xF8 ∷ 0x01 ∷ 0x00 ∷ 0x3F ∷ 0xFF ∷ 0xFF ∷ 0x00 ∷ 0x00 ∷ 0xFF ∷ 0xFF
    ∷ 0x07 ∷ 0xFF ∷ 0xF8 ∷ 0x3F ∷ 0x07 ∷ 0xC1 ∷ 0xF8 ∷ 0x01 ∷ 0x00 ∷ 0x3F ∷ 0xFF ∷ 0xFF ∷ 0x00
    ∷ 0x00 ∷ 0x00 ∷ 0x00 ∷ 0x00 ∷ 0x00 ∷ 0x00 ∷ 0x00 ∷ 0x00 ∷ 0x00 ∷ 0x00 ∷ 0x00 ∷ 0x01 ∷ []

abbrev byte_at : List ℕ → ℕ → ℕ
byte_at [] i = 0
byte_at (b ∷ bs) zero = b
byte_at (b ∷ bs) (suc i) = byte_at bs i

-- The content of the factory: those bytes, and zeros behind them.
unfoldable pub factory_content : ℕ → ℕ
factory_content i = byte_at factory_bytes i

byte_at-past : (bs : List ℕ) (i : ℕ) → length bs ≤ i → byte_at bs i ≡ 0
byte_at-past [] i h = refl
byte_at-past (b ∷ bs) zero h = absurd (omega arith)
byte_at-past (b ∷ bs) (suc i) h = byte_at-past bs i (omega arith)

-- Zeros behind the bytes.
abbrev IsPadded : (ℕ → ℕ) → Type 0
IsPadded bytes = (i : ℕ) → 0x5B ≤ i → bytes i ≡ 0

update-IsPadded :
    (bytes : ℕ → ℕ) (at value : ℕ) → at < 0x5B → IsPadded bytes → IsPadded (update bytes at value)
update-IsPadded bytes at value l h i p =
    let other : (i == at) ≡ false = ground (arith, l, p) in rw other (h i p)

copied-IsPadded :
    (bs : List ℕ) (i : ℕ) (bytes : ℕ → ℕ)
    → i + length bs ≤ 0x5B
    → IsPadded bytes
    → IsPadded (copied bs i bytes)
unfolding copied
copied-IsPadded [] i bytes l h = h
copied-IsPadded (b ∷ bs) i bytes l h =
    copied-IsPadded bs (suc i) (update bytes i b) (omega arith)
      (update-IsPadded bytes i b (omega arith) h)

write8-IsPadded :
    (offset value : ℕ) (s : Sram)
    → offset < 0x5B
    → IsPadded s.content
    → IsPadded (write8 offset value s).content
unfolding write8
write8-IsPadded offset value s l h =
    let inside : ltb offset 0x4000 ≡ true = ground (arith, l) in
    rw inside (update-IsPadded s.content offset value l h)

write16-IsPadded :
    (offset value : ℕ) (s : Sram)
    → offset + 1 < 0x5B
    → IsPadded s.content
    → IsPadded (write16 offset value s).content
unfolding write16
write16-IsPadded offset value s l h =
    write8-IsPadded (offset + 1) _ _ l (write8-IsPadded offset _ s (omega arith) h)

write32-IsPadded :
    (offset value : ℕ) (s : Sram)
    → offset + 3 < 0x5B
    → IsPadded s.content
    → IsPadded (write32 offset value s).content
unfolding write32
write32-IsPadded offset value s l h = write8-IsPadded (offset + 3) _ _ l (
    write8-IsPadded (offset + 2) _ _ (omega arith)
      (write8-IsPadded (offset + 1) _ _ (omega arith) (write8-IsPadded offset _ s (omega arith) h)))

write_palette-IsPadded :
    (colours : List ℕ) (i : ℕ) (s : Sram)
    → i + length colours ≤ 16
    → IsPadded s.content
    → IsPadded (write_palette colours i s).content
unfolding write_palette
write_palette-IsPadded [] i s l h = h
write_palette-IsPadded (colour ∷ colours) i s l h =
    write_palette-IsPadded colours (suc i) _ (omega arith)
      (write16-IsPadded (0x2E + i * 2) colour s (omega arith) h)

format_defaults-IsPadded : (s : Sram) → IsPadded (format_defaults s).content
unfolding format_defaults
format_defaults-IsPadded s = update-IsPadded _ 0x5A 1 (omega arith) (
    write_palette-IsPadded default_text_palette 0 _ (omega arith) (
      update-IsPadded _ 0x1D 16 (omega arith) (
        write16-IsPadded 0x18 0x8000 _ (omega arith) (
          write32-IsPadded 0x10 0x00ED_0100 _ (omega arith) (
            write32-IsPadded 0x0C 0x00BF_FFFC _ (omega arith) (
              write32-IsPadded 8 0x20_0000 _ (omega arith) (
                update-IsPadded _ 7 0x57 (omega arith)
                  (copied-IsPadded magic_text 0 _ (omega arith) (λ i p. refl)))))))))

abbrev agrees : Sram → ℕ → Bool
agrees s i = (format_defaults s).content i == byte_at factory_bytes i

agreement : (s : Sram) → all_below 0x5B (agrees s) ≡ true
unfolding all_below format_defaults copied write32 write16 write8 write_palette
agreement s = refl

-- A format makes the content of the factory, whatever was there.
pub format_defaults-factory_content : (s : Sram) → (format_defaults s).content ≡ factory_content
unfolding factory_content
format_defaults-factory_content s = fun_ext λ i. elim (Bool-cases (ltb i 0x5B)) [
  | inl e ↦ (==_iff _ _).0 (all_below_sound 0x5B (agrees s) i (agreement s) (ground (arith, e)))
  | inr e ↦
      let past : 0x5B ≤ i = ground (arith, e) in
      format_defaults-IsPadded s i past ∙ sym (byte_at-past factory_bytes i past)
]
