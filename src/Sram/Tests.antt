-- ===== src/Sram/Tests.antt =====
-- A fresh memory.
use x68k_stackchan.Base.{◌≡◌, refl, true, false, some, none, [], ◌∷◌}
use x68k_stackchan.Sram.{
  Sram, read8, write8, read16, write16, write32, has_text, has_valid_magic, load_image, copied,
  write_palette, format_defaults,
}
use x68k_stackchan.Sram.Saved.{writes8, loads, formats, saves, IsKnown, run, known_by, run-IsKnown}

abbrev fresh : Sram
fresh = record { content = λ i. 0; dirty = false }

formatted_magic : has_valid_magic (format_defaults fresh) ≡ true
unfolding has_valid_magic has_text format_defaults copied write32 write16 write8 write_palette
formatted_magic = refl

formatted_cyan : read16 0x34 (format_defaults fresh) ≡ 0xF83F
unfolding read16 read8 format_defaults copied write32 write16 write8 write_palette
formatted_cyan = refl

no_magic : (load_image (some (λ i. 0)) 0x4000 fresh).1 ≡ false
unfolding load_image has_text
no_magic = refl

run-IsKnown_example :
    IsKnown
      (run (writes8 3 7 ∷ saves ∷ loads none 0 ∷ formats ∷ []) fresh)
      (known_by (writes8 3 7 ∷ saves ∷ loads none 0 ∷ formats ∷ []) fresh fresh.content)
run-IsKnown_example =
    run-IsKnown (writes8 3 7 ∷ saves ∷ loads none 0 ∷ formats ∷ []) fresh fresh.content (λ e. refl)
