-- ===== src/Sram.antt =====
-- src/x68k/core/dev/sram.{h,cpp}: the battery-backed memory, and whether it has to be saved.
mod Factory
pub mod Saved
mod Tests
use x68k_stackchan.Base.{
  ℕ, zero, suc, ◌+◌, ◌-◌, ◌*◌, ◌/◌, ◌%◌, ◌^◌, Bool, true, false, ◌&&◌, ◌||◌, not, ltb, ◌==◌,
  if◌then◌else◌, bit_or, u8, update, Option, some, none, List, [], ◌∷◌,
}

-- The members.
pub record Sram : Type 0 where
  pub content : ℕ → ℕ
  pub dirty : Bool

abbrev pub sram_size : ℕ
sram_size = 0x4000

abbrev pub offset_magic : ℕ
offset_magic = 0x000

abbrev pub offset_ram_size : ℕ
offset_ram_size = 0x008

abbrev pub offset_rom_boot : ℕ
offset_rom_boot = 0x00C

abbrev pub offset_sram_boot : ℕ
offset_sram_boot = 0x010

abbrev pub offset_boot_device : ℕ
offset_boot_device = 0x018

abbrev pub offset_screen_mode : ℕ
offset_screen_mode = 0x01D

abbrev pub offset_text_palette : ℕ
offset_text_palette = 0x02E

abbrev pub offset_sasi_count : ℕ
offset_sasi_count = 0x05A

-- `kMainRamSize`, 2 megabytes.
abbrev pub default_ram_size : ℕ
default_ram_size = 0x20_0000

abbrev pub default_rom_boot_addr : ℕ
default_rom_boot_addr = 0x00BF_FFFC

abbrev pub default_sram_boot_addr : ℕ
default_sram_boot_addr = 0x00ED_0100

abbrev pub boot_device_sasi0 : ℕ
boot_device_sasi0 = 0x8000

abbrev pub default_screen_mode : ℕ
default_screen_mode = 16

abbrev pub default_sasi_count : ℕ
default_sasi_count = 1

-- `kMagicText` and `kMagicTail`.
abbrev pub magic_text : List ℕ
magic_text = 0x82 ∷ 0x77 ∷ 0x36 ∷ 0x38 ∷ 0x30 ∷ 0x30 ∷ 0x30 ∷ []

abbrev pub magic_tail : ℕ
magic_tail = 0x57

unfoldable pub read8 : ℕ → Sram → ℕ
read8 offset s = if ltb offset sram_size then s.content offset else 0

unfoldable pub write8 : ℕ → ℕ → Sram → Sram
write8 offset value s =
    if ltb offset sram_size
    then record { content = update s.content offset value; dirty = true }
    else s

unfoldable pub read16 : ℕ → Sram → ℕ
read16 offset s = bit_or (read8 offset s * 2 ^ 8) (read8 (offset + 1) s)

unfoldable pub write16 : ℕ → ℕ → Sram → Sram
write16 offset value s = write8 (offset + 1) (value % 2 ^ 8) (write8 offset (u8 (value / 2 ^ 8)) s)

unfoldable pub write32 : ℕ → ℕ → Sram → Sram
write32 offset value s = write8 (offset + 3) (u8 value) (
    write8 (offset + 2) (u8 (value / 2 ^ 8))
      (write8 (offset + 1) (u8 (value / 2 ^ 16)) (write8 offset (u8 (value / 2 ^ 24)) s)))

-- The loop over the letters of the magic, from the place `i` on.
unfoldable pub has_text : List ℕ → ℕ → (ℕ → ℕ) → Bool
has_text [] i bytes = true
has_text (letter ∷ letters) i bytes =
    let rest = has_text letters (suc i) bytes in if bytes i == letter then rest else false

-- The test of the magic, of the content and of an image alike.
abbrev pub has_magic : (ℕ → ℕ) → Bool
has_magic bytes = has_text magic_text offset_magic bytes && bytes (offset_magic + 7) == magic_tail

unfoldable pub has_valid_magic : Sram → Bool
has_valid_magic s = has_magic s.content

-- `loadImage`; no image is the null pointer.
abbrev pub load_bytes : Option (ℕ → ℕ) → ℕ → Sram → Sram × Bool
load_bytes none length s = (s, false)
load_bytes (some image) length s =
    if not (length == sram_size)
    then (s, false)
    else if not (has_magic image)
    then (s, false)
    else (record { content = image; dirty = false }, true)

unfoldable pub load_image : Option (ℕ → ℕ) → ℕ → Sram → Sram × Bool
load_image image length s = load_bytes image length s

-- A copy of bytes to the place `i` on.
unfoldable pub copied : List ℕ → ℕ → (ℕ → ℕ) → ℕ → ℕ
copied [] i bytes = bytes
copied (b ∷ bs) i bytes = copied bs (suc i) (update bytes i b)

abbrev pub default_text_palette : List ℕ
default_text_palette =
    0x0000 ∷ 0xFFFF ∷ 0x07FF ∷ 0xF83F ∷ 0x07C1 ∷ 0xF801 ∷ 0x003F ∷ 0xFFFF ∷ 0x0000 ∷ 0xFFFF ∷ 0x07FF
    ∷ 0xF83F ∷ 0x07C1 ∷ 0xF801 ∷ 0x003F ∷ 0xFFFF ∷ []

-- The loop over the palette, from the colour `i` on.
unfoldable pub write_palette : List ℕ → ℕ → Sram → Sram
write_palette [] i s = s
write_palette (colour ∷ colours) i s =
    write_palette colours (suc i) (write16 (offset_text_palette + i * 2) colour s)

unfoldable pub format_defaults : Sram → Sram
format_defaults s =
    let magic = update (copied magic_text offset_magic (λ i. 0)) (offset_magic + 7) magic_tail in
    let sized =
      write32 offset_ram_size default_ram_size (record { content = magic; dirty = s.dirty }) in
    let booted = write16 offset_boot_device boot_device_sasi0 (
      write32 offset_sram_boot default_sram_boot_addr
        (write32 offset_rom_boot default_rom_boot_addr sized)) in
    let screened = record booted {
      content = update booted.content offset_screen_mode default_screen_mode;
    } in
    let coloured = write_palette default_text_palette 0 screened in
    record { content = update coloured.content offset_sasi_count default_sasi_count; dirty = false }

abbrev pub clear_dirty : Sram → Sram
clear_dirty s = record s { dirty = false }
