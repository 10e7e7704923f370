-- ===== src/Video/Fields.antt =====
-- src/x68k/core/dev/video.h, the fields of the registers, and the pages of the graphic screen.
use x68k_stackchan.Base.{
  ℕ, ◌+◌, ◌*◌, ◌/◌, ◌%◌, ◌^◌, ◌≡◌, ap, ◌∙◌, arith, Bool, false, ◌&&◌, ◌||◌, ltb, leb, ◌==◌,
  if◌then◌else◌, bit_and, any_bit,
}
use x68k_stackchan.Base.Digits.{and_digit, and-le_right}
use x68k_stackchan.Video.{Crtc, VideoController}

-- Of the CRTC. Masks of low bits are remainders.
unfoldable pub graphic_access_mode : Crtc → ℕ
graphic_access_mode c = bit_and (c.reg 20) 0x300

unfoldable pub graphic_buffer_access : Crtc → Bool
graphic_buffer_access c = any_bit (c.reg 20) 0x800

unfoldable pub graphic_scroll_x : Crtc → ℕ
graphic_scroll_x c = c.reg 12 % 512

unfoldable pub graphic_scroll_y : Crtc → ℕ
graphic_scroll_y c = c.reg 13 % 512

-- `GraphicColorMode`.
pub data GraphicColorMode : Type 0 where
  k16_color : GraphicColorMode
  k256_color : GraphicColorMode
  reserved : GraphicColorMode
  k65536_color : GraphicColorMode

unfoldable pub text_palette_of : ℕ → VideoController → ℕ
text_palette_of index v = if ltb index 16 then v.text_palette index else 0

unfoldable pub graphic_palette_of : ℕ → VideoController → ℕ
graphic_palette_of index v = if ltb index 256 then v.graphic_palette index else 0

unfoldable pub graphic_color_mode : VideoController → GraphicColorMode
graphic_color_mode v =
    let mode = v.screen_mode % 4 in
    if mode == 0
    then k16_color
    else if mode == 1
    then k256_color
    else if mode == 2
    then reserved
    else k65536_color

unfoldable pub is_graphic_1024 : VideoController → Bool
is_graphic_1024 v = any_bit v.screen_mode 4

unfoldable pub sprite_priority : VideoController → ℕ
sprite_priority v = (v.priority / 2 ^ 12) % 4

unfoldable pub text_priority : VideoController → ℕ
text_priority v = (v.priority / 2 ^ 10) % 4

unfoldable pub graphic_priority : VideoController → ℕ
graphic_priority v = (v.priority / 2 ^ 8) % 4

unfoldable pub graphic_page_priority : ℕ → VideoController → ℕ
graphic_page_priority page v = if leb 4 page then 0 else (v.priority / 2 ^ (page * 2)) % 4

unfoldable pub graphic_enabled : VideoController → Bool
graphic_enabled v =
    if is_graphic_1024 v then any_bit v.display_control 0x10 else any_bit v.display_control 0x0F

unfoldable pub text_enabled : VideoController → Bool
text_enabled v = any_bit v.display_control 0x20

unfoldable pub sprite_enabled : VideoController → Bool
sprite_enabled v = any_bit v.display_control 0x40

-- The page on its own, by the mode.
abbrev pub page_enabled : GraphicColorMode → ℕ → ℕ → Bool
page_enabled k16_color page control = ltb page 4 && any_bit control (2 ^ page)
page_enabled k256_color page control = ltb page 2 && any_bit control (3 * 2 ^ (page * 2))
page_enabled reserved page control = page == 0 && any_bit control 0x0F
page_enabled k65536_color page control = page == 0 && any_bit control 0x0F

unfoldable pub graphic_page_enabled : ℕ → VideoController → Bool
graphic_page_enabled page v = page_enabled (graphic_color_mode v) page v.display_control

-- The masks of the low bits, one after the other.
mask_0 : (x : ℕ) → bit_and x 0 ≡ 0
mask_0 x = omega (arith, and-le_right x 0)

mask_even : (x m n : ℕ) → bit_and (x / 2) m ≡ n → bit_and x (2 * m) ≡ n * 2
mask_even x m n h =
    let half : 2 * m / 2 ≡ m = omega arith in
    let e : bit_and (x / 2) (2 * m / 2) ≡ n = ap (bit_and (x / 2)) half ∙ h in
    omega (arith, and_digit x (2 * m), e)

mask_odd : (x m n : ℕ) → bit_and (x / 2) m ≡ n → bit_and x (2 * m + 1) ≡ n * 2 + x % 2
mask_odd x m n h =
    let half : (2 * m + 1) / 2 ≡ m = omega arith in
    let e : bit_and (x / 2) ((2 * m + 1) / 2) ≡ n = ap (bit_and (x / 2)) half ∙ h in
    omega (arith, and_digit x (2 * m + 1), e)

mask_1 : (x : ℕ) → bit_and x 1 ≡ x % 2
mask_1 x = omega (arith, mask_odd x 0 0 (mask_0 (x / 2)))

mask_2 : (x : ℕ) → bit_and x 2 ≡ (x / 2) % 2 * 2
mask_2 x = mask_even x 1 _ (mask_1 (x / 2))

mask_3 : (x : ℕ) → bit_and x 3 ≡ x % 4
mask_3 x = omega (arith, mask_odd x 1 _ (mask_1 (x / 2)))

mask_4 : (x : ℕ) → bit_and x 4 ≡ (x / 4) % 2 * 4
mask_4 x = omega (arith, mask_even x 2 _ (mask_2 (x / 2)))

mask_8 : (x : ℕ) → bit_and x 8 ≡ (x / 8) % 2 * 8
mask_8 x = omega (arith, mask_even x 4 _ (mask_4 (x / 2)))

mask_12 : (x : ℕ) → bit_and x 12 ≡ (x / 4) % 4 * 4
mask_12 x = omega (arith, mask_even x 6 _ (mask_even (x / 2) 3 _ (mask_3 (x / 2 / 2))))

mask_15 : (x : ℕ) → bit_and x 15 ≡ x % 16
mask_15 x = omega (arith, mask_odd x 7 _ (mask_odd (x / 2) 3 _ (mask_3 (x / 2 / 2))))

any_page : GraphicColorMode → ℕ → Bool
any_page mode control =
    page_enabled mode 0 control
    || page_enabled mode 1 control
    || page_enabled mode 2 control
    || page_enabled mode 3 control

any_page_lem : (mode : GraphicColorMode) (control : ℕ) → any_bit control 15 ≡ any_page mode control
unfolding any_page
any_page_lem k16_color x = ground (arith, mask_15 x, mask_1 x, mask_2 x, mask_4 x, mask_8 x)
any_page_lem k256_color x = ground (arith, mask_15 x, mask_3 x, mask_12 x)
any_page_lem reserved x = ground arith
any_page_lem k65536_color x = ground arith

-- With a screen of 512 by 512, the graphic screen is shown exactly when one of the pages that its mode
-- of colours has is shown: four, two or one.
pub graphic_enabled_iff :
    (v : VideoController)
    → is_graphic_1024 v ≡ false
    → graphic_enabled v ≡ (
        graphic_page_enabled 0 v
        || graphic_page_enabled 1 v
        || graphic_page_enabled 2 v
        || graphic_page_enabled 3 v)
unfolding graphic_enabled graphic_page_enabled any_page
graphic_enabled_iff v h = rw h (any_page_lem (graphic_color_mode v) v.display_control)
