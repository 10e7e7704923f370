-- ===== src/Video/Tests.antt =====
-- The end of the picture's lines, a palette and a colour.
use x68k_stackchan.Base.{ℕ, ◌^◌, ◌<◌, ◌≤◌, ◌≡◌, ◌≢◌, refl, arith, true, false, ◌||◌}
use x68k_stackchan.Video.{
  Crtc, VideoController, cycles_per_frame, tick_fast, cycles_until_vblank_edge, raster_number, read,
  write, to_rgb565,
}
use x68k_stackchan.Video.Edge.{IsValid, IsLater, tick_fast-IsLater, cycles_until_vblank_edge-exact}
use x68k_stackchan.Video.Registers.{write_damages}
use x68k_stackchan.Video.Fields.{
  graphic_enabled, graphic_page_enabled, is_graphic_1024, graphic_enabled_iff,
}
use x68k_stackchan.Video.Colour.{of_rgb565, of_rgb565-to_rgb565}

abbrev late : Crtc
late = record { reg = λ i. 0; frame_cycles = 162300; in_vblank = false }

late-IsValid : IsValid late
late-IsValid = record { inside = omega arith; blanks = refl }

edge : cycles_until_vblank_edge late ≡ 42
unfolding cycles_until_vblank_edge
edge = refl

raster : raster_number late ≡ 511
unfolding raster_number
raster = refl

tick_fast-IsLater_example : IsLater 400000 late (tick_fast true 400000 late)
tick_fast-IsLater_example = tick_fast-IsLater true 400000 late (omega arith)

cycles_until_vblank_edge-exact_example :
    (0 < cycles_until_vblank_edge late)
    × (cycles_until_vblank_edge late ≤ cycles_per_frame)
    × ((cycles : ℕ)
        → cycles < cycles_until_vblank_edge late
        → (tick_fast true cycles late).0 ≡ false)
    × ((tick_fast true (cycles_until_vblank_edge late) late).0 ≡ true)
cycles_until_vblank_edge-exact_example = cycles_until_vblank_edge-exact true late late-IsValid

abbrev screen : VideoController
screen = record {
  text_palette = λ i. i;
  graphic_palette = λ i. 0;
  screen_mode = 0;
  priority = 0x06E4;
  display_control = 0;
}

-- Another address of the same entry.
mirrored : read 0x222 (write 0x202 0xFFFE screen).1 ≡ 0xFFFE
unfolding read write
mirrored = refl

write_damages_example :
    ((write 0x202 0xFFFE screen).0 ≡ true
      → read 0x202 (write 0x202 0xFFFE screen).1 ≢ read 0x202 screen)
    × ((write 0x202 0xFFFE screen).0 ≡ false
        → (other : ℕ) → read other (write 0x202 0xFFFE screen).1 ≡ read other screen)
write_damages_example = write_damages 0x202 0xFFFE screen

of_rgb565-to_rgb565_example : (to_rgb565 0x1235 < 2 ^ 16) × (of_rgb565 (to_rgb565 0x1235) ≡ 0x1235)
of_rgb565-to_rgb565_example = of_rgb565-to_rgb565 0x1235 (omega arith)

-- Two pages of 256 colours, of which the second is shown.
abbrev second_page : VideoController
second_page = record screen { screen_mode = 1; display_control = 0x0C }

graphic_enabled_iff_example : graphic_enabled second_page ≡ (
    graphic_page_enabled 0 second_page
    || graphic_page_enabled 1 second_page
    || graphic_page_enabled 2 second_page
    || graphic_page_enabled 3 second_page)
unfolding is_graphic_1024
graphic_enabled_iff_example = graphic_enabled_iff second_page refl
