-- ===== src/Video.antt =====
-- src/x68k/core/dev/video.{h,cpp}: the CRTC's clock, and the registers of the video controller.
pub mod Edge
pub mod Registers
pub mod Colour
pub mod Fields
mod Tests
use x68k_stackchan.Base.{
  ℕ, ◌+◌, ◌-◌, ◌*◌, ◌/◌, ◌%◌, ◌^◌, Bool, true, false, ◌&&◌, ◌||◌, not, ltb, leb, ◌==◌, bool_eq,
  if◌then◌else◌, bit_or, update, u32,
}

-- `Crtc`.
pub record Crtc : Type 0 where
  pub reg : ℕ → ℕ
  pub frame_cycles : ℕ
  pub in_vblank : Bool

abbrev pub reg_count : ℕ
reg_count = 24

abbrev pub cycles_per_frame : ℕ
cycles_per_frame = 180342

abbrev pub vblank_cycles : ℕ
vblank_cycles = 18000

-- `kVBlankBegin`.
abbrev pub vblank_begin : ℕ
vblank_begin = cycles_per_frame - vblank_cycles

abbrev pub raster_count : ℕ
raster_count = 568

unfoldable pub reset : Crtc → Crtc
reset c = record { reg = λ i. 0; frame_cycles = 0; in_vblank = false }

unfoldable pub read_reg : ℕ → Crtc → ℕ
read_reg index c = if ltb index reg_count then c.reg index else 0

unfoldable pub write_reg : ℕ → ℕ → Crtc → Crtc
write_reg index value c =
    if ltb index reg_count then record c { reg = update c.reg index value } else c

-- The end of both ticks, at a place in the frame: whether the blanking began or ended.
abbrev pub arrived : ℕ → Crtc → Bool × Crtc
arrived frame c =
    let now = leb vblank_begin frame in
    if bool_eq now c.in_vblank
    then (false, record c { frame_cycles = frame })
    else (true, record c { frame_cycles = frame; in_vblank = now })

-- What both ticks do with the cycles to add.
abbrev pub moved : ℕ → Crtc → Bool × Crtc
moved cycles c =
    let total = u32 (c.frame_cycles + cycles) in
    arrived (if leb cycles_per_frame total then total - cycles_per_frame else total) c

unfoldable pub tick_slow : ℕ → Crtc → Bool × Crtc
tick_slow cycles c = moved (cycles % cycles_per_frame) c

unfoldable pub tick_fast : Bool → ℕ → Crtc → Bool × Crtc
tick_fast fast cycles c =
    if not fast || leb cycles_per_frame cycles then tick_slow cycles c else moved cycles c

unfoldable pub cycles_until_vblank_edge : Crtc → ℕ
cycles_until_vblank_edge c =
    if c.in_vblank
    then cycles_per_frame - c.frame_cycles
    else if ltb c.frame_cycles vblank_begin
    then vblank_begin - c.frame_cycles
    else cycles_per_frame - c.frame_cycles

unfoldable pub raster_number : Crtc → ℕ
raster_number c = u32 (c.frame_cycles * raster_count / cycles_per_frame)

-- `VideoController`.
pub record VideoController : Type 0 where
  pub text_palette : ℕ → ℕ
  pub graphic_palette : ℕ → ℕ
  pub screen_mode : ℕ
  pub priority : ℕ
  pub display_control : ℕ

-- `VideoController::reset`, and whether it calls `damage_.all()`, here and in `write`.
unfoldable pub reset_video : VideoController → Bool × VideoController
reset_video v = (
  true,
  record {
    text_palette = update (λ i. 0) 1 0xFFFF;
    graphic_palette = λ i. 0;
    screen_mode = 0;
    priority = 0;
    display_control = 0;
  },
)

unfoldable pub read : ℕ → VideoController → ℕ
read addr v =
    let offset = addr % 2 ^ 14 in
    if ltb offset 0x200
    then v.graphic_palette ((offset / 2) % 256)
    else if ltb offset 0x400
    then v.text_palette (((offset - 0x200) / 2) % 16)
    else if offset == 0x400
    then v.screen_mode
    else if offset == 0x500
    then v.priority
    else if offset == 0x600
    then v.display_control
    else 0

-- The registers after a write.
abbrev pub put : ℕ → ℕ → VideoController → VideoController
put offset value v =
    if ltb offset 0x200
    then record v { graphic_palette = update v.graphic_palette ((offset / 2) % 256) value }
    else if ltb offset 0x400
    then record v { text_palette = update v.text_palette (((offset - 0x200) / 2) % 16) value }
    else if offset == 0x400
    then record v { screen_mode = value }
    else if offset == 0x500
    then record v { priority = value }
    else if offset == 0x600
    then record v { display_control = value }
    else v

abbrev pub is_supported : ℕ → Bool
is_supported offset = ltb offset 0x400 || offset == 0x400 || offset == 0x500 || offset == 0x600

unfoldable pub write : ℕ → ℕ → VideoController → Bool × VideoController
write addr value v =
    let offset = addr % 2 ^ 14 in
    (not (read addr v == value) && is_supported offset, put offset value v)

unfoldable pub to_rgb565 : ℕ → ℕ
to_rgb565 colour =
    let g5 = (colour / 2 ^ 11) % 2 ^ 5 in
    let r5 = (colour / 2 ^ 6) % 2 ^ 5 in
    let b5 = (colour / 2) % 2 ^ 5 in
    let intensity = colour % 2 in
    let g6 = bit_or (g5 * 2) intensity in bit_or (bit_or (r5 * 2 ^ 11) (g6 * 2 ^ 5)) b5
