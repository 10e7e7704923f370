-- ===== src/Video/Colour.antt =====
-- The conversion of the colours.
use x68k_stackchan.Base.{ℕ, ◌+◌, ◌*◌, ◌/◌, ◌%◌, ◌^◌, ◌<◌, ◌≡◌, sym, ap, ◌∙◌, arith, bit_or}
use x68k_stackchan.Base.Bits.{bit_or_disjoint}
use x68k_stackchan.Video.{to_rgb565}

-- The colour of the X68000 with these parts of RGB565, the lowest bit of green being the intensity.
abbrev pub of_rgb565 : ℕ → ℕ
of_rgb565 pixel =
    (pixel / 2 ^ 6) % 2 ^ 5 * 2 ^ 11
    + pixel / 2 ^ 11 * 2 ^ 6
    + pixel % 2 ^ 5 * 2
    + (pixel / 2 ^ 5) % 2

fields :
    (colour : ℕ)
    → to_rgb565 colour
      ≡ (colour / 2 ^ 6) % 2 ^ 5 * 2 ^ 11
        + ((colour / 2 ^ 11) % 2 ^ 5 * 2 + colour % 2) * 2 ^ 5
        + (colour / 2) % 2 ^ 5
unfolding to_rgb565
fields colour =
    let g5 = (colour / 2 ^ 11) % 2 ^ 5 in
    let r5 = (colour / 2 ^ 6) % 2 ^ 5 in
    let b5 = (colour / 2) % 2 ^ 5 in
    let g6 = g5 * 2 + colour % 2 in
    let green : bit_or (g5 * 2) (colour % 2) ≡ g6 =
      bit_or_disjoint 1 g5 (colour % 2) (omega arith) in
    let upper : bit_or (r5 * 2 ^ 11) (g6 * 2 ^ 5) ≡ r5 * 2 ^ 11 + g6 * 2 ^ 5 =
      bit_or_disjoint 11 r5 (g6 * 2 ^ 5) (omega arith) in
    let split : r5 * 2 ^ 11 + g6 * 2 ^ 5 ≡ (r5 * 2 ^ 6 + g6) * 2 ^ 5 = omega arith in
    ap (λ (x : ℕ). bit_or (bit_or (r5 * 2 ^ 11) (x * 2 ^ 5)) b5) green
    ∙ ap (λ (x : ℕ). bit_or x b5) (upper ∙ split)
    ∙ bit_or_disjoint 5 (r5 * 2 ^ 6 + g6) b5 (omega arith)
    ∙ ap (λ (x : ℕ). x + b5) (sym split)

-- For a colour of 16 bits the pixel of RGB565 has 16 bits, and the colour can be had back from it: red
-- and blue are kept, and the intensity is the lowest bit of green.
pub of_rgb565-to_rgb565 :
    (colour : ℕ)
    → colour < 2 ^ 16
    → (to_rgb565 colour < 2 ^ 16) × (of_rgb565 (to_rgb565 colour) ≡ colour)
of_rgb565-to_rgb565 colour h = (omega (arith, fields colour, h), omega (arith, fields colour, h))
