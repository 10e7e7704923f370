-- ===== src/TileGenerations/Tests.antt =====
-- Generations of a byte that wrap around, and a rectangle over the left edge.
use x68k_stackchan.Base.{◌≡◌, refl, true, false, arith, List, [], ◌∷◌}
use x68k_stackchan.Base.Int.{pos, negsuc, ◌+ℤ◌}
use x68k_stackchan.TileGenerations.{
  created, needs_render, rendered, mark_columns, mark_rows, advance, invalidate_rect,
}
use x68k_stackchan.TileGenerations.Damage.{
  Call, invalidates, renders, tile, step, damaged_after, run, damaged_by, run-needs_render,
}

-- The tile 21 is drawn into the buffer 1, and a corner of it is invalidated.
abbrev corner : List (Call 256 1 17 30)
corner = renders 1 21 ∷ invalidates (negsuc 4) (pos 28) (pos 23) (pos 500) ∷ []

corner_damaged : damaged_by 256 1 17 30 corner true ≡ true
unfolding damaged_by damaged_after
corner_damaged = refl

drawn_once : needs_render 1 21 (run 256 1 17 30 (renders 1 21 ∷ []) created) ≡ false
unfolding run step needs_render rendered
drawn_once = refl

-- The row above stays drawn.
row_above : needs_render 1 1 (run 256 1 17 30 (renders 1 1 ∷ corner) created) ≡ false
unfolding run step needs_render rendered invalidate_rect advance mark_rows mark_columns ◌+ℤ◌
row_above = refl

run-needs_render_example : needs_render 1 (tile 256 1 17 30) (run 256 1 17 30 corner created) ≡ true
run-needs_render_example =
    run-needs_render 256 1 17 30 corner (omega arith) (omega arith) (omega arith) (omega arith)
      corner_damaged
