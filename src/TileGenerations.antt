-- ===== src/TileGenerations.antt =====
-- src/x68k/core/video/tile_generations.h: which tiles of the picture each of the three buffers lacks.
pub mod Marks
pub mod Damage
mod Tests
use x68k_stackchan.Base.{
  ℕ, zero, suc, ◌+◌, ◌-◌, ◌*◌, ◌/◌, ◌%◌, min, Bool, true, false, ◌&&◌, ◌||◌, not, ltb, leb, ◌==◌,
  if◌then◌else◌, update,
}
use x68k_stackchan.Base.Int.{ℤ, pos, negsuc, ◌+ℤ◌, pos_part}

-- The members.
pub record TileGenerations : Type 0 where
  pub generation : ℕ
  pub scene : ℕ → ℕ
  pub buffers : ℕ → ℕ → ℕ

abbrev pub tile_width : ℕ
tile_width = 320

abbrev pub tile_height : ℕ
tile_height = 240

abbrev pub tile_size : ℕ
tile_size = 16

abbrev pub columns : ℕ
columns = 20

abbrev pub rows : ℕ
rows = 15

abbrev pub tiles : ℕ
tiles = 300

abbrev pub buffer_count : ℕ
buffer_count = 3

-- The constructor.
abbrev pub created : TileGenerations
created = record { generation = 1; scene = λ tile. 1; buffers = λ buffer tile. 0 }

unfoldable pub needs_render : ℕ → ℕ → TileGenerations → Bool
needs_render buffer tile g =
    (ltb buffer buffer_count && ltb tile tiles) && not (g.buffers buffer tile == g.scene tile)

unfoldable pub rendered : ℕ → ℕ → TileGenerations → TileGenerations
rendered buffer tile g =
    if ltb buffer buffer_count && ltb tile tiles
    then record g {
      buffers = update g.buffers buffer (update (g.buffers buffer) tile (g.scene tile));
    }
    else g

-- The loop over the columns of a row: `n` tiles from `column` on.
unfoldable pub mark_columns : ℕ → ℕ → ℕ → ℕ → (ℕ → ℕ) → ℕ → ℕ
mark_columns zero column row generation scene = scene
mark_columns (suc n) column row generation scene =
    mark_columns n (suc column) row generation (update scene (row * columns + column) generation)

-- The loop over the rows, each with `n` tiles from `column` on.
unfoldable pub mark_rows : ℕ → ℕ → ℕ → ℕ → ℕ → (ℕ → ℕ) → ℕ → ℕ
mark_rows zero row n column generation scene = scene
mark_rows (suc m) row n column generation scene =
    mark_rows m (suc row) n column generation (mark_columns n column row generation scene)

abbrev pub is_positive : ℤ → Bool
is_positive (pos n) = ltb 0 n
is_positive (negsuc n) = false

-- The number of tiles that a stretch of pixels meets, `first` included and `last` not.
abbrev pub tiles_of : ℕ → ℕ → ℕ
tiles_of first last = (last - 1) / tile_size + 1 - first / tile_size

-- `modulus` is the number of values of the type `Generation`.
module _ (modulus : ℕ) where
  unfoldable pub advance : TileGenerations → TileGenerations
  advance g =
      let next = (g.generation + 1) % modulus in
      if next == 0
      then record { generation = 1; scene = λ tile. 1; buffers = λ buffer tile. 0 }
      else record g { generation = next }

  unfoldable pub invalidate_all : TileGenerations → TileGenerations
  invalidate_all g = let g' = advance g in record g' { scene = λ tile. g'.generation }

  -- An edge below 0 counts as 0: as the right or the lower one it leaves nothing, as in the source.
  unfoldable pub invalidate_rect : ℤ → ℤ → ℤ → ℤ → TileGenerations → TileGenerations
  invalidate_rect x y width height g =
      let left = pos_part x in
      let top = pos_part y in
      let right = min tile_width (pos_part (x +ℤ width)) in
      let bottom = min tile_height (pos_part (y +ℤ height)) in
      let g' = advance g in
      if not (is_positive width) || not (is_positive height)
      then g
      else if leb right left || leb bottom top
      then g
      else record g' {
        scene =
            mark_rows (tiles_of top bottom) (top / tile_size) (tiles_of left right)
              (left / tile_size) g'.generation g'.scene;
      }
