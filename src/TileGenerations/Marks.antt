-- ===== src/TileGenerations/Marks.antt =====
-- The loops of `invalidateRect` over the tiles of a rectangle, and how it is cut off to the picture.
use x68k_stackchan.Base.{
  ℕ, zero, suc, ◌+◌, ◌*◌, ◌/◌, ◌≤◌, ◌<◌, ◌≡◌, ◌⊎◌, inl, inr, refl, min, Bool, true, false, ◌&&◌,
  arith, ltb, leb, ◌==◌, ==_iff, Bool-cases, update,
}
use x68k_stackchan.Base.Int.{ℤ, pos, negsuc, ◌+ℤ◌, +ℤ_parts, pos_part, neg_part}
use x68k_stackchan.TileGenerations.{mark_columns, mark_rows, is_positive, tiles_of}

-- A loop gives a tile the generation or leaves it.
mark_columns-or :
    (n column row generation : ℕ) (scene : ℕ → ℕ) (t : ℕ)
    → (mark_columns n column row generation scene t ≡ generation)
      ⊎ (mark_columns n column row generation scene t ≡ scene t)
unfolding mark_columns
mark_columns-or zero column row generation scene t = inr refl
mark_columns-or (suc n) column row generation scene t = ground (
  arith,
  mark_columns-or n (suc column) row generation (update scene (row * 20 + column) generation) t,
)

pub mark_rows-or :
    (m row n column generation : ℕ) (scene : ℕ → ℕ) (t : ℕ)
    → (mark_rows m row n column generation scene t ≡ generation)
      ⊎ (mark_rows m row n column generation scene t ≡ scene t)
unfolding mark_rows
mark_rows-or zero row n column generation scene t = inr refl
mark_rows-or (suc m) row n column generation scene t = ground (
  arith,
  mark_rows-or m (suc row) n column generation (mark_columns n column row generation scene) t,
  mark_columns-or n column row generation scene t,
)

-- A tile that has the generation keeps it.
mark_columns-in :
    (n column row generation : ℕ) (scene : ℕ → ℕ) (c : ℕ)
    → column ≤ c
    → c < column + n
    → mark_columns n column row generation scene (row * 20 + c) ≡ generation
unfolding mark_columns
mark_columns-in zero column row generation scene c p q = absurd (omega arith)
mark_columns-in (suc n) column row generation scene c p q = elim (Bool-cases (c == column)) [
  | inl e ↦
      let same : row * 20 + c ≡ row * 20 + column = omega (arith, (==_iff c column).0 e) in
      ground (
        arith,
        same,
        mark_columns-or n (suc column) row generation (update scene (row * 20 + column) generation)
            (row * 20 + c),
      )
  | inr e ↦
      mark_columns-in n (suc column) row generation (update scene (row * 20 + column) generation) c
        (ground (arith, e)) (omega arith)
]

pub mark_rows-in :
    (m row n column generation : ℕ) (scene : ℕ → ℕ) (r c : ℕ)
    → row ≤ r
    → r < row + m
    → column ≤ c
    → c < column + n
    → mark_rows m row n column generation scene (r * 20 + c) ≡ generation
unfolding mark_rows
mark_rows-in zero row n column generation scene r c p q s t = absurd (omega arith)
mark_rows-in (suc m) row n column generation scene r c p q s t = elim (Bool-cases (r == row)) [
  | inl e ↦
      let same : row ≡ r = grind (e, arith) in
      ground (
        arith,
        mark_columns-in n column r generation scene c s t,
        same,
        mark_rows-or m (suc row) n column generation (mark_columns n column row generation scene)
            (r * 20 + c),
      )
  | inr e ↦
      mark_rows-in m (suc row) n column generation (mark_columns n column row generation scene) r c
        (ground (arith, e)) (omega arith) s t
]

one_part : (v : ℤ) → (pos_part v ≡ 0) ⊎ (neg_part v ≡ 0)
one_part (pos n) = inr refl
one_part (negsuc n) = inl refl

not_positive : (v : ℤ) → is_positive v ≡ false → pos_part v ≡ 0
not_positive (pos n) h = ground (arith, h)
not_positive (negsuc n) h = refl

-- The place `p` is in the stretch that `from` begins and that is `extent` long.
abbrev pub is_between : ℕ → ℤ → ℤ → Bool
is_between p from extent =
    leb (pos_part from) (p + neg_part from)
    && ltb (p + neg_part from + neg_part extent) (pos_part from + pos_part extent)

-- Such a place is in the stretch as the code cuts it off, and the stretch is not empty.
pub record IsCut (p limit : ℕ) (from extent : ℤ) : Type 0 where
  pub real : is_positive extent ≡ true
  pub begun : pos_part from ≤ p
  pub ended : p < min limit (pos_part (from +ℤ extent))

pub is_between-IsCut :
    (p limit : ℕ) (from extent : ℤ)
    → p < limit
    → is_between p from extent ≡ true
    → IsCut p limit from extent
is_between-IsCut p limit from extent h i = record {
  real = elim (Bool-cases (is_positive extent)) [
    | inl y ↦ y
    | inr n ↦ absurd (ground (arith, i, not_positive extent n))
  ];
  begun = ground (arith, i, one_part from);
  ended = ground (arith, i, h, +ℤ_parts from extent);
}

pub outside : (b : Bool) → (b ≡ true → ⊥) → b ≡ false
outside b h = elim (Bool-cases b) [ inl t ↦ absurd (h t) | inr f ↦ f ]

-- The tiles of a stretch take in that of a place in it.
pub tiles_of-in :
    (first last p : ℕ)
    → first ≤ p
    → p < last
    → (first / 16 ≤ p / 16) × (p / 16 < first / 16 + tiles_of first last)
tiles_of-in first last p h k = (omega arith, omega arith)
