-- ===== src/TileGenerations/Damage.antt =====
-- A pixel that has changed since a buffer was given its tile is drawn again.
use x68k_stackchan.Base.{
  ℕ, ◌+◌, ◌*◌, ◌/◌, ◌%◌, ◌≤◌, ◌<◌, ◌≡◌, ◌≢◌, inl, inr, min, Bool, true, false, ◌&&◌, ◌||◌, not,
  arith, leb, ◌==◌, if◌then◌else◌, Bool-cases, &&-true, List, [], ◌∷◌,
}
use x68k_stackchan.Base.Int.{ℤ, ◌+ℤ◌, pos_part}
use x68k_stackchan.TileGenerations.{
  TileGenerations, created, needs_render, rendered, mark_rows, is_positive, advance, invalidate_all,
  invalidate_rect,
}
use x68k_stackchan.TileGenerations.Marks.{
  mark_rows-or, mark_rows-in, is_between, is_between-IsCut, tiles_of-in, outside,
}

module _ (modulus : ℕ) (buffer px py : ℕ) where
  -- The tile of the pixel.
  abbrev pub tile : ℕ
  tile = py / 16 * 20 + px / 16

  -- The generations are in range, and where the pixel is damaged the tile differs.
  pub record IsValid (damaged : Bool) (g : TileGenerations) : Type 0 where
    pub positive : 1 ≤ g.generation
    pub fits : g.generation < modulus
    pub before : g.scene tile ≤ g.generation
    pub drawn : g.buffers buffer tile ≤ g.generation
    pub differs : damaged ≡ true → g.buffers buffer tile ≢ g.scene tile

  -- After `advance` no buffer has the new generation.
  record IsAdvanced (damaged : Bool) (g : TileGenerations) : Type 0 where
    pub valid : IsValid damaged g
    pub older : g.buffers buffer tile < g.generation

  next_lem : (n : ℕ) → n < modulus → ((n + 1) % modulus == 0) ≡ false → (n + 1) % modulus ≡ n + 1
  next_lem n h w = grind (arith, w)

  advance-IsAdvanced :
      (damaged : Bool) (g : TileGenerations)
      → 2 ≤ modulus
      → IsValid damaged g
      → IsAdvanced damaged (advance modulus g)
  unfolding advance
  advance-IsAdvanced damaged g two v = elim (Bool-cases ((g.generation + 1) % modulus == 0)) [
    | inl w ↦ rw w (record {
      valid = record {
        positive = omega arith;
        fits = omega arith;
        before = omega arith;
        drawn = omega arith;
        differs = λ e. omega arith;
      };
      older = omega arith;
    })
    | inr w ↦
        let next : (g.generation + 1) % modulus ≡ g.generation + 1 =
          next_lem g.generation v.fits w in
        rw (w, next)
          (record {
            valid = record {
              positive = omega arith;
              fits = ground (arith, w, next, v.fits);
              before = omega (arith, v.before);
              drawn = omega (arith, v.drawn);
              differs = v.differs;
            };
            older = omega (arith, v.drawn);
          })
  ]

  -- The pixel is in the rectangle.
  abbrev pub is_inside : ℤ → ℤ → ℤ → ℤ → Bool
  is_inside x y width height = is_between px x width && is_between py y height

  pub data Call : Type 0 where
    invalidates_all : Call
    invalidates : ℤ → ℤ → ℤ → ℤ → Call
    renders : ℕ → ℕ → Call

  unfoldable pub step : Call → TileGenerations → TileGenerations
  step invalidates_all g = invalidate_all modulus g
  step (invalidates x y width height) g = invalidate_rect modulus x y width height g
  step (renders b t) g = rendered b t g

  -- Whether the pixel has been damaged since its tile was last given to the buffer.
  unfoldable pub damaged_after : Call → Bool → Bool
  damaged_after invalidates_all d = true
  damaged_after (invalidates x y width height) d = if is_inside x y width height then true else d
  damaged_after (renders b t) d = if b == buffer && t == tile then false else d

  invalidate_all-IsValid :
      (d : Bool) (g : TileGenerations)
      → 2 ≤ modulus
      → IsValid d g
      → IsValid true (invalidate_all modulus g)
  unfolding invalidate_all
  invalidate_all-IsValid d g two v =
      let a = advance-IsAdvanced d g two v in
      record {
        positive = a.valid.positive;
        fits = a.valid.fits;
        before = omega arith;
        drawn = a.valid.drawn;
        differs = λ e. omega (arith, a.older);
      }

  rendered-IsValid :
      (b t : ℕ) (d : Bool) (g : TileGenerations)
      → IsValid d g
      → IsValid (if b == buffer && t == tile then false else d) (rendered b t g)
  unfolding rendered
  rendered-IsValid b t d g v = elim (Bool-cases (b == buffer && t == tile)) [
    | inl c ↦ rw c (record {
      positive = ground (arith, v.positive);
      fits = ground (arith, v.fits);
      before = ground (arith, v.before);
      drawn = ground (arith, v.before, v.drawn);
      differs = λ e. cc;
    })
    | inr c ↦
        let kept : (rendered b t g).buffers buffer tile ≡ g.buffers buffer tile =
          ground (arith, c) in
        let scene : (rendered b t g).scene tile ≡ g.scene tile = ground arith in
        let gen : (rendered b t g).generation ≡ g.generation = ground arith in
        rw c (record {
          positive = omega (arith, gen, v.positive);
          fits = omega (arith, gen, v.fits);
          before = omega (arith, scene, gen, v.before);
          drawn = omega (arith, kept, gen, v.drawn);
          differs = λ e q. v.differs e (omega (arith, kept, scene, q));
        })
  ]

  marked-IsValid :
      (inside : Bool) (m row n column : ℕ) (d : Bool) (g : TileGenerations)
      → IsAdvanced d g
      → (inside ≡ true → mark_rows m row n column g.generation g.scene tile ≡ g.generation)
      → IsValid
          (if inside then true else d)
          (record g { scene = mark_rows m row n column g.generation g.scene })
  marked-IsValid inside m row n column d g a i =
      let or = mark_rows-or m row n column g.generation g.scene tile in
      record {
        positive = a.valid.positive;
        fits = a.valid.fits;
        before = ground (arith, or, a.valid.before);
        drawn = a.valid.drawn;
        differs = λ e q. elim (Bool-cases inside) [
          | inl t ↦ omega (arith, i t, a.older, q)
          | inr f ↦ elim or [
            | inl y ↦ omega (arith, y, a.older, q)
            | inr n ↦ a.valid.differs (ground (f, e, arith)) (omega (arith, n, q))
          ]
        ];
      }

  invalidate_rect-IsValid :
      (x y width height : ℤ) (d : Bool) (g : TileGenerations)
      → 2 ≤ modulus
      → px < 320
      → py < 240
      → IsValid d g
      → IsValid
          (if is_inside x y width height then true else d)
          (invalidate_rect modulus x y width height g)
  unfolding invalidate_rect
  invalidate_rect-IsValid x y width height d g two hx hy v =
      elim (Bool-cases (not (is_positive width) || not (is_positive height))) [
        | inl e ↦
            let out : is_inside x y width height ≡ false = outside _ (λ i.
              let cx = is_between-IsCut px 320 x width hx (&&-true _ _ i).0 in
              let cy = is_between-IsCut py 240 y height hy (&&-true _ _ i).1 in
              ground (arith, e, cx.real, cy.real)) in
            rw (e, out) v
        | inr e ↦
            elim (Bool-cases (
              leb (min 320 (pos_part (x +ℤ width))) (pos_part x)
              || leb (min 240 (pos_part (y +ℤ height))) (pos_part y))) [
                | inl o ↦
                    let out : is_inside x y width height ≡ false = outside _ (λ i.
                      let cx = is_between-IsCut px 320 x width hx (&&-true _ _ i).0 in
                      let cy = is_between-IsCut py 240 y height hy (&&-true _ _ i).1 in
                      ground (arith, o, cx.begun, cx.ended, cy.begun, cy.ended)) in
                    rw (e, o, out) v
                | inr o ↦
                    rw (e, o)
                      (marked-IsValid (is_inside x y width height) _ _ _ _ d (advance modulus g)
                        (advance-IsAdvanced d g two v)
                        (λ i.
                          let cx = is_between-IsCut px 320 x width hx (&&-true _ _ i).0 in
                          let cy = is_between-IsCut py 240 y height hy (&&-true _ _ i).1 in
                          let tx = tiles_of-in _ _ px cx.begun cx.ended in
                          let ty = tiles_of-in _ _ py cy.begun cy.ended in
                          mark_rows-in _ _ _ _ _ _ (py / 16) (px / 16) ty.0 ty.1 tx.0 tx.1))
              ]
      ]

  step-IsValid :
      (c : Call) (d : Bool) (g : TileGenerations)
      → 2 ≤ modulus
      → px < 320
      → py < 240
      → IsValid d g
      → IsValid (damaged_after c d) (step c g)
  unfolding step damaged_after
  step-IsValid invalidates_all d g two hx hy v = invalidate_all-IsValid d g two v
  step-IsValid (invalidates x y width height) d g two hx hy v =
      invalidate_rect-IsValid x y width height d g two hx hy v
  step-IsValid (renders b t) d g two hx hy v = rendered-IsValid b t d g v

  unfoldable pub run : List Call → TileGenerations → TileGenerations
  run [] g = g
  run (c ∷ cs) g = run cs (step c g)

  unfoldable pub damaged_by : List Call → Bool → Bool
  damaged_by [] d = d
  damaged_by (c ∷ cs) d = damaged_by cs (damaged_after c d)

  run-IsValid :
      (cs : List Call) (d : Bool) (g : TileGenerations)
      → 2 ≤ modulus
      → px < 320
      → py < 240
      → IsValid d g
      → IsValid (damaged_by cs d) (run cs g)
  unfolding run damaged_by
  run-IsValid [] d g two hx hy v = v
  run-IsValid (c ∷ cs) d g two hx hy v =
      run-IsValid cs (damaged_after c d) (step c g) two hx hy (step-IsValid c d g two hx hy v)

  -- From the constructor, after any calls, whether the generations wrap around or not: a pixel of the picture that some call has invalidated, alone or in a rectangle that may reach
  -- beyond the picture, since its tile was last rendered into a buffer, or whose tile has never been,
  -- is in a tile that this buffer needs rendered.
  pub run-needs_render :
      (cs : List Call)
      → 2 ≤ modulus
      → buffer < 3
      → px < 320
      → py < 240
      → damaged_by cs true ≡ true
      → needs_render buffer tile (run cs created) ≡ true
  unfolding needs_render
  run-needs_render cs two hb hx hy d =
      let v = run-IsValid cs true created two hx hy (record {
        positive = omega arith;
        fits = omega arith;
        before = omega arith;
        drawn = omega arith;
        differs = λ e. omega arith;
      }) in
      let room : tile < 300 = omega arith in ground (arith, v.differs d, room)
