-- ===== src/Video/Edge.antt =====
-- The vertical blanking: when it is reported, and when it is announced.
use x68k_stackchan.Base.{
  ℕ, ◌+◌, ◌-◌, ◌%◌, ◌<◌, ◌≤◌, ◌≡◌, refl, sym, subst, ap, ◌∙◌, arith, Bool, true, false, ◌||◌, not,
  leb, bool_eq, bool_eq-eq, if◌then◌else◌, Bool-cases, inl, inr, u32,
}
use x68k_stackchan.Video.{
  Crtc, cycles_per_frame, vblank_begin, raster_count, arrived, moved, tick_slow, tick_fast,
  cycles_until_vblank_edge, raster_number,
}

-- The place in the frame is in range, and the blanking is what that place has.
pub record IsValid (c : Crtc) : Type 0 where
  pub inside : c.frame_cycles < cycles_per_frame
  pub blanks : c.in_vblank ≡ leb vblank_begin c.frame_cycles

-- Some cycles later, with what the tick reports.
pub record IsLater (cycles : ℕ) (c : Crtc) (out : Bool × Crtc) : Type 0 where
  pub valid : IsValid out.1
  pub place : out.1.frame_cycles ≡ (c.frame_cycles + cycles) % cycles_per_frame
  pub report : out.0 ≡ not (bool_eq out.1.in_vblank c.in_vblank)
  pub kept : out.1.reg ≡ c.reg

place_lem :
    (cycles frame : ℕ)
    → frame < 180342
    → cycles < 180342
    → (if leb 180342 (u32 (frame + cycles))
        then u32 (frame + cycles) - 180342
        else u32 (frame + cycles))
      ≡ (frame + cycles) % 180342
place_lem cycles frame f l = ground (arith, f, l)

arrived-IsLater :
    (cycles frame : ℕ) (c : Crtc)
    → frame < cycles_per_frame
    → frame ≡ (c.frame_cycles + cycles) % cycles_per_frame
    → IsLater cycles c (arrived frame c)
arrived-IsLater cycles frame c l e =
    elim (Bool-cases (bool_eq (leb vblank_begin frame) c.in_vblank)) [
      | inl s ↦
          let same : leb vblank_begin frame ≡ c.in_vblank = bool_eq-eq _ _ s in
          let self : bool_eq c.in_vblank c.in_vblank ≡ true = ground arith in
          rw s (record {
            valid = record { inside = l; blanks = sym same };
            place = e;
            report = rw self refl;
            kept = refl;
          })
      | inr s ↦ rw s (record {
        valid = record { inside = l; blanks = refl };
        place = e;
        report = rw s refl;
        kept = refl;
      })
    ]

moved-IsLater :
    (cycles : ℕ) (c : Crtc)
    → c.frame_cycles < cycles_per_frame
    → cycles < cycles_per_frame
    → IsLater cycles c (moved cycles c)
moved-IsLater cycles c f l =
    let p = place_lem cycles c.frame_cycles f l in arrived-IsLater cycles _ c (omega (arith, p)) p

-- Both instances of `tickFast` do the same to every state.
tick_fast-tick_slow :
    (fast : Bool) (cycles : ℕ) (c : Crtc) → tick_fast fast cycles c ≡ tick_slow cycles c
unfolding tick_fast tick_slow
tick_fast-tick_slow fast cycles c = elim (Bool-cases (not fast || leb cycles_per_frame cycles)) [
  | inl e ↦ rw e refl
  | inr e ↦
      let short : cycles ≡ cycles % cycles_per_frame = ground (arith, e) in
      rw e (ap (λ (n : ℕ). moved n c) short)
]

-- For a place within the frame and any number of cycles, both instances of `tickFast` lead to the place
-- that many cycles on, modulo the frame, and to the blanking of that place; they report whether the
-- blanking is another one than before, and leave the registers.
pub tick_fast-IsLater :
    (fast : Bool) (cycles : ℕ) (c : Crtc)
    → c.frame_cycles < cycles_per_frame
    → IsLater cycles c (tick_fast fast cycles c)
unfolding tick_slow
tick_fast-IsLater fast cycles c f =
    let m = moved-IsLater (cycles % cycles_per_frame) c f (omega arith) in
    subst (IsLater cycles c) (sym (tick_fast-tick_slow fast cycles c))
      (record { valid = m.valid; place = omega (arith, m.place); report = m.report; kept = m.kept })

-- The report of a tick.
reports :
    (fast : Bool) (cycles : ℕ) (c : Crtc)
    → IsValid c
    → (tick_fast fast cycles c).0
      ≡ not (
          bool_eq
            (leb vblank_begin ((c.frame_cycles + cycles) % cycles_per_frame))
            (leb vblank_begin c.frame_cycles))
reports fast cycles c v =
    let l = tick_fast-IsLater fast cycles c v.inside in
    l.report
    ∙ ap (λ (b : Bool). not (bool_eq b c.in_vblank))
        (l.valid.blanks ∙ ap (λ (n : ℕ). leb vblank_begin n) l.place)
    ∙ ap
        (λ (b : Bool).
          not (bool_eq (leb vblank_begin ((c.frame_cycles + cycles) % cycles_per_frame)) b))
        v.blanks

edge_of :
    (c : Crtc)
    → IsValid c
    → cycles_until_vblank_edge c ≡ (
        if leb vblank_begin c.frame_cycles
        then cycles_per_frame - c.frame_cycles
        else vblank_begin - c.frame_cycles)
unfolding cycles_until_vblank_edge
edge_of c v = rw v.blanks (ground arith)

no_edge :
    (frame edge cycles : ℕ)
    → frame < 180342
    → edge ≡ (if leb 162342 frame then 180342 - frame else 162342 - frame)
    → cycles < edge
    → not (bool_eq (leb 162342 ((frame + cycles) % 180342)) (leb 162342 frame)) ≡ false
no_edge frame edge cycles f e l = ground (arith, f, e, l)

at_edge :
    (frame edge : ℕ)
    → frame < 180342
    → edge ≡ (if leb 162342 frame then 180342 - frame else 162342 - frame)
    → not (bool_eq (leb 162342 ((frame + edge) % 180342)) (leb 162342 frame)) ≡ true
at_edge frame edge f e = ground (arith, f, e)

-- In a state whose place is in the frame and whose blanking is that of the place, the announcement of
-- the next edge is exact, for both instances: a tick of fewer cycles reports nothing, and one of exactly
-- as many, which is at least one and at most a frame, reports the edge.
pub cycles_until_vblank_edge-exact :
    (fast : Bool) (c : Crtc)
    → IsValid c
    → let edge = cycles_until_vblank_edge c in
      (0 < edge)
      × (edge ≤ cycles_per_frame)
      × ((cycles : ℕ) → cycles < edge → (tick_fast fast cycles c).0 ≡ false)
      × ((tick_fast fast edge c).0 ≡ true)
cycles_until_vblank_edge-exact fast c v =
    let edge = cycles_until_vblank_edge c in
    let e = edge_of c v in
    (
      ground (arith, e, v.inside),
      ground (arith, e, v.inside),
      λ cycles l. reports fast cycles c v ∙ no_edge c.frame_cycles edge cycles v.inside e l,
      reports fast edge c v ∙ at_edge c.frame_cycles edge v.inside e,
    )

-- The raster of a place in the frame is one of the 568, and the first one of a frame is number 0.
raster_number-lt : (c : Crtc) → c.frame_cycles < cycles_per_frame → raster_number c < raster_count
unfolding raster_number
raster_number-lt c f = omega (arith, f)
