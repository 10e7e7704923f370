-- ===== src/MouseQueue/Delivery.antt =====
-- What the SCC has been told of the buttons, and what one `drain` does when the SCC has room.
use x68k_stackchan.Base.{
  ◌-◌, ◌<◌, ◌≡◌, refl, sym, ap, ◌∙◌, subst, Bool, true, false, not, arith, ltb, if◌then◌else◌,
  Bool-cases, inl, inr, List, [], ◌∷◌, ◌++◌,
}
use mathlib.Core.List.{append-nil}
use x68k_stackchan.Base.Int.{ℤ, pos}
use x68k_stackchan.Scc.{Scc, move_mouse, is_mouse_enabled}
use x68k_stackchan.Scc.Fifo.{contents, report, move_mouse-contents}
use x68k_stackchan.MouseQueue.{
  MouseQueue, Taken, push, taken, emptied, has_news, delivered, drain_ready, drain,
}
use x68k_stackchan.MouseQueue.World.{
  outside, took, refused, World, send, Move, pushes, takes, sends, puts_back, calls, Moves, done,
  next, accepted_at,
}
use x68k_stackchan.MouseQueue.Motion.{accepted, all_accepted}

-- The buttons of the last report in a list, after those of an earlier one.
abbrev pub last_buttons : Bool × Bool → List Taken → Bool × Bool
last_buttons b [] = b
last_buttons b (t ∷ ts) = last_buttons (t.left, t.right) ts

abbrev pub sent_buttons : World → Bool × Bool
sent_buttons w = (w.queue.sent_left_button, w.queue.sent_right_button)

last_buttons-append :
    (b : Bool × Bool) (ts us : List Taken)
    → last_buttons b (ts ++ us) ≡ last_buttons (last_buttons b ts) us
last_buttons-append b [] us = refl
last_buttons-append b (t ∷ ts) us = last_buttons-append (t.left, t.right) ts us

send-buttons :
    (t : Taken) (w : World)
    → sent_buttons (send t w) ≡ last_buttons (sent_buttons w) (accepted_at t w)
send-buttons t w = elim (Bool-cases (has_news t w.queue)) [
  | inl n ↦ elim (Bool-cases (move_mouse t.dx t.dy t.left t.right w.scc).0) [
    | inl m ↦ rw (n, m) refl
    | inr m ↦ rw (n, m) refl
  ]
  | inr n ↦ rw n refl
]

step-buttons :
    {w w' : World} (m : Move w w') → sent_buttons w' ≡ last_buttons (sent_buttons w) (accepted m)
unfolding accepted push
step-buttons (pushes {w = w} dx dy l r) = elim (Bool-cases w.queue.mutex) [
  | inl m ↦ rw m refl
  | inr m ↦ rw m refl
]
step-buttons (takes e m) = refl
step-buttons (sends {w = w} t e) = send-buttons t w
step-buttons (puts_back t e) = refl
step-buttons (calls c) = refl

-- However the calls are interleaved, the buttons that `drain` compares with are those of the last
-- report that the SCC accepted: no refused report counts as sent.
pub moves-buttons :
    {w w' : World} (ms : Moves w w')
    → sent_buttons w' ≡ last_buttons (sent_buttons w) (all_accepted ms)
unfolding all_accepted
moves-buttons done = refl
moves-buttons (next {w = w} m ms) =
    moves-buttons ms
    ∙ ap (λ b. last_buttons b (all_accepted ms)) (step-buttons m)
    ∙ sym (last_buttons-append (sent_buttons w) (accepted m) (all_accepted ms))

drain-drain_ready : (q : MouseQueue) (s : Scc) → q.mutex ≡ true → drain q s ≡ drain_ready q s
unfolding drain
drain-drain_ready q s m = ap (λ b. if not b then (q, s, false) else drain_ready q s) m

-- `drain` as a whole is its parts with nothing in between.
pub drain-Moves :
    (w : World)
    → w.phase ≡ outside
    → w.queue.mutex ≡ true
    → Moves w
        (record { queue = (drain w.queue w.scc).0; scc = (drain w.queue w.scc).1; phase = outside })
drain-Moves w o m =
    let d = drain-drain_ready w.queue w.scc m in
    let t = taken w.queue in
    let q = emptied w.queue in
    let w1 : World = record { queue = q; scc = w.scc; phase = took t } in
    let answer = move_mouse t.dx t.dy t.left t.right w.scc in
    let sent = λ (w2 : World) (e : send t w1 ≡ w2). subst (λ v. Move w1 v) e (sends t refl) in
    elim (Bool-cases (has_news t q)) [
      | inl n ↦ elim (Bool-cases answer.0) [
        | inl a ↦
            let w2 : World = record { queue = delivered t q; scc = answer.1; phase = outside } in
            rw (d, n, a) ((next (takes o m) (next (sent w2 (rw (n, a) refl)) done)))
        | inr a ↦
            let w2 : World = record { queue = q; scc = answer.1; phase = refused t } in
            rw (d, n, a)
              ((next (takes o m) (next (sent w2 (rw (n, a) refl)) (next (puts_back t refl) done))))
      ]
      | inr n ↦
          let w2 : World = record { queue = q; scc = w.scc; phase = outside } in
          rw (d, n) ((next (takes o m) (next (sent w2 (rw n refl)) done)))
    ]

accepts :
    (dx dy : ℤ) (l r : Bool) (s : Scc)
    → is_mouse_enabled s ≡ true
    → (s.ch 0).rx_count < 6
    → (move_mouse dx dy l r s).0 ≡ true
unfolding move_mouse
accepts dx dy l r s e c =
    let room : ltb (8 - (s.ch 0).rx_count) 3 ≡ false = ground arith in rw (e, room) refl

told :
    (dx dy : ℤ) (l r : Bool) (s : Scc)
    → (move_mouse dx dy l r s).0 ≡ true
    → contents ((move_mouse dx dy l r s).1.ch 0) ≡ contents (s.ch 0) ++ report dx dy l r
told dx dy l r s a =
    move_mouse-contents dx dy l r s
    ∙ ap (λ b. contents (s.ch 0) ++ (if b then report dx dy l r else [])) a

has_news-emptied : (q : MouseQueue) → has_news (taken q) (emptied q) ≡ has_news (taken q) q
unfolding has_news
has_news-emptied q = refl

no_change :
    (q : MouseQueue)
    → has_news (taken q) q ≡ false
    → (q.sent_left_button ≡ q.left_button) × (q.sent_right_button ≡ q.right_button)
unfolding has_news
no_change q n = (ground (arith, n), ground (arith, n))

-- With room for a report in the SCC of an enabled mouse, one `drain` leaves no motion behind and the
-- SCC told of the buttons as they are; it adds one report to what waits there if there was motion or a
-- change of a button, and nothing otherwise.
pub drain-delivers :
    (q : MouseQueue) (s : Scc)
    → q.mutex ≡ true
    → is_mouse_enabled s ≡ true
    → (s.ch 0).rx_count < 6
    → let q' = (drain q s).0 in
      (q'.pending_dx ≡ pos 0)
      × (q'.pending_dy ≡ pos 0)
      × (q'.sent_left_button ≡ q.left_button)
      × (q'.sent_right_button ≡ q.right_button)
      × (contents ((drain q s).1.ch 0)
          ≡ contents (s.ch 0)
            ++ (if has_news (taken q) q
                then report q.pending_dx q.pending_dy q.left_button q.right_button
                else []))
unfolding has_news
drain-delivers q s m e c =
    let d = drain-drain_ready q s m in
    let yes_room = accepts q.pending_dx q.pending_dy q.left_button q.right_button s e c in
    let news = has_news-emptied q in
    elim (Bool-cases (has_news (taken q) q)) [
      | inl n ↦
          rw (d, news, n, yes_room)
            (
              refl,
              refl,
              refl,
              refl,
              told q.pending_dx q.pending_dy q.left_button q.right_button s yes_room,
            )
      | inr n ↦
          let same = no_change q n in
          rw (d, news, n) (refl, refl, same.0, same.1, sym (append-nil (contents (s.ch 0))))
    ]
