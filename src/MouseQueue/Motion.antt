-- ===== src/MouseQueue/Motion.antt =====
-- No motion of the mouse is lost or made up between `push` and the reports that the SCC accepts.
use x68k_stackchan.Base.{
  ◌≡◌, refl, sym, ap, ◌∙◌, true, false, arith, if◌then◌else◌, Bool-cases, inl, inr, List, [], ◌∷◌,
  ◌++◌,
}
use x68k_stackchan.Base.Int.{ℤ, pos, negsuc, ◌+ℤ◌, int_laws}
use x68k_stackchan.Scc.{move_mouse}
use x68k_stackchan.MouseQueue.{MouseQueue, Taken, push, is_zero, has_news}
use x68k_stackchan.MouseQueue.World.{
  Phase, outside, took, refused, World, send, Move, pushes, takes, sends, puts_back, calls, Moves,
  done, next, accepted_at,
}

+ℤ_zero : (a : ℤ) → a +ℤ pos 0 ≡ a
+ℤ_zero a = grind int_laws

zero_+ℤ : (a : ℤ) → pos 0 +ℤ a ≡ a
zero_+ℤ a = grind int_laws

+ℤ_comm : (a b : ℤ) → a +ℤ b ≡ b +ℤ a
+ℤ_comm a b = grind int_laws

+ℤ_assoc : (a b c : ℤ) → (a +ℤ b) +ℤ c ≡ a +ℤ (b +ℤ c)
+ℤ_assoc a b c = grind int_laws

+ℤ_swap : (a b c : ℤ) → (a +ℤ b) +ℤ c ≡ (a +ℤ c) +ℤ b
+ℤ_swap a b c = grind int_laws

flow_sum :
    (a b c o os n ns : ℤ) → o +ℤ b ≡ a +ℤ n → os +ℤ c ≡ b +ℤ ns → (o +ℤ os) +ℤ c ≡ a +ℤ (n +ℤ ns)
flow_sum a b c o os n ns p q =
    +ℤ_assoc o os c
    ∙ ap (λ (t : ℤ). o +ℤ t) q
    ∙ sym (+ℤ_assoc o b ns)
    ∙ ap (λ (t : ℤ). t +ℤ ns) p
    ∙ +ℤ_assoc a n ns

-- The two axes of a motion.
pub data Axis : Type 0 where
  across : Axis
  down : Axis

abbrev pub along : Axis → ℤ → ℤ → ℤ
along across dx dy = dx
along down dx dy = dy

along-add :
    (a : Axis) (dx dx' dy dy' : ℤ)
    → along a (dx +ℤ dx') (dy +ℤ dy') ≡ along a dx dy +ℤ along a dx' dy'
along-add across dx dx' dy dy' = refl
along-add down dx dx' dy dy' = refl

along-zero : (a : Axis) → along a (pos 0) (pos 0) ≡ pos 0
along-zero across = refl
along-zero down = refl

-- The motion still to be reported: what is summed up and what `drain` has in its hands.
abbrev flight : Axis → Phase → ℤ
flight a outside = pos 0
flight a (took t) = along a t.dx t.dy
flight a (refused t) = along a t.dx t.dy

abbrev pub outstanding : Axis → World → ℤ
outstanding a w = along a w.queue.pending_dx w.queue.pending_dy +ℤ flight a w.phase

-- The reports accepted and the motion pushed at a move; without a mutex `push` does nothing.
unfoldable pub accepted : {w w' : World} → Move w w' → List Taken
accepted (sends {w = w} t e) = accepted_at t w
accepted (pushes dx dy l r) = []
accepted (takes e m) = []
accepted (puts_back t e) = []
accepted (calls c) = []

unfoldable pub pushed : {w w' : World} → Axis → Move w w' → ℤ
pushed a (pushes {w = w} dx dy l r) = if w.queue.mutex then along a dx dy else pos 0
pushed a (takes e m) = pos 0
pushed a (sends t e) = pos 0
pushed a (puts_back t e) = pos 0
pushed a (calls c) = pos 0

abbrev pub sum_along : Axis → List Taken → ℤ
sum_along a [] = pos 0
sum_along a (t ∷ ts) = along a t.dx t.dy +ℤ sum_along a ts

ruleset zeros = (+ℤ_zero, zero_+ℤ)

is_zero_lem : (v : ℤ) → is_zero v ≡ true → v ≡ pos 0
is_zero_lem (pos n) h = ap pos (ground (arith, h))
is_zero_lem (negsuc n) h = cc

-- With no motion there is nothing that a report would have told.
has_news-along :
    (a : Axis) (t : Taken) (q : MouseQueue) → has_news t q ≡ false → along a t.dx t.dy ≡ pos 0
unfolding has_news
has_news-along across t q h = is_zero_lem t.dx (ground (arith, h))
has_news-along down t q h = is_zero_lem t.dy (ground (arith, h))

unmoved : (o : ℤ) → pos 0 +ℤ o ≡ o +ℤ pos 0
unmoved o = +ℤ_comm (pos 0) o

send-motion :
    (a : Axis) (t : Taken) (w : World)
    → sum_along a (accepted_at t w) +ℤ outstanding a (send t w)
      ≡ along a w.queue.pending_dx w.queue.pending_dy +ℤ along a t.dx t.dy
send-motion a t w = elim (Bool-cases (has_news t w.queue)) [
  | inl n ↦ elim (Bool-cases (move_mouse t.dx t.dy t.left t.right w.scc).0) [
    | inl m ↦ rw (n, m) (simp zeros (+ℤ_comm _ _))
    | inr m ↦ rw (n, m) (zero_+ℤ _)
  ]
  | inr n ↦ rw (n, has_news-along a t w.queue n) (simp zeros refl)
]

step-motion :
    (a : Axis) {w w' : World} (m : Move w w')
    → sum_along a (accepted m) +ℤ outstanding a w' ≡ outstanding a w +ℤ pushed a m
unfolding accepted pushed push
step-motion a (pushes {w = w} dx dy l r) = elim (Bool-cases w.queue.mutex) [
  | inl m ↦ rw m (
      zero_+ℤ _
      ∙ ap (λ (t : ℤ). t +ℤ flight a w.phase)
          (along-add a w.queue.pending_dx dx w.queue.pending_dy dy)
      ∙ +ℤ_swap _ _ _)
  | inr m ↦ rw m (unmoved (outstanding a w))
]
step-motion a (takes {w = w} e m) = rw (e, along-zero a) (simp zeros refl)
step-motion a (sends {w = w} t e) =
    send-motion a t w
    ∙ ap (λ p. along a w.queue.pending_dx w.queue.pending_dy +ℤ flight a p) (sym e)
    ∙ sym (+ℤ_zero _)
step-motion a (puts_back {w = w} t e) =
    rw (e, along-add a w.queue.pending_dx t.dx w.queue.pending_dy t.dy) (simp zeros refl)
step-motion a (calls {w = w} c) = unmoved (outstanding a w)

-- The same of several moves.
unfoldable pub all_accepted : {w w' : World} → Moves w w' → List Taken
all_accepted done = []
all_accepted (next m ms) = accepted m ++ all_accepted ms

unfoldable pub all_pushed : {w w' : World} → Axis → Moves w w' → ℤ
all_pushed a done = pos 0
all_pushed a (next m ms) = pushed a m +ℤ all_pushed a ms

sum_along-append :
    (a : Axis) (ts us : List Taken) → sum_along a (ts ++ us) ≡ sum_along a ts +ℤ sum_along a us
sum_along-append a [] us = sym (zero_+ℤ _)
sum_along-append a (t ∷ ts) us =
    ap (λ (n : ℤ). along a t.dx t.dy +ℤ n) (sum_along-append a ts us) ∙ sym (+ℤ_assoc _ _ _)

-- However pushes, the parts of `drain` and the other calls of the SCC are interleaved: along each
-- axis, the motion of the accepted reports, before it is cut off to a byte, with the motion that is
-- then still summed up or in the hands of `drain`, is the motion that was there and the motion pushed.
pub moves-motion :
    (a : Axis) {w w' : World} (ms : Moves w w')
    → sum_along a (all_accepted ms) +ℤ outstanding a w' ≡ outstanding a w +ℤ all_pushed a ms
unfolding all_accepted all_pushed
moves-motion a (done {w = w}) = unmoved (outstanding a w)
moves-motion a (next {w = w} {w' = w1} {w'' = w2} m ms) =
    ap (λ (n : ℤ). n +ℤ outstanding a w2) (sum_along-append a (accepted m) (all_accepted ms))
    ∙ flow_sum (outstanding a w) (outstanding a w1) (outstanding a w2) (sum_along a (accepted m))
        (sum_along a (all_accepted ms)) (pushed a m) (all_pushed a ms) (step-motion a m)
        (moves-motion a ms)
