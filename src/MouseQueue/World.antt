-- ===== src/MouseQueue/World.antt =====
-- The two cores at the mouse queue: `push` on one, `drain` on the other, whose two critical sections
-- and call of the SCC leave room for pushes in between, and the other calls of the SCC.
use x68k_stackchan.Base.{◌≡◌, Bool, true, not, if◌then◌else◌, List, [], ◌∷◌}
use x68k_stackchan.Base.Int.{ℤ}
use x68k_stackchan.Scc.{Scc, move_mouse}
use x68k_stackchan.Scc.Inv.{Call}
use x68k_stackchan.Scc.Inv as SccInv
use x68k_stackchan.MouseQueue.{
  MouseQueue, Taken, push, taken, emptied, has_news, delivered, put_back,
}

-- Where `drain` stands.
pub data Phase : Type 0 where
  outside : Phase
  took : Taken → Phase
  refused : Taken → Phase

pub record World : Type 0 where
  pub queue : MouseQueue
  pub scc : Scc
  pub phase : Phase

-- The part of `drain` between the critical sections.
abbrev pub send : Taken → World → World
send t w =
    let answer = move_mouse t.dx t.dy t.left t.right w.scc in
    if not (has_news t w.queue)
    then record w { phase = outside }
    else if answer.0
    then record { queue = delivered t w.queue; scc = answer.1; phase = outside }
    else record w { scc = answer.1; phase = refused t }

pub data Move : World → World → Type 0 where
  pushes :
      {w : World} (dx dy : ℤ) (l r : Bool) → Move w (record w { queue = push dx dy l r w.queue })
  takes :
      {w : World}
      → w.phase ≡ outside
      → w.queue.mutex ≡ true
      → Move w (record w { queue = emptied w.queue; phase = took (taken w.queue) })
  sends : {w : World} (t : Taken) → w.phase ≡ took t → Move w (send t w)
  puts_back :
      {w : World} (t : Taken)
      → w.phase ≡ refused t
      → Move w (record w { queue = put_back t w.queue; phase = outside })
  calls : {w : World} (c : Call) → Move w (record w { scc = SccInv.step c w.scc })

pub data Moves : World → World → Type 0 where
  done : {w : World} → Moves w w
  next : {w w' w'' : World} → Move w w' → Moves w' w'' → Moves w w''

-- A report that the SCC accepts at a move.
abbrev pub accepted_at : Taken → World → List Taken
accepted_at t w =
    if has_news t w.queue
    then if (move_mouse t.dx t.dy t.left t.right w.scc).0 then t ∷ [] else []
    else []
