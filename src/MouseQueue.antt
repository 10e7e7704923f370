-- ===== src/MouseQueue.antt =====
-- src/x68k/platform/key_queue.{h,cpp}, class MouseQueue: the mouse's motion, summed up by the display
-- core and sent as reports to the SCC.
pub mod World
pub mod Motion
pub mod Delivery
mod Tests
use x68k_stackchan.Base.{ℕ, suc, Bool, true, false, ◌||◌, not, ◌==◌, bool_eq, if◌then◌else◌}
use x68k_stackchan.Base.Int.{ℤ, pos, negsuc, ◌+ℤ◌}
use x68k_stackchan.Scc.{Scc, move_mouse}

-- The members. `mutex` is that `begin` has made the mutex; an `int` is an integer, since a sum that
-- leaves the 32 bits has no meaning in the source.
pub record MouseQueue : Type 0 where
  pub mutex : Bool
  pub pending_dx : ℤ
  pub pending_dy : ℤ
  pub left_button : Bool
  pub right_button : Bool
  pub sent_left_button : Bool
  pub sent_right_button : Bool

-- What `drain` takes out under the mutex.
pub record Taken : Type 0 where
  pub dx : ℤ
  pub dy : ℤ
  pub left : Bool
  pub right : Bool

-- `begin()`: `created` is whether `xSemaphoreCreateMutex` gives one.
unfoldable pub begin : Bool → MouseQueue → MouseQueue
begin created q = record q { mutex = created }

unfoldable pub push : ℤ → ℤ → Bool → Bool → MouseQueue → MouseQueue
push dx dy left_button right_button q = if not q.mutex then q else record q {
  pending_dx = q.pending_dx +ℤ dx;
  pending_dy = q.pending_dy +ℤ dy;
  left_button = left_button;
  right_button = right_button;
}

-- The first critical section of `drain`.
abbrev pub taken : MouseQueue → Taken
taken q = record {
  dx = q.pending_dx;
  dy = q.pending_dy;
  left = q.left_button;
  right = q.right_button;
}

abbrev pub emptied : MouseQueue → MouseQueue
emptied q = record q { pending_dx = pos 0; pending_dy = pos 0 }

abbrev pub is_zero : ℤ → Bool
is_zero (pos n) = n == 0
is_zero (negsuc n) = false

-- `hasMotion || hasButtonChange`.
unfoldable pub has_news : Taken → MouseQueue → Bool
has_news t q =
    (not (is_zero t.dx) || not (is_zero t.dy))
    || (not (bool_eq t.left q.sent_left_button) || not (bool_eq t.right q.sent_right_button))

-- What `drain` does after a report is accepted, and its second critical section after one is refused.
abbrev pub delivered : Taken → MouseQueue → MouseQueue
delivered t q = record q { sent_left_button = t.left; sent_right_button = t.right }

abbrev pub put_back : Taken → MouseQueue → MouseQueue
put_back t q = record q { pending_dx = q.pending_dx +ℤ t.dx; pending_dy = q.pending_dy +ℤ t.dy }

-- `drain()` with no other call in between: the queue, the SCC and whether a report was accepted.
abbrev pub drain_ready : MouseQueue → Scc → MouseQueue × Scc × Bool
drain_ready q s =
    let t = taken q in
    let answer = move_mouse t.dx t.dy t.left t.right s in
    if not (has_news t (emptied q))
    then (emptied q, s, false)
    else if answer.0
    then (delivered t (emptied q), answer.1, true)
    else (put_back t (emptied q), answer.1, false)

unfoldable pub drain : MouseQueue → Scc → MouseQueue × Scc × Bool
drain q s = if not q.mutex then (q, s, false) else drain_ready q s
