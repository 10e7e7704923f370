-- ===== src/MouseQueue/Tests.antt =====
-- A stroke of the mouse that meets a push in the middle of a `drain` that is refused.
use x68k_stackchan.Base.{◌≡◌, refl, true, false, arith, ◌==◌, if◌then◌else◌, [], ◌∷◌, ◌++◌}
use x68k_stackchan.Base.Int.{pos, negsuc, ◌+ℤ◌}
use x68k_stackchan.Scc.{
  Scc, reset, reset_channel, move_mouse, push_rx_byte, refreshed, is_mouse_enabled, is_mode_enabled,
  saturate_delta,
}
use x68k_stackchan.Scc.Fifo.{contents, report}
use x68k_stackchan.MouseQueue.{MouseQueue, push, taken, has_news, drain}
use x68k_stackchan.MouseQueue.World.{outside, World, pushes, Moves, done, next}
use x68k_stackchan.MouseQueue.Motion.{
  across, all_accepted, all_pushed, sum_along, outstanding, moves-motion,
}
use x68k_stackchan.MouseQueue.Delivery.{drain-delivers}

abbrev waiting : MouseQueue
waiting = record {
  mutex = true;
  pending_dx = pos 200;
  pending_dy = negsuc 2;
  left_button = true;
  right_button = false;
  sent_left_button = false;
  sent_right_button = false;
}

abbrev enabled : Scc
enabled = record {
  ch = λ channel. record reset_channel {
    wr = λ reg. if reg == 3 then 0x01 else if reg == 5 then 0x02 else 0;
  };
  shared_wr = λ reg. 0;
}

abbrev off : World
off = record { queue = waiting; scc = reset; phase = outside }

refused_drain : (drain waiting reset).0 ≡ waiting
unfolding drain has_news move_mouse is_mouse_enabled ◌+ℤ◌
refused_drain = refl

-- The motion of 200 is one report of 127, and counts as sent.
fast_stroke :
    ((drain waiting enabled).0.pending_dx ≡ pos 0)
    × (contents ((drain waiting enabled).1.ch 0) ≡ 2 ∷ 127 ∷ 253 ∷ [])
unfolding drain has_news move_mouse push_rx_byte refreshed is_mouse_enabled is_mode_enabled
    saturate_delta
fast_stroke = (refl, refl)

abbrev pushed_once : World
pushed_once = record {
  queue = push (pos 7) (pos 1) false true waiting;
  scc = reset;
  phase = outside;
}

abbrev stroke : Moves off pushed_once
stroke = next (pushes (pos 7) (pos 1) false true) done

moves-motion_example :
    sum_along across (all_accepted stroke) +ℤ outstanding across pushed_once
    ≡ outstanding across off +ℤ all_pushed across stroke
moves-motion_example = moves-motion across stroke

mouse_on : is_mouse_enabled enabled ≡ true
unfolding is_mouse_enabled
mouse_on = refl

drain-delivers_example :
    ((drain waiting enabled).0.pending_dx ≡ pos 0)
    × ((drain waiting enabled).0.pending_dy ≡ pos 0)
    × ((drain waiting enabled).0.sent_left_button ≡ true)
    × ((drain waiting enabled).0.sent_right_button ≡ false)
    × (contents ((drain waiting enabled).1.ch 0)
        ≡ contents (enabled.ch 0)
          ++ (if has_news (taken waiting) waiting
              then report (pos 200) (negsuc 2) true false
              else []))
drain-delivers_example = drain-delivers waiting enabled refl mouse_on (omega arith)
