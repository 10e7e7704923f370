-- ===== src/FrameChannel/Tests.antt =====
-- A channel over three buffers at the addresses 10, 20 and 30.
use x68k_stackchan.Base.{◌≡◌, refl, true, false, arith, none, List, [], ◌∷◌}
use x68k_stackchan.FrameChannel.{
  FrameChannel, free, begin, step, run, take, publish, try_write_buffer, Call, try_write,
  publish_frame, take_frame, done_frame, first_free, has_transfer, find_oldest, clear_transfer,
  done,
}
use x68k_stackchan.FrameChannel.Order.{
  IsExclusive, run-IsExclusive, shown-Increasing-begin, Increasing, shown, oldest_seq,
}

abbrev raw : FrameChannel
raw = record {
  mutex = false;
  buffers = λ i. 0;
  slots = λ i. free;
  ready_seq = λ i. 0;
  next_seq = 1;
  writing_index = none;
}

-- Two frames are written and shown, the second while the first is on its way.
abbrev two_frames : List Call
two_frames =
    try_write ∷ publish_frame ∷ take_frame ∷ try_write ∷ publish_frame ∷ take_frame ∷ done_frame
    ∷ take_frame ∷ []

begun : (begin true 10 20 30 raw).1 ≡ true
unfolding begin
begun = refl

refused : (begin true 10 20 10 raw).1 ≡ false
unfolding begin
refused = refl

two_shown : shown two_frames (begin true 10 20 30 raw).0 ≡ 1 ∷ 2 ∷ []
unfolding shown begin step try_write_buffer publish take done first_free has_transfer find_oldest
    clear_transfer oldest_seq
two_shown = refl

run-IsExclusive_example : IsExclusive (run two_frames (begin true 10 20 30 raw).0)
run-IsExclusive_example = run-IsExclusive 10 20 30 raw two_frames begun (omega arith)

shown-Increasing-begin_example : Increasing 0 (shown two_frames (begin true 10 20 30 raw).0)
shown-Increasing-begin_example = shown-Increasing-begin 10 20 30 raw two_frames begun (omega arith)
