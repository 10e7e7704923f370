-- ===== src/FrameChannel.antt =====
-- src/x68k/platform/frame_channel.{h,cpp}: finished frames from the emulating core to the display
-- core, through three buffers. Each method runs under the mutex, so a call is one step. A pointer is
-- a number with 0 for `nullptr`, an array a function of its index, and `writingIndex_` is -1 as
-- `none`. `begin` takes from outside whether `xSemaphoreCreateMutex` succeeds.
pub mod Scan
pub mod Inv
pub mod Order
mod Tests
use x68k_stackchan.Base.{
  ℕ, zero, suc, ◌+◌, Bool, true, false, ◌||◌, not, u32, ltb, ◌==◌, if◌then◌else◌, update, Option,
  some, none, List, [], ◌∷◌,
}

pub data Slot : Type 0 where
  free writing ready in_transfer : Slot

abbrev pub is_free : Slot → Bool
is_free free = true
is_free _ = false

abbrev pub is_ready : Slot → Bool
is_ready ready = true
is_ready _ = false

abbrev pub is_in_transfer : Slot → Bool
is_in_transfer in_transfer = true
is_in_transfer _ = false

pub record FrameChannel : Type 0 where
  pub mutex : Bool
  pub buffers : ℕ → ℕ
  pub slots : ℕ → Slot
  pub ready_seq : ℕ → ℕ
  pub next_seq : ℕ
  pub writing_index : Option ℕ

abbrev pub buffer_count : ℕ
buffer_count = 3

unfoldable pub begin : Bool → ℕ → ℕ → ℕ → FrameChannel → FrameChannel × Bool
begin created a b c f =
    if a == 0 || b == 0 || c == 0 || (a == b || b == c || a == c) || f.mutex
    then (f, false)
    else if not created
    then (f, false)
    else (
      record {
        mutex = true;
        buffers = update (update (update f.buffers 0 a) 1 b) 2 c;
        slots = update (update (update f.slots 0 free) 1 free) 2 free;
        ready_seq = update (update (update f.ready_seq 0 0) 1 0) 2 0;
        next_seq = 1;
        writing_index = none;
      },
      true,
    )

unfoldable pub write_buffer : FrameChannel → ℕ
write_buffer f = if f.mutex then elim f.writing_index [ some i ↦ f.buffers i | none ↦ 0 ] else 0

-- The scans of the three slots; the first number is the slots left, the second the index.
unfoldable pub first_free : (ℕ → Slot) → ℕ → ℕ → Option ℕ
first_free slots zero i = none
first_free slots (suc left) i =
    let rest = first_free slots left (i + 1) in if is_free (slots i) then some i else rest

unfoldable pub has_transfer : (ℕ → Slot) → ℕ → ℕ → Bool
has_transfer slots zero i = false
has_transfer slots (suc left) i = is_in_transfer (slots i) || has_transfer slots left (i + 1)

-- `oldest < 0 || readySeq_[i] < readySeq_[oldest]`.
abbrev pub is_older : (ℕ → ℕ) → ℕ → Option ℕ → Bool
is_older seq i none = true
is_older seq i (some o) = ltb (seq i) (seq o)

unfoldable pub find_oldest : (ℕ → Slot) → (ℕ → ℕ) → ℕ → ℕ → Option ℕ → Option ℕ
find_oldest slots seq zero i oldest = oldest
find_oldest slots seq (suc left) i oldest =
    find_oldest slots seq left (i + 1)
      (if is_ready (slots i) then (if is_older seq i oldest then some i else oldest) else oldest)

unfoldable pub clear_transfer : ℕ → ℕ → (ℕ → Slot) → ℕ → Slot
clear_transfer zero i slots = slots
clear_transfer (suc left) i slots =
    clear_transfer left (i + 1) (if is_in_transfer (slots i) then update slots i free else slots)

abbrev pub lend : FrameChannel → Option ℕ → FrameChannel × ℕ
lend f none = (f, 0)
lend f (some i) =
    (record f { slots = update f.slots i writing; writing_index = some i }, f.buffers i)

abbrev pub try_write_under : FrameChannel → Option ℕ → FrameChannel × ℕ
try_write_under f (some i) = (f, f.buffers i)
try_write_under f none = lend f (first_free f.slots buffer_count 0)

unfoldable pub try_write_buffer : FrameChannel → FrameChannel × ℕ
try_write_buffer f = if f.mutex then try_write_under f f.writing_index else (f, 0)

abbrev pub publish_at : FrameChannel → Option ℕ → FrameChannel × Bool
publish_at f none = (f, false)
publish_at f (some i) = (
  record f {
    slots = update f.slots i ready;
    ready_seq = update f.ready_seq i f.next_seq;
    next_seq = u32 (f.next_seq + 1);
    writing_index = none;
  },
  true,
)

unfoldable pub publish : FrameChannel → FrameChannel × Bool
publish f = if f.mutex then publish_at f f.writing_index else (f, false)

abbrev pub hand_over : FrameChannel → Option ℕ → FrameChannel × ℕ
hand_over f none = (f, 0)
hand_over f (some i) = (record f { slots = update f.slots i in_transfer }, f.buffers i)

unfoldable pub take : FrameChannel → FrameChannel × ℕ
take f =
    if not f.mutex
    then (f, 0)
    else if has_transfer f.slots buffer_count 0
    then (f, 0)
    else hand_over f (find_oldest f.slots f.ready_seq buffer_count 0 none)

unfoldable pub done : FrameChannel → FrameChannel
done f = if f.mutex then record f { slots = clear_transfer buffer_count 0 f.slots } else f

-- A call by either core.
pub data Call : Type 0 where
  try_write publish_frame take_frame done_frame : Call

unfoldable pub step : Call → FrameChannel → FrameChannel
step try_write f = (try_write_buffer f).0
step publish_frame f = (publish f).0
step take_frame f = (take f).0
step done_frame f = done f

unfoldable pub run : List Call → FrameChannel → FrameChannel
run [] f = f
run (c ∷ cs) f = run cs (step c f)
