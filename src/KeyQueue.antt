-- ===== src/KeyQueue.antt =====
-- src/x68k/platform/key_queue.{h,cpp}, class KeyQueue, and src/x68k/core/io/ascii_keymap.cpp: keys
-- typed on the display core, sent one by one to the emulated machine.
pub mod Order
pub mod Progress
mod Tests
use x68k_stackchan.Base.{
  ℕ, zero, suc, ◌+◌, ◌-◌, ◌<◌, ◌≡◌, ◌↔◌, Bool, true, false, ◌&&◌, ◌||◌, not, ltb, leb, ◌==◌,
  if◌then◌else◌, bit_and, bit_or, Option, some, none, List, [], ◌∷◌, ◌++◌,
}

-- `Event`.
pub record Event : Type 0 where
  pub code : ℕ
  pub auto_release : Bool

-- A FreeRTOS queue of events. `send` without waiting has no value when the queue is full, `receive`
-- none when it is empty; `content` is what the queue holds, oldest first.
pub record EventQueue : Type 1 where
  pub Q : Type 0
  pub content : Q → List Event
  pub send : Event → Q → Option Q
  pub receive : Q → Option (Event × Q)
  pub sent : {e : Event} {q q' : Q} → send e q ≡ some q' → content q' ≡ content q ++ e ∷ []
  pub received : {e : Event} {q q' : Q} → receive q ≡ some (e, q') → content q ≡ e ∷ content q'
  pub empty : {q : Q} → receive q ≡ none → content q ≡ []

-- `strchr` in a row of the keyboard, as an index.
unfoldable pub index_in : List ℕ → ℕ → Option ℕ
index_in [] c = none
index_in (x ∷ xs) c =
    let rest : Option ℕ = elim (index_in xs c) [ none ↦ none | some i ↦ some (suc i) ] in
    if x == c then some 0 else rest

abbrev pub row1 : List ℕ
row1 = 49 ∷ 50 ∷ 51 ∷ 52 ∷ 53 ∷ 54 ∷ 55 ∷ 56 ∷ 57 ∷ 48 ∷ 45 ∷ 94 ∷ 92 ∷ []

abbrev pub row2 : List ℕ
row2 = 113 ∷ 119 ∷ 101 ∷ 114 ∷ 116 ∷ 121 ∷ 117 ∷ 105 ∷ 111 ∷ 112 ∷ 64 ∷ 91 ∷ []

abbrev pub row3 : List ℕ
row3 = 97 ∷ 115 ∷ 100 ∷ 102 ∷ 103 ∷ 104 ∷ 106 ∷ 107 ∷ 108 ∷ 59 ∷ 58 ∷ 93 ∷ []

abbrev pub row4 : List ℕ
row4 = 122 ∷ 120 ∷ 99 ∷ 118 ∷ 98 ∷ 110 ∷ 109 ∷ 44 ∷ 46 ∷ 47 ∷ []

-- The code in a row whose first key has the code `base`, or the answer of the rows below.
abbrev pub in_row : ℕ → List ℕ → ℕ → ℕ → ℕ
in_row base row c below = elim (index_in row c) [ some i ↦ base + i | none ↦ below ]

unfoldable pub ascii_to_scan_code : ℕ → ℕ
ascii_to_scan_code char =
    let c = if leb 65 char && leb char 90 then char - 65 + 97 else char in
    let space = if c == 32 then 0x35 else if c == 10 || c == 13 then 0x1D else 0 in
    if c == 0
    then 0
    else in_row 0x02 row1 c (in_row 0x11 row2 c (in_row 0x1E row3 c (in_row 0x2A row4 c space)))

abbrev pub steps_per_event : ℕ
steps_per_event = 4

module _ (queues : EventQueue) where
  open queues use {Q, send, receive}

  -- The members; `queue_` is `none` before `begin` and when it fails.
  pub record KeyQueue : Type 0 where
    pub queue : Option Q
    pub steps_left : ℕ
    pub pending_release : ℕ

  -- `begin()`: `created` is what `xQueueCreate` returns.
  unfoldable pub begin : Option Q → KeyQueue → KeyQueue
  begin created k = record k { queue = created }

  -- What is left after `xQueueSend`, which gave a queue if there was room, and whether there was.
  abbrev pub enqueued : KeyQueue → Option Q → KeyQueue × Bool
  enqueued k (some q') = (record k { queue = some q' }, true)
  enqueued k none = (k, false)

  -- `pushScan(code)` with the queue found.
  abbrev pub push_scan_to : ℕ → KeyQueue → Option Q → KeyQueue × Bool
  push_scan_to code k none = (k, false)
  push_scan_to code k (some q) =
      if bit_and code 0x7F == 0
      then (k, false)
      else enqueued k (send (record { code = code; auto_release = false }) q)

  unfoldable pub push_scan : ℕ → KeyQueue → KeyQueue × Bool
  push_scan code k = push_scan_to code k k.queue

  -- The body of `push(c)`, with whether the queue took the event, which the code does not look at.
  abbrev pub push_to : ℕ → KeyQueue → Option Q → KeyQueue × Bool
  push_to c k none = (k, false)
  push_to c k (some q) =
      if ascii_to_scan_code c == 0
      then (k, false)
      else enqueued k (send (record { code = ascii_to_scan_code c; auto_release = true }) q)

  unfoldable pub push : ℕ → KeyQueue → KeyQueue
  push c k = (push_to c k k.queue).0

  -- The end of `drain()`: the event that `receive` gave.
  abbrev pub press : KeyQueue → Option (Event × Q) → KeyQueue × Option ℕ
  press k none = (k, none)
  press k (some (e, q)) = (
    record {
      queue = some q;
      pending_release = if e.auto_release then e.code else 0;
      steps_left = steps_per_event;
    },
    some e.code,
  )

  -- `drain()` with the queue found: the state, and the code given to `Machine::pressKey` if one is.
  abbrev pub drain_from : KeyQueue → Option Q → KeyQueue × Option ℕ
  drain_from k none = (k, none)
  drain_from k (some q) =
      if ltb 0 k.steps_left
      then (record k { steps_left = k.steps_left - 1 }, none)
      else if not (k.pending_release == 0)
      then (
        record k { pending_release = 0; steps_left = steps_per_event },
        some (bit_or k.pending_release 0x80),
      )
      else press k (receive q)

  unfoldable pub drain : KeyQueue → KeyQueue × Option ℕ
  drain k = drain_from k k.queue
