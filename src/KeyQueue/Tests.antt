-- ===== src/KeyQueue/Tests.antt =====
-- A queue of 64 events, and a line typed on it.
use x68k_stackchan.Base.{
  ℕ, ◌≡◌, refl, false, arith, ltb, if◌then◌else◌, Option, some, none, List, [], ◌∷◌, ◌++◌, length,
}
use x68k_stackchan.KeyQueue.{
  Event, EventQueue, KeyQueue, index_in, ascii_to_scan_code, push_scan, push, drain,
}
use x68k_stackchan.KeyQueue.Order.{
  codes, outstanding, Call, types, scans, drains, step, sends, run, all_sent, all_taken, run-order,
}
use x68k_stackchan.KeyQueue.Progress.{idle, idle-sends_all}

abbrev room : ℕ
room = 64

-- The list of the events is the queue.
abbrev send_list : Event → List Event → Option (List Event)
send_list e q = if ltb (length q) room then some (q ++ e ∷ []) else none

abbrev receive_list : List Event → Option (Event × List Event)
receive_list [] = none
receive_list (e ∷ q) = some (e, q)

send_list-sent : (e : Event) (q q' : List Event) → send_list e q ≡ some q' → q' ≡ q ++ e ∷ []
send_list-sent e q q' h = ground arith

receive_list-received : (e : Event) (q q' : List Event) → receive_list q ≡ some (e, q') → q ≡ e ∷ q'
receive_list-received e [] q' h = cc
receive_list-received e (x ∷ xs) q' h = cc

receive_list-empty : (q : List Event) → receive_list q ≡ none → q ≡ []
receive_list-empty [] h = refl
receive_list-empty (x ∷ xs) h = cc

abbrev listed : EventQueue
listed = record {
  Q = List Event;
  content = λ q. q;
  send = send_list;
  receive = receive_list;
  sent = send_list-sent _ _ _;
  received = receive_list-received _ _ _;
  empty = receive_list-empty _;
}

abbrev ready : KeyQueue listed
ready = record { queue = some []; steps_left = 0; pending_release = 0 }

-- `A` is typed, a byte with no key is typed, and the cursor key is held down.
abbrev typed : List (Call listed)
typed = types 65 ∷ types 1 ∷ drains ∷ scans 0x3C ∷ []

keys : ascii_to_scan_code 90 ≡ 0x2A
unfolding ascii_to_scan_code index_in
keys = refl

after_typing : outstanding listed (run listed typed ready) ≡ 0x9E ∷ 0x3C ∷ []
unfolding run step push push_scan drain ascii_to_scan_code index_in
after_typing = refl

typed_sent : all_sent listed (typed ++ idle 9) ready ≡ 0x1E ∷ 0x9E ∷ []
unfolding all_sent sends step idle push push_scan drain ascii_to_scan_code index_in
typed_sent = refl

run-order_example :
    all_sent listed typed ready ++ outstanding listed (run listed typed ready)
    ≡ outstanding listed ready ++ codes (all_taken listed typed ready)
run-order_example = run-order listed typed ready tt

abbrev held : KeyQueue listed
held = record {
  queue = some (record { code = 0x3C; auto_release = false } ∷ []);
  steps_left = 4;
  pending_release = 0x1E;
}

idle-sends_all_example : all_sent listed (idle 14) held ≡ outstanding listed held
idle-sends_all_example =
    idle-sends_all listed 14 (record { code = 0x3C; auto_release = false } ∷ []) held refl
      ((λ h. cc), tt) (omega arith)
