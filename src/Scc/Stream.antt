-- ===== src/Scc/Stream.antt =====
-- The bytes of channel B, the mouse's, from the reports to the processor.
use x68k_stackchan.Base.{
  ℕ, ◌+◌, ◌≡◌, refl, sym, ap, ◌∙◌, Bool, true, false, ◌&&◌, ◌||◌, not, arith, ltb, ◌==◌, ==_iff,
  if◌then◌else◌, bit_and, any_bit, Bool-cases, inl, inr, List, [], ◌∷◌, ◌++◌, flow-append,
}
use mathlib.Core.List.{append-nil}
use x68k_stackchan.Scc.{
  ChannelState, Scc, set_channel, read_control, write_control, write_wr0, write_register, store,
  master_control, rx_control, int_control, read_data, write_data, move_mouse, acknowledge_interrupt,
  has_pending_interrupt, refreshed, refresh_rx_interrupt,
}
use x68k_stackchan.Scc.Inv.{
  Call, resets, reads_control, writes_control, reads_data, writes_data, moves, acknowledges, step,
  run,
}
use x68k_stackchan.Scc.Fifo.{contents, report, read_data-contents, move_mouse-contents}

-- The same bytes wait in every channel.
abbrev IsSame : Scc → Scc → Type 0
IsSame s' s = (i : ℕ) → contents (s'.ch i) ≡ contents (s.ch i)

set_channel-IsSame :
    (channel : ℕ) (state : ChannelState) (s : Scc)
    → contents state ≡ contents (s.ch channel)
    → IsSame (set_channel channel state s) s
set_channel-IsSame channel state s c i = elim (Bool-cases (i == channel)) [
  | inl e ↦ rw e (c ∙ ap (λ i. contents (s.ch i)) (sym ((==_iff i channel).0 e)))
  | inr e ↦ rw e refl
]

refresh-IsSame : (channel : ℕ) (s : Scc) → IsSame (refresh_rx_interrupt channel s) s
unfolding refreshed
refresh-IsSame channel s = set_channel-IsSame channel _ s refl

write_wr0-IsSame : (channel value : ℕ) (s : Scc) → IsSame (write_wr0 channel value s) s
unfolding write_wr0
write_wr0-IsSame channel value s i =
    let state = record (s.ch channel) {
      pointer = bit_and value 7 + (if any_bit value 8 then 8 else 0);
    } in
    let same = set_channel-IsSame channel state s refl in
    elim (Bool-cases (bit_and value 0x38 == 0x38)) [
      | inl c ↦ rw c (refresh-IsSame channel (set_channel channel state s) i ∙ same i)
      | inr c ↦ rw c (same i)
    ]

store-IsSame : (channel reg value : ℕ) (s : Scc) → IsSame (store channel reg value s) s
unfolding store
store-IsSame channel reg value s i = elim (Bool-cases (ltb reg 16)) [
  | inl f ↦ elim (Bool-cases (reg == 2 || reg == 9)) [
    | inl c ↦ rw (f, c) refl
    | inr c ↦ rw (f, c) (set_channel-IsSame channel _ s refl i)
  ]
  | inr f ↦ rw f refl
]

master_control-IsSame : (reg value : ℕ) (s : Scc) → IsSame (master_control reg value s) s
unfolding master_control
master_control-IsSame reg value s i = elim (Bool-cases (reg == 9 && not (any_bit value 8))) [
  | inl c ↦ rw c refl
  | inr c ↦ rw c refl
]

int_control-IsSame : (channel reg : ℕ) (s : Scc) → IsSame (int_control channel reg s) s
unfolding int_control
int_control-IsSame channel reg s i = elim (Bool-cases (reg == 1)) [
  | inl c ↦ rw c (refresh-IsSame channel s i)
  | inr c ↦ rw c refl
]

-- The receiver of channel B is switched off.
abbrev pub is_rx_off : ℕ → ℕ → Scc → Bool
is_rx_off channel value s = channel == 0 && ((s.ch channel).pointer == 3 && not (any_bit value 1))

-- The write of a register keeps the bytes of channel B, or drops them all.
rx_control-contents :
    (channel reg value : ℕ) (s : Scc)
    → contents ((rx_control channel reg value s).ch 0)
      ≡ (if channel == 0 && (reg == 3 && not (any_bit value 1)) then [] else contents (s.ch 0))
unfolding rx_control
rx_control-contents channel reg value s = elim (Bool-cases (channel == 0)) [
  | inl z ↦ elim (Bool-cases (reg == 3 && not (any_bit value 1))) [
    | inl c ↦ rw ((==_iff channel 0).0 z, c) refl
    | inr c ↦ rw (z, c) refl
  ]
  | inr z ↦
      let other : (0 == channel) ≡ false = ground arith in
      elim (Bool-cases (reg == 3 && not (any_bit value 1))) [
        | inl c ↦ rw (z, c, other) refl
        | inr c ↦ rw (z, c) refl
      ]
]

write_register-contents :
    (channel reg value : ℕ) (s : Scc)
    → contents ((write_register channel reg value s).ch 0)
      ≡ (if channel == 0 && (reg == 3 && not (any_bit value 1)) then [] else contents (s.ch 0))
write_register-contents channel reg value s =
    let s1 = store channel reg value s in
    let s2 = master_control reg value s1 in
    int_control-IsSame channel reg (rx_control channel reg value s2) 0
    ∙ rx_control-contents channel reg value s2
    ∙ ap (λ l. if channel == 0 && (reg == 3 && not (any_bit value 1)) then [] else l)
        (master_control-IsSame reg value s1 0 ∙ store-IsSame channel reg value s 0)

write_control-contents :
    (channel value : ℕ) (s : Scc)
    → contents ((write_control channel value s).ch 0)
      ≡ (if is_rx_off channel value s then [] else contents (s.ch 0))
unfolding write_control
write_control-contents channel value s =
    let begun = set_channel channel (record (s.ch channel) { pointer = 0 }) s in
    let same = set_channel-IsSame channel (record (s.ch channel) { pointer = 0 }) s refl in
    let stays = λ (off : is_rx_off channel value s ≡ false).
      sym (ap (λ b. if b then [] else contents (s.ch 0)) off) in
    elim (Bool-cases (ltb channel 2)) [
      | inl c ↦ elim (Bool-cases ((s.ch channel).pointer == 0)) [
        | inl z ↦
            rw (c, z) (write_wr0-IsSame channel value begun 0 ∙ same 0 ∙ stays (ground (arith, z)))
        | inr z ↦
            rw (c, z)
              (write_register-contents channel (s.ch channel).pointer value begun
                ∙ ap (λ l. if is_rx_off channel value s then [] else l) (same 0))
      ]
      | inr c ↦ rw c (stays (ground (arith, c)))
    ]

read_control-contents :
    (channel : ℕ) (s : Scc) → contents ((read_control channel s).1.ch 0) ≡ contents (s.ch 0)
unfolding read_control
read_control-contents channel s = elim (Bool-cases (ltb channel 2)) [
  | inl c ↦ rw c (set_channel-IsSame channel (record (s.ch channel) { pointer = 0 }) s refl 0)
  | inr c ↦ rw c refl
]

acknowledge_interrupt-contents :
    (s : Scc) → contents ((acknowledge_interrupt s).1.ch 0) ≡ contents (s.ch 0)
unfolding acknowledge_interrupt
acknowledge_interrupt-contents s = elim (Bool-cases (has_pending_interrupt s)) [
  | inl p ↦ elim (Bool-cases (s.ch 0).rx_interrupt_pending) [
    | inl b ↦ rw (p, b) refl
    | inr b ↦ rw (p, b) refl
  ]
  | inr p ↦ rw p refl
]

-- What a call takes from channel B: the byte that is read, all that is dropped when the receiver is
-- switched off or the chip is reset.
unfoldable pub leaves : Call → Scc → List ℕ
leaves (reads_data channel) s =
    if channel == 0 && not ((s.ch 0).rx_count == 0) then (read_data 0 s).0 ∷ [] else []
leaves (writes_control channel value) s =
    if is_rx_off channel value s then contents (s.ch 0) else []
leaves resets s = contents (s.ch 0)
leaves _ s = []

-- What it puts there: a report that is accepted.
unfoldable pub comes : Call → Scc → List ℕ
comes (moves dx dy l r) s = if (move_mouse dx dy l r s).0 then report dx dy l r else []
comes _ s = []

read_data-empty :
    (channel : ℕ) (s : Scc) → ((s.ch channel).rx_count == 0) ≡ true → (read_data channel s).1 ≡ s
unfolding read_data
read_data-empty channel s e = elim (Bool-cases (ltb channel 2)) [
  | inl c ↦ rw (c, e) refl
  | inr c ↦ rw c refl
]

read_data-other :
    (channel : ℕ) (s : Scc)
    → (0 == channel) ≡ false
    → contents ((read_data channel s).1.ch 0) ≡ contents (s.ch 0)
unfolding read_data
read_data-other channel s other = elim (Bool-cases (ltb channel 2)) [
  | inl c ↦ elim (Bool-cases ((s.ch channel).rx_count == 0)) [
    | inl e ↦ rw (c, e) refl
    | inr e ↦ rw (c, e, other) refl
  ]
  | inr c ↦ rw c refl
]

reads_data-flow :
    (channel : ℕ) (s : Scc)
    → leaves (reads_data channel) s ++ contents ((read_data channel s).1.ch 0) ≡ contents (s.ch 0)
unfolding leaves
reads_data-flow channel s = elim (Bool-cases (channel == 0)) [
  | inl z ↦ elim (Bool-cases ((s.ch 0).rx_count == 0)) [
    | inl e ↦ rw ((==_iff channel 0).0 z, e) (ap (λ s'. contents (s'.ch 0)) (read_data-empty 0 s e))
    | inr e ↦
        rw ((==_iff channel 0).0 z, e) (read_data-contents 0 s (omega arith) (grind (e, arith)))
  ]
  | inr z ↦ rw z (read_data-other channel s (ground (arith, z)))
]

writes_control-flow :
    (channel value : ℕ) (s : Scc)
    → leaves (writes_control channel value) s ++ contents ((write_control channel value s).ch 0)
      ≡ contents (s.ch 0)
unfolding leaves
writes_control-flow channel value s =
    ap (λ l. (if is_rx_off channel value s then contents (s.ch 0) else []) ++ l)
      (write_control-contents channel value s)
    ∙ elim (Bool-cases (is_rx_off channel value s)) [
      | inl off ↦ rw off (append-nil (contents (s.ch 0)))
      | inr off ↦ rw off refl
    ]

step-flow :
    (c : Call) (s : Scc) → leaves c s ++ contents ((step c s).ch 0) ≡ contents (s.ch 0) ++ comes c s
unfolding step leaves comes write_data
step-flow resets s = refl
step-flow (reads_control channel) s =
    read_control-contents channel s ∙ sym (append-nil (contents (s.ch 0)))
step-flow (writes_control channel value) s =
    writes_control-flow channel value s ∙ sym (append-nil (contents (s.ch 0)))
step-flow (reads_data channel) s = reads_data-flow channel s ∙ sym (append-nil (contents (s.ch 0)))
step-flow (writes_data channel value) s = sym (append-nil (contents (s.ch 0)))
step-flow (moves dx dy l r) s = move_mouse-contents dx dy l r s
step-flow acknowledges s = acknowledge_interrupt-contents s ∙ sym (append-nil (contents (s.ch 0)))

-- The same of a list of calls.
unfoldable pub all_leave : List Call → Scc → List ℕ
all_leave [] s = []
all_leave (c ∷ cs) s = leaves c s ++ all_leave cs (step c s)

unfoldable pub all_come : List Call → Scc → List ℕ
all_come [] s = []
all_come (c ∷ cs) s = comes c s ++ all_come cs (step c s)

-- Over any calls, from any state: the bytes that channel B gives up, by reads and where a reset or the
-- switch of the receiver drops them, with those that then wait, are the bytes that waited and then
-- the accepted reports, in order and each as its three bytes.
pub run-flow :
    (cs : List Call) (s : Scc)
    → all_leave cs s ++ contents ((run cs s).ch 0) ≡ contents (s.ch 0) ++ all_come cs s
unfolding run all_leave all_come
run-flow [] s = sym (append-nil (contents (s.ch 0)))
run-flow (c ∷ cs) s =
    flow-append (contents (s.ch 0)) (contents ((step c s).ch 0))
      (contents ((run cs (step c s)).ch 0)) (leaves c s) (all_leave cs (step c s)) (comes c s)
      (all_come cs (step c s)) (step-flow c s) (run-flow cs (step c s))
