-- ===== src/Scc/Inv.antt =====
-- What holds of the two channels of the SCC between any two calls.
use x68k_stackchan.Base.{
  ℕ, ◌+◌, ◌-◌, ◌<◌, ◌≤◌, ◌≡◌, ◌≢◌, Bool, true, false, ◌&&◌, ◌||◌, arith, ltb, leb, ◌==◌, ==_iff,
  if◌then◌else◌, bit_and, any_bit, Bool-cases, inl, inr, List, [], ◌∷◌,
}
use x68k_stackchan.Base.Digits.{and-le_right}
use x68k_stackchan.Base.Int.{ℤ}
use x68k_stackchan.Scc.{
  ChannelState, Scc, set_channel, reset, read_control, write_control, write_wr0, write_register,
  store, master_control, rx_control, int_control, read_data, push_rx_byte, is_mouse_enabled,
  move_mouse, acknowledge_interrupt, wants_rx_interrupt, refreshed, refresh_rx_interrupt,
  drop_interrupt, has_pending_interrupt, write_data,
}

-- A channel, given WR9: its FIFO and its pointer are in range, and an interrupt is pending only for a
-- byte that is there and that WR1 and WR9 want one for.
pub record IsWell (wr9 : ℕ) (state : ChannelState) : Type 0 where
  pub fits : state.rx_count ≤ 8
  pub selects : state.pointer < 16
  pub caused :
      state.rx_interrupt_pending ≡ true
      → (ltb 0 state.rx_count && wants_rx_interrupt state wr9) ≡ true

abbrev pub IsValid : Scc → Type 0
IsValid s = (channel : ℕ) → IsWell (s.shared_wr 9) (s.ch channel)

set_channel-IsValid :
    (channel : ℕ) (state : ChannelState) (s : Scc)
    → IsValid s
    → IsWell (s.shared_wr 9) state
    → IsValid (set_channel channel state s)
set_channel-IsValid channel state s h w i = elim (Bool-cases (i == channel)) [
  | inl e ↦ rw e w
  | inr e ↦ rw e (h i)
]

refreshed-IsWell :
    (wr9 : ℕ) (state : ChannelState)
    → state.rx_count ≤ 8
    → state.pointer < 16
    → IsWell wr9 (refreshed wr9 state)
unfolding refreshed
refreshed-IsWell wr9 state f p = record { fits = f; selects = p; caused = λ e. e }

cleared-IsWell :
    (wr9 : ℕ) (state : ChannelState) → IsWell wr9 state → IsWell wr9 (record state { pointer = 0 })
cleared-IsWell wr9 state w = record { fits = w.fits; selects = omega arith; caused = w.caused }

dropped-IsWell :
    (wr9 wr9' : ℕ) (state : ChannelState) → IsWell wr9 state → IsWell wr9' (drop_interrupt state)
dropped-IsWell wr9 wr9' state w = record { fits = w.fits; selects = w.selects; caused = λ e. cc }

refreshed-IsValid : (channel : ℕ) (s : Scc) → IsValid s → IsValid (refresh_rx_interrupt channel s)
refreshed-IsValid channel s h =
    set_channel-IsValid channel _ s h
      (refreshed-IsWell _ (s.ch channel) (h channel).fits (h channel).selects)

read_control-IsValid : (channel : ℕ) (s : Scc) → IsValid s → IsValid (read_control channel s).1
unfolding read_control
read_control-IsValid channel s h = elim (Bool-cases (ltb channel 2)) [
  | inl c ↦ rw c (set_channel-IsValid channel _ s h (cleared-IsWell _ (s.ch channel) (h channel)))
  | inr c ↦ rw c h
]

-- A channel is given a new state, and its interrupt is worked out again.
replaced-IsValid :
    (channel : ℕ) (state : ChannelState) (s : Scc)
    → IsValid s
    → state.rx_count ≤ 8
    → state.pointer < 16
    → IsValid (refresh_rx_interrupt channel (set_channel channel state s))
replaced-IsValid channel state s h f p i =
    let same : (channel == channel) ≡ true = ground arith in
    rw same (elim (Bool-cases (i == channel)) [
      | inl e ↦ rw e (refreshed-IsWell (s.shared_wr 9) state f p)
      | inr e ↦ rw e (h i)
    ])

read_data-IsValid : (channel : ℕ) (s : Scc) → IsValid s → IsValid (read_data channel s).1
unfolding read_data
read_data-IsValid channel s h = elim (Bool-cases (ltb channel 2)) [
  | inl c ↦ elim (Bool-cases ((s.ch channel).rx_count == 0)) [
    | inl z ↦ rw (c, z) h
    | inr z ↦
        rw (c, z)
          (replaced-IsValid channel _ s h (omega (arith, (h channel).fits)) (h channel).selects)
  ]
  | inr c ↦ rw c h
]

push_rx_byte-IsValid :
    (channel value : ℕ) (s : Scc) → IsValid s → IsValid (push_rx_byte channel value s)
unfolding push_rx_byte
push_rx_byte-IsValid channel value s h = elim (Bool-cases (leb 8 (s.ch channel).rx_count)) [
  | inl f ↦ rw f h
  | inr f ↦ rw f (replaced-IsValid channel _ s h (grind (f, arith)) (h channel).selects)
]

move_mouse-IsValid :
    (dx dy : ℤ) (l r : Bool) (s : Scc) → IsValid s → IsValid (move_mouse dx dy l r s).1
unfolding move_mouse
move_mouse-IsValid dx dy l r s h = elim (Bool-cases (is_mouse_enabled s)) [
  | inl e ↦ elim (Bool-cases (ltb (8 - (s.ch 0).rx_count) 3)) [
    | inl f ↦ rw (e, f) h
    | inr f ↦
        rw (e, f)
          (push_rx_byte-IsValid 0 _ _ (push_rx_byte-IsValid 0 _ _ (push_rx_byte-IsValid 0 _ s h)))
  ]
  | inr e ↦ rw e h
]

acknowledge_interrupt-IsValid : (s : Scc) → IsValid s → IsValid (acknowledge_interrupt s).1
unfolding acknowledge_interrupt
acknowledge_interrupt-IsValid s h = elim (Bool-cases (has_pending_interrupt s)) [
  | inl p ↦ elim (Bool-cases (s.ch 0).rx_interrupt_pending) [
    | inl b ↦ rw (p, b) (set_channel-IsValid 0 _ s h (dropped-IsWell _ _ (s.ch 0) (h 0)))
    | inr b ↦ rw (p, b) (set_channel-IsValid 1 _ s h (dropped-IsWell _ _ (s.ch 1) (h 1)))
  ]
  | inr p ↦ rw p h
]

write_wr0-IsValid : (channel value : ℕ) (s : Scc) → IsValid s → IsValid (write_wr0 channel value s)
unfolding write_wr0
write_wr0-IsValid channel value s h =
    let low : bit_and value 7 + (if any_bit value 8 then 8 else 0) < 16 =
      ground (arith, and-le_right value 7) in
    elim (Bool-cases (bit_and value 0x38 == 0x38)) [
      | inl c ↦ rw c (replaced-IsValid channel _ s h (h channel).fits low)
      | inr c ↦ rw c (
          set_channel-IsValid channel _ s h
            (record { fits = (h channel).fits; selects = low; caused = (h channel).caused }))
    ]

stored-IsValid :
    (channel reg value : ℕ) (s : Scc)
    → reg ≢ 9
    → reg ≢ 1
    → IsValid s
    → IsValid (store channel reg value s)
unfolding store
stored-IsValid channel reg value s n o h = elim (Bool-cases (ltb reg 16)) [
  | inl f ↦ elim (Bool-cases (reg == 2 || reg == 9)) [
    | inl c ↦ let other : (9 == reg) ≡ false = ground arith in rw (f, c) (λ i. rw other (h i))
    | inr c ↦
        let other : (1 == reg) ≡ false = ground arith in
        rw (f, c)
          (set_channel-IsValid channel _ s h (record {
            fits = (h channel).fits;
            selects = (h channel).selects;
            caused = rw other (h channel).caused;
          }))
  ]
  | inr f ↦ rw f h
]

-- The master enable: an interrupt that stays was enabled, and still is.
write_nine-IsValid :
    (channel value : ℕ) (s : Scc) → IsValid s → IsValid (write_register channel 9 value s)
unfolding store master_control rx_control int_control
write_nine-IsValid channel value s h = elim (Bool-cases (any_bit value 8)) [
  | inl m ↦ rw m (λ i. record {
    fits = (h i).fits;
    selects = (h i).selects;
    caused = λ e. ground (arith, m, (h i).caused e);
  })
  | inr m ↦ rw m (λ i. dropped-IsWell (s.shared_wr 9) value (s.ch i) (h i))
]

write_three-IsValid :
    (channel value : ℕ) (s : Scc) → IsValid s → IsValid (write_register channel 3 value s)
unfolding master_control rx_control int_control
write_three-IsValid channel value s h =
    let t = stored-IsValid channel 3 value s (omega arith) (omega arith) h in
    elim (Bool-cases (any_bit value 1)) [
      | inl m ↦ rw m t
      | inr m ↦ rw m (
          set_channel-IsValid channel _ (store channel 3 value s) t
            (record { fits = omega arith; selects = (t channel).selects; caused = λ e. cc }))
    ]

write_one-IsValid :
    (channel value : ℕ) (s : Scc) → IsValid s → IsValid (write_register channel 1 value s)
unfolding store master_control rx_control int_control
write_one-IsValid channel value s h =
    replaced-IsValid channel _ s h (h channel).fits (h channel).selects

write_register-IsValid :
    (channel reg value : ℕ) (s : Scc) → IsValid s → IsValid (write_register channel reg value s)
unfolding master_control rx_control int_control
write_register-IsValid channel reg value s h = elim (Bool-cases (reg == 9)) [
  | inl n ↦ rw ((==_iff reg 9).0 n) (write_nine-IsValid channel value s h)
  | inr n ↦ elim (Bool-cases (reg == 3)) [
    | inl t ↦ rw ((==_iff reg 3).0 t) (write_three-IsValid channel value s h)
    | inr t ↦ elim (Bool-cases (reg == 1)) [
      | inl o ↦ rw ((==_iff reg 1).0 o) (write_one-IsValid channel value s h)
      | inr o ↦
          rw (n, t, o)
            (stored-IsValid channel reg value s (λ e. ground arith) (λ e. ground arith) h)
    ]
  ]
]

write_control-IsValid :
    (channel value : ℕ) (s : Scc) → IsValid s → IsValid (write_control channel value s)
unfolding write_control
write_control-IsValid channel value s h =
    let begun = set_channel-IsValid channel _ s h (cleared-IsWell _ (s.ch channel) (h channel)) in
    elim (Bool-cases (ltb channel 2)) [
      | inl c ↦ elim (Bool-cases ((s.ch channel).pointer == 0)) [
        | inl z ↦ rw (c, z) (write_wr0-IsValid channel value _ begun)
        | inr z ↦ rw (c, z) (write_register-IsValid channel _ value _ begun)
      ]
      | inr c ↦ rw c h
    ]

-- A call of the SCC, by the processor or for the mouse.
pub data Call : Type 0 where
  resets : Call
  reads_control : ℕ → Call
  writes_control : ℕ → ℕ → Call
  reads_data : ℕ → Call
  writes_data : ℕ → ℕ → Call
  moves : ℤ → ℤ → Bool → Bool → Call
  acknowledges : Call

unfoldable pub step : Call → Scc → Scc
step resets s = reset
step (reads_control channel) s = (read_control channel s).1
step (writes_control channel value) s = write_control channel value s
step (reads_data channel) s = (read_data channel s).1
step (writes_data channel value) s = write_data channel value s
step (moves dx dy l r) s = (move_mouse dx dy l r s).1
step acknowledges s = (acknowledge_interrupt s).1

unfoldable pub run : List Call → Scc → Scc
run [] s = s
run (c ∷ cs) s = run cs (step c s)

step-IsValid : (c : Call) (s : Scc) → IsValid s → IsValid (step c s)
unfolding step write_data
step-IsValid resets s h =
    λ channel. record { fits = omega arith; selects = omega arith; caused = λ e. cc }
step-IsValid (reads_control channel) s h = read_control-IsValid channel s h
step-IsValid (writes_control channel value) s h = write_control-IsValid channel value s h
step-IsValid (reads_data channel) s h = read_data-IsValid channel s h
step-IsValid (writes_data channel value) s h = h
step-IsValid (moves dx dy l r) s h = move_mouse-IsValid dx dy l r s h
step-IsValid acknowledges s h = acknowledge_interrupt-IsValid s h

-- In every state that calls lead to from a valid one, whatever the bytes written are, the FIFOs and
-- the pointers of both channels are in range, and an interrupt is pending on a channel only while a
-- byte waits there and both the channel's mode and the master enable want the interrupt.
pub run-IsValid : (cs : List Call) (s : Scc) → IsValid s → IsValid (run cs s)
unfolding run
run-IsValid [] s h = h
run-IsValid (c ∷ cs) s h = run-IsValid cs (step c s) (step-IsValid c s h)
