-- ===== src/Scc/Report.antt =====
-- A report on its way to the ROM's receive handler, one interrupt for each byte, and what the
-- handler's last write leaves.
use x68k_stackchan.Base.{
  ℕ, zero, suc, ◌+◌, ◌<◌, ◌≡◌, ◌≢◌, refl, ap, ◌∙◌, Bool, true, false, ◌&&◌, not, arith, ltb, ◌==◌,
  if◌then◌else◌, any_bit, Bool-cases, inl, inr, List, [], ◌∷◌,
}
use x68k_stackchan.Base.Int.{ℤ}
use x68k_stackchan.Scc.Fifo.{contents, taken, report, read_data-contents}
use x68k_stackchan.Scc.{
  ChannelState, Scc, set_channel, write_control, write_wr0, store, master_control, rx_control,
  int_control, read_data, push_rx_byte, move_mouse, is_mouse_enabled, is_mode_enabled,
  wants_rx_interrupt, acknowledge_interrupt, has_pending_interrupt, refreshed, drop_interrupt,
  saturate_delta, buttons_of,
}

-- The ROM's handler: the interrupt is acknowledged, one byte is read, and Reset Highest IUS is written.
unfoldable pub handle : Scc → (ℕ × ℕ) × Scc
handle s =
    let acknowledged = acknowledge_interrupt s in
    let received = read_data 0 acknowledged.1 in
    ((acknowledged.0, received.0), write_control 0 0x38 received.1)

abbrev is_some : List ℕ → Bool
is_some [] = false
is_some (b ∷ l) = true

-- Between two interrupts of a report: the bytes `l` wait in the FIFO, with their interrupt. `half` is
-- that the last Reset Highest IUS has left the pointer at 8.
record IsWaiting (base : ℕ) (l : List ℕ) (half : Bool) (s : Scc) : Type 0 where
  pub held : contents (s.ch 0) ≡ l
  pub raised : (s.ch 0).rx_interrupt_pending ≡ is_some l
  pub at : (s.ch 0).pointer ≡ (if half then 8 else 0)
  pub mode : is_mode_enabled ((s.ch 0).wr 1) ≡ true
  pub enabled : any_bit (s.shared_wr 9) 0x08 ≡ true
  pub vector : s.shared_wr 2 ≡ base

acknowledged :
    (s : Scc)
    → (s.ch 0).rx_interrupt_pending ≡ true
    → acknowledge_interrupt s ≡ (s.shared_wr 2 + 4, set_channel 0 (drop_interrupt (s.ch 0)) s)
unfolding acknowledge_interrupt has_pending_interrupt
acknowledged s b = elim (Bool-cases (s.ch 1).rx_interrupt_pending) [
  | inl a ↦ rw (a, b) refl
  | inr a ↦ rw (a, b) refl
]

count-contents : (state : ChannelState) → ltb 0 state.rx_count ≡ is_some (contents state)
count-contents state = by_count state.rx_count
  where
    by_count : (n : ℕ) → ltb 0 n ≡ is_some (taken n 0 state.rx_fifo)
    by_count zero = refl
    by_count (suc n) = ground arith

-- What a read leaves of a channel that has bytes.
record IsRefreshed (s s' : Scc) : Type 0 where
  pub raised :
      (s'.ch 0).rx_interrupt_pending
      ≡ (ltb 0 (s'.ch 0).rx_count && wants_rx_interrupt (s.ch 0) (s.shared_wr 9))
  pub at : (s'.ch 0).pointer ≡ (s.ch 0).pointer
  pub wr : (s'.ch 0).wr ≡ (s.ch 0).wr
  pub shared_wr : s'.shared_wr ≡ s.shared_wr

read_data-IsRefreshed :
    (s : Scc) → ((s.ch 0).rx_count == 0) ≡ false → IsRefreshed s (read_data 0 s).1
unfolding read_data refreshed
read_data-IsRefreshed s n = record {
  raised = rw n refl;
  at = rw n refl;
  wr = rw n refl;
  shared_wr = rw n refl;
}

-- The byte is read, and the interrupt worked out again.
read-IsWaiting :
    (base b : ℕ) (l : List ℕ) (half : Bool) (s : Scc)
    → IsWaiting base (b ∷ l) half s
    → ((read_data 0 (set_channel 0 (drop_interrupt (s.ch 0)) s)).0 ≡ b)
      × IsWaiting base l half (read_data 0 (set_channel 0 (drop_interrupt (s.ch 0)) s)).1
read-IsWaiting base b l half s w =
    let s1 = set_channel 0 (drop_interrupt (s.ch 0)) s in
    let some : ltb 0 (s.ch 0).rx_count ≡ true = count-contents (s.ch 0) ∙ ap is_some w.held in
    let more : ((s.ch 0).rx_count == 0) ≡ false = ground (arith, some) in
    let eq = read_data-contents 0 s1 (omega arith) (grind (more, arith)) ∙ w.held in
    let r = read_data-IsRefreshed s1 more in
    let now : contents ((read_data 0 s1).1.ch 0) ≡ l = cc in
    let any : ltb 0 ((read_data 0 s1).1.ch 0).rx_count ≡ is_some l =
      count-contents ((read_data 0 s1).1.ch 0) ∙ ap is_some now in
    (
      cc,
      record {
        held = now;
        raised = r.raised ∙ ground (arith, any, w.mode, w.enabled);
        at = r.at ∙ w.at;
        mode = ap (λ f. is_mode_enabled (f 1)) r.wr ∙ w.mode;
        enabled = ap (λ f. any_bit (f 9) 0x08) r.shared_wr ∙ w.enabled;
        vector = ap (λ f. f 2) r.shared_wr ∙ w.vector;
      },
    )

written-IsWaiting :
    (base : ℕ) (l : List ℕ) (half : Bool) (s : Scc)
    → IsWaiting base l half s
    → IsWaiting base l (not half) (write_control 0 0x38 s)
unfolding write_control write_wr0 store master_control rx_control int_control refreshed
written-IsWaiting base l false s w = record {
  held = rw w.at w.held;
  raised = rw w.at (ground (arith, w.mode, w.enabled, count-contents (s.ch 0), w.held));
  at = rw w.at refl;
  mode = rw w.at w.mode;
  enabled = rw w.at w.enabled;
  vector = rw w.at w.vector;
}
written-IsWaiting base l true s w = record {
  held = rw w.at w.held;
  raised = rw w.at w.raised;
  at = rw w.at refl;
  mode = rw w.at w.mode;
  enabled = rw w.at w.enabled;
  vector = rw w.at w.vector;
}

-- One interrupt: the vector is that of channel B's receiver, the byte is the oldest.
handle-IsWaiting :
    (base b : ℕ) (l : List ℕ) (half : Bool) (s : Scc)
    → IsWaiting base (b ∷ l) half s
    → ((handle s).0 ≡ (base + 4, b)) × IsWaiting base l (not half) (handle s).1
unfolding handle
handle-IsWaiting base b l half s w =
    let a = acknowledged s w.raised in
    let r = read-IsWaiting base b l half s w in
    rw a (λ k. (w.vector k + 4, r.0 k), written-IsWaiting base l half _ r.1)

started-IsWaiting :
    (dx dy : ℤ) (l r : Bool) (s : Scc)
    → is_mouse_enabled s ≡ true
    → (s.ch 0).rx_count ≡ 0
    → (s.ch 0).pointer ≡ 0
    → wants_rx_interrupt (s.ch 0) (s.shared_wr 9) ≡ true
    → ((move_mouse dx dy l r s).0 ≡ true)
      × IsWaiting (s.shared_wr 2) (report dx dy l r) false (move_mouse dx dy l r s).1
unfolding move_mouse push_rx_byte refreshed
started-IsWaiting dx dy l r s e z p w =
    let mode : is_mode_enabled ((s.ch 0).wr 1) ≡ true = ground (arith, w) in
    (
      rw (e, z) refl,
      record {
        held = rw (e, z) refl;
        raised = rw (e, z) w;
        at = rw (e, z) p;
        mode = rw (e, z) mode;
        enabled = rw (e, z) (ground (arith, w));
        vector = rw (e, z) refl;
      },
    )

-- With the mouse and its interrupt enabled, nothing waiting and no register chosen, a motion is
-- accepted, and three runs of the receive handler get the vector of channel B's receiver each time
-- and the buttons, the horizontal and the vertical motion in this order. Then nothing waits and no
-- interrupt is pending on the channel, but its pointer is at 8.
pub handle-report :
    (dx dy : ℤ) (l r : Bool) (s : Scc)
    → is_mouse_enabled s ≡ true
    → (s.ch 0).rx_count ≡ 0
    → (s.ch 0).pointer ≡ 0
    → wants_rx_interrupt (s.ch 0) (s.shared_wr 9) ≡ true
    → let s1 = (move_mouse dx dy l r s).1 in
      let s2 = (handle s1).1 in
      let s3 = (handle s2).1 in
      let s4 = (handle s3).1 in
      let vector = s.shared_wr 2 + 4 in
      ((move_mouse dx dy l r s).0 ≡ true)
      × ((handle s1).0 ≡ (vector, buttons_of l r))
      × ((handle s2).0 ≡ (vector, saturate_delta dx))
      × ((handle s3).0 ≡ (vector, saturate_delta dy))
      × (contents (s4.ch 0) ≡ [])
      × ((s4.ch 0).rx_interrupt_pending ≡ false)
      × ((s4.ch 0).pointer ≡ 8)
handle-report dx dy l r s e z p w =
    let start = started-IsWaiting dx dy l r s e z p w in
    let one = handle-IsWaiting _ _ _ _ _ start.1 in
    let two = handle-IsWaiting _ _ _ _ _ one.1 in
    let three = handle-IsWaiting _ _ _ _ _ two.1 in
    (start.0, one.0, two.0, three.0, three.1.held, three.1.raised, three.1.at)

-- Reset Highest IUS is written with no register chosen, and then any byte to the same channel: the
-- byte goes to WR8 whatever register it asks for, no other register of the channel changes, and the
-- pointer is back at 0.
pub reset_ius-hides_next :
    (channel value : ℕ) (s : Scc)
    → channel < 2
    → (s.ch channel).pointer ≡ 0
    → let after = write_control channel value (write_control channel 0x38 s) in
      ((after.ch channel).wr 8 ≡ value)
      × ((after.ch channel).pointer ≡ 0)
      × ((reg : ℕ) → reg ≢ 8 → (after.ch channel).wr reg ≡ (s.ch channel).wr reg)
unfolding write_control write_wr0 store master_control rx_control int_control refreshed
reset_ius-hides_next channel value s c z =
    let there : ltb channel 2 ≡ true = ground arith in
    let same : (channel == channel) ≡ true = ground arith in
    rw (there, z, same, same)
      (refl, refl, λ reg n. let other : (reg == 8) ≡ false = ground arith in rw other refl)
