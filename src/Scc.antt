-- ===== src/Scc.antt =====
-- src/x68k/core/dev/scc.{h,cpp}: the serial controller Z8530, whose channel B has the mouse.
pub mod Inv
pub mod Fifo
pub mod Stream
pub mod Report
mod Tests
use x68k_stackchan.Base.{
  ℕ, zero, suc, ◌+◌, ◌-◌, Bool, true, false, ◌&&◌, ◌||◌, not, ltb, leb, ◌==◌, if◌then◌else◌,
  bit_and, bit_or, any_bit, u8, update,
}
use x68k_stackchan.Base.Int.{ℤ, pos, negsuc}

-- `ChannelState`.
pub record ChannelState : Type 0 where
  pub wr : ℕ → ℕ
  pub pointer : ℕ
  pub rx_fifo : ℕ → ℕ
  pub rx_count : ℕ
  pub rx_interrupt_pending : Bool

pub record Scc : Type 0 where
  pub ch : ℕ → ChannelState
  pub shared_wr : ℕ → ℕ

abbrev pub reg_count : ℕ
reg_count = 16

abbrev pub channel_b : ℕ
channel_b = 0

abbrev pub channel_a : ℕ
channel_a = 1

abbrev pub channel_count : ℕ
channel_count = 2

abbrev pub rr0_rx_available : ℕ
rr0_rx_available = 0x01

abbrev pub rr0_dcd : ℕ
rr0_dcd = 0x08

abbrev pub rr0_tx_empty : ℕ
rr0_tx_empty = 0x04

abbrev pub rr0_cts : ℕ
rr0_cts = 0x20

abbrev pub wr1_rx_int_mask : ℕ
wr1_rx_int_mask = 0x18

abbrev pub wr3_rx_enable : ℕ
wr3_rx_enable = 0x01

abbrev pub wr5_rts : ℕ
wr5_rts = 0x02

abbrev pub wr9_mie : ℕ
wr9_mie = 0x08

abbrev pub wr9_vis : ℕ
wr9_vis = 0x01

abbrev pub wr0_cmd_reset_highest_ius : ℕ
wr0_cmd_reset_highest_ius = 0x38

abbrev pub pointer_mask : ℕ
pointer_mask = 0x07

abbrev pub point_high : ℕ
point_high = 0x08

abbrev pub command_mask : ℕ
command_mask = 0x38

abbrev pub rx_int_first_only : ℕ
rx_int_first_only = 0x08

abbrev pub rx_int_all_chars : ℕ
rx_int_all_chars = 0x10

abbrev pub rx_int_special_only : ℕ
rx_int_special_only = 0x18

abbrev pub wr2_vector : ℕ
wr2_vector = 2

abbrev pub vector_status_rx_b : ℕ
vector_status_rx_b = 4

abbrev pub vector_status_rx_a : ℕ
vector_status_rx_a = 12

abbrev pub mouse_button_right : ℕ
mouse_button_right = 0x01

abbrev pub mouse_button_left : ℕ
mouse_button_left = 0x02

abbrev pub rx_fifo_size : ℕ
rx_fifo_size = 8

abbrev pub mouse_report_bytes : ℕ
mouse_report_bytes = 3

-- The byte of a motion, in two's complement, cut off at -128 and 127.
unfoldable pub saturate_delta : ℤ → ℕ
saturate_delta (pos n) = if ltb 127 n then 127 else n
saturate_delta (negsuc n) = if ltb 127 n then 128 else 255 - n

abbrev pub is_valid_channel : ℕ → Bool
is_valid_channel channel = ltb channel channel_count

abbrev pub is_shared_reg : ℕ → Bool
is_shared_reg reg = reg == 2 || reg == 9

abbrev pub reset_channel : ChannelState
reset_channel = record {
  wr = λ reg. 0;
  pointer = 0;
  rx_fifo = λ i. 0;
  rx_count = 0;
  rx_interrupt_pending = false;
}

abbrev pub reset : Scc
reset = record { ch = λ channel. reset_channel; shared_wr = λ reg. 0 }

unfoldable pub peek : ℕ → ℕ → Scc → ℕ
peek channel reg s =
    if not (is_valid_channel channel) || leb reg_count reg
    then 0
    else if is_shared_reg reg
    then s.shared_wr reg
    else (s.ch channel).wr reg

unfoldable pub pending_bytes : ℕ → Scc → ℕ
pending_bytes channel s = if not (is_valid_channel channel) then 0 else (s.ch channel).rx_count

unfoldable pub build_rr0 : ChannelState → ℕ
build_rr0 state =
    let value : ℕ = bit_or (bit_or rr0_tx_empty rr0_dcd) rr0_cts in
    if ltb 0 state.rx_count then bit_or value rr0_rx_available else value

-- The mode of WR1 wants an interrupt for a byte that comes in.
unfoldable pub is_mode_enabled : ℕ → Bool
is_mode_enabled wr1 =
    let mode = bit_and wr1 wr1_rx_int_mask in
    mode == rx_int_all_chars || mode == rx_int_first_only || mode == rx_int_special_only

-- `wantsRxInterrupt`, of a channel's state and of WR9.
abbrev pub wants_rx_interrupt : ChannelState → ℕ → Bool
wants_rx_interrupt state wr9 = is_mode_enabled (state.wr 1) && any_bit wr9 wr9_mie

-- `refreshRxInterrupt` likewise.
unfoldable pub refreshed : ℕ → ChannelState → ChannelState
refreshed wr9 state = record state {
  rx_interrupt_pending = ltb 0 state.rx_count && wants_rx_interrupt state wr9;
}

abbrev pub set_channel : ℕ → ChannelState → Scc → Scc
set_channel channel state s = record s { ch = update s.ch channel state }

abbrev pub refresh_rx_interrupt : ℕ → Scc → Scc
refresh_rx_interrupt channel s = set_channel channel (refreshed (s.shared_wr 9) (s.ch channel)) s

-- RR2: the vector, on channel B with the cause in it.
abbrev pub read_vector : ℕ → Scc → ℕ
read_vector channel s =
    let base = s.shared_wr wr2_vector in
    if not (channel == channel_b) || not (any_bit (s.shared_wr 9) wr9_vis)
    then base
    else if (s.ch channel_b).rx_interrupt_pending
    then u8 (base + vector_status_rx_b)
    else if (s.ch channel_a).rx_interrupt_pending
    then u8 (base + vector_status_rx_a)
    else base

-- RR3: what is pending, on channel A.
abbrev pub read_pending : ℕ → Scc → ℕ
read_pending channel s =
    let b : ℕ = if (s.ch channel_b).rx_interrupt_pending then 0x04 else 0 in
    let value : ℕ = if (s.ch channel_a).rx_interrupt_pending then bit_or b 0x20 else b in
    if channel == channel_a then value else 0

unfoldable pub read_control : ℕ → Scc → ℕ × Scc
read_control channel s =
    let state = s.ch channel in
    let reg = state.pointer in
    let value =
      if reg == 0
      then build_rr0 state
      else if reg == 1
      then 0x01
      else if reg == 2
      then read_vector channel s
      else if reg == 3
      then read_pending channel s
      else if ltb reg reg_count
      then state.wr reg
      else 0 in
    if not (is_valid_channel channel)
    then (0, s)
    else (value, set_channel channel (record state { pointer = 0 }) s)

-- A write of WR0: the register of the next access, and a command.
unfoldable pub write_wr0 : ℕ → ℕ → Scc → Scc
write_wr0 channel value s =
    let selected = bit_and value pointer_mask in
    let is_point_high = any_bit value point_high in
    let chosen =
      set_channel channel
        (record (s.ch channel) { pointer = selected + (if is_point_high then 8 else 0) }) s in
    if bit_and value command_mask == wr0_cmd_reset_highest_ius
    then refresh_rx_interrupt channel chosen
    else chosen

-- The byte is put into its register.
unfoldable pub store : ℕ → ℕ → ℕ → Scc → Scc
store channel reg value s =
    if ltb reg reg_count
    then if is_shared_reg reg
      then record s { shared_wr = update s.shared_wr reg value }
      else set_channel channel (record (s.ch channel) { wr = update (s.ch channel).wr reg value }) s
    else s

abbrev pub drop_interrupt : ChannelState → ChannelState
drop_interrupt state = record state { rx_interrupt_pending = false }

-- WR9 with no master enable: both channels lose their interrupts.
unfoldable pub master_control : ℕ → ℕ → Scc → Scc
master_control reg value s =
    if reg == 9 && not (any_bit value wr9_mie)
    then record s { ch = λ i. drop_interrupt (s.ch i) }
    else s

-- WR3 with no receiver: what has come in is dropped.
unfoldable pub rx_control : ℕ → ℕ → ℕ → Scc → Scc
rx_control channel reg value s =
    if reg == 3 && not (any_bit value wr3_rx_enable)
    then set_channel channel (record (s.ch channel) { rx_count = 0; rx_interrupt_pending = false })
        s
    else s

unfoldable pub int_control : ℕ → ℕ → Scc → Scc
int_control channel reg s = if reg == 1 then refresh_rx_interrupt channel s else s

-- A write of another register than WR0.
abbrev pub write_register : ℕ → ℕ → ℕ → Scc → Scc
write_register channel reg value s =
    int_control channel reg
      (rx_control channel reg value (master_control reg value (store channel reg value s)))

unfoldable pub write_control : ℕ → ℕ → Scc → Scc
write_control channel value s =
    let reg = (s.ch channel).pointer in
    let begun = set_channel channel (record (s.ch channel) { pointer = 0 }) s in
    if not (is_valid_channel channel)
    then s
    else if reg == 0
    then write_wr0 channel value begun
    else write_register channel reg value begun

-- The loop of `readData`: `n` bytes move down, from the place `i` on.
abbrev pub shift_loop : ℕ → ℕ → (ℕ → ℕ) → ℕ → ℕ
shift_loop zero i fifo = fifo
shift_loop (suc n) i fifo = shift_loop n (suc i) (update fifo (i - 1) (fifo i))

unfoldable pub read_data : ℕ → Scc → ℕ × Scc
read_data channel s =
    let state = s.ch channel in
    let rest = record state {
      rx_fifo = shift_loop (state.rx_count - 1) 1 state.rx_fifo;
      rx_count = state.rx_count - 1;
    } in
    if not (is_valid_channel channel)
    then (0, s)
    else if state.rx_count == 0
    then (0, s)
    else (state.rx_fifo 0, refresh_rx_interrupt channel (set_channel channel rest s))

unfoldable pub write_data : ℕ → ℕ → Scc → Scc
write_data channel value s = s

unfoldable pub is_mouse_enabled : Scc → Bool
is_mouse_enabled s =
    any_bit ((s.ch channel_b).wr 3) wr3_rx_enable && any_bit ((s.ch channel_b).wr 5) wr5_rts

unfoldable pub push_rx_byte : ℕ → ℕ → Scc → Scc
push_rx_byte channel value s =
    let state = s.ch channel in
    if leb rx_fifo_size state.rx_count
    then s
    else refresh_rx_interrupt channel (
        set_channel channel
          (record state {
            rx_fifo = update state.rx_fifo state.rx_count value;
            rx_count = state.rx_count + 1;
          })
          s)

abbrev pub buttons_of : Bool → Bool → ℕ
buttons_of left_button right_button =
    let left : ℕ = if left_button then mouse_button_left else 0 in
    if right_button then bit_or left mouse_button_right else left

unfoldable pub move_mouse : ℤ → ℤ → Bool → Bool → Scc → Bool × Scc
move_mouse dx dy left_button right_button s =
    if not (is_mouse_enabled s)
    then (false, s)
    else if ltb (rx_fifo_size - (s.ch channel_b).rx_count) mouse_report_bytes
    then (false, s)
    else (
      true,
      push_rx_byte channel_b (saturate_delta dy) (
          push_rx_byte channel_b (saturate_delta dx)
            (push_rx_byte channel_b (buttons_of left_button right_button) s)),
    )

unfoldable pub has_pending_interrupt : Scc → Bool
has_pending_interrupt s =
    (s.ch channel_a).rx_interrupt_pending || (s.ch channel_b).rx_interrupt_pending

unfoldable pub acknowledge_interrupt : Scc → ℕ × Scc
acknowledge_interrupt s =
    let base = s.shared_wr wr2_vector in
    if not (has_pending_interrupt s)
    then (0, s)
    else if (s.ch channel_b).rx_interrupt_pending
    then (base + vector_status_rx_b, set_channel channel_b (drop_interrupt (s.ch channel_b)) s)
    else (base + vector_status_rx_a, set_channel channel_a (drop_interrupt (s.ch channel_a)) s)
