-- ===== src/Dmac/Transfer.antt =====
-- The registers after a transfer.
use x68k_stackchan.Base.{
  ℕ, ◌+◌, ◌-◌, ◌%◌, ◌^◌, ◌≤◌, ◌<◌, ◌≡◌, ◌≢◌, refl, sym, ◌∙◌, Bool, true, false, not, ◌&&◌, ◌||◌,
  arith, if◌then◌else◌, ◌==◌, subst, update, any_bit, bool_eq, bool_eq-eq, &&-true, bit_or, clear8,
  u32,
}
use x68k_stackchan.Base.Bits.{all_below, all_below_sound}
use x68k_stackchan.Dmac.{
  Wiring, Dmac, run_transfer, transfer, address_of, count_of, requested_of, put_address, put_count,
  put_status, reg_csr, reg_cer, reg_ocr, reg_mtc, reg_mar, csr_complete, csr_active, csr_error,
  cer_bus_error_device, ocr_direction_to_memory,
}
use x68k_stackchan.Dmac.Loop.{Lawful, transfer-IsMoved}
use x68k_stackchan.Dmac.Cut.{IsCut, block_of, transfer-IsCut}

abbrev pub IsBytes : Dmac → Type 0
IsBytes d = (channel reg : ℕ) → d.channels channel reg < 256

statuses : Bool → ℕ → Bool
statuses complete csr =
    let new =
      clear8 (if complete then bit_or csr csr_complete else bit_or csr csr_error) csr_active in
    bool_eq (any_bit new csr_complete) (complete || any_bit csr csr_complete)
    && (bool_eq (any_bit new csr_error) (not complete || any_bit csr csr_error)
        && bool_eq (any_bit new csr_active) false)

statuses_table : (b : Bool) → all_below 256 (statuses b) ≡ true
unfolding all_below statuses
statuses_table true = refl
statuses_table false = refl

-- What `run_transfer` leaves of a channel's registers when `left` of the bytes requested were not
-- transferred.
pub record IsEnded (left : ℕ) (regs regs' : ℕ → ℕ) : Type 0 where
  pub address : address_of regs' ≡ (address_of regs + (requested_of regs - left)) % 2 ^ 32
  pub count : count_of regs' ≡ left % 2 ^ 16
  pub complete :
      any_bit (regs' reg_csr) csr_complete ≡ (left == 0 || any_bit (regs reg_csr) csr_complete)
  pub error :
      any_bit (regs' reg_csr) csr_error ≡ (not (left == 0) || any_bit (regs reg_csr) csr_error)
  pub inactive : any_bit (regs' reg_csr) csr_active ≡ false
  pub cause : regs' reg_cer ≡ (if left == 0 then regs reg_cer else cer_bus_error_device)
  pub operation : regs' reg_ocr ≡ regs reg_ocr

module _ (addr left : ℕ) (regs : ℕ → ℕ) (al : addr < 2 ^ 32) (ll : left ≤ 2 ^ 16) where
  abbrev ended : ℕ → ℕ
  ended = put_status (left == 0) (put_count left (put_address addr regs))

  ended_address : address_of ended ≡ addr
  ended_address = ground arith

  ended_count : count_of ended ≡ left % 2 ^ 16
  ended_count = ground arith

  status_is :
      ended reg_csr
      ≡ clear8
          (if left == 0
            then bit_or (regs reg_csr) csr_complete
            else bit_or (regs reg_csr) csr_error)
          csr_active
  status_is = ground arith

  ended_csr :
      regs reg_csr < 256
      → (any_bit (ended reg_csr) csr_complete ≡ (left == 0 || any_bit (regs reg_csr) csr_complete))
        × (any_bit (ended reg_csr) csr_error
            ≡ (not (left == 0) || any_bit (regs reg_csr) csr_error))
        × (any_bit (ended reg_csr) csr_active ≡ false)
  unfolding statuses
  ended_csr h =
      let row : statuses (left == 0) (regs reg_csr) ≡ true =
        all_below_sound 256 (statuses (left == 0)) (regs reg_csr) (statuses_table (left == 0)) h in
      let (complete, rest) = &&-true _ _ row in
      let (error, active) = &&-true _ _ rest in
      rw status_is (bool_eq-eq _ _ complete, bool_eq-eq _ _ error, bool_eq-eq _ _ active)

  ended_cause : ended reg_cer ≡ (if left == 0 then regs reg_cer else cer_bus_error_device)
  ended_cause = ground arith

  ended_operation : ended reg_ocr ≡ regs reg_ocr
  ended_operation = ground arith

update-at : {A : Type 0} (f : ℕ → A) (i : ℕ) (v : A) → update f i v i ≡ v
update-at f i v = ground arith

update-not : {A : Type 0} (f : ℕ → A) (i : ℕ) (v : A) (j : ℕ) → j ≢ i → update f i v j ≡ f j
update-not f i v j h = ground arith

live {ℓ} :
    {A : Type ℓ} (a b : Bool) (x y : A) → a ≡ true → b ≡ true → (if not (a && b) then x else y) ≡ y
live a b x y p q = rw (p, q) refl

address-lt : (d : Dmac) (channel : ℕ) → IsBytes d → address_of (d.channels channel) < 2 ^ 32
address-lt d channel h = omega (
  arith,
  h channel reg_mar,
  h channel (reg_mar + 1),
  h channel (reg_mar + 2),
  h channel (reg_mar + 3),
)

requested-le : (d : Dmac) (channel : ℕ) → IsBytes d → requested_of (d.channels channel) ≤ 2 ^ 16
requested-le d channel h = ground (arith, h channel reg_mtc, h channel (reg_mtc + 1))

-- With byte registers, a device and a memory, after the block that the device moves itself on the way
-- to memory, if any, `run_transfer` moves byte after byte up to the first one that the device refuses,
-- or all that are requested (0 in the register stands for 65536): the device accepts every byte moved,
-- and when bytes are left it refuses the first of them. The address register has gone up by the bytes
-- transferred, modulo 2 ^ 32, and the count register holds the rest. The channel is inactive; it is
-- marked complete when nothing is left, and otherwise in error with the device as the cause. No other
-- channel changes.
pub run_transfer-IsEnded :
    (wiring : Wiring) (channel : ℕ) (d : Dmac) (w : wiring.W)
    → Lawful wiring
    → IsBytes d
    → wiring.has_device channel ≡ true
    → wiring.has_memory ≡ true
    → let regs = d.channels channel in
      let to_device = not (any_bit (regs reg_ocr) ocr_direction_to_memory) in
      let block = block_of wiring to_device channel (address_of regs) (requested_of regs) w in
      (left : ℕ) × (left ≤ requested_of regs)
      × IsCut wiring to_device channel
          (requested_of regs - block.0)
          (u32 (address_of regs + block.0))
          block.1
          left
      × IsEnded left regs ((run_transfer wiring channel (d, w)).0.channels channel)
      × ((other : ℕ)
          → other ≢ channel
          → (run_transfer wiring channel (d, w)).0.channels other ≡ d.channels other)
unfolding run_transfer
run_transfer-IsEnded wiring channel d w law h e f =
    let regs = d.channels channel in
    let out =
      transfer wiring (not (any_bit (regs reg_ocr) ocr_direction_to_memory)) channel
        (requested_of regs) (address_of regs) w in
    let m =
      transfer-IsMoved wiring (not (any_bit (regs reg_ocr) ocr_direction_to_memory)) channel
        (requested_of regs) (address_of regs) w law (address-lt d channel h)
        (requested-le d channel h) in
    let regs' = put_status (out.1 == 0) (put_count out.1 (put_address out.0 regs)) in
    let d' : Dmac = record { channels = update d.channels channel regs' } in
    let al : out.0 < 2 ^ 32 = omega (arith, m.onward) in
    let ll : out.1 ≤ 2 ^ 16 = omega (arith, m.fewer, requested-le d channel h) in
    let status = ended_csr out.0 out.1 regs al ll (h channel reg_csr) in
    let ended' : IsEnded out.1 regs regs' = record {
      address = ended_address out.0 out.1 regs al ll ∙ m.onward;
      count = ended_count out.0 out.1 regs al ll;
      complete = status.0;
      error = status.1;
      inactive = status.2;
      cause = ended_cause out.0 out.1 regs al ll;
      operation = ended_operation out.0 out.1 regs al ll;
    } in
    let opened =
      live {A = Dmac × wiring.W} (wiring.has_device channel) wiring.has_memory (d, w) (d', _) e f in
    (
      out.1,
      m.fewer,
      transfer-IsCut wiring (not (any_bit (regs reg_ocr) ocr_direction_to_memory)) channel
          (requested_of regs) (address_of regs) w law (address-lt d channel h)
          (requested-le d channel h),
      subst (λ r. IsEnded out.1 regs (r.0.channels channel)) (sym opened)
          (subst (IsEnded out.1 regs) (sym (update-at d.channels channel regs')) ended'),
      λ other ne.
          subst (λ r. r.0.channels other ≡ d.channels other) (sym opened)
            (update-not d.channels channel regs' other ne),
    )
