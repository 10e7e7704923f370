-- ===== src/Scc/Fifo.antt =====
-- The receive FIFO of a channel, an array and a count, as the list of the bytes that wait.
use x68k_stackchan.Base.{
  ℕ, zero, suc, ◌+◌, ◌-◌, ◌<◌, ◌≤◌, ◌≡◌, ◌≢◌, refl, sym, ap, ◌∙◌, Bool, true, false, ◌&&◌, arith,
  ltb, leb, ◌==◌, if◌then◌else◌, Bool-cases, inl, inr, update, List, [], ◌∷◌, ◌++◌,
}
use mathlib.Core.List.{append-nil, append_assoc}
use x68k_stackchan.Base.Int.{ℤ}
use x68k_stackchan.Scc.{
  ChannelState, Scc, channel_b, shift_loop, read_data, push_rx_byte, move_mouse, is_mouse_enabled,
  saturate_delta, buttons_of, refreshed,
}

-- `n` bytes of the array from the place `i` on.
abbrev pub taken : ℕ → ℕ → (ℕ → ℕ) → List ℕ
taken zero i fifo = []
taken (suc n) i fifo = fifo i ∷ taken n (suc i) fifo

abbrev pub contents : ChannelState → List ℕ
contents state = taken state.rx_count 0 state.rx_fifo

shift_loop_lem :
    (n i : ℕ) (fifo : ℕ → ℕ) (j : ℕ)
    → shift_loop n (suc i) fifo j ≡ (if leb i j && ltb j (i + n) then fifo (suc j) else fifo j)
shift_loop_lem zero i fifo j = ground arith
shift_loop_lem (suc n) i fifo j =
    ground (arith, shift_loop_lem n (suc i) (update fifo i (fifo (suc i))) j)

-- Places that hold what the next places held.
taken-down :
    (n i : ℕ) (f g : ℕ → ℕ)
    → ((j : ℕ) → i ≤ j → j < i + n → g j ≡ f (suc j))
    → taken n i g ≡ taken n (suc i) f
taken-down zero i f g h = refl
taken-down (suc n) i f g h = λ k.
    h i (omega arith) (omega arith) k
    ∷ taken-down n (suc i) f g (λ j p q. h j (omega arith) (omega arith)) k

taken-put :
    (n i place : ℕ) (f : ℕ → ℕ) (value : ℕ)
    → place ≡ i + n
    → taken (suc n) i (update f place value) ≡ taken n i f ++ value ∷ []
taken-put zero i place f value e = ap (λ x. x ∷ []) (ground (arith, e))
taken-put (suc n) i place f value e =
    let before : update f place value i ≡ f i = ground (arith, e) in
    λ k. before k ∷ taken-put n (suc i) place f value (omega (arith, e)) k

shifted-contents :
    (count : ℕ) (f : ℕ → ℕ)
    → count ≢ 0
    → f 0 ∷ taken (count - 1) 0 (shift_loop (count - 1) 1 f) ≡ taken count 0 f
shifted-contents zero f h = absurd (h refl)
shifted-contents (suc n) f h =
    let one : suc n - 1 ≡ n = omega arith in
    rw one (
      ap (λ l. f 0 ∷ l)
        (taken-down n 0 f (shift_loop n 1 f) (λ j p q. ground (arith, shift_loop_lem n 0 f j))))

-- A byte is taken out of a channel.
pub read_data-contents :
    (channel : ℕ) (s : Scc)
    → channel < 2
    → (s.ch channel).rx_count ≢ 0
    → (read_data channel s).0 ∷ contents ((read_data channel s).1.ch channel)
      ≡ contents (s.ch channel)
unfolding read_data refreshed
read_data-contents channel s c n =
    let there : ltb channel 2 ≡ true = ground arith in
    let more : ((s.ch channel).rx_count == 0) ≡ false = ground arith in
    let same : (channel == channel) ≡ true = ground arith in
    rw (there, more, same) (shifted-contents (s.ch channel).rx_count (s.ch channel).rx_fifo n)

-- One is put into it.
pub push_rx_byte-contents :
    (channel value : ℕ) (s : Scc)
    → (s.ch channel).rx_count < 8
    → contents ((push_rx_byte channel value s).ch channel) ≡ contents (s.ch channel) ++ value ∷ []
unfolding push_rx_byte refreshed
push_rx_byte-contents channel value s r =
    let room : leb 8 (s.ch channel).rx_count ≡ false = ground arith in
    let same : (channel == channel) ≡ true = ground arith in
    let one : (s.ch channel).rx_count + 1 ≡ suc (s.ch channel).rx_count = omega arith in
    rw (room, same, one)
      (taken-put (s.ch channel).rx_count 0 (s.ch channel).rx_count (s.ch channel).rx_fifo value
        (omega arith))

push_rx_byte-rx_count :
    (channel value : ℕ) (s : Scc)
    → (s.ch channel).rx_count < 8
    → ((push_rx_byte channel value s).ch channel).rx_count ≡ suc (s.ch channel).rx_count
unfolding push_rx_byte refreshed
push_rx_byte-rx_count channel value s r =
    let room : leb 8 (s.ch channel).rx_count ≡ false = ground arith in
    let same : (channel == channel) ≡ true = ground arith in rw (room, same) (omega arith)

abbrev pub report : ℤ → ℤ → Bool → Bool → List ℕ
report dx dy l r = buttons_of l r ∷ saturate_delta dx ∷ saturate_delta dy ∷ []

-- A report: all three bytes, or nothing and no change.
pub move_mouse-contents :
    (dx dy : ℤ) (l r : Bool) (s : Scc)
    → contents ((move_mouse dx dy l r s).1.ch channel_b)
      ≡ contents (s.ch channel_b) ++ (if (move_mouse dx dy l r s).0 then report dx dy l r else [])
unfolding move_mouse
move_mouse-contents dx dy l r s = elim (Bool-cases (is_mouse_enabled s)) [
  | inl e ↦ elim (Bool-cases (ltb (8 - (s.ch 0).rx_count) 3)) [
    | inl f ↦ rw (e, f) (sym (append-nil (contents (s.ch 0))))
    | inr f ↦
        let room : (s.ch 0).rx_count < 6 = grind (f, arith) in
        let s1 = push_rx_byte 0 (buttons_of l r) s in
        let s2 = push_rx_byte 0 (saturate_delta dx) s1 in
        let n1 = push_rx_byte-rx_count 0 (buttons_of l r) s (omega arith) in
        let n2 = push_rx_byte-rx_count 0 (saturate_delta dx) s1 (omega (arith, n1)) in
        let c1 = push_rx_byte-contents 0 (buttons_of l r) s (omega arith) in
        let c2 = push_rx_byte-contents 0 (saturate_delta dx) s1 (omega (arith, n1)) in
        let c3 = push_rx_byte-contents 0 (saturate_delta dy) s2 (omega (arith, n1, n2)) in
        let bs = contents (s.ch 0) in
        let two =
          c2 ∙ ap (λ l. l ++ saturate_delta dx ∷ []) c1 ∙ append_assoc bs (buttons_of l r ∷ []) _ in
        rw (e, f)
          (c3
            ∙ ap (λ l. l ++ saturate_delta dy ∷ []) two
            ∙ append_assoc bs (buttons_of l r ∷ saturate_delta dx ∷ []) (saturate_delta dy ∷ []))
  ]
  | inr e ↦ rw e (sym (append-nil (contents (s.ch 0))))
]
