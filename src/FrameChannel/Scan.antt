-- ===== src/FrameChannel/Scan.antt =====
-- What the scans of the slots find.
use x68k_stackchan.Base.{
  ℕ, zero, suc, ◌+◌, ◌≤◌, ◌<◌, ◌≡◌, ◌≢◌, ◌⊎◌, inl, inr, refl, true, false, arith, ltb, ◌==◌,
  if◌then◌else◌, update, Option, some, none, Bool-cases, ◌∙◌, subst,
}
use x68k_stackchan.FrameChannel.{
  Slot, free, writing, ready, in_transfer, is_free, is_ready, is_in_transfer, is_older, first_free,
  has_transfer, find_oldest, clear_transfer,
}

pub is_free-eq : (s : Slot) → is_free s ≡ true → s ≡ free
is_free-eq free e = refl
is_free-eq writing e = cc
is_free-eq ready e = cc
is_free-eq in_transfer e = cc

pub is_ready-eq : (s : Slot) → is_ready s ≡ true → s ≡ ready
is_ready-eq free e = cc
is_ready-eq writing e = cc
is_ready-eq ready e = refl
is_ready-eq in_transfer e = cc

pub is_in_transfer-eq : (s : Slot) → is_in_transfer s ≡ true → s ≡ in_transfer
is_in_transfer-eq free e = cc
is_in_transfer-eq writing e = cc
is_in_transfer-eq ready e = cc
is_in_transfer-eq in_transfer e = refl

module _ (slots : ℕ → Slot) where
  -- A slot that is found is free and in the range.
  pub first_free-some :
      (left i o : ℕ)
      → first_free slots left i ≡ some o
      → (i ≤ o) × (o < i + left) × (slots o ≡ free)
  unfolding first_free
  first_free-some zero i o e = cc
  first_free-some (suc left) i o e =
      ground (arith, is_free-eq (slots i), first_free-some left (i + 1) o)

  pub first_free-none :
      (left i : ℕ)
      → first_free slots left i ≡ none
      → (j : ℕ) → i ≤ j
      → j < i + left
      → slots j ≢ free
  unfolding first_free
  first_free-none zero i e j p q = absurd (omega arith)
  first_free-none (suc left) i e j p q = elim (Bool-cases (i == j)) [
    | inl s ↦ λ h. ground arith
    | inr s ↦ first_free-none left (i + 1) (ground arith) j (ground arith) (omega arith)
  ]

  pub has_transfer-false :
      (left i : ℕ)
      → has_transfer slots left i ≡ false
      → (j : ℕ) → i ≤ j
      → j < i + left
      → slots j ≢ in_transfer
  unfolding has_transfer
  has_transfer-false zero i e j p q = absurd (omega arith)
  has_transfer-false (suc left) i e j p q = elim (Bool-cases (i == j)) [
    | inl s ↦ λ h. ground arith
    | inr s ↦ has_transfer-false left (i + 1) (ground arith) j (ground arith) (omega arith)
  ]

  pub has_transfer-true :
      (left i : ℕ)
      → has_transfer slots left i ≡ true
      → (j : ℕ) × (i ≤ j) × (j < i + left) × (slots j ≡ in_transfer)
  unfolding has_transfer
  has_transfer-true zero i e = cc
  has_transfer-true (suc left) i e = elim (Bool-cases (is_in_transfer (slots i))) [
    | inl s ↦ (i, omega arith, omega arith, is_in_transfer-eq (slots i) s)
    | inr s ↦
        let (j, p, q, h) = has_transfer-true left (i + 1) (ground arith) in
        (j, omega arith, omega arith, h)
  ]

-- A slot before the range stays, one in the range is freed if it was in transfer.
clear_transfer-below :
    (slots : ℕ → Slot) (left i j : ℕ) → j < i → clear_transfer left i slots j ≡ slots j
unfolding clear_transfer
clear_transfer-below slots zero i j h = refl
clear_transfer-below slots (suc left) i j h = elim (Bool-cases (is_in_transfer (slots i))) [
  | inl s ↦
      rw s (clear_transfer-below (update slots i free) left (i + 1) j (omega arith) ∙ ground arith)
  | inr s ↦ rw s (clear_transfer-below slots left (i + 1) j (omega arith))
]

pub clear_transfer_lem :
    (slots : ℕ → Slot) (left i j : ℕ)
    → i ≤ j
    → j < i + left
    → clear_transfer left i slots j ≡ (if is_in_transfer (slots j) then free else slots j)
unfolding clear_transfer
clear_transfer_lem slots zero i j p q = absurd (omega arith)
clear_transfer_lem slots (suc left) i j p q = elim (Bool-cases (i == j)) [
  | inl same ↦ rw (clear_transfer-below slots' left (i + 1) j (ground arith)) (ground arith)
  | inr other ↦
      rw (clear_transfer_lem slots' left (i + 1) j (ground arith) (omega arith)) (ground arith)
]
  where
    slots' : ℕ → Slot
    slots' = if is_in_transfer (slots i) then update slots i free else slots

module _ (slots : ℕ → Slot) (seq : ℕ → ℕ) where
  -- The candidate so far is ready and not younger than any ready slot seen.
  abbrev pub Oldest : ℕ → Option ℕ → Type 0
  Oldest i none = (j : ℕ) → j < i → slots j ≢ ready
  Oldest i (some o) =
      (o < i) × (slots o ≡ ready) × ((j : ℕ) → j < i → slots j ≡ ready → seq o ≤ seq j)

  abbrev next : ℕ → Option ℕ → Option ℕ
  next i o = if is_ready (slots i) then (if is_older seq i o then some i else o) else o

  last : (i j : ℕ) → j < i + 1 → (j < i) ⊎ (j ≡ i)
  last i j h = ground arith

  step : (i : ℕ) (o : Option ℕ) → Oldest i o → Oldest (i + 1) (next i o)
  step i none h = elim (Bool-cases (is_ready (slots i))) [
    | inl r ↦ rw r (omega arith, is_ready-eq (slots i) r, λ j p q. ground (arith, h j))
    | inr r ↦ rw r (λ j p q. ground (arith, h j))
  ]
  step i (some o) h = elim (Bool-cases (is_ready (slots i))) [
    | inl r ↦ rw r (elim (Bool-cases (ltb (seq i) (seq o))) [
      | inl k ↦ rw k (omega arith, is_ready-eq (slots i) r, λ j p q. ground (arith, h.2 j))
      | inr k ↦ rw k (omega arith, h.1, λ j p q. ground (arith, h.2 j))
    ])
    | inr r ↦ rw r (omega arith, h.1, λ j p q. ground (arith, h.2 j))
  ]

  pub find_oldest-Oldest :
      (left i : ℕ) (o : Option ℕ) → Oldest i o → Oldest (i + left) (find_oldest slots seq left i o)
  unfolding find_oldest
  find_oldest-Oldest zero i o h = subst (λ (k : ℕ). Oldest k o) (omega arith) h
  find_oldest-Oldest (suc left) i o h =
      subst (λ (k : ℕ). Oldest k (find_oldest slots seq (suc left) i o)) (omega arith)
        (find_oldest-Oldest left (i + 1) (next i o) (step i o h))
