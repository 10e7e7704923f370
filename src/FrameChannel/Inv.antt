-- ===== src/FrameChannel/Inv.antt =====
-- The invariant of the channel, under every call.
use x68k_stackchan.Base.{
  ℕ, ◌+◌, ◌^◌, ◌<◌, ◌≡◌, ◌≢◌, ◌↔◌, inl, inr, refl, true, arith, if◌then◌else◌, some, none,
  Bool-cases, ◌∙◌,
}
use x68k_stackchan.FrameChannel.{
  free, writing, ready, in_transfer, FrameChannel, is_in_transfer, lend, publish_at, hand_over,
  done,
}
use x68k_stackchan.FrameChannel.Scan.{clear_transfer_lem}

-- The lent buffer and the flag of its slot agree, at most one slot is in transfer, and the numbers of
-- the published frames are distinct and already given out.
pub record IsValid (f : FrameChannel) : Type 0 where
  pub created : f.mutex ≡ true
  pub apart : (i j : ℕ) → i < 3 → j < 3 → i ≢ j → f.buffers i ≢ f.buffers j
  pub real : (i : ℕ) → i < 3 → f.buffers i ≢ 0
  pub lent : (i : ℕ) → f.writing_index ≡ some i → i < 3
  pub flagged : (i : ℕ) → i < 3 → (f.slots i ≡ writing) ↔ (f.writing_index ≡ some i)
  pub single : (i j : ℕ) → i < 3 → j < 3 → f.slots i ≡ in_transfer → f.slots j ≡ in_transfer → i ≡ j
  pub given : (i : ℕ) → i < 3 → f.slots i ≡ ready → f.ready_seq i < f.next_seq
  pub ordered :
      (i j : ℕ)
      → i < 3
      → j < 3
      → f.slots i ≡ ready
      → f.slots j ≡ ready
      → f.ready_seq i ≡ f.ready_seq j
      → i ≡ j

-- `done` frees the slots in transfer and leaves the others.
pub slots-done :
    (f : FrameChannel) (i : ℕ)
    → f.mutex ≡ true
    → i < 3
    → (done f).slots i ≡ (if is_in_transfer (f.slots i) then free else f.slots i)
unfolding done
slots-done f i m h = ground (arith, clear_transfer_lem f.slots 3 0 i)

pub kept-done :
    (f : FrameChannel)
    → ((done f).mutex ≡ f.mutex)
      × ((done f).buffers ≡ f.buffers)
      × ((done f).ready_seq ≡ f.ready_seq)
      × ((done f).next_seq ≡ f.next_seq)
      × ((done f).writing_index ≡ f.writing_index)
unfolding done
kept-done f = elim (Bool-cases f.mutex) [
  | inl e ↦ rw e (refl, refl, refl, refl, refl)
  | inr e ↦ rw e (refl, refl, refl, refl, refl)
]

pub done-IsValid : {f : FrameChannel} → IsValid f → IsValid (done f)
done-IsValid {f} v =
    let k = kept-done f in
    let at = λ (i : ℕ). slots-done f i v.created in
    record {
      created = k.0 ∙ v.created;
      apart = rw (k.1) v.apart;
      real = rw (k.1) v.real;
      lent = rw (k.4) v.lent;
      flagged = λ i p. ground (arith, at i p, k.4, v.flagged i p);
      single = λ i j p q a b. ground (arith, at i p, at j q, v.single i j p q);
      given = λ i p a. rw (k.2, k.3) (ground (arith, at i p, v.given i p));
      ordered = λ i j p q a b e. ground (arith, at i p, at j q, k.2, v.ordered i j p q);
    }

-- A slot is lent, published or handed over: one slot changes.
module _ {f : FrameChannel} (v : IsValid f) (i : ℕ) (p : i < 3) where
  pub lend-IsValid : f.writing_index ≡ none → f.slots i ≡ free → IsValid (lend f (some i)).0
  lend-IsValid w s = record {
    created = v.created;
    apart = v.apart;
    real = v.real;
    lent = λ j e. ground arith;
    flagged = λ j q. ground (arith, v.flagged j q);
    single = λ j k q r a b. ground (arith, v.single j k q r);
    given = λ j q a. ground (arith, v.given j q);
    ordered = λ j k q r a b e. ground (arith, v.ordered j k q r);
  }

  pub publish-IsValid :
      f.writing_index ≡ some i → f.next_seq + 1 < 2 ^ 32 → IsValid (publish_at f (some i)).0
  publish-IsValid w room = record {
    created = v.created;
    apart = v.apart;
    real = v.real;
    lent = λ j e. cc;
    flagged = λ j q. ground (arith, v.flagged j q);
    single = λ j k q r a b. ground (arith, v.single j k q r);
    given = λ j q a. ground (arith, v.given j q);
    ordered = λ j k q r a b e. ground (arith, v.ordered j k q r, v.given j q, v.given k r);
  }

  pub hand_over-IsValid :
      f.slots i ≡ ready
      → ((j : ℕ) → j < 3 → f.slots j ≢ in_transfer)
      → IsValid (hand_over f (some i)).0
  hand_over-IsValid s idle = record {
    created = v.created;
    apart = v.apart;
    real = v.real;
    lent = v.lent;
    flagged = λ j q. ground (arith, v.flagged j q);
    single = λ j k q r a b. ground (arith, idle j q, idle k r);
    given = λ j q a. ground (arith, v.given j q);
    ordered = λ j k q r a b e. ground (arith, v.ordered j k q r);
  }
