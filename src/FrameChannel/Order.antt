-- ===== src/FrameChannel/Order.antt =====
-- The calls of the two cores in any order: the invariant, no buffer shared, frames shown in order.
use x68k_stackchan.Base.{
  ℕ, ◌+◌, ◌^◌, ◌≤◌, ◌<◌, ◌≡◌, ◌≢◌, inl, inr, refl, true, false, arith, ◌==◌, ◌||◌, if◌then◌else◌,
  Option, some, none, List, [], ◌∷◌, Bool-cases, length,
}
use x68k_stackchan.FrameChannel.{
  free, ready, in_transfer, FrameChannel, begin, write_buffer, first_free, lend, publish_at,
  hand_over, try_write_under, has_transfer, find_oldest, try_write_buffer, publish, take, step, run,
  Call, try_write, publish_frame, take_frame, done_frame,
}
use x68k_stackchan.FrameChannel.Scan.{
  first_free-some, first_free-none, has_transfer-false, has_transfer-true, find_oldest-Oldest,
  Oldest,
}
use x68k_stackchan.FrameChannel.Inv.{
  IsValid, done-IsValid, lend-IsValid, publish-IsValid, hand_over-IsValid, slots-done, kept-done,
}

-- The outcomes of `tryWriteBuffer`.
pub data WriteOutcome (f : FrameChannel) : FrameChannel × ℕ → Type 0 where
  again : (i : ℕ) → f.writing_index ≡ some i → WriteOutcome f (f, f.buffers i)
  fresh :
      (i : ℕ) → i < 3 → f.writing_index ≡ none → f.slots i ≡ free → WriteOutcome f (lend f (some i))
  refused : f.writing_index ≡ none → ((i : ℕ) → i < 3 → f.slots i ≢ free) → WriteOutcome f (f, 0)

-- In a valid channel `try_write_buffer` returns the buffer already lent, lends a free one, or returns
-- `nullptr` and changes nothing because no slot is free.
pub try_write_buffer-WriteOutcome :
    {f : FrameChannel} → IsValid f → WriteOutcome f (try_write_buffer f)
unfolding try_write_buffer
try_write_buffer-WriteOutcome {f} v =
    simp v.created (go f.writing_index refl (first_free f.slots 3 0) refl)
  where
    go :
        (w : Option ℕ)
        → f.writing_index ≡ w
        → (o : Option ℕ) → first_free f.slots 3 0 ≡ o
        → WriteOutcome f (try_write_under f w)
    go (some i) e o q = again i e
    go none e (some i) q = let s = first_free-some f.slots 3 0 i q in rw q (fresh i s.1 e s.2)
    go none e none q = rw q (refused e (λ i p. first_free-none f.slots 3 0 q i (omega arith) p))

-- The outcomes of `take`.
pub data TakeOutcome (f : FrameChannel) : FrameChannel × ℕ → Type 0 where
  handed :
      (i : ℕ)
      → i < 3
      → f.slots i ≡ ready
      → ((j : ℕ) → j < 3 → f.slots j ≢ in_transfer)
      → ((j : ℕ) → j < 3 → f.slots j ≡ ready → f.ready_seq i ≤ f.ready_seq j)
      → find_oldest f.slots f.ready_seq 3 0 none ≡ some i
      → TakeOutcome f (hand_over f (some i))
  busy : (i : ℕ) → i < 3 → f.slots i ≡ in_transfer → TakeOutcome f (f, 0)
  empty : ((i : ℕ) → i < 3 → f.slots i ≢ ready) → TakeOutcome f (f, 0)

-- In a valid channel `take` hands over the published frame of the least number when none is in
-- transfer, and otherwise, or when none is published, returns `nullptr` and changes nothing.
pub take-TakeOutcome : {f : FrameChannel} → IsValid f → TakeOutcome f (take f)
unfolding take
take-TakeOutcome {f} v = simp v.created (elim (Bool-cases (has_transfer f.slots 3 0)) [
  | inl e ↦ rw e (let (i, p, q, h) = has_transfer-true f.slots 3 0 e in busy i q h)
  | inr e ↦ rw e (
      go (has_transfer-false f.slots 3 0 e) (find_oldest f.slots f.ready_seq 3 0 none) refl
        (find_oldest-Oldest f.slots f.ready_seq 3 0 none (λ j h. absurd (omega arith))))
])
  where
    go :
        ((j : ℕ) → 0 ≤ j → j < 3 → f.slots j ≢ in_transfer)
        → (o : Option ℕ) → find_oldest f.slots f.ready_seq 3 0 none ≡ o
        → Oldest f.slots f.ready_seq 3 o
        → TakeOutcome f (hand_over f o)
    go idle none e h = empty h
    go idle (some i) e h = handed i h.0 h.1 (λ j p. idle j (omega arith) p) h.2 e

-- The number of the frame that a `take` hands over.
unfoldable pub oldest_seq : FrameChannel → ℕ
oldest_seq f = elim (find_oldest f.slots f.ready_seq 3 0 none) [ some i ↦ f.ready_seq i | none ↦ 0 ]

-- The numbers of the frames that a sequence of calls hands to the display.
unfoldable pub shown : List Call → FrameChannel → List ℕ
shown [] f = []
shown (take_frame ∷ cs) f =
    let rest = shown cs (step take_frame f) in if (take f).1 == 0 then rest else oldest_seq f ∷ rest
shown (c ∷ cs) f = shown cs (step c f)

-- Strictly increasing from `n` on.
abbrev pub Increasing : ℕ → List ℕ → Type 0
Increasing n [] = Unit {0}
Increasing n (x ∷ xs) = (n ≤ x) × Increasing (x + 1) xs

-- No published frame is older than `n`.
pub record Above (n : ℕ) (f : FrameChannel) : Type 0 where
  pub queued : (i : ℕ) → i < 3 → f.slots i ≡ ready → n ≤ f.ready_seq i
  pub coming : n ≤ f.next_seq

publish_created : (f : FrameChannel) → f.mutex ≡ true → publish f ≡ publish_at f f.writing_index
unfolding publish
publish_created f m = ground arith

-- One call: the invariant stays and at most one number is given out.
pub record Kept (n : ℕ) (f f' : FrameChannel) : Type 0 where
  pub valid : IsValid f'
  pub above : Above n f'
  pub numbers : f'.next_seq ≤ f.next_seq + 1

module _ {f : FrameChannel} (v : IsValid f) {n : ℕ} (a : Above n f) where
  same-Kept : Kept n f f
  same-Kept = record { valid = v; above = a; numbers = omega arith }

  try_write-Kept : Kept n f (step try_write f)
  unfolding step
  try_write-Kept = go (try_write_buffer f) (try_write_buffer-WriteOutcome v)
    where
      go : (r : FrameChannel × ℕ) → WriteOutcome f r → Kept n f r.0
      go _ (again i e) = same-Kept
      go _ (fresh i p e s) = record {
        valid = lend-IsValid v i p e s;
        above = record { queued = λ j q h. ground (arith, a.queued j q); coming = a.coming };
        numbers = omega arith;
      }
      go _ (refused e h) = same-Kept

  publish-Kept : f.next_seq + 1 < 2 ^ 32 → Kept n f (step publish_frame f)
  unfolding step
  publish-Kept room = rw (publish_created f v.created, step) (go f.writing_index refl)
    where
      go : (w : Option ℕ) → f.writing_index ≡ w → Kept n f (publish_at f w).0
      go none e = same-Kept
      go (some i) e = record {
        valid = publish-IsValid v i (v.lent i e) e room;
        above = record {
          queued = λ j q h. let c = a.coming in ground (arith, a.queued j q);
          coming = let c = a.coming in omega arith;
        };
        numbers = omega arith;
      }

  done-Kept : Kept n f (step done_frame f)
  unfolding step
  done-Kept =
      let k = kept-done f in
      record {
        valid = done-IsValid v;
        above = record {
          queued = λ i p h. ground (arith, slots-done f i v.created p, k.2, a.queued i p);
          coming = rw (k.3) (a.coming);
        };
        numbers = rw (k.3) (omega arith);
      }

-- What a `take` leaves, and that a successful one hands over the oldest.
pub record Taken (n : ℕ) (f : FrameChannel) (r : FrameChannel × ℕ) : Type 0 where
  pub kept : Kept n f r.0
  pub first : r.1 ≢ 0 → n ≤ oldest_seq f
  pub rest : r.1 ≢ 0 → Above (oldest_seq f + 1) r.0

module _ {f : FrameChannel} (v : IsValid f) {n : ℕ} (a : Above n f) where
  pub take-Taken : Taken n f (take f)
  unfolding oldest_seq
  take-Taken = go (take f) (take-TakeOutcome v)
    where
      idle : Taken n f (f, 0)
      idle = record {
        kept = same-Kept v a;
        first = λ h. absurd (h refl);
        rest = λ h. absurd (h refl);
      }

      go : (r : FrameChannel × ℕ) → TakeOutcome f r → Taken n f r
      go _ (busy i p h) = idle
      go _ (empty h) = idle
      go _ (handed i p s quiet least e) = record {
        kept = record {
          valid = hand_over-IsValid v i p s quiet;
          above = record { queued = λ j q h. ground (arith, a.queued j q); coming = a.coming };
          numbers = omega arith;
        };
        first = λ h. rw (e, oldest_seq) (a.queued i p s);
        rest = λ h.
            rw (e, oldest_seq)
              (record {
                queued = λ j q r. ground (arith, least j q, v.ordered i j p q s);
                coming = omega (arith, v.given i p s);
              });
      }

  step-Kept : (c : Call) → f.next_seq + 1 < 2 ^ 32 → Kept n f (step c f)
  step-Kept try_write room = try_write-Kept v a
  step-Kept publish_frame room = publish-Kept v a room
  step-Kept take_frame room = unfold step in take-Taken.kept
  step-Kept done_frame room = done-Kept v a

shown-Increasing :
    (cs : List Call) {f : FrameChannel} {n : ℕ}
    → IsValid f
    → Above n f
    → f.next_seq + length cs < 2 ^ 32
    → Increasing n (shown cs f)
unfolding shown
shown-Increasing [] v a room = tt
shown-Increasing (try_write ∷ cs) {f} v a room =
    let k = step-Kept v a try_write (omega arith) in
    shown-Increasing cs k.valid k.above (omega (arith, k.numbers))
shown-Increasing (publish_frame ∷ cs) {f} v a room =
    let k = step-Kept v a publish_frame (omega arith) in
    shown-Increasing cs k.valid k.above (omega (arith, k.numbers))
shown-Increasing (done_frame ∷ cs) {f} v a room =
    let k = step-Kept v a done_frame (omega arith) in
    shown-Increasing cs k.valid k.above (omega (arith, k.numbers))
shown-Increasing (take_frame ∷ cs) {f} {n} v a room = elim (Bool-cases ((take f).1 == 0)) [
  | inl e ↦ rw e (shown-Increasing cs k.valid k.above (omega (arith, k.numbers)))
  | inr e ↦ rw e (
    t.first (moved e),
    shown-Increasing cs k.valid (unfold step in t.rest (moved e)) (omega (arith, k.numbers)),
  )
]
  where
    t : Taken n f (take f)
    t = take-Taken v a

    k : Kept n f (step take_frame f)
    k = step-Kept v a take_frame (omega arith)

    moved : ((take f).1 == 0) ≡ false → (take f).1 ≢ 0
    moved e h = ground arith

run-IsValid :
    (cs : List Call) {f : FrameChannel}
    → IsValid f
    → f.next_seq + length cs < 2 ^ 32
    → IsValid (run cs f)
unfolding run
run-IsValid [] v room = v
run-IsValid (c ∷ cs) v room =
    let k =
      step-Kept v {n = 0} (record { queued = λ i p h. omega arith; coming = omega arith }) c
        (omega arith) in
    run-IsValid cs k.valid (omega (arith, k.numbers))

-- The buffer that the writer holds and the one in transfer are different ones.
pub record IsExclusive (f : FrameChannel) : Type 0 where
  pub apart : (i : ℕ) → i < 3 → f.slots i ≡ in_transfer → f.buffers i ≢ write_buffer f
  pub one : (i j : ℕ) → i < 3 → j < 3 → f.slots i ≡ in_transfer → f.slots j ≡ in_transfer → i ≡ j

IsValid-IsExclusive : {f : FrameChannel} → IsValid f → IsExclusive f
unfolding write_buffer
IsValid-IsExclusive {f} v = record {
  apart = λ i p s. simp (v.created) (go i p s f.writing_index refl);
  one = v.single;
}
  where
    go :
        (i : ℕ)
        → i < 3
        → f.slots i ≡ in_transfer
        → (w : Option ℕ) → f.writing_index ≡ w
        → f.buffers i ≢ (elim w [ some k ↦ f.buffers k | none ↦ 0 ])
    go i p s none e = v.real i p
    go i p s (some k) e =
        v.apart i k p (v.lent k e) (λ same. ground (arith, (v.flagged k (v.lent k e)).1 e))

-- Three different buffers make a valid channel with nothing in it.
pub begin-IsValid :
    (a b c : ℕ) (f : FrameChannel)
    → (begin true a b c f).1 ≡ true
    → IsValid (begin true a b c f).0 × ((begin true a b c f).0.next_seq ≡ 1)
unfolding begin
begin-IsValid a b c f h =
    elim (Bool-cases (a == 0 || b == 0 || c == 0 || (a == b || b == c || a == c) || f.mutex)) [
      | inl e ↦ absurd (refused (rw e at h))
      | inr e ↦ rw e (
        record {
          created = refl;
          apart = λ i j p q ne. ground arith;
          real = λ i p. ground arith;
          lent = λ i p. cc;
          flagged = λ i p. (λ s. ground arith, λ s. cc);
          single = λ i j p q s t. ground arith;
          given = λ i p s. ground arith;
          ordered = λ i j p q s t e. ground arith;
        },
        refl,
      )
    ]
  where
    refused : false ≡ true → ⊥
    refused e = cc

-- From a `begin` that succeeds, after any calls of the two cores in any order (fewer than 2 ^ 32 - 1
-- of them, so that the numbers do not wrap), at most one buffer is in transfer, and it is never the
-- buffer that the writer holds.
pub run-IsExclusive :
    (a b c : ℕ) (f : FrameChannel) (cs : List Call)
    → (begin true a b c f).1 ≡ true
    → 1 + length cs < 2 ^ 32
    → IsExclusive (run cs (begin true a b c f).0)
run-IsExclusive a b c f cs h room =
    let v = begin-IsValid a b c f h in IsValid-IsExclusive (run-IsValid cs v.0 (omega (arith, v.1)))

-- From a `begin` that succeeds, after any calls of the two cores in any order (fewer than 2 ^ 32 - 1
-- of them, so that the numbers do not wrap), the frames handed to the display have strictly
-- increasing numbers: none is shown twice, and none after a later one.
pub shown-Increasing-begin :
    (a b c : ℕ) (f : FrameChannel) (cs : List Call)
    → (begin true a b c f).1 ≡ true
    → 1 + length cs < 2 ^ 32
    → Increasing 0 (shown cs (begin true a b c f).0)
shown-Increasing-begin a b c f cs h room =
    let v = begin-IsValid a b c f h in
    shown-Increasing cs v.0 (record { queued = λ i p s. omega arith; coming = omega arith })
      (omega (arith, v.1))
