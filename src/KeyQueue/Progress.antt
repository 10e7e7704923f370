-- ===== src/KeyQueue/Progress.antt =====
-- The waits of `KeyQueue::drain`: every code is sent after enough slices.
use x68k_stackchan.Base.{
  ℕ, zero, suc, ◌+◌, ◌*◌, ◌-◌, ◌≤◌, ◌≡◌, refl, sym, ap, ◌∙◌, subst, arith, ltb, ◌==◌, Bool-cases,
  inl, inr, Option, some, none, List, [], ◌∷◌, ◌++◌, length,
}
use mathlib.Core.List.{append-nil}
use x68k_stackchan.KeyQueue.{Event, EventQueue, KeyQueue, press, drain_from, drain}
use x68k_stackchan.KeyQueue.Order.{
  codes, content_of, release_of, outstanding, IsValid, Call, drains, sent_code, step, takes, run,
  all_sent, all_taken, IsKept, drain_from-IsKept, step-IsKept, run-order,
}

-- Five slices for each code, beside those still to be waited for.
abbrev slices : (steps : ℕ) → List ℕ → ℕ
slices steps l = steps + 5 * length l

length-zero : (l : List ℕ) → length l ≡ 0 → l ≡ []
length-zero [] e = refl
length-zero (x ∷ xs) e = absurd (omega (arith, e))

-- A run with nothing typed.
unfoldable pub idle : {queues : EventQueue} → ℕ → List (Call queues)
idle zero = []
idle (suc n) = drains ∷ idle n

module _ (queues : EventQueue) where
  open queues use {Q, content, send, receive, sent, received, empty}

  -- A slice leaves a queue and a wait of one less.
  record IsCloser (k k' : KeyQueue queues) : Type 0 where
    pub left : Q
    pub there : k'.queue ≡ some left
    pub closer :
        slices k'.steps_left (outstanding queues k')
        ≡ slices k.steps_left (outstanding queues k) - 1

  press-IsCloser :
      (q : Q) (k : KeyQueue queues) (o : Option (Event × Q))
      → k.queue ≡ some q
      → receive q ≡ o
      → k.steps_left ≡ 0
      → k.pending_release ≡ 0
      → IsKept queues k [] (sent_code queues (press queues k o).1) (press queues k o).0
      → IsCloser k (press queues k o).0
  press-IsCloser q k none at r s z kept = record {
    left = q;
    there = at;
    closer =
        let nothing : outstanding queues k ≡ [] =
          ap (λ p. release_of queues p ++ codes (content_of queues k.queue)) z
          ∙ ap (λ o. codes (content_of queues o)) at
          ∙ ap codes (empty r) in
        rw nothing (omega (arith, s));
  }
  press-IsCloser q k (some (e, q')) at r s z kept = record {
    left = q';
    there = refl;
    closer = omega (arith, s, ap length (kept.same ∙ append-nil (outstanding queues k)));
  }

  drain_from-IsCloser :
      (q : Q) (k : KeyQueue queues)
      → k.queue ≡ some q
      → IsKept queues k []
          (sent_code queues (drain_from queues k (some q)).1)
          (drain_from queues k (some q)).0
      → IsCloser k (drain_from queues k (some q)).0
  drain_from-IsCloser q k at = elim (Bool-cases (ltb 0 k.steps_left)) [
    | inl w ↦ rw w (λ kept. record { left = q; there = at; closer = grind (w, arith) })
    | inr w ↦ elim (Bool-cases (k.pending_release == 0)) [
      | inl z ↦
          rw (w, z)
            (λ kept. press-IsCloser q k _ at refl (grind (w, arith)) (grind (z, arith)) kept)
      | inr z ↦
          rw (w, z)
            (λ kept.
              let s : k.steps_left ≡ 0 = grind (w, arith) in
              record {
                left = q;
                there = at;
                closer =
                    omega (arith, s, ap length (kept.same ∙ append-nil (outstanding queues k)));
              })
    ]
  ]

  drain-IsCloser :
      (q : Q) (k : KeyQueue queues)
      → k.queue ≡ some q
      → IsValid queues k
      → IsCloser k (step queues drains k)
  unfolding step drain
  drain-IsCloser q k at v =
      subst
        (λ o.
          IsKept queues k [] (sent_code queues (drain_from queues k o).1) (drain_from queues k o).0
          → IsCloser k (drain_from queues k o).0)
        (sym at) (drain_from-IsCloser q k at) (drain_from-IsKept queues k k.queue refl v)

  idle-takes : (n : ℕ) (k : KeyQueue queues) → all_taken queues (idle n) k ≡ []
  unfolding idle all_taken takes
  idle-takes zero k = refl
  idle-takes (suc n) k = idle-takes n (step queues drains k)

  idle-outstanding :
      (n : ℕ) (q : Q) (k : KeyQueue queues)
      → k.queue ≡ some q
      → IsValid queues k
      → slices k.steps_left (outstanding queues k) ≤ n
      → outstanding queues (run queues (idle n) k) ≡ []
  unfolding idle run
  idle-outstanding zero q k at v h = length-zero (outstanding queues k) (omega (arith, h))
  idle-outstanding (suc n) q k at v h =
      let c = drain-IsCloser q k at v in
      idle-outstanding n c.left (step queues drains k) c.there (step-IsKept queues drains k v).valid
        (omega (arith, h, c.closer))

  -- With a queue, once four slices and one more for each code, beside the wait that runs, have passed
  -- with nothing typed, exactly the codes that were outstanding have been sent, in their order.
  pub idle-sends_all :
      (n : ℕ) (q : Q) (k : KeyQueue queues)
      → k.queue ≡ some q
      → IsValid queues k
      → slices k.steps_left (outstanding queues k) ≤ n
      → all_sent queues (idle n) k ≡ outstanding queues k
  idle-sends_all n q k at v h =
      sym (append-nil (all_sent queues (idle n) k))
      ∙ ap (λ l. all_sent queues (idle n) k ++ l) (sym (idle-outstanding n q k at v h))
      ∙ run-order queues (idle n) k v
      ∙ ap (λ l. outstanding queues k ++ codes l) (idle-takes n k)
      ∙ append-nil (outstanding queues k)
