-- ===== src/KeyQueue/Order.antt =====
-- The codes that the machine gets, against the events that the queue took.
use x68k_stackchan.Base.{
  ℕ, ◌≡◌, ◌≢◌, refl, sym, ap, ◌∙◌, subst, true, false, arith, ltb, ◌==◌, if◌then◌else◌, bit_and,
  bit_or, Bool-cases, inl, inr, Option, some, none, List, [], ◌∷◌, ◌++◌, All, flow-append,
}
use mathlib.Core.List.{append-nil, append_assoc}
use x68k_stackchan.KeyQueue.{
  Event, EventQueue, KeyQueue, ascii_to_scan_code, enqueued, push_scan_to, push_scan, push_to, push,
  press, drain_from, drain,
}

-- The codes of an event: the key's, and its release where that is automatic.
abbrev pub codes_of : Event → List ℕ
codes_of e = e.code ∷ (if e.auto_release then bit_or e.code 0x80 ∷ [] else [])

abbrev pub codes : List Event → List ℕ
codes [] = []
codes (e ∷ es) = codes_of e ++ codes es

-- An event with an automatic release has a code.
abbrev pub HasCode : Event → Type 0
HasCode e = e.auto_release ≡ true → e.code ≢ 0

codes-append : (xs ys : List Event) → codes (xs ++ ys) ≡ codes xs ++ codes ys
codes-append [] ys = refl
codes-append (x ∷ xs) ys =
    ap (λ l. codes_of x ++ l) (codes-append xs ys)
    ∙ sym (append_assoc (codes_of x) (codes xs) (codes ys))

All-append : (xs : List Event) (e : Event) → All HasCode xs → HasCode e → All HasCode (xs ++ e ∷ [])
All-append [] e a h = (h, tt)
All-append (x ∷ xs) e (p, a) h = (p, All-append xs e a h)

module _ (queues : EventQueue) where
  open queues use {Q, content, send, receive, sent, received, empty}

  -- What the queue holds, and the codes still to be sent: the release of the key that is down first.
  abbrev pub content_of : Option Q → List Event
  content_of none = []
  content_of (some q) = content q

  abbrev pub release_of : ℕ → List ℕ
  release_of code = if code == 0 then [] else bit_or code 0x80 ∷ []

  abbrev pub outstanding : KeyQueue queues → List ℕ
  outstanding k = release_of k.pending_release ++ codes (content_of k.queue)

  abbrev pub IsValid : KeyQueue queues → Type 0
  IsValid k = All HasCode (content_of k.queue)

  -- A call, the codes that it sends and the events that the queue takes at it.
  pub data Call : Type 0 where
    types : ℕ → Call
    scans : ℕ → Call
    drains : Call

  abbrev pub sent_code : Option ℕ → List ℕ
  sent_code none = []
  sent_code (some code) = code ∷ []

  unfoldable pub step : Call → KeyQueue queues → KeyQueue queues
  step (types c) k = push queues c k
  step (scans code) k = (push_scan queues code k).0
  step drains k = (drain queues k).0

  unfoldable pub sends : Call → KeyQueue queues → List ℕ
  sends drains k = sent_code (drain queues k).1
  sends _ k = []

  unfoldable pub takes : Call → KeyQueue queues → List Event
  takes (types c) k =
      if (push_to queues c k k.queue).1
      then record { code = ascii_to_scan_code c; auto_release = true } ∷ []
      else []
  takes (scans code) k =
      if (push_scan queues code k).1 then record { code = code; auto_release = false } ∷ [] else []
  takes drains k = []

  -- One call: what was to be sent and is new is what is sent and what is still to be sent.
  pub record IsKept (k : KeyQueue queues) (new : List Event) (out : List ℕ) (k' : KeyQueue queues)
      : Type 0 where
    pub valid : IsValid k'
    pub same : out ++ outstanding k' ≡ outstanding k ++ codes new

  nothing : (k : KeyQueue queues) → IsValid k → IsKept k [] [] k
  nothing k v = record { valid = v; same = sym (append-nil (outstanding k)) }

  enqueued-IsKept :
      (e : Event) (q : Q) (k : KeyQueue queues) (o : Option Q)
      → k.queue ≡ some q
      → send e q ≡ o
      → HasCode e
      → IsValid k
      → IsKept k (if (enqueued queues k o).1 then e ∷ [] else []) [] (enqueued queues k o).0
  enqueued-IsKept e q k none at r h v = nothing k v
  enqueued-IsKept e q k (some q') at r h v = record {
    valid =
        subst (All HasCode) (sym (sent r))
          (All-append (content q) e (subst (λ o. All HasCode (content_of o)) at v) h);
    same =
        ap (λ l. release_of k.pending_release ++ codes l)
          (sent r ∙ ap (λ o. content_of o ++ e ∷ []) (sym at))
        ∙ ap (λ l. release_of k.pending_release ++ l) (codes-append (content_of k.queue) (e ∷ []))
        ∙ sym (
            append_assoc (release_of k.pending_release) (codes (content_of k.queue))
              (codes (e ∷ [])));
  }

  push_to-IsKept :
      (c : ℕ) (k : KeyQueue queues) (o : Option Q)
      → k.queue ≡ o
      → IsValid k
      → IsKept k
          (if (push_to queues c k o).1
            then record { code = ascii_to_scan_code c; auto_release = true } ∷ []
            else [])
          []
          (push_to queues c k o).0
  push_to-IsKept c k none at v = nothing k v
  push_to-IsKept c k (some q) at v = elim (Bool-cases (ascii_to_scan_code c == 0)) [
    | inl z ↦ rw z (nothing k v)
    | inr z ↦ rw z (enqueued-IsKept _ q k _ at refl (λ _. grind (z, arith)) v)
  ]

  push_scan_to-IsKept :
      (code : ℕ) (k : KeyQueue queues) (o : Option Q)
      → k.queue ≡ o
      → IsValid k
      → IsKept k
          (if (push_scan_to queues code k o).1
            then record { code = code; auto_release = false } ∷ []
            else [])
          []
          (push_scan_to queues code k o).0
  push_scan_to-IsKept code k none at v = nothing k v
  push_scan_to-IsKept code k (some q) at v = elim (Bool-cases (bit_and code 0x7F == 0)) [
    | inl z ↦ rw z (nothing k v)
    | inr z ↦ rw z (enqueued-IsKept _ q k _ at refl (λ h. cc) v)
  ]

  -- The release that a key waits for is the one that the event stands for.
  release_of-press :
      (e : Event)
      → HasCode e
      → e.code ∷ release_of (if e.auto_release then e.code else 0) ≡ codes_of e
  release_of-press e h = elim (Bool-cases e.auto_release) [
    | inl a ↦ let n : (e.code == 0) ≡ false = grind (h a, arith) in rw a (rw n refl)
    | inr a ↦ rw a refl
  ]

  press-IsKept :
      (q : Q) (k : KeyQueue queues) (o : Option (Event × Q))
      → k.queue ≡ some q
      → receive q ≡ o
      → k.pending_release ≡ 0
      → IsValid k
      → IsKept k [] (sent_code (press queues k o).1) (press queues k o).0
  press-IsKept q k none at r z v = nothing k v
  press-IsKept q k (some (e, q')) at r z v =
      let now : content_of k.queue ≡ e ∷ content q' = ap content_of at ∙ received r in
      let w : All HasCode (e ∷ content q') = subst (All HasCode) now v in
      record {
        valid = w.1;
        same =
            ap (λ l. l ++ codes (content q')) (release_of-press e w.0)
            ∙ sym (ap codes now)
            ∙ ap (λ p. release_of p ++ codes (content_of k.queue)) (sym z)
            ∙ sym (append-nil (outstanding k));
      }

  pub drain_from-IsKept :
      (k : KeyQueue queues) (o : Option Q)
      → k.queue ≡ o
      → IsValid k
      → IsKept k [] (sent_code (drain_from queues k o).1) (drain_from queues k o).0
  drain_from-IsKept k none at v = nothing k v
  drain_from-IsKept k (some q) at v = elim (Bool-cases (ltb 0 k.steps_left)) [
    | inl w ↦ rw w (record { valid = v; same = sym (append-nil (outstanding k)) })
    | inr w ↦ elim (Bool-cases (k.pending_release == 0)) [
      | inl z ↦ rw (w, z) (press-IsKept q k _ at refl (grind (z, arith)) v)
      | inr z ↦
          rw (w, z)
            (record {
              valid = v;
              same =
                  ap
                    (λ b.
                      (if b then [] else bit_or k.pending_release 0x80 ∷ [])
                      ++ codes (content_of k.queue))
                    (sym z)
                  ∙ sym (append-nil (outstanding k));
            })
    ]
  ]

  pub step-IsKept :
      (c : Call) (k : KeyQueue queues) → IsValid k → IsKept k (takes c k) (sends c k) (step c k)
  unfolding step takes sends push push_scan drain
  step-IsKept (types c) k v = push_to-IsKept c k _ refl v
  step-IsKept (scans code) k v = push_scan_to-IsKept code k _ refl v
  step-IsKept drains k v = drain_from-IsKept k _ refl v

  -- A run of calls: the state at its end, all that it sends and all that the queue takes.
  unfoldable pub run : List Call → KeyQueue queues → KeyQueue queues
  run [] k = k
  run (c ∷ cs) k = run cs (step c k)

  unfoldable pub all_sent : List Call → KeyQueue queues → List ℕ
  all_sent [] k = []
  all_sent (c ∷ cs) k = sends c k ++ all_sent cs (step c k)

  unfoldable pub all_taken : List Call → KeyQueue queues → List Event
  all_taken [] k = []
  all_taken (c ∷ cs) k = takes c k ++ all_taken cs (step c k)

  -- Whatever is typed and however the slices lie: the codes sent, with those still to be sent after
  -- them, are the codes that were to be sent and then, in order, those of the events that the queue
  -- took. None is lost, repeated or out of its order, and a release comes right after its key.
  pub run-order :
      (cs : List Call) (k : KeyQueue queues)
      → IsValid k
      → all_sent cs k ++ outstanding (run cs k) ≡ outstanding k ++ codes (all_taken cs k)
  unfolding run all_sent all_taken
  run-order [] k v = sym (append-nil (outstanding k))
  run-order (c ∷ cs) k v =
      let one = step-IsKept c k v in
      let flow =
        flow-append (outstanding k) (outstanding (step c k)) (outstanding (run cs (step c k)))
          (sends c k) (all_sent cs (step c k)) (codes (takes c k)) (codes (all_taken cs (step c k)))
          one.same (run-order cs (step c k) one.valid) in
      flow ∙ ap (λ l. outstanding k ++ l) (sym (codes-append (takes c k) (all_taken cs (step c k))))
