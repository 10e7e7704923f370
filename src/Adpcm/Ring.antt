-- ===== src/Adpcm/Ring.antt =====
-- A ring of 256 entries, as the list of those from some place on.
use x68k_stackchan.Base.{
  ℕ, zero, suc, ◌+◌, ◌%◌, ◌<◌, ◌≡◌, refl, sym, ap, ◌∙◌, arith, true, false, ◌==◌, List, [], ◌∷◌,
  ◌++◌, update,
}

-- The entries of a ring from some place on.
abbrev pub window : (ℕ → ℕ) → ℕ → ℕ → List ℕ
window ring at zero = []
window ring at (suc n) = ring (at % 256) ∷ window ring (at + 1) n

window-mod : (ring : ℕ → ℕ) (p q n : ℕ) → p % 256 ≡ q % 256 → window ring p n ≡ window ring q n
window-mod ring p q zero e = refl
window-mod ring p q (suc n) e =
    ap (λ (x : ℕ). ring x ∷ window ring (p + 1) n) e
    ∙ ap (λ l. ring (q % 256) ∷ l) (window-mod ring (p + 1) (q + 1) n (omega (arith, e)))

window-append :
    (ring : ℕ → ℕ) (p n : ℕ) → window ring p (suc n) ≡ window ring p n ++ ring ((p + n) % 256) ∷ []
window-append ring p zero =
    let e : (p + 0) % 256 ≡ p % 256 = omega arith in ap (λ (x : ℕ). ring x ∷ []) (sym e)
window-append ring p (suc n) =
    let e : p + 1 + n ≡ p + suc n = omega arith in
    ap (λ l. ring (p % 256) ∷ l)
      (window-append ring (p + 1) n
        ∙ ap (λ (x : ℕ). window ring (p + 1) n ++ ring (x % 256) ∷ []) e)

window-update :
    (ring : ℕ → ℕ) (p n k v : ℕ)
    → n + k < 256
    → window (update ring ((p + n + k) % 256) v) p n ≡ window ring p n
window-update ring p zero k v l = refl
window-update ring p (suc n) k v l =
    let other : (p % 256 == (p + suc n + k) % 256) ≡ false = ground (arith, l) in
    let e : p + suc n + k ≡ p + 1 + n + k = omega arith in
    let rest =
      ap (λ (x : ℕ). window (update ring (x % 256) v) (p + 1) n) e
      ∙ window-update ring (p + 1) n k v (omega (arith, l)) in
    ap (λ (x : ℕ). x ∷ window (update ring ((p + suc n + k) % 256) v) (p + 1) n) (rw other refl)
    ∙ ap (λ l. ring (p % 256) ∷ l) rest

pub popped :
    (ring : ℕ → ℕ) (head n k : ℕ)
    → head < 256
    → n ≡ suc k
    → window ring head n ≡ ring head ∷ window ring ((head + 1) % 256) k
popped ring head n k l e =
    let same : head % 256 ≡ head = omega (arith, l) in
    ap (window ring head) e
    ∙ ap (λ (x : ℕ). ring x ∷ window ring (head + 1) k) same
    ∙ ap (λ w. ring head ∷ w) (window-mod ring (head + 1) ((head + 1) % 256) k (omega arith))

pub pushed :
    (ring : ℕ → ℕ) (head n v : ℕ)
    → n < 256
    → window (update ring ((head + n) % 256) v) head (n + 1) ≡ window ring head n ++ v ∷ []
pushed ring head n v l =
    let e : n + 1 ≡ suc n = omega arith in
    let z : head + n ≡ head + n + 0 = omega arith in
    let at : ((head + n) % 256 == (head + n) % 256) ≡ true = ground arith in
    let changed = update ring ((head + n) % 256) v in
    ap (window changed head) e
    ∙ window-append changed head n
    ∙ ap (λ (x : ℕ). window changed head n ++ x ∷ []) (rw at refl)
    ∙ ap (λ w. w ++ v ∷ [])
        (ap (λ (x : ℕ). window (update ring (x % 256) v) head n) z
          ∙ window-update ring head n 0 v (omega (arith, l)))
