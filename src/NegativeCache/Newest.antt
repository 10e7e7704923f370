-- ===== src/NegativeCache/Newest.antt =====
-- The table against the history of the calls: what an address finds is what was last put at its place.
use x68k_stackchan.Base.{
  ℕ, zero, suc, ◌-◌, ◌/◌, ◌^◌, ◌≤◌, ◌<◌, ◌≡◌, refl, ap, ◌∙◌, Bool, true, false, ◌&&◌, not, arith,
  ◌==◌, if◌then◌else◌, Bool-cases, inl, inr, bit_xor, update, Option, some, none, List, [], ◌∷◌,
}
use x68k_stackchan.Base.Digits.{and-le_right}
use x68k_stackchan.NegativeCache.{
  NegEntry, NegativeCache, blank, is_power_of_two, set_storage, index, answers, contains, insert,
  clear_loop, clear,
}

pub data Call : Type 0 where
  inserts : ℕ → ℕ → Call
  clears : Call

unfoldable pub step : Call → NegativeCache → NegativeCache
step (inserts pc gen) c = insert pc gen c
step clears c = clear c

unfoldable pub run : List Call → NegativeCache → NegativeCache
run [] c = c
run (call ∷ cs) c = run cs (step call c)

-- The entry at a place after one more call: the address that was put there last since a `clear`.
unfoldable pub after : ℕ → ℕ → Call → Option NegEntry → Option NegEntry
after mask place (inserts pc gen) e =
    if pc == 0
    then e
    else if place == index mask pc
    then some (record { pc = pc; page_gen = gen })
    else e
after mask place clears e = none

unfoldable pub newest : ℕ → ℕ → List Call → Option NegEntry → Option NegEntry
newest mask place [] e = e
newest mask place (call ∷ cs) e = newest mask place cs (after mask place call e)

-- With nothing there the answer is no.
abbrev pub answered : ℕ → ℕ → Option NegEntry → Bool
answered pc gen none = false
answered pc gen (some e) = answers pc gen e

abbrev entry_of : Option NegEntry → NegEntry
entry_of none = blank
entry_of (some e) = e

clear_loop-blank : (n : ℕ) (table : ℕ → NegEntry) (i : ℕ) → i < n → clear_loop n table i ≡ blank
unfolding clear_loop
clear_loop-blank zero table i h = absurd (omega arith)
clear_loop-blank (suc n) table i h = elim (Bool-cases (i == n)) [
  | inl e ↦ rw e refl
  | inr e ↦ rw e (clear_loop-blank n table i (grind (e, arith)))
]

-- The table after a call.
abbrev table_after : Call → ℕ → (ℕ → NegEntry) → ℕ → NegEntry
table_after (inserts pc gen) mask table =
    if pc == 0 then table else update table (index mask pc) (record { pc = pc; page_gen = gen })
table_after clears mask table = clear_loop (suc mask) table

table_after-entry :
    (call : Call) (mask place : ℕ) (e : Option NegEntry) (table : ℕ → NegEntry)
    → place ≤ mask
    → table place ≡ entry_of e
    → table_after call mask table place ≡ entry_of (after mask place call e)
unfolding after
table_after-entry (inserts pc gen) mask place e table h t = elim (Bool-cases (pc == 0)) [
  | inl z ↦ rw z t
  | inr z ↦ elim (Bool-cases (place == index mask pc)) [
    | inl i ↦ rw (z, i) refl
    | inr i ↦ rw (z, i) t
  ]
]
table_after-entry clears mask place e table h t =
    clear_loop-blank (suc mask) table place (omega arith)

abbrev holding : (ℕ → NegEntry) → ℕ → NegativeCache
holding table mask = record { entries = some table; mask = mask }

step-holding :
    (call : Call) (mask : ℕ) (table : ℕ → NegEntry)
    → step call (holding table mask) ≡ holding (table_after call mask table) mask
unfolding step insert clear
step-holding (inserts pc gen) mask table = refl
step-holding clears mask table = refl

index-le : (mask pc : ℕ) → index mask pc ≤ mask
unfolding index
index-le mask pc = and-le_right (bit_xor (pc / 2) (pc / 2 ^ 11)) mask

-- An address other than 0 is answered by the entry, and 0 never.
contains-answered :
    (pc gen mask : ℕ) (table : ℕ → NegEntry) (e : Option NegEntry)
    → table (index mask pc) ≡ entry_of e
    → contains pc gen (holding table mask) ≡ (not (pc == 0) && answered pc gen e)
unfolding contains
contains-answered pc gen mask table none t = elim (Bool-cases (pc == 0)) [
  | inl z ↦ rw z refl
  | inr z ↦ let other : (0 == pc) ≡ false = ground (arith, z) in rw (z, t, other) refl
]
contains-answered pc gen mask table (some e) t = elim (Bool-cases (pc == 0)) [
  | inl z ↦ rw z refl
  | inr z ↦ rw (z, t) refl
]

run-answered :
    (cs : List Call) (pc gen mask : ℕ) (table : ℕ → NegEntry) (e : Option NegEntry)
    → table (index mask pc) ≡ entry_of e
    → contains pc gen (run cs (holding table mask))
      ≡ (not (pc == 0) && answered pc gen (newest mask (index mask pc) cs e))
unfolding run newest
run-answered [] pc gen mask table e t = contains-answered pc gen mask table e t
run-answered (call ∷ cs) pc gen mask table e t =
    ap (λ c. contains pc gen (run cs c)) (step-holding call mask table)
    ∙ run-answered cs pc gen mask (table_after call mask table) (after mask (index mask pc) call e)
        (table_after-entry call mask (index mask pc) e table (index-le mask pc) t)

-- With storage of a number of entries that is a power of two, whatever it holds, and after `clear`
-- and then any insertions and clears: an address is contained with a generation exactly when it is
-- not 0 and what was last inserted at its place since the last `clear` is this address, with this
-- generation or for any.
pub run-contains :
    (cs : List Call) (pc gen count : ℕ) (table : ℕ → NegEntry)
    → is_power_of_two count ≡ true
    → contains pc gen (run cs (clear (set_storage (some table) count)))
      ≡ (not (pc == 0) && answered pc gen (newest (count - 1) (index (count - 1) pc) cs none))
unfolding set_storage clear
run-contains cs pc gen count table p =
    ap
      (λ b. contains pc gen (
        run cs
          (clear (if b then holding table (count - 1) else record { entries = none; mask = 0 }))))
      p
    ∙ run-answered cs pc gen (count - 1) (clear_loop (suc (count - 1)) table) none (
        clear_loop-blank (suc (count - 1)) table (index (count - 1) pc)
          (omega (arith, index-le (count - 1) pc)))
