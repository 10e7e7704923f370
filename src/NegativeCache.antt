-- ===== src/NegativeCache.antt =====
-- src/x68k/platform/jit/negative_cache.h: the addresses at which no native block can be made.
pub mod Newest
mod Tests
use x68k_stackchan.Base.{
  ℕ, zero, suc, ◌+◌, ◌-◌, ◌/◌, ◌^◌, Bool, true, false, ◌&&◌, ◌||◌, not, ◌==◌, if◌then◌else◌,
  bit_and, bit_xor, u32, ◌>>>◌, update, Option, some, none,
}

-- `NegEntry`, without its padding.
pub record NegEntry : Type 0 where
  pub pc : ℕ
  pub page_gen : ℕ

-- The members: `entries_`, which may be the null pointer, with the table that it points to, and `mask_`.
pub record NegativeCache : Type 0 where
  pub entries : Option (ℕ → NegEntry)
  pub mask : ℕ

abbrev pub any_gen : ℕ
any_gen = 0xFFFF

abbrev pub blank : NegEntry
blank = record { pc = 0; page_gen = 0 }

abbrev pub is_power_of_two : ℕ → Bool
is_power_of_two count = not (count == 0) && bit_and count (count - 1) == 0

unfoldable pub set_storage : Option (ℕ → NegEntry) → ℕ → NegativeCache
set_storage none count = record { entries = none; mask = 0 }
set_storage (some table) count =
    if is_power_of_two count
    then record { entries = some table; mask = count - 1 }
    else record { entries = none; mask = 0 }

unfoldable pub is_ready : NegativeCache → Bool
is_ready c = elim c.entries [ none ↦ false | some table ↦ true ]

unfoldable pub index : ℕ → ℕ → ℕ
index mask pc = bit_and (bit_xor (pc / 2) (pc / 2 ^ 11)) mask

-- An entry answers for an address and a generation of its page.
abbrev pub answers : ℕ → ℕ → NegEntry → Bool
answers pc gen e = e.pc == pc && (e.page_gen == any_gen || e.page_gen == gen)

abbrev pub contains_in : ℕ → ℕ → ℕ → Option (ℕ → NegEntry) → Bool
contains_in pc gen mask none = false
contains_in pc gen mask (some table) =
    if pc == 0 then false else answers pc gen (table (index mask pc))

unfoldable pub contains : ℕ → ℕ → NegativeCache → Bool
contains pc gen c = contains_in pc gen c.mask c.entries

abbrev pub inserted : ℕ → ℕ → ℕ → Option (ℕ → NegEntry) → Option (ℕ → NegEntry)
inserted pc gen mask none = none
inserted pc gen mask (some table) =
    some
      (if pc == 0 then table else update table (index mask pc) (record { pc = pc; page_gen = gen }))

unfoldable pub insert : ℕ → ℕ → NegativeCache → NegativeCache
insert pc gen c = record c { entries = inserted pc gen c.mask c.entries }

-- The loop of `clear`, over the first `n` entries.
unfoldable pub clear_loop : ℕ → (ℕ → NegEntry) → ℕ → NegEntry
clear_loop zero table = table
clear_loop (suc n) table = update (clear_loop n table) n blank

abbrev pub cleared : ℕ → Option (ℕ → NegEntry) → Option (ℕ → NegEntry)
cleared mask none = none
cleared mask (some table) = some (clear_loop (suc mask) table)

unfoldable pub clear : NegativeCache → NegativeCache
clear c = record c { entries = cleared c.mask c.entries }
