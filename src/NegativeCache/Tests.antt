-- ===== src/NegativeCache/Tests.antt =====
-- A table of four entries with two addresses at one place.
use x68k_stackchan.Base.{ℕ, ◌-◌, ◌≡◌, refl, true, false, ◌&&◌, not, ◌==◌, some, none, List, [], ◌∷◌}
use x68k_stackchan.NegativeCache.{
  NegEntry, set_storage, is_ready, index, contains, insert, clear, clear_loop,
}
use x68k_stackchan.NegativeCache.Newest.{Call, inserts, step, run, newest, answered, run-contains}

-- What the storage holds before it is cleared.
abbrev garbage : ℕ → NegEntry
garbage i = record { pc = 0x1000; page_gen = 0xFFFF }

abbrev twice : List Call
twice = inserts 0x1000 7 ∷ inserts 0x1008 8 ∷ []

displaced : contains 0x1000 7 (run twice (clear (set_storage (some garbage) 4))) ≡ false
unfolding contains run step insert clear set_storage clear_loop index
displaced = refl

kept : contains 0x1008 8 (run twice (clear (set_storage (some garbage) 4))) ≡ true
unfolding contains run step insert clear set_storage clear_loop index
kept = refl

not_ready : is_ready (set_storage (some garbage) 6) ≡ false
unfolding is_ready set_storage
not_ready = refl

run-contains_example :
    contains 0x1008 8 (run twice (clear (set_storage (some garbage) 4)))
    ≡ (not (0x1008 == 0) && answered 0x1008 8 (newest (4 - 1) (index (4 - 1) 0x1008) twice none))
run-contains_example = run-contains twice 0x1008 8 4 garbage refl
