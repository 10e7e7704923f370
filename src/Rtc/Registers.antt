-- ===== src/Rtc/Registers.antt =====
-- The clock's registers as software sees them: one decimal digit each, in two banks.
use x68k_stackchan.Base.{
  ℕ, zero, suc, ◌%◌, ◌<◌, ◌≡◌, ◌≢◌, arith, ◌==◌, if◌then◌else◌, Bool-cases, inl, inr,
}
use x68k_stackchan.Rtc.{Rtc, digit_of, set_digit, read, write, bank1_selected, mode_register}

digit-set :
    (index v : ℕ) (r : Rtc)
    → index < mode_register
    → v < 10
    → (index ≡ 6 → v < 7)
    → digit_of index (set_digit index v r) ≡ v
unfolding digit_of set_digit
digit-set index v r h d w = ground arith

digit-other :
    (index other v : ℕ) (r : Rtc)
    → index < mode_register
    → other < mode_register
    → other ≢ index
    → v < 10
    → digit_of other (set_digit index v r) ≡ digit_of other r
unfolding digit_of set_digit
digit-other zero other v r h k d w = ground arith
digit-other (suc zero) other v r h k d w = ground arith
digit-other (suc (suc zero)) other v r h k d w = ground arith
digit-other (suc (suc (suc zero))) other v r h k d w = ground arith
digit-other (suc (suc (suc (suc zero)))) other v r h k d w = ground arith
digit-other (suc (suc (suc (suc (suc zero))))) other v r h k d w = ground arith
digit-other (suc (suc (suc (suc (suc (suc zero)))))) other v r h k d w = ground arith
digit-other (suc (suc (suc (suc (suc (suc (suc zero))))))) other v r h k d w = ground arith
digit-other (suc (suc (suc (suc (suc (suc (suc (suc zero)))))))) other v r h k d w = ground arith
digit-other (suc (suc (suc (suc (suc (suc (suc (suc (suc zero))))))))) other v r h k d w =
    ground arith
digit-other (suc (suc (suc (suc (suc (suc (suc (suc (suc (suc zero)))))))))) other v r h k d w =
    ground arith
digit-other (suc (suc (suc (suc (suc (suc (suc (suc (suc (suc (suc zero))))))))))) other v r h k d
      w =
    ground arith
digit-other (suc (suc (suc (suc (suc (suc (suc (suc (suc (suc (suc (suc zero)))))))))))) other v r h
      k d w =
    ground arith
digit-other (suc (suc (suc (suc (suc (suc (suc (suc (suc (suc (suc (suc (suc index)))))))))))))
      other v r h k d w =
    absurd (omega arith)

set_digit-mode : (index v : ℕ) (r : Rtc) → (set_digit index v r).mode ≡ r.mode
unfolding set_digit
set_digit-mode index v r = ground arith

-- In the bank selected, a register other than the mode register that software writes with a decimal
-- digit (below 7 for the day of the week) reads as that digit, and every other one as before.
pub read-write :
    (index other value : ℕ) (r : Rtc)
    → index < mode_register
    → other < mode_register
    → value % 16 < 10
    → (index ≡ 6 → value % 16 < 7)
    → read other (write index value r) ≡ (if other == index then value % 16 else read other r)
unfolding read write
read-write index other value r h k d w = elim (Bool-cases (bank1_selected r)) [
  | inl t ↦ ground arith
  | inr f ↦ ground (
    arith,
    set_digit-mode index (value % 16) r,
    digit-set index (value % 16) r h d w,
    digit-other index other (value % 16) r h k,
  )
]
