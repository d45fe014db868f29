-- ===== src/BigNum/Tests.antt =====
-- Runs of the operations of include/math/big_num.h, and the theorems at concrete inputs.
use liblcb.Base.{
  ℕ, ◌-◌, ◌^◌, ◌<◌, ◌≡◌, inr, refl, arith, [], ◌∷◌, some, replicate, false, Errno, ok,
}
use liblcb.BigNum.Value.{capacity}
use liblcb.BigNum.Digits.{
  bn_digits_calc_digits, bn_digits_cmp, carry_loop, bn_digits_add_digit, add_step, add_rest,
  add_loop, bn_digits_add, borrow_loop, bn_digits_sub_digit, sub_step, sub_rest, sub_loop,
  bn_digits_sub, bn_digit_mult__int, mult_step, mult_loop, bn_digits_add_digit_mult__int,
}
use liblcb.BigNum.Number.{
  Bn, bn_init, bn_calc_digits, clear, bn_init_digits__int, bn_update_digits__int, with_digits,
  bn_add, bn_sub, bn_mult, bn_cmp, sub_extent, top_digit, mult_rows, multiplicand, multiplier,
  mult_digits, is_positive, bn_assign_zero, bn_is_zero, bn_assign_digit,
}
use liblcb.BigNum.Number.Clear.{zeros-IsDigit}
use liblcb.BigNum.Number.Store.{bn_value, IsNormal}
use liblcb.BigNum.Number.Add.{Sum, bn_add-Sum}
use liblcb.BigNum.Number.Sub.{Difference, bn_sub-Difference}
use liblcb.BigNum.Number.Mult.{Product, bn_mult-Product}
use liblcb.BigNum.Number.Compare.{sign, bn_cmp-sign}
use liblcb.BigNum.Number.Made.{Made, by_init, by_assign_digit, IsSound, Made-IsSound}

abbrev max_digit : ℕ
max_digit = 2 ^ 64 - 1

-- Two digits of three, the highest of the array left over from before.
abbrev two : Bn
two = record { count = 3; digits = 2; num = max_digit ∷ max_digit ∷ 7 ∷ [] }

abbrev one : Bn
one = record { count = 3; digits = 1; num = 1 ∷ 5 ∷ 7 ∷ [] }

add_run : bn_add two one ≡ some (ok, (record { count = 3; digits = 3; num = 0 ∷ 0 ∷ 1 ∷ [] }, 0))
unfolding bn_add bn_init_digits__int clear bn_digits_add add_loop add_step add_rest
    bn_digits_add_digit carry_loop with_digits bn_update_digits__int bn_calc_digits
    bn_digits_calc_digits
add_run = refl

sub_run :
    bn_sub one (some two) 5
    ≡ some (ok, (record { count = 3; digits = 3; num = 2 ∷ 0 ∷ max_digit ∷ [] }, 1))
unfolding bn_sub sub_extent top_digit bn_init_digits__int clear bn_digits_sub sub_loop sub_step
    sub_rest bn_digits_sub_digit borrow_loop with_digits bn_update_digits__int bn_calc_digits
    bn_digits_calc_digits
sub_run = refl

mult_run :
    bn_mult one (some two)
    ≡ some (ok, record { count = 3; digits = 2; num = max_digit ∷ max_digit ∷ 0 ∷ [] })
unfolding bn_mult bn_assign_zero bn_is_zero bn_init_digits__int clear mult_digits multiplicand
    multiplier is_positive bn_cmp bn_digits_cmp mult_rows bn_digits_add_digit_mult__int mult_loop
    mult_step bn_digit_mult__int bn_digits_add add_loop add_step add_rest bn_digits_add_digit
    carry_loop with_digits bn_update_digits__int bn_calc_digits bn_digits_calc_digits
mult_run = refl

-- The digit 0 is stored as one digit, and is then no zero.
zero_digit_run : bn_is_zero ((bn_assign_digit one 0).1) ≡ false
unfolding bn_is_zero bn_assign_digit
zero_digit_run = refl

two-IsNormal : IsNormal two
two-IsNormal = (
  (omega arith, omega arith, (omega arith, (omega arith, (omega arith, tt)))),
  inr (λ e. omega arith),
)

one-IsNormal : IsNormal one
one-IsNormal = (
  (omega arith, omega arith, (omega arith, (omega arith, (omega arith, tt)))),
  inr (λ e. omega arith),
)

bn_add-Sum_example : (r : Errno × (Bn × ℕ)) × (bn_add two one ≡ some r) × Sum two one r
bn_add-Sum_example = bn_add-Sum two one two-IsNormal one-IsNormal

bn_sub-Difference_example :
    (r : Errno × (Bn × ℕ)) × (bn_sub two (some one) 5 ≡ some r) × Difference two one 5 r
bn_sub-Difference_example = bn_sub-Difference two one 5 two-IsNormal one-IsNormal (omega arith)

bn_mult-Product_example : (r : Errno × Bn) × (bn_mult one (some two) ≡ some r) × Product one two r
bn_mult-Product_example = bn_mult-Product one (some two) one-IsNormal two-IsNormal

bn_cmp-sign_example : bn_cmp two one ≡ sign (bn_value two) (bn_value one)
bn_cmp-sign_example = bn_cmp-sign two one two-IsNormal one-IsNormal

-- An object of 128 bits, made and then set to 9.
abbrev raw : Bn
raw = record { count = 0; digits = 0; num = replicate 32 0 }

abbrev fresh : Bn
fresh = record { count = 2; digits = 0; num = replicate 32 0 }

fresh-Made : Made fresh
unfolding bn_init
fresh-Made = by_init raw fresh 128 refl (zeros-IsDigit 32) refl

Made-IsSound_example :
    IsSound ((bn_assign_digit fresh 9).1)
    × (bn_value ((bn_assign_digit fresh 9).1) < capacity ((bn_assign_digit fresh 9).1).count)
Made-IsSound_example =
    Made-IsSound (bn_assign_digit fresh 9).1
      (by_assign_digit fresh 9 fresh-Made (λ e. omega arith) (omega arith))
