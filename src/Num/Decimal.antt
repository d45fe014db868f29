-- ===== src/Num/Decimal.antt =====
-- What the decimal text of a number is, stated without the code: the specification of `Format`.
use liblcb.Base.{ℕ, zero, suc, ◌+◌, ◌*◌, ◌/◌, ◌%◌, ◌^◌, ◌≤◌, ◌<◌, ◌≡◌, refl, arith}
use liblcb.Base.{◌⊎◌, [], ◌∷◌, ◌++◌, Bytes, length, length-append}

-- The `p` lowest decimal digits of `num` as characters, the highest first.
abbrev pub decimal : ℕ → ℕ → Bytes
decimal zero num = []
decimal (suc p) num = decimal p (num / 10) ++ ((48 + num % 10) ∷ [])

pub length-decimal : (p num : ℕ) → length (decimal p num) ≡ p
length-decimal zero num = refl
length-decimal (suc p) num = omega (
  arith,
  length-append (decimal p (num / 10)) ((48 + num % 10) ∷ []),
  length-decimal p (num / 10),
)

-- `num` has exactly `p` digits, with the one digit of 0 counted.
pub record HasDigits (p num : ℕ) : Type 0 where
  pub some_digit : 1 ≤ p
  pub fits : num < 10 ^ p
  pub no_leading_zero : (p ≡ 1) ⊎ (10 ^ p ≤ 10 * num)
