-- ===== src/Num/Format/Length.antt =====
-- The length that the table gives: the number of digits, but one too few at a power of ten.
use liblcb.Base.{ℕ, zero, suc, ◌+◌, ◌*◌, ◌^◌, ◌≤◌, ◌<◌, ◌≡◌, ◌≢◌, arith, List, [], ◌∷◌}
use liblcb.Base.{◌⊎◌, inl, inr}
use liblcb.Num.Decimal.{HasDigits}
use liblcb.Num.Format.{num_len, scan_len}
use native.Mathlib.Decide.{dec_lt}
use native.Mathlib.Nat.{pow-le-pow_right, pow-suc, one-le-pow}

-- The powers of ten from the exponent `k` on.
abbrev powers : ℕ → ℕ → List ℕ
powers k zero = []
powers k (suc n) = 10 ^ k ∷ powers (k + 1) n

-- The scan stops at `t` if `t` is where the table ends or the first entry that is not below `num`.
scan_len-powers :
    (n k t num : ℕ)
    → ((j : ℕ) → 1 ≤ j → j < t → 10 ^ j < num)
    → 1 ≤ k
    → k ≤ t
    → ((num ≤ 10 ^ t) × (t < k + n)) ⊎ (t ≡ k + n)
    → scan_len num (powers k n) k ≡ t
unfolding scan_len
scan_len-powers zero k t num below one h stop = ground arith
scan_len-powers (suc n) k t num below one h stop = elim (dec_lt k t) [
  | yes lt ↦ ground (arith, below k one lt, scan_len-powers n (k + 1) t num below)
  | no ge ↦ elim stop [
    | inl (small, p) ↦ let e : t ≡ k = omega arith in rw (← e) (ground arith)
    | inr e ↦ absurd (omega arith)
  ]
]

power_below : (p num j : ℕ) → 10 ^ p < 10 * num → j < p → 10 ^ j < num
power_below zero num j h lt = elim lt [ ]
power_below (suc p) num j h lt =
    omega
      (arith, pow-suc 10 p, pow-le-pow_right {n = 10} (omega arith) {i = j} {j = p} (omega arith))

power_below_power : (j k : ℕ) → j < k → 10 ^ j < 10 ^ k
power_below_power j zero lt = elim lt [ ]
power_below_power j (suc k) lt =
    power_below (suc k) (10 ^ suc k) j (omega (arith, pow-suc 10 k, one-le-pow k 10 (omega arith)))
      lt

-- The number of digits is found, unless the number is a power of ten from 10 on.
pub num_len_exact :
    (p num : ℕ) → HasDigits p num → p ≤ 20 → (p ≡ 1) ⊎ (10 ^ p ≢ 10 * num) → num_len num ≡ p
unfolding num_len
num_len_exact p num d le ne =
    scan_len-powers 19 1 p num below (omega arith) d.some_digit (ground arith)
  where
    below : (j : ℕ) → 1 ≤ j → j < p → 10 ^ j < num
    below j one lt = power_below p num j (omega arith) lt

-- At 10 ^ k the length is `k`: one less than the digits.
pub num_len_power : (k : ℕ) → 1 ≤ k → k ≤ 19 → num_len (10 ^ k) ≡ k
unfolding num_len
num_len_power k one le =
    scan_len-powers 19 1 k (10 ^ k) (λ j _ lt. power_below_power j k lt) (omega arith) one
      (inl (omega arith, omega arith))
