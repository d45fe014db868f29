-- ===== src/BigNum/Add.antt =====
-- Addition of digit arrays, include/math/big_num.h, is addition of the numbers.
use liblcb.Base.{
  ℕ, suc, ◌+◌, ◌*◌, ◌^◌, ◌≤◌, ◌<◌, ◌≡◌, refl, arith, List, [], ◌∷◌, All, some, false, length, wrap,
  leb, ◌==◌, Bool-cases, le→ltb, lt→ltb, inl, inr, ok, eoverflow,
}
use liblcb.BigNum.Value.{IsDigit, value, capacity}
use liblcb.BigNum.Digits.{
  Carried, prepend, carry_loop, bn_digits_add_digit, add_step, add_rest, add_loop, bn_digits_add,
}

-- `r` is `total` in the digits of `a`, with what does not fit as its carry.
abbrev pub Carries : List ℕ → ℕ → Carried → Type 0
Carries a total r =
    (value r.0 + capacity (length a) * r.1 ≡ total)
    × (length r.0 ≡ length a)
    × All IsDigit r.0
    × (r.1 ≤ 1)

pub prepend-Carries :
    (d x : ℕ) (ds : List ℕ) (total whole : ℕ) (r : Carried)
    → d < 2 ^ 64
    → d + 2 ^ 64 * total ≡ whole
    → Carries ds total r
    → Carries (x ∷ ds) whole (prepend d r)
prepend-Carries d x ds total whole (r, crr) h e (sum, len, all, small) =
    (omega (arith, sum), omega (arith, len), (h, all), small)

carry_loop-Carries : (a : List ℕ) → All IsDigit a → Carries a (value a + 1) (carry_loop a)
unfolding carry_loop
carry_loop-Carries [] all = (omega arith, refl, tt, omega arith)
carry_loop-Carries (d ∷ ds) (h, all) = elim (Bool-cases (leb 1 (wrap (d + 1)))) [
  | inl e ↦ rw (e) (ground arith, refl, (omega arith, all), omega arith)
  | inr e ↦ rw (e) (
      prepend-Carries (wrap (d + 1)) d ds (value ds + 1) _ (carry_loop ds) (omega arith)
        (ground arith) (carry_loop-Carries ds all))
]

pub bn_digits_add_digit-Carries :
    (d : ℕ) (ds : List ℕ) (b : ℕ)
    → All IsDigit (d ∷ ds)
    → b < 2 ^ 64
    → Carries (d ∷ ds) (value (d ∷ ds) + b) (bn_digits_add_digit (d ∷ ds) b)
unfolding bn_digits_add_digit
bn_digits_add_digit-Carries d ds b (h, all) hb = elim (Bool-cases (b == 0)) [
  | inl z ↦ rw (z) (ground arith, refl, (h, all), omega arith)
  | inr nz ↦ elim (Bool-cases (leb b (wrap (d + b)))) [
    | inl e ↦ rw (nz, e) (ground arith, refl, (omega arith, all), omega arith)
    | inr e ↦
        rw (nz, e)
          (prepend-Carries (wrap (d + b)) d ds (value ds + 1) _ (carry_loop ds) (omega arith)
            (ground arith) (carry_loop-Carries ds all))
  ]
]

add_step_sum :
    (x tm crr : ℕ)
    → x < 2 ^ 64
    → tm < 2 ^ 64
    → crr ≤ 1
    → ((add_step x tm crr).0 + 2 ^ 64 * (add_step x tm crr).1 ≡ x + tm + crr)
      × ((add_step x tm crr).0 < 2 ^ 64)
      × ((add_step x tm crr).1 ≤ 1)
unfolding add_step
add_step_sum x tm crr hx ht hc = ground arith

add_rest-Carries :
    (a : List ℕ) (crr : ℕ) → All IsDigit a → crr ≤ 1 → Carries a (value a + crr) (add_rest a crr)
unfolding add_rest
add_rest-Carries [] crr all le = (omega arith, refl, tt, le)
add_rest-Carries (d ∷ ds) crr all le = elim (Bool-cases (crr == 0)) [
  | inl z ↦ rw (z) (ground arith, refl, all, le)
  | inr nz ↦ rw (nz) (bn_digits_add_digit-Carries d ds crr all (omega arith))
]

add_loop-Carries :
    (a b : List ℕ) (crr : ℕ)
    → All IsDigit a
    → All IsDigit b
    → length b ≤ length a
    → crr ≤ 1
    → (r : Carried) × (add_loop a b crr ≡ some r) × Carries a (value a + value b + crr) r
unfolding add_loop
add_loop-Carries a [] crr ha hb le hc =
    let (sum, len, all, small) = add_rest-Carries a crr ha hc in
    (add_rest a crr, refl, (omega (arith, sum), len, all, small))
add_loop-Carries [] (tm ∷ b) crr ha hb le hc = absurd (omega arith)
add_loop-Carries (x ∷ a) (tm ∷ b) crr (hx, ha) (ht, hb) le hc =
    let (sum, small, carry) = add_step_sum x tm crr hx ht hc in
    let step = add_step x tm crr in
    let (r, e, holds) = add_loop-Carries a b step.1 ha hb (omega arith) carry in
    (
      prepend step.0 r,
      rw (e) refl,
      prepend-Carries step.0 x a (value a + value b + step.1) _ r small (omega (arith, sum)) holds,
    )

-- With room for the second operand, and any digits behind it.
pub bn_digits_add-Carries :
    (a b : List ℕ)
    → All IsDigit a
    → All IsDigit b
    → length b ≤ length a
    → (r : Carried) × (bn_digits_add a b ≡ some (ok, r)) × Carries a (value a + value b) r
unfolding bn_digits_add
bn_digits_add-Carries a [] ha hb le = ((a, 0), refl, (omega arith, refl, ha, omega arith))
bn_digits_add-Carries a (t ∷ b) ha hb le =
    let (r, e, (sum, len, all, small)) = add_loop-Carries a (t ∷ b) 0 ha hb le (omega arith) in
    let some_digits : (suc (length b) == 0) ≡ false = ground arith in
    (
      r,
      rw (some_digits, le→ltb (length a) (suc (length b)) le, e) refl,
      (omega (arith, sum), len, all, small),
    )

-- Without room for it.
pub bn_digits_add_short :
    (a b : List ℕ) → length a < length b → bn_digits_add a b ≡ some (eoverflow, (a, 0))
unfolding bn_digits_add
bn_digits_add_short a [] lt = elim lt [ ]
bn_digits_add_short a (t ∷ b) lt =
    let some_digits : (suc (length b) == 0) ≡ false = ground arith in
    rw (some_digits, lt→ltb (length a) (suc (length b)) lt) refl
