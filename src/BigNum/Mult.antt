-- ===== src/BigNum/Mult.antt =====
-- The multiply-and-add loop of include/math/big_num.h on digit arrays.
use liblcb.Base.{
  ℕ, zero, suc, ◌+◌, ◌-◌, ◌*◌, ◌^◌, ◌≤◌, ◌<◌, ◌≡◌, refl, arith, List, [], ◌∷◌, All, some, length,
  ◌==◌, Bool-cases, inl, inr,
}
use liblcb.BigNum.Value.{IsDigit, value, capacity}
use liblcb.BigNum.Digits.{
  Carried, prepend, add_rest, bn_digit_mult__int, mult_step, mult_loop,
  bn_digits_add_digit_mult__int,
}
use liblcb.BigNum.Add.{bn_digits_add_digit-Carries, bn_digits_add-Carries}

-- The same as `Carries`, where the carry may be any digit.
abbrev pub Totals : List ℕ → ℕ → Carried → Type 0
Totals a total r =
    (value r.0 + capacity (length a) * r.1 ≡ total) × (length r.0 ≡ length a) × All IsDigit r.0

product_bound : (d y : ℕ) → d < 2 ^ 64 → y < 2 ^ 64 → d * y ≤ (2 ^ 64 - 1) * (2 ^ 64 - 1)
product_bound d y hd hy = grind arith

mult_step_sum :
    (d x y crr : ℕ)
    → d < 2 ^ 64
    → x < 2 ^ 64
    → y < 2 ^ 64
    → crr < 2 ^ 64
    → ((mult_step d x y crr).0 + 2 ^ 64 * (mult_step d x y crr).1 ≡ x + d * y + crr)
      × ((mult_step d x y crr).0 < 2 ^ 64)
      × ((mult_step d x y crr).1 < 2 ^ 64)
unfolding mult_step bn_digit_mult__int
mult_step_sum d x y crr hd hx hy hc = ground (arith, product_bound d y hd hy)

add_rest-Totals :
    (a : List ℕ) (crr : ℕ)
    → All IsDigit a
    → crr < 2 ^ 64
    → Totals a (value a + crr) (add_rest a crr)
unfolding add_rest
add_rest-Totals [] crr all lt = (omega arith, refl, tt)
add_rest-Totals (d ∷ ds) crr all lt = elim (Bool-cases (crr == 0)) [
  | inl z ↦ rw (z) (ground arith, refl, all)
  | inr nz ↦ rw (nz) (
      let (sum, len, digits, small) = bn_digits_add_digit-Carries d ds crr all lt in
      (sum, len, digits))
]

prepend-Totals :
    (d x : ℕ) (ds : List ℕ) (total whole : ℕ) (r : Carried)
    → d < 2 ^ 64
    → d + 2 ^ 64 * total ≡ whole
    → Totals ds total r
    → Totals (x ∷ ds) whole (prepend d r)
prepend-Totals d x ds total whole (r, crr) h e (sum, len, all) =
    (omega (arith, sum), omega (arith, len), (h, all))

mult_loop-Totals :
    (d : ℕ) (a b : List ℕ) (crr : ℕ)
    → d < 2 ^ 64
    → All IsDigit a
    → All IsDigit b
    → length b ≤ length a
    → crr < 2 ^ 64
    → (r : Carried) × (mult_loop d a b crr ≡ some r) × Totals a (value a + d * value b + crr) r
unfolding mult_loop
mult_loop-Totals d a [] crr hd ha hb le hc =
    let (sum, len, all) = add_rest-Totals a crr ha hc in
    (add_rest a crr, refl, (grind (arith, sum), len, all))
mult_loop-Totals d [] (y ∷ b) crr hd ha hb le hc = absurd (omega arith)
mult_loop-Totals d (x ∷ a) (y ∷ b) crr hd (hx, ha) (hy, hb) le hc =
    let (sum, small, carry) = mult_step_sum d x y crr hd hx hy hc in
    let step = mult_step d x y crr in
    let (r, e, holds) = mult_loop-Totals d a b step.1 hd ha hb (omega arith) carry in
    (
      prepend step.0 r,
      rw (e) refl,
      prepend-Totals step.0 x a (value a + d * value b + step.1) _ r small (grind (arith, sum))
          holds,
    )

no_carry : (k v c t : ℕ) → v + k * c ≡ t → t < k → v ≡ t
no_carry k v zero t e lt = omega (arith, e)
no_carry k v (suc c) t e lt = absurd (grind arith)

-- Where the sum has room in the digits of `a`, they are the sum.
pub bn_digits_add_digit_mult__int-value :
    (a b : List ℕ) (d : ℕ)
    → All IsDigit a
    → All IsDigit b
    → d < 2 ^ 64
    → length b ≤ length a
    → value a + d * value b < capacity (length a)
    → (r : List ℕ) × (bn_digits_add_digit_mult__int a b d ≡ some r)
      × (value r ≡ value a + d * value b)
      × (length r ≡ length a)
      × All IsDigit r
unfolding bn_digits_add_digit_mult__int
bn_digits_add_digit_mult__int-value a b d ha hb hd le room = elim (Bool-cases (d == 1)) [
  | inl one ↦
      let (r, e, (sum, len, all, small)) = bn_digits_add-Carries a b ha hb le in
      let same : d ≡ 1 = ground arith in
      let times : d * value b ≡ value b = rw (same) (omega arith) in
      let whole =
        no_carry (capacity (length a)) (value r.0) r.1 (value a + value b) sum
          (omega (arith, room, times)) in
      (r.0, rw (one, e) refl, omega (arith, whole, times), len, all)
  | inr more ↦
      let (r, e, (sum, len, all)) = mult_loop-Totals d a b 0 hd ha hb le (omega arith) in
      let whole =
        no_carry (capacity (length a)) (value r.0) r.1 (value a + d * value b + 0) sum
          (omega (arith, room)) in
      (r.0, rw (more, e) refl, omega (arith, whole), len, all)
]
