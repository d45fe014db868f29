-- ===== src/BigNum/Sub.antt =====
-- Subtraction of digit arrays, include/math/big_num.h, is subtraction of the numbers.
use liblcb.Base.{
  ℕ, suc, ◌+◌, ◌-◌, ◌*◌, ◌^◌, ◌≤◌, ◌<◌, ◌≡◌, refl, arith, List, [], ◌∷◌, All, some, false, length,
  wrap, ltb, ◌==◌, Bool-cases, le→ltb, lt→ltb, inl, inr, ok, eoverflow,
}
use liblcb.BigNum.Value.{IsDigit, value, capacity}
use liblcb.BigNum.Digits.{
  Carried, prepend, flag, bn_max_digit, borrow_loop, bn_digits_sub_digit, sub_step, sub_rest,
  sub_loop, bn_digits_sub,
}

-- `r` is what is left of `a` when `less` is taken off, with the digit borrowed from behind it.
abbrev pub Borrows : List ℕ → ℕ → Carried → Type 0
Borrows a less r =
    (value r.0 + less ≡ value a + capacity (length a) * r.1)
    × (length r.0 ≡ length a)
    × All IsDigit r.0
    × (r.1 ≤ 1)

prepend-Borrows :
    (d x : ℕ) (ds : List ℕ) (less whole : ℕ) (r : Carried)
    → d < 2 ^ 64
    → d + whole ≡ x + 2 ^ 64 * less
    → Borrows ds less r
    → Borrows (x ∷ ds) whole (prepend d r)
prepend-Borrows d x ds less whole (r, brrw) h e (sum, len, all, small) =
    (omega (arith, sum), omega (arith, len), (h, all), small)

borrow_loop-Borrows :
    (a : List ℕ) (brrw : ℕ) → All IsDigit a → brrw ≤ 1 → Borrows a brrw (borrow_loop a brrw)
unfolding borrow_loop
borrow_loop-Borrows [] brrw all le = (omega arith, refl, tt, le)
borrow_loop-Borrows (d ∷ ds) brrw (h, all) le =
    let next = flag (ltb (bn_max_digit - brrw) (wrap (d + 2 ^ 64 - brrw))) in
    elim (Bool-cases (brrw == 0)) [
      | inl z ↦ rw (z) (ground arith, refl, (h, all), le)
      | inr nz ↦ rw (nz) (
          prepend-Borrows (wrap (d + 2 ^ 64 - brrw)) d ds next brrw (borrow_loop ds next)
            (omega arith) (ground arith) (borrow_loop-Borrows ds next all (ground arith)))
    ]

pub bn_digits_sub_digit-Borrows :
    (d : ℕ) (ds : List ℕ) (b : ℕ)
    → All IsDigit (d ∷ ds)
    → b < 2 ^ 64
    → Borrows (d ∷ ds) b (bn_digits_sub_digit (d ∷ ds) b)
unfolding bn_digits_sub_digit
bn_digits_sub_digit-Borrows d ds b (h, all) hb =
    let next = flag (ltb (bn_max_digit - b) (wrap (d + 2 ^ 64 - b))) in
    elim (Bool-cases (b == 0)) [
      | inl z ↦ rw (z) (ground arith, refl, (h, all), omega arith)
      | inr nz ↦ rw (nz) (
          prepend-Borrows (wrap (d + 2 ^ 64 - b)) d ds next b (borrow_loop ds next) (omega arith)
            (ground arith) (borrow_loop-Borrows ds next all (ground arith)))
    ]

sub_step_sum :
    (x tm brrw : ℕ)
    → x < 2 ^ 64
    → tm < 2 ^ 64
    → brrw ≤ 1
    → ((sub_step x tm brrw).0 + (tm + brrw) ≡ x + 2 ^ 64 * (sub_step x tm brrw).1)
      × ((sub_step x tm brrw).0 < 2 ^ 64)
      × ((sub_step x tm brrw).1 ≤ 1)
unfolding sub_step
sub_step_sum x tm brrw hx ht hc = ground arith

sub_rest-Borrows :
    (a : List ℕ) (brrw : ℕ) → All IsDigit a → brrw ≤ 1 → Borrows a brrw (sub_rest a brrw)
unfolding sub_rest
sub_rest-Borrows [] brrw all le = (omega arith, refl, tt, le)
sub_rest-Borrows (d ∷ ds) brrw all le = elim (Bool-cases (brrw == 0)) [
  | inl z ↦ rw (z) (ground arith, refl, all, le)
  | inr nz ↦ rw (nz) (bn_digits_sub_digit-Borrows d ds brrw all (omega arith))
]

sub_loop-Borrows :
    (a b : List ℕ) (brrw : ℕ)
    → All IsDigit a
    → All IsDigit b
    → length b ≤ length a
    → brrw ≤ 1
    → (r : Carried) × (sub_loop a b brrw ≡ some r) × Borrows a (value b + brrw) r
unfolding sub_loop
sub_loop-Borrows a [] brrw ha hb le hc =
    let (sum, len, all, small) = sub_rest-Borrows a brrw ha hc in
    (sub_rest a brrw, refl, (omega (arith, sum), len, all, small))
sub_loop-Borrows [] (tm ∷ b) brrw ha hb le hc = absurd (omega arith)
sub_loop-Borrows (x ∷ a) (tm ∷ b) brrw (hx, ha) (ht, hb) le hc =
    let (sum, small, carry) = sub_step_sum x tm brrw hx ht hc in
    let step = sub_step x tm brrw in
    let (r, e, holds) = sub_loop-Borrows a b step.1 ha hb (omega arith) carry in
    (
      prepend step.0 r,
      rw (e) refl,
      prepend-Borrows step.0 x a (value b + step.1) _ r small (omega (arith, sum)) holds,
    )

pub bn_digits_sub-Borrows :
    (a b : List ℕ) (borrow : ℕ)
    → All IsDigit a
    → All IsDigit b
    → length b ≤ length a
    → (r : Carried) × (bn_digits_sub a b borrow ≡ some (ok, r)) × Borrows a (value b) r
unfolding bn_digits_sub
bn_digits_sub-Borrows a [] borrow ha hb le = ((a, 0), refl, (omega arith, refl, ha, omega arith))
bn_digits_sub-Borrows a (t ∷ b) borrow ha hb le =
    let (r, e, (sum, len, all, small)) = sub_loop-Borrows a (t ∷ b) 0 ha hb le (omega arith) in
    let some_digits : (suc (length b) == 0) ≡ false = ground arith in
    (
      r,
      rw (some_digits, le→ltb (length a) (suc (length b)) le, e) refl,
      (omega (arith, sum), len, all, small),
    )

pub bn_digits_sub_short :
    (a b : List ℕ) (borrow : ℕ)
    → length a < length b
    → bn_digits_sub a b borrow ≡ some (eoverflow, (a, borrow))
unfolding bn_digits_sub
bn_digits_sub_short a [] borrow lt = elim lt [ ]
bn_digits_sub_short a (t ∷ b) borrow lt =
    let some_digits : (suc (length b) == 0) ≡ false = ground arith in
    rw (some_digits, lt→ltb (length a) (suc (length b)) lt) refl
