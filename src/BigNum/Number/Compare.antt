-- ===== src/BigNum/Number/Compare.antt =====
-- bn_cmp of include/math/big_num.h compares the numbers that the objects stand for.
use liblcb.Base.{
  ℕ, zero, suc, ◌+◌, ◌*◌, ◌≤◌, ◌<◌, ◌≡◌, inl, inr, sym, ap, ◌∙◌, arith, List, All, ltb, ◌==◌,
  if◌then◌else◌, Bool-cases, length, take, get_or,
}
use liblcb.Base.Int.{ℤ, pos, negsuc}
use liblcb.BigNum.Value.{IsDigit, value, capacity, take_bound}
use liblcb.BigNum.Digits.{bn_digits_cmp}
use liblcb.BigNum.Number.{Bn, bn_cmp}
use liblcb.BigNum.Number.Store.{bn_value, IsNormal, take-suc-value, fewer_digits}

-- The sign of `x - y`.
unfoldable pub sign : ℕ → ℕ → ℤ
sign x y = if x == y then pos 0 else if ltb y x then pos 1 else negsuc 0

sign_less : (x y : ℕ) → x < y → sign x y ≡ negsuc 0
unfolding sign
sign_less x y lt = ground arith

sign_more : (x y : ℕ) → y < x → sign x y ≡ pos 1
unfolding sign
sign_more x y lt = ground arith

sign_same : (x : ℕ) → sign x x ≡ pos 0
unfolding sign
sign_same x = ground arith

sign_add : (x y k : ℕ) → sign (x + k) (y + k) ≡ sign x y
unfolding sign
sign_add x y k = ground arith

bn_digits_cmp-sign :
    (a b : List ℕ) (n : ℕ)
    → n ≤ length a
    → n ≤ length b
    → All IsDigit a
    → All IsDigit b
    → bn_digits_cmp a b n ≡ sign (value (take n a)) (value (take n b))
unfolding bn_digits_cmp
bn_digits_cmp-sign a b zero la lb ha hb = sym (sign_same 0)
bn_digits_cmp-sign a b (suc i) la lb ha hb =
    let x = get_or a i 0 in
    let y = get_or b i 0 in
    let va = take-suc-value i a la in
    let vb = take-suc-value i b lb in
    let ba = take_bound i a (omega arith) ha in
    let bb = take_bound i b (omega arith) hb in
    elim (Bool-cases (x == y)) [
      | inl same ↦
          let equal : x ≡ y = ground arith in
          rw (same, va, vb, equal)
            (bn_digits_cmp-sign a b i (omega arith) (omega arith) ha hb
              ∙ sym (sign_add (value (take i a)) (value (take i b)) (capacity i * y)))
      | inr differ ↦ elim (Bool-cases (ltb y x)) [
        | inl more ↦
            let lt : y < x = ground arith in
            rw (differ, more)
              (sym (sign_more (value (take (suc i) a)) (value (take (suc i) b)) (grind arith)))
        | inr less ↦
            let lt : x < y = ground arith in
            rw (differ, less)
              (sym (sign_less (value (take (suc i) a)) (value (take (suc i) b)) (grind arith)))
      ]
    ]

-- For well-formed objects, `bn_cmp` is the sign of the difference of the two numbers.
pub bn_cmp-sign : (a b : Bn) → IsNormal a → IsNormal b → bn_cmp a b ≡ sign (bn_value a) (bn_value b)
unfolding bn_cmp
bn_cmp-sign a b (sa, ta) (sb, tb) =
    let (da, ca, ha) = sa in
    let (db, cb, hb) = sb in
    elim (Bool-cases (a.digits == b.digits)) [
      | inl same ↦
          let equal : a.digits ≡ b.digits = ground arith in
          rw (same) (
            bn_digits_cmp-sign a.num b.num a.digits (omega arith) (omega arith) ha hb
            ∙ ap (λ d. sign (bn_value a) (value (take d b.num))) equal)
      | inr differ ↦ elim (Bool-cases (ltb b.digits a.digits)) [
        | inl more ↦
            rw (differ, more)
              (sym
                (sign_more (bn_value a) (bn_value b) (fewer_digits a b (sa, ta) sb (ground arith))))
        | inr less ↦
            rw (differ, less)
              (sym
                (sign_less (bn_value a) (bn_value b) (fewer_digits b a (sb, tb) sa (ground arith))))
      ]
    ]
