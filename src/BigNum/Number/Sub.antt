-- ===== src/BigNum/Number/Sub.antt =====
-- bn_sub of include/math/big_num.h is subtraction of the numbers that the objects stand for.
use liblcb.Base.{
  ℕ, ◌+◌, ◌-◌, ◌*◌, ◌≤◌, ◌<◌, ◌≡◌, ◌⊎◌, inl, inr, refl, ap, ◌∙◌, arith, min, List, All, some, false,
  ltb, leb, ◌==◌, Bool-cases, length, take, get_or, length-take_le, take-all, Errno, ok, eoverflow,
  get_elem-get_or,
}
use liblcb.BigNum.Value.{
  IsDigit, value, capacity, take-IsDigit, take_bound, value_split, low_difference,
}
use liblcb.BigNum.Digits.{Carried}
use liblcb.BigNum.Sub.{Borrows, bn_digits_sub_short, bn_digits_sub-Borrows}
use liblcb.BigNum.Number.{Bn, bn_init_digits__int, bn_sub, sub_extent, top_digit, finish}
use liblcb.BigNum.Number.Clear.{bn_init_digits__int-IsStored, init_array, init_kept}
use liblcb.BigNum.Number.Store.{
  bn_value, IsStored, IsNormal, with_digits-IsNormal, top_value, fewer_digits,
}

-- What bn_sub promises: the difference, with the capacity of the object borrowed when the operand
-- is greater; or an object that is too short for the digits of the other, and keeps its number. The
-- borrow is not stored then.
abbrev pub Difference : Bn → Bn → ℕ → Errno × (Bn × ℕ) → Type 0
Difference bn n before (error, (bn', borrow)) =
    IsNormal bn'
    × (bn'.count ≡ bn.count)
    × (((error ≡ ok)
          × (n.digits ≤ bn.count)
          × (bn_value bn' + bn_value n ≡ bn_value bn + capacity bn.count * borrow)
          × (borrow ≤ 1))
        ⊎ ((error ≡ eoverflow)
            × (bn.count < n.digits)
            × (bn_value bn' ≡ bn_value bn)
            × (borrow ≡ before)))

lower_top :
    (bn n : Bn)
    → IsStored bn
    → IsStored n
    → bn.digits ≡ n.digits
    → 0 < bn.digits
    → get_or n.num (n.digits - 1) 0 < get_or bn.num (bn.digits - 1) 0
    → bn_value n ≤ bn_value bn
lower_top bn n (hd, hc, ha) (nd, nc, hn) same pos lt =
    let whole = top_value bn.num bn.digits pos (omega arith) in
    let whole' = top_value n.num n.digits (omega arith) (omega arith) in
    let bound = take_bound (n.digits - 1) n.num (omega arith) hn in
    let index : bn.digits - 1 ≡ n.digits - 1 = omega arith in
    let lt' = rw (index) at lt in let whole'' = rw (index) at whole in grind arith

-- The digits that are counted again: all, or as many as before where the difference has no more.
extent :
    (bn n : Bn)
    → IsNormal bn
    → IsNormal n
    → 0 < bn.digits + n.digits
    → (wanted : ℕ) × (sub_extent bn n ≡ some wanted)
      × ((wanted ≡ bn.count) ⊎ ((wanted ≡ bn.digits) × (bn_value n ≤ bn_value bn)))
unfolding sub_extent top_digit
extent bn n (sb, tb) (sn, tn) pos =
    let (hd, hc, ha) = sb in
    let (nd, nc, hn) = sn in
    elim (Bool-cases (ltb bn.digits n.digits)) [
      | inl less ↦ (bn.count, rw (less) refl, inl refl)
      | inr not_less ↦ elim (Bool-cases (bn.digits == n.digits)) [
        | inr differ ↦ (
          bn.digits,
          rw (not_less, differ) refl,
          inr (refl, omega (arith, fewer_digits bn n (sb, tb) sn (ground arith))),
        )
        | inl same ↦
            let some_digits : (bn.digits == 0) ≡ false = ground arith in
            let some_digits' : (n.digits == 0) ≡ false = ground arith in
            let x = get_elem-get_or bn.num (bn.digits - 1) 0 (ground arith) in
            let y = get_elem-get_or n.num (n.digits - 1) 0 (ground arith) in
            elim (Bool-cases
              (leb (get_or bn.num (bn.digits - 1) 0) (get_or n.num (n.digits - 1) 0))) [
                | inl low ↦ (
                  bn.count,
                  rw (not_less, same, some_digits, some_digits', x, y, low) refl,
                  inl refl,
                )
                | inr high ↦ (
                  bn.digits,
                  rw (not_less, same, some_digits, some_digits', x, y, high) refl,
                  inr (refl, lower_top bn n sb sn (ground arith) (ground arith) (ground arith)),
                )
              ]
      ]
    ]

pub subtracted :
    (bn : Bn) (x : ℕ) (a : List ℕ) (r : Carried) (wanted : ℕ)
    → IsStored bn
    → length a ≡ bn.count
    → All IsDigit a
    → value (take (min wanted bn.count) a) ≡ bn_value bn
    → Borrows a (x) r
    → (wanted ≡ bn.count) ⊎ ((wanted ≡ bn.digits) × (x ≤ bn_value bn))
    → value (take (min wanted bn.count) r.0) + x ≡ bn_value bn + capacity bn.count * r.1
subtracted bn x a r wanted (hd, hc, ha) len all low (sum, len', all', small) (inl e) =
    let w : min wanted bn.count ≡ bn.count = omega arith in
    let low' = rw (w, take-all a bn.count (omega arith)) at low in
    let sum' = rw (len) at sum in
    rw (w, take-all r.0 bn.count (omega arith)) (omega (arith, sum', low'))
subtracted bn x a r wanted (hd, hc, ha) len all low (sum, len', all', small) (inr (e, le)) =
    let w : min wanted bn.count ≡ bn.digits = omega arith in
    let low' = rw (w) at low in
    let split = value_split bn.digits a (omega arith) in
    let bound = take_bound bn.digits bn.num (omega arith) ha in
    let (val, none_out) =
      low_difference bn.digits a r.0 (omega arith) len' all all' r.1 (bn_value bn - x)
        (omega (arith, bound)) (omega (arith, sum, split, low', le)) in
    rw (w, val, none_out) (omega (arith, le))

-- For two different well-formed objects that are not both 0, `bn_sub` returns, keeps the object well-formed, and
-- its number becomes the difference, with `2 ^ (64 * count)` borrowed where the operand is greater.
-- It refuses an operand with more digits than the object may have, and then the
-- number is as before and the borrow is not stored.
pub bn_sub-Difference :
    (bn n : Bn) (before : ℕ)
    → IsNormal bn
    → IsNormal n
    → 0 < bn.digits + n.digits
    → (r : Errno × (Bn × ℕ)) × (bn_sub bn (some n) before ≡ some r) × Difference bn n before r
unfolding bn_sub
bn_sub-Difference bn n before (sb, tb) (sn, tn) pos =
    let (hd, hc, ha) = sb in
    let (wanted, reach, how) = extent bn n (sb, tb) (sn, tn) pos in
    let enough : bn.digits ≤ wanted = elim how [
      | inl e ↦ omega arith
      | inr (e, le) ↦ omega arith
    ] in
    let bn1 = bn_init_digits__int bn wanted in
    let a = take bn1.count bn1.num in
    let (sb1, _, count, digits) = bn_init_digits__int-IsStored bn wanted sb enough in
    let (len, all, low) = init_array bn wanted sb enough in
    let (nd, nc, hn) = sn in
    let n_len = length-take_le n.digits n.num (omega arith) in
    elim (Bool-cases (ltb bn.count n.digits)) [
      | inl short ↦
          let (kept, val, count') = init_kept bn wanted (sb, tb) enough in
          let refused =
            bn_digits_sub_short a (take n.digits n.num) before (ground (arith, len, n_len)) in
          (
            (eoverflow, (bn1, before)),
            rw (reach, refused) refl,
            (kept, count', inr (refl, ground arith, val, refl)),
          )
      | inr room ↦
          let (r, e, borrows) =
            bn_digits_sub-Borrows a (take n.digits n.num) before all
              (take-IsDigit n.digits n.num hn) (ground (arith, len, n_len)) in
          let (sum, len', all', small) = borrows in
          let whole = subtracted bn (bn_value n) a r wanted sb len all low borrows how in
          let (kept, val, count') =
            with_digits-IsNormal bn1 r.0 wanted bn.count sb1 (omega (arith, digits, enough)) count
              (omega (arith, len, len')) (omega (arith, len, len')) all' in
          (
            finish bn1 wanted (ok, r),
            rw (reach, e) refl,
            (kept, count', inl (refl, ground arith, ap (λ v. v + bn_value n) val ∙ whole, small)),
          )
    ]
