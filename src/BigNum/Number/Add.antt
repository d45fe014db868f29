-- ===== src/BigNum/Number/Add.antt =====
-- bn_add of include/math/big_num.h is addition of the numbers that the objects stand for.
use liblcb.Base.{
  ℕ, suc, ◌+◌, ◌*◌, ◌≤◌, ◌<◌, ◌≡◌, ◌⊎◌, inl, inr, refl, ap, ◌∙◌, arith, min, List, All, some, ltb,
  Bool-cases, length, take, length-take_le, take-all, Errno, ok, eoverflow,
}
use Prim.Native.Nat.{max}
use liblcb.BigNum.Value.{
  IsDigit, value, capacity, capacity_le, take-IsDigit, take_bound, value_split, low_sum,
}
use liblcb.BigNum.Digits.{Carried}
use liblcb.BigNum.Add.{Carries, bn_digits_add_short, bn_digits_add-Carries}
use liblcb.BigNum.Number.{Bn, bn_init_digits__int, bn_add, finish}
use liblcb.BigNum.Number.Clear.{bn_init_digits__int-IsStored, init_array, init_kept}
use liblcb.BigNum.Number.Store.{bn_value, IsStored, IsNormal, with_digits-IsNormal}

-- What bn_add promises: the sum, modulo the capacity of the object, with the carry; or an object
-- that is too short for the digits of the other, and keeps its number.
abbrev pub Sum : Bn → Bn → Errno × (Bn × ℕ) → Type 0
Sum bn n (error, (bn', carry)) =
    IsNormal bn'
    × (bn'.count ≡ bn.count)
    × (((error ≡ ok)
          × (n.digits ≤ bn.count)
          × (bn_value bn' + capacity bn.count * carry ≡ bn_value bn + bn_value n)
          × (carry ≤ 1))
        ⊎ ((error ≡ eoverflow)
            × (bn.count < n.digits)
            × (bn_value bn' ≡ bn_value bn)
            × (carry ≡ 0)))

-- The first digits take up the sum, where it has room in as many as are wanted.
pub added :
    (bn : Bn) (x wanted : ℕ) (a : List ℕ) (r : Carried)
    → bn_value bn + x < capacity wanted
    → length a ≡ bn.count
    → All IsDigit a
    → value (take (min wanted bn.count) a) ≡ bn_value bn
    → Carries a (value a + x) r
    → value (take (min wanted bn.count) r.0) + capacity bn.count * r.1 ≡ bn_value bn + x
added bn x wanted a r room len all low (sum, len', all', small) =
    elim (Bool-cases (ltb wanted bn.count)) [
      | inl fits ↦
          let w : min wanted bn.count ≡ wanted = ground arith in
          let low' = rw (w) at low in
          let split = value_split wanted a (ground arith) in
          let (val, none_out) =
            low_sum wanted a r.0 (ground arith) len' all all' r.1 (bn_value bn + x) room
              (omega (arith, sum, split, low')) in
          rw (w, val, none_out) (omega arith)
      | inr over ↦
          let w : min wanted bn.count ≡ bn.count = ground arith in
          let low' = rw (w, take-all a bn.count (omega arith)) at low in
          let sum' = rw (len) at sum in
          rw (w, take-all r.0 bn.count (omega arith)) (omega (arith, sum', low'))
    ]

-- One digit more than both is room for the sum.
sum_room :
    (bn n : Bn)
    → IsStored bn
    → IsStored n
    → bn_value bn + bn_value n < capacity (suc (max bn.digits n.digits))
sum_room bn n (hd, hc, ha) (nd, nc, hn) = omega (
  arith,
  take_bound bn.digits bn.num (omega arith) ha,
  take_bound n.digits n.num (omega arith) hn,
  capacity_le bn.digits (max bn.digits n.digits) (omega arith),
  capacity_le n.digits (max bn.digits n.digits) (omega arith),
)

-- For well-formed objects, `bn_add` returns, keeps the object well-formed with as many digits as it
-- may have, and its number becomes the sum: what does not fit in `count` digits is the carry. It
-- refuses an operand with more digits than the object may have, and then the number is as before.
pub bn_add-Sum :
    (bn n : Bn)
    → IsNormal bn
    → IsNormal n
    → (r : Errno × (Bn × ℕ)) × (bn_add bn n ≡ some r) × Sum bn n r
unfolding bn_add
bn_add-Sum bn n (sb, tb) (sn, tn) =
    let most : ℕ = max bn.digits n.digits in
    let bn1 = bn_init_digits__int bn (suc most) in
    let a = take bn1.count bn1.num in
    let (sb1, _, count, digits) = bn_init_digits__int-IsStored bn (suc most) sb (omega arith) in
    let (len, all, low) = init_array bn (suc most) sb (omega arith) in
    let (nd, nc, hn) = sn in
    let n_len = length-take_le n.digits n.num (omega arith) in
    elim (Bool-cases (ltb bn.count n.digits)) [
      | inl short ↦
          let (kept, val, count') = init_kept bn (suc most) (sb, tb) (omega arith) in
          let refused = bn_digits_add_short a (take n.digits n.num) (ground (arith, len, n_len)) in
          (
            (eoverflow, (bn1, 0)),
            rw (refused) refl,
            (kept, count', inr (refl, ground arith, val, refl)),
          )
      | inr room ↦
          let (r, e, carries) =
            bn_digits_add-Carries a (take n.digits n.num) all (take-IsDigit n.digits n.num hn)
              (ground (arith, len, n_len)) in
          let (sum, len', all', small) = carries in
          let whole =
            added bn (bn_value n) (suc most) a r (sum_room bn n sb sn) len all low carries in
          let (kept, val, count') =
            with_digits-IsNormal bn1 r.0 (suc most) bn.count sb1 (omega (arith, digits)) count
              (omega (arith, len, len')) (omega (arith, len, len')) all' in
          (
            finish bn1 (suc most) (ok, r),
            rw (e) refl,
            (
              kept,
              count',
              inl (refl, ground arith, ap (λ v. v + capacity bn.count * r.1) val ∙ whole, small),
            ),
          )
    ]
