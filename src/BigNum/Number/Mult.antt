-- ===== src/BigNum/Number/Mult.antt =====
-- bn_mult of include/math/big_num.h is multiplication of the numbers that the objects stand for.
use liblcb.Base.{
  ℕ, ◌+◌, ◌*◌, ◌^◌, ◌≤◌, ◌<◌, ◌≡◌, ◌⊎◌, inl, inr, refl, sym, ap, ◌∙◌, arith, min, List, [], ◌∷◌,
  ◌++◌, All, Option, some, none, ◌>>=◌, true, false, ltb, ◌==◌, ◌||◌, if◌then◌else◌, Bool-cases,
  length, take, drop, length-take_le, take-all, Errno, ok, eoverflow,
}
use liblcb.BigNum.Value.{IsDigit, value, capacity, capacity_add, take-IsDigit, take_bound}
use liblcb.BigNum.Digits.{bn_digits_add_digit_mult__int}
use liblcb.BigNum.Mult.{bn_digits_add_digit_mult__int-value}
use liblcb.BigNum.Number.{
  Bn, bn_update_digits__int, with_digits, bn_init_digits__int, bn_mult, mult_rows, mult_digits,
  multiplicand, multiplier, operand, bn_assign_zero, bn_is_zero, bn_cmp, is_positive,
}
use liblcb.BigNum.Number.Clear.{bn_init_digits__int-IsStored}
use liblcb.BigNum.Number.Store.{bn_value, IsStored, IsNormal, with_digits-IsNormal}

-- The array after the rows: the product is added.
abbrev RowsOf : List ℕ → List ℕ → List ℕ → Option (List ℕ) → Type 0
RowsOf m ds a o =
    (r : List ℕ) × (o ≡ some r)
    × (value r ≡ value a + value m * value ds)
    × (length r ≡ length a)
    × All IsDigit r

-- One row, with or without a digit that is 0.
one_row :
    (m : List ℕ) (d : ℕ) (a : List ℕ)
    → All IsDigit m
    → IsDigit d
    → All IsDigit a
    → length m ≤ length a
    → value a + d * value m < capacity (length a)
    → (r : List ℕ) × ((if d == 0 then some a else bn_digits_add_digit_mult__int a m d) ≡ some r)
      × (value r ≡ value a + d * value m)
      × (length r ≡ length a)
      × All IsDigit r
one_row m d a hm hd ha le room = elim (Bool-cases (d == 0)) [
  | inl z ↦
      let none_left : d ≡ 0 = ground arith in
      (a, rw (z) refl, rw (none_left) (omega arith), refl, ha)
  | inr nz ↦
      let (r, e, sum, len, all) = bn_digits_add_digit_mult__int-value a m d ha hm hd le room in
      (r, rw (nz) e, sum, len, all)
]

-- The rest works on the digits behind the lowest one, which is done.
next_row :
    (m ds a a' : List ℕ) (d : ℕ)
    → value a' ≡ value a + d * value m
    → length a' ≡ length a
    → All IsDigit a'
    → 0 < length a
    → value a + value m * (d + 2 ^ 64 * value ds) < capacity (length a)
    → ((t : List ℕ)
        → length t + 1 ≡ length a
        → All IsDigit t
        → value t + value m * value ds < capacity (length t)
        → RowsOf m ds t (mult_rows m ds t))
    → (r : List ℕ) × ((mult_rows m ds (drop 1 a') >>= (λ r. some (take 1 a' ++ r))) ≡ some r)
      × (value r ≡ value a + value m * (d + 2 ^ 64 * value ds))
      × (length r ≡ length a)
      × All IsDigit r
next_row m ds a [] d sum len all pos room rest = absurd (omega arith)
next_row m ds a (x ∷ t) d sum len (hx, all) pos room rest =
    let spread : value m * (d + 2 ^ 64 * value ds) ≡ d * value m + 2 ^ 64 * (value m * value ds) =
      grind arith in
    let size : capacity (length a) ≡ 2 ^ 64 * capacity (length t) = ap capacity (sym len) in
    let (r, e, val, len', all') =
      rest t (omega (arith, len)) all (omega (arith, room, sum, spread, size)) in
    (x ∷ r, rw (e) refl, omega (arith, val, sum, spread), omega (arith, len, len'), (hx, all'))

mult_rows-value :
    (m ds a : List ℕ)
    → All IsDigit m
    → All IsDigit ds
    → All IsDigit a
    → length m + length ds ≤ length a
    → value a + value m * value ds < capacity (length a)
    → RowsOf m ds a (mult_rows m ds a)
unfolding mult_rows
mult_rows-value m [] a hm hds ha le room = (a, refl, omega arith, refl, ha)
mult_rows-value m (d ∷ ds) a hm (hd, hds) ha le room =
    let first : value a + d * value m < capacity (length a) = grind arith in
    let (a', e, sum, len, all) = one_row m d a hm hd ha (omega arith) first in
    let (r, e', val, len', all') =
      next_row m ds a a' d sum len all (omega arith) room
        (λ t lt ht hroom. mult_rows-value m ds t hm hds ht (omega (arith, lt, le)) hroom) in
    (r, rw (e) e', val, len', all')

-- One number is 0, or the digits of both fit.
abbrev pub HasRoom : Bn → Bn → Type 0
HasRoom bn n = (bn.digits ≡ 0) ⊎ (n.digits ≡ 0) ⊎ (bn.digits + n.digits ≤ bn.count)

-- What bn_mult promises: the product, where a number is 0 or the object has room for the digits of
-- both; or an object that is too short for these digits, none of them 0, and stays as it was.
abbrev pub Product : Bn → Bn → Errno × Bn → Type 0
Product bn n (error, bn') =
    IsNormal bn'
    × (bn'.count ≡ bn.count)
    × (((error ≡ ok) × HasRoom bn n × (bn_value bn' ≡ bn_value bn * bn_value n))
        ⊎ ((error ≡ eoverflow)
            × (0 < bn.digits)
            × (0 < n.digits)
            × (bn.count < bn.digits + n.digits)
            × (bn' ≡ bn)))

rows_of :
    (x y : Bn) (z : List ℕ) (d : ℕ)
    → IsStored x
    → IsStored y
    → d ≡ x.digits + y.digits
    → length z ≡ d
    → All IsDigit z
    → value z ≡ 0
    → (r : List ℕ) × (mult_rows (take x.digits x.num) (take y.digits y.num) z ≡ some r)
      × (value r ≡ bn_value x * bn_value y)
      × (length r ≡ d)
      × All IsDigit r
rows_of x y z d (xd, xc, hx) (yd, yc, hy) e len hz zero_z =
    let lx = length-take_le x.digits x.num (omega arith) in
    let ly = length-take_le y.digits y.num (omega arith) in
    let bx = take_bound x.digits x.num (omega arith) hx in
    let by' = take_bound y.digits y.num (omega arith) hy in
    let room = capacity_add x.digits y.digits in
    let size : capacity (length z) ≡ capacity x.digits * capacity y.digits =
      ap capacity (len ∙ e) ∙ room in
    let (r, done, val, len', all) =
      mult_rows-value (take x.digits x.num) (take y.digits y.num) z (take-IsDigit x.digits x.num hx)
        (take-IsDigit y.digits y.num hy) hz (omega (arith, lx, ly, len, e))
        (rw (size, zero_z) (grind arith)) in
    (r, done, omega (arith, val, zero_z), omega (arith, len', len), all)

mult_digits-value :
    (bn : Bn) (n : Option Bn) (zeros : List ℕ) (d : ℕ)
    → IsStored bn
    → IsStored (operand bn n)
    → d ≡ bn.digits + (operand bn n).digits
    → length (take d zeros) ≡ d
    → All IsDigit (take d zeros)
    → value (take d zeros) ≡ 0
    → (r : List ℕ) × (mult_digits bn n d zeros ≡ some r)
      × (value r ≡ bn_value bn * bn_value (operand bn n))
      × (length r ≡ d)
      × All IsDigit r
unfolding mult_digits multiplicand multiplier
mult_digits-value bn none zeros d sb sn e len all none_yet =
    rows_of bn bn (take d zeros) d sb sb e len all none_yet
mult_digits-value bn (some n) zeros d sb sn e len all none_yet =
    elim (Bool-cases (is_positive (bn_cmp bn n))) [
      | inl more ↦ rw (more) (rows_of bn n (take d zeros) d sb sn e len all none_yet)
      | inr less ↦
          let (r, done, val, len', all') =
            rows_of n bn (take d zeros) d sn sb (omega (arith, e)) len all none_yet in
          rw (less) (r, done, grind (arith, val), len', all')
    ]

pub cleared : (bn : Bn) → IsStored bn → IsStored (bn_assign_zero bn)
unfolding bn_assign_zero
cleared bn (hd, hc, all) = (omega arith, hc, all)

zero_HasRoom : (bn n : Bn) → bn_is_zero bn || bn_is_zero n ≡ true → HasRoom bn n
unfolding bn_is_zero
zero_HasRoom bn n e = elim (Bool-cases (bn.digits == 0)) [
  | inl z ↦ inl (ground arith)
  | inr nz ↦ inr (inl (ground arith))
]

not_zero : (bn n : Bn) → bn_is_zero bn || bn_is_zero n ≡ false → (0 < bn.digits) × (0 < n.digits)
unfolding bn_is_zero
not_zero bn n e = (ground arith, ground arith)

none_value : (bn : Bn) → bn.digits ≡ 0 → bn_value bn ≡ 0
none_value bn e = ap (λ d. value (take d bn.num)) e

times_zero : (bn n : Bn) → bn_is_zero bn || bn_is_zero n ≡ true → bn_value bn * bn_value n ≡ 0
unfolding bn_is_zero
times_zero bn n e = elim (Bool-cases (bn.digits == 0)) [
  | inl z ↦ rw (none_value bn (ground arith)) (omega arith)
  | inr nz ↦ rw (none_value n (ground arith)) (omega arith)
]

-- For well-formed objects, `bn_mult` returns, keeps the object well-formed, and its number becomes
-- the product, also where the operand is the object itself. It does so exactly where one of the
-- numbers is 0 or the digits of both are together no more than the object may have; otherwise it
-- refuses the operand, and the object stays as it was.
pub bn_mult-Product :
    (bn : Bn) (n : Option Bn)
    → IsNormal bn
    → IsNormal (operand bn n)
    → (r : Errno × Bn) × (bn_mult bn n ≡ some r) × Product bn (operand bn n) r
unfolding bn_mult bn_assign_zero
bn_mult-Product bn n (sb, tb) (sn, tn) =
    let d = bn.digits + (operand bn n).digits in
    let (hd, hc, ha) = sb in
    elim (Bool-cases (bn_is_zero bn || bn_is_zero (operand bn n))) [
      | inl z ↦ (
        (ok, bn_assign_zero bn),
        rw (z) refl,
        (
          (cleared bn sb, inl refl),
          refl,
          inl (refl, zero_HasRoom bn (operand bn n) z, sym (times_zero bn (operand bn n) z)),
        ),
      )
      | inr nz ↦ elim (Bool-cases (ltb bn.count d)) [
        | inl short ↦ (
          (eoverflow, bn),
          rw (nz, short) refl,
          (
            (sb, tb),
            refl,
            inr (
              refl,
              (not_zero bn (operand bn n) nz).0,
              (not_zero bn (operand bn n) nz).1,
              ground arith,
              refl,
            ),
          ),
        )
        | inr fits ↦
            let bn0 = bn_assign_zero bn in
            let bn1 = bn_init_digits__int bn0 d in
            let (sb1, low, count, digits) =
              bn_init_digits__int-IsStored bn0 d (cleared bn sb) (omega arith) in
            let (_, hc1, ha1) = sb1 in
            let w : min d bn.count ≡ d = ground arith in
            let low' : value (take d bn1.num) ≡ 0 =
              ap (λ k. value (take k bn1.num)) (sym w) ∙ low in
            let len = length-take_le d bn1.num (ground (arith, count, hc1)) in
            let (r, done, val, len', all) =
              mult_digits-value bn n bn1.num d sb sn refl len (take-IsDigit d bn1.num ha1) low' in
            let (kept, val', count') =
              with_digits-IsNormal bn1 r d bn.count sb1 (omega (arith, digits)) count
                (omega (arith, len')) (ground (arith, len')) all in
            let cut : take (min d bn.count) r ≡ r =
              take-all r (min d bn.count) (omega (arith, w, len')) in
            (
              (ok, bn_update_digits__int (with_digits bn1 r) d),
              rw (nz, fits, done) refl,
              (kept, count', inl (refl, inr (inr (ground arith)), val' ∙ ap value cut ∙ val)),
            )
      ]
    ]
