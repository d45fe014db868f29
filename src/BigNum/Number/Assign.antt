-- ===== src/BigNum/Number/Assign.antt =====
-- bn_init and the assignments of include/math/big_num.h.
use liblcb.Base.{
  ℕ, ◌+◌, ◌/◌, ◌^◌, ◌≤◌, ◌<◌, ◌≡◌, ◌≢◌, ◌⊎◌, inl, inr, refl, sym, ap, arith, List, [], ◌∷◌, ◌++◌,
  All, All-append, true, false, ltb, ◌==◌, ◌||◌, Bool-cases, ltb→le, length, take, drop, get_or,
  set, length-append, length-take_le, length-drop, take-append, ok, einval, eoverflow,
}
use liblcb.BigNum.Value.{IsDigit, value, take-IsDigit, drop-IsDigit}
use liblcb.BigNum.Number.{Bn, bn_init, bn_assign, bn_assign_digit, bn_max_digits, bn_bit_len}
use liblcb.BigNum.Number.Store.{bn_value, IsNormal, HasTop-take}

-- With a number of bits that fits, the object is 0.
pub bn_init-IsNormal :
    (bn : Bn) (bits : ℕ)
    → length bn.num ≡ bn_max_digits
    → All IsDigit bn.num
    → 0 < bits
    → bits ≤ bn_bit_len
    → (bn_init bn bits ≡ (ok, record bn { count = (bits + 63) / 64; digits = 0 }))
      × IsNormal (record bn { count = (bits + 63) / 64; digits = 0 })
      × (0 < (bits + 63) / 64)
      × ((bits + 63) / 64 ≤ bn_max_digits)
unfolding bn_init
bn_init-IsNormal bn bits len all pos le =
    let fits : (ltb bn_bit_len bits || bits == 0) ≡ false = ground arith in
    let fits' : ltb bn_max_digits ((bits + 63) / 64) ≡ false = ground arith in
    (
      rw (fits, fits') refl,
      ((omega arith, omega (arith, len), all), inl refl),
      omega arith,
      omega arith,
    )

pub bn_init_refused :
    (bn : Bn) (bits : ℕ) → (bits ≡ 0) ⊎ (bn_bit_len < bits) → bn_init bn bits ≡ (einval, bn)
unfolding bn_init
bn_init_refused bn bits wrong =
    let no_fit : (ltb bn_bit_len bits || bits == 0) ≡ true = elim wrong [
      | inl z ↦ ground arith
      | inr much ↦ ground arith
    ] in
    rw (no_fit) refl

-- A copy of the digits that count.
pub bn_assign-IsNormal :
    (dst src : Bn)
    → IsNormal dst
    → IsNormal src
    → IsNormal ((bn_assign dst src).1)
      × ((bn_assign dst src).1.count ≡ dst.count)
      × ((((bn_assign dst src).0 ≡ ok) × (bn_value ((bn_assign dst src).1) ≡ bn_value src))
          ⊎ (((bn_assign dst src).0 ≡ eoverflow) × (dst.count < src.digits)))
unfolding bn_assign
bn_assign-IsNormal dst src ((dd, dc, da), dt) ((sd, sc, sa), st) =
    elim (Bool-cases (ltb dst.count src.digits)) [
      | inl short ↦ rw (short) (((dd, dc, da), dt), refl, inr (refl, ground arith))
      | inr fits ↦
          let head = take src.digits src.num in
          let rest = drop src.digits dst.num in
          let len = length-take_le src.digits src.num (omega arith) in
          let cut : take src.digits (head ++ rest) ≡ head = take-append src.digits head rest len in
          let whole : length (head ++ rest) ≡ length dst.num = omega (
            arith,
            length-append head rest,
            len,
            length-drop src.digits dst.num,
            ltb→le dst.count src.digits fits,
          ) in
          rw (fits) (
            (
              (
                ltb→le dst.count src.digits fits,
                omega (arith, whole),
                All-append IsDigit head rest (take-IsDigit src.digits src.num sa)
                    (drop-IsDigit src.digits dst.num da),
              ),
              HasTop-take src.num (head ++ rest) src.digits (sym cut) st,
            ),
            refl,
            inl (refl, ap value cut),
          )
    ]

-- A digit that is not 0.
pub bn_assign_digit-IsNormal :
    (bn : Bn) (digit : ℕ)
    → IsNormal bn
    → 0 < bn.count
    → digit ≢ 0
    → digit < 2 ^ 64
    → ((bn_assign_digit bn digit).0 ≡ ok)
      × IsNormal ((bn_assign_digit bn digit).1)
      × ((bn_assign_digit bn digit).1.count ≡ bn.count)
      × (bn_value ((bn_assign_digit bn digit).1) ≡ digit)
unfolding bn_assign_digit
bn_assign_digit-IsNormal bn digit ((hd, hc, all), top) pos nz lt =
    let some_digits : (bn.count == 0) ≡ false = ground arith in
    let (stored, high, val, len) = first_digit bn.num digit (omega arith) all nz lt in
    rw (some_digits) (refl, ((pos, omega (arith, len), stored), inr high), refl, val)
  where
    first_digit :
        (num : List ℕ) (digit : ℕ)
        → 0 < length num
        → All IsDigit num
        → digit ≢ 0
        → digit < 2 ^ 64
        → All IsDigit (set num 0 digit)
          × (get_or (set num 0 digit) 0 0 ≢ 0)
          × (value (take 1 (set num 0 digit)) ≡ digit)
          × (length (set num 0 digit) ≡ length num)
    first_digit [] digit pos all nz lt = elim pos [ ]
    first_digit (d ∷ ds) digit pos (h, all) nz lt = ((lt, all), nz, omega arith, refl)
