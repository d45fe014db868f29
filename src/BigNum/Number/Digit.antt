-- ===== src/BigNum/Number/Digit.antt =====
-- bn_add_digit and bn_sub_digit of include/math/big_num.h.
use liblcb.Base.{
  ℕ, zero, suc, ◌+◌, ◌-◌, ◌*◌, ◌^◌, ◌≤◌, ◌<◌, ◌≡◌, ◌≢◌, ◌⊎◌, inl, inr, refl, ap, ◌∙◌, arith, List,
  [], ◌∷◌, All, some, false, ltb, ◌==◌, ◌&&◌, Bool-cases, length, take, get_or,
}
use liblcb.BigNum.Value.{IsDigit, value, capacity, capacity_le, capacity_positive, take_bound}
use liblcb.BigNum.Digits.{bn_digits_add_digit, bn_digits_sub_digit}
use liblcb.BigNum.Add.{Carries, bn_digits_add_digit-Carries}
use liblcb.BigNum.Sub.{Borrows, bn_digits_sub_digit-Borrows}
use liblcb.BigNum.Number.{
  Bn, bn_init_digits__int, bn_update_digits__int, with_digits, bn_add_digit, bn_sub_digit,
  sub_digit_extent,
}
use liblcb.BigNum.Number.Clear.{bn_init_digits__int-IsStored, init_array}
use liblcb.BigNum.Number.Store.{bn_value, IsStored, IsNormal, with_digits-IsNormal, top_value}
use liblcb.BigNum.Number.Add.{added}
use liblcb.BigNum.Number.Sub.{subtracted}

-- A digit has room in one digit more.
digit_room :
    (bn : Bn) (x : ℕ) → IsStored bn → x < 2 ^ 64 → bn_value bn + x < capacity (suc bn.digits)
digit_room bn x (hd, hc, ha) lt =
    room_for bn.digits (bn_value bn) (take_bound bn.digits bn.num (omega arith) ha)
  where
    room_for : (d v : ℕ) → v < capacity d → v + x < capacity (suc d)
    room_for zero v h = omega arith
    room_for (suc d) v h = omega (arith, capacity_positive d)

add_any-Carries :
    (a : List ℕ) (x : ℕ)
    → 0 < length a
    → All IsDigit a
    → x < 2 ^ 64
    → Carries a (value a + x) (bn_digits_add_digit a x)
add_any-Carries [] x pos all lt = elim pos [ ]
add_any-Carries (d ∷ ds) x pos all lt = bn_digits_add_digit-Carries d ds x all lt

sub_any-Borrows :
    (a : List ℕ) (x : ℕ)
    → 0 < length a
    → All IsDigit a
    → x < 2 ^ 64
    → Borrows a x (bn_digits_sub_digit a x)
sub_any-Borrows [] x pos all lt = elim pos [ ]
sub_any-Borrows (d ∷ ds) x pos all lt = bn_digits_sub_digit-Borrows d ds x all lt

-- For a well-formed object that may have digits and a digit that is not 0, `bn_add_digit` keeps the
-- object well-formed and adds the digit; what does not fit is the carry.
pub bn_add_digit-sum :
    (bn : Bn) (x : ℕ)
    → IsNormal bn
    → 0 < bn.count
    → x ≢ 0
    → x < 2 ^ 64
    → (bn' : Bn) × (carry : ℕ) × (bn_add_digit bn x ≡ (bn', some carry))
      × IsNormal bn'
      × (bn'.count ≡ bn.count)
      × (bn_value bn' + capacity bn.count * carry ≡ bn_value bn + x)
unfolding bn_add_digit
bn_add_digit-sum bn x (sb, tb) pos nz lt =
    let d = suc bn.digits in
    let bn1 = bn_init_digits__int bn d in
    let a = take bn1.count bn1.num in
    let r = bn_digits_add_digit a x in
    let (sb1, _, count, digits) = bn_init_digits__int-IsStored bn d sb (omega arith) in
    let (len, all, low) = init_array bn d sb (omega arith) in
    let carries = add_any-Carries a x (omega (arith, len)) all lt in
    let (sum, len', all', small) = carries in
    let whole = added bn x d a r (digit_room bn x sb lt) len all low carries in
    let (kept, val, count') =
      with_digits-IsNormal bn1 r.0 d bn.count sb1 (omega (arith, digits)) count
        (omega (arith, len, len')) (omega (arith, len, len')) all' in
    let some_digit : (x == 0) ≡ false = ground arith in
    (
      bn_update_digits__int (with_digits bn1 r.0) d,
      r.1,
      rw (some_digit) refl,
      kept,
      count',
      ap (λ v. v + capacity bn.count * r.1) val ∙ whole,
    )

at_least :
    (bn : Bn) (x : ℕ)
    → IsNormal bn
    → x < 2 ^ 64
    → 0 < bn.digits
    → (bn.digits == 1 && ltb (get_or bn.num 0 0) x) ≡ false
    → x ≤ bn_value bn
at_least bn x ((hd, hc, ha), top) lt pos small = elim (Bool-cases (bn.digits == 1)) [
  | inl one ↦
      let single : bn.digits ≡ 1 = ground arith in
      let small' = rw (one) at small in
      let whole = top_value bn.num 1 (omega arith) (omega arith) in
      let known : bn_value bn ≡ get_or bn.num 0 0 =
        ap (λ d. value (take d bn.num)) single ∙ whole ∙ omega arith in
      ground (arith, known)
  | inr more ↦
      let whole = top_value bn.num bn.digits pos (omega arith) in
      let le = capacity_le 1 (bn.digits - 1) (ground arith) in
      elim top [ inl z ↦ absurd (omega arith) | inr t ↦ grind arith ]
]

sub_extent-cases :
    (bn : Bn) (x : ℕ)
    → IsNormal bn
    → x < 2 ^ 64
    → (sub_digit_extent bn x ≡ bn.count) ⊎ ((sub_digit_extent bn x ≡ bn.digits) × (x ≤ bn_value bn))
unfolding sub_digit_extent
sub_extent-cases bn x normal lt = elim (Bool-cases (bn.digits == 0)) [
  | inl z ↦ rw (z) (inl refl)
  | inr some_digits ↦ elim (Bool-cases (bn.digits == 1 && ltb (get_or bn.num 0 0) x)) [
    | inl less ↦ rw (some_digits, less) (inl refl)
    | inr large ↦ rw (some_digits, large) (inr (refl, at_least bn x normal lt (ground arith) large))
  ]
]

-- For a well-formed object that may have digits and a digit that is not 0, `bn_sub_digit` keeps the
-- object well-formed and takes the digit off; where it is greater, `2 ^ (64 * count)` is borrowed.
pub bn_sub_digit-difference :
    (bn : Bn) (x : ℕ)
    → IsNormal bn
    → 0 < bn.count
    → x ≢ 0
    → x < 2 ^ 64
    → (bn' : Bn) × (borrow : ℕ) × (bn_sub_digit bn x ≡ (bn', some borrow))
      × IsNormal bn'
      × (bn'.count ≡ bn.count)
      × (bn_value bn' + x ≡ bn_value bn + capacity bn.count * borrow)
unfolding bn_sub_digit
bn_sub_digit-difference bn x (sb, tb) pos nz lt =
    let (hd, hc, ha) = sb in
    let d = sub_digit_extent bn x in
    let how = sub_extent-cases bn x (sb, tb) lt in
    let enough : bn.digits ≤ d = elim how [
      | inl e ↦ omega (arith, e)
      | inr (e, le) ↦ omega (arith, e)
    ] in
    let bn1 = bn_init_digits__int bn d in
    let a = take bn1.count bn1.num in
    let r = bn_digits_sub_digit a x in
    let (sb1, _, count, digits) = bn_init_digits__int-IsStored bn d sb enough in
    let (len, all, low) = init_array bn d sb enough in
    let borrows = sub_any-Borrows a x (omega (arith, len)) all lt in
    let (sum, len', all', small) = borrows in
    let whole = subtracted bn x a r d sb len all low borrows how in
    let (kept, val, count') =
      with_digits-IsNormal bn1 r.0 d bn.count sb1 (omega (arith, digits, enough)) count
        (omega (arith, len, len')) (omega (arith, len, len')) all' in
    let some_digit : (x == 0) ≡ false = ground arith in
    (
      bn_update_digits__int (with_digits bn1 r.0) d,
      r.1,
      rw (some_digit) refl,
      kept,
      count',
      ap (λ v. v + x) val ∙ whole,
    )
