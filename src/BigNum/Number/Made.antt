-- ===== src/BigNum/Number/Made.antt =====
-- The objects of include/math/big_num.h that a program can make: bn_init, then any calls of the
-- assignments and the arithmetic, on objects that are made the same way.
use liblcb.Base.{
  ℕ, ◌+◌, ◌^◌, ◌≤◌, ◌<◌, ◌≡◌, ◌≢◌, inl, inr, refl, sym, ap, ◌∙◌, subst, arith, All, Option, some,
  none, Bool-cases, length, Errno, ok, is_ok, true, false, ltb, ◌==◌, ◌||◌, List, [], ◌∷◌, get_or,
  set,
}
use liblcb.BigNum.Value.{IsDigit, capacity, capacity_le, take_bound}
use liblcb.BigNum.Number.{
  Bn, bn_init, bn_assign, bn_assign_zero, bn_assign_digit, bn_add_digit, bn_sub_digit, bn_add,
  bn_sub, bn_mult, bn_max_digits, bn_bit_len, operand, sub_extent, top_digit,
}
use liblcb.BigNum.Number.Store.{bn_value, IsStored, IsNormal}
use liblcb.BigNum.Number.Assign.{
  bn_init-IsNormal, bn_init_refused, bn_assign-IsNormal, bn_assign_digit-IsNormal,
}
use liblcb.BigNum.Number.Add.{bn_add-Sum}
use liblcb.BigNum.Number.Sub.{bn_sub-Difference}
use liblcb.BigNum.Number.Mult.{bn_mult-Product}
use liblcb.BigNum.Number.Digit.{bn_add_digit-sum, bn_sub_digit-difference}

-- One constructor for each operation that changes an object, whatever it returns. bn_assign_digit
-- stands here for the digits other than 0 only: 0 it stores as one digit, which makes an object that
-- is not well-formed.
pub data Made : Bn → Type 0 where
  by_init :
      (bn bn' : Bn) (bits : ℕ)
      → length bn.num ≡ bn_max_digits
      → All IsDigit bn.num
      → bn_init bn bits ≡ (ok, bn')
      → Made bn'
  by_assign : (dst src : Bn) → Made dst → Made src → Made ((bn_assign dst src).1)
  by_assign_zero : (bn : Bn) → Made bn → Made (bn_assign_zero bn)
  by_assign_digit :
      (bn : Bn) (digit : ℕ)
      → Made bn
      → digit ≢ 0
      → digit < 2 ^ 64
      → Made ((bn_assign_digit bn digit).1)
  by_add_digit : (bn : Bn) (x : ℕ) → Made bn → x < 2 ^ 64 → Made ((bn_add_digit bn x).0)
  by_sub_digit : (bn : Bn) (x : ℕ) → Made bn → x < 2 ^ 64 → Made ((bn_sub_digit bn x).0)
  by_add :
      (bn n bn' : Bn) (error : Errno) (carry : ℕ)
      → Made bn
      → Made n
      → bn_add bn n ≡ some (error, (bn', carry))
      → Made bn'
  by_sub :
      (bn bn' : Bn) (n : Option Bn) (error : Errno) (before borrow : ℕ)
      → Made bn
      → Made (operand bn n)
      → bn_sub bn n before ≡ some (error, (bn', borrow))
      → Made bn'
  by_mult :
      (bn bn' : Bn) (n : Option Bn) (error : Errno)
      → Made bn
      → Made (operand bn n)
      → bn_mult bn n ≡ some (error, bn')
      → Made bn'

abbrev pub IsSound : Bn → Type 0
IsSound bn = IsNormal bn × (0 < bn.count) × (bn.count ≤ bn_max_digits)

-- Two results of one call are the same.
result :
    {A : Type 0} {o : Option A} {x y : A} (P : A → Type 0) → o ≡ some x → o ≡ some y → P x → P y
result {x} P e e' p = subst P (ap (λ o. elim o [ none ↦ x | some z ↦ z ]) (sym e ∙ e')) p

keeps : (bn bn' : Bn) → IsSound bn → IsNormal bn' → bn'.count ≡ bn.count → IsSound bn'
keeps bn bn' (normal, pos, le) normal' count = (normal', omega (arith, count), omega (arith, count))

init-IsSound :
    (bn bn' : Bn) (bits : ℕ)
    → length bn.num ≡ bn_max_digits
    → All IsDigit bn.num
    → bn_init bn bits ≡ (ok, bn')
    → IsSound bn'
init-IsSound bn bn' bits len all e = elim (Bool-cases (ltb bn_bit_len bits || bits == 0)) [
  | inl wrong ↦
      let refused = bn_init_refused bn bits (elim (Bool-cases (bits == 0)) [
        | inl z ↦ inl (ground arith)
        | inr nz ↦ inr (ground arith)
      ]) in
      let same : false ≡ true = ap (λ (r : Errno × Bn). is_ok r.0) (sym refused ∙ e) in
      absurd (ground arith)
  | inr fits ↦
      let (done, normal, pos, le) =
        bn_init-IsNormal bn bits len all (ground arith) (ground arith) in
      subst IsSound (ap (λ (r : Errno × Bn). r.1) (sym done ∙ e)) (normal, pos, le)
]

add_digit-IsSound : (bn : Bn) (x : ℕ) → IsSound bn → x < 2 ^ 64 → IsSound ((bn_add_digit bn x).0)
unfolding bn_add_digit
add_digit-IsSound bn x sound lt = elim (Bool-cases (x == 0)) [
  | inl z ↦ rw (z) sound
  | inr nz ↦
      let (normal, pos, le) = sound in
      let (bn', carry, e, normal', count, sum) =
        bn_add_digit-sum bn x normal pos (ground arith) lt in
      subst (λ (r : Bn × Option ℕ). IsSound r.0) (sym e) (keeps bn bn' sound normal' count)
]

sub_digit-IsSound : (bn : Bn) (x : ℕ) → IsSound bn → x < 2 ^ 64 → IsSound ((bn_sub_digit bn x).0)
unfolding bn_sub_digit
sub_digit-IsSound bn x sound lt = elim (Bool-cases (x == 0)) [
  | inl z ↦ rw (z) sound
  | inr nz ↦
      let (normal, pos, le) = sound in
      let (bn', borrow, e, normal', count, sum) =
        bn_sub_digit-difference bn x normal pos (ground arith) lt in
      subst (λ (r : Bn × Option ℕ). IsSound r.0) (sym e) (keeps bn bn' sound normal' count)
]

zero-IsSound :
    (bn : Bn) → IsStored bn → 0 < bn.count → bn.count ≤ bn_max_digits → IsSound (bn_assign_zero bn)
unfolding bn_assign_zero
zero-IsSound bn (hd, hc, all) pos le = (((omega arith, hc, all), inl refl), pos, le)

-- Behind the early assignment of 0, the same object as the operand is read in front of the array.
pub bn_sub-none : (bn : Bn) (before : ℕ) → bn_sub bn none before ≡ none
unfolding bn_sub sub_extent top_digit bn_assign_zero
bn_sub-none bn before = refl

both_zero :
    (bn n : Bn) (before : ℕ) → bn.digits ≡ 0 → n.digits ≡ 0 → bn_sub bn (some n) before ≡ none
unfolding bn_sub sub_extent top_digit
both_zero bn n before e e' = rw (e, e') refl

no_result : {A : Type 0} {o : Option A} {x : A} → o ≡ none → o ≡ some x → false ≡ true
no_result e e' = ap (λ o. elim o [ none ↦ false | some y ↦ true ]) (sym e ∙ e')

sub-IsSound :
    (bn bn' : Bn) (n : Option Bn) (error : Errno) (before borrow : ℕ)
    → IsSound bn
    → IsSound (operand bn n)
    → bn_sub bn n before ≡ some (error, (bn', borrow))
    → IsSound bn'
sub-IsSound bn bn' none error before borrow sound sound' e =
    let never = no_result (bn_sub-none bn before) e in absurd (ground arith)
sub-IsSound bn bn' (some n) error before borrow sound sound' e =
    elim (Bool-cases (bn.digits + n.digits == 0)) [
      | inl z ↦
          let never = no_result (both_zero bn n before (ground arith) (ground arith)) e in
          absurd (ground arith)
      | inr nz ↦
          let (normal, pos, le) = sound in
          let (r, e', facts) = bn_sub-Difference bn n before normal sound'.0 (ground arith) in
          let (normal', count, how) = facts in
          result (λ (r : Errno × (Bn × ℕ)). IsSound (r.1.0)) e' e
            (keeps bn r.1.0 sound normal' count)
    ]

value_below : (bn : Bn) → IsSound bn → bn_value bn < capacity bn.count
value_below bn (((hd, hc, all), top), pos, le) =
    omega (arith, take_bound bn.digits bn.num (omega arith) all, capacity_le bn.digits bn.count hd)

derived-IsSound : {bn : Bn} → Made bn → IsSound bn
derived-IsSound (by_init bn bn' bits len all e) = init-IsSound bn bn' bits len all e
derived-IsSound (by_assign dst src made made') =
    let sound = derived-IsSound made in
    let (normal, count, how) = bn_assign-IsNormal dst src sound.0 (derived-IsSound made').0 in
    keeps dst (bn_assign dst src).1 sound normal count
derived-IsSound (by_assign_zero bn made) =
    let ((stored, top), pos, le) = derived-IsSound made in zero-IsSound bn stored pos le
derived-IsSound (by_assign_digit bn digit made nz lt) =
    let sound = derived-IsSound made in
    let (done, normal, count, val) = bn_assign_digit-IsNormal bn digit sound.0 sound.1 nz lt in
    keeps bn (bn_assign_digit bn digit).1 sound normal count
derived-IsSound (by_add_digit bn x made lt) = add_digit-IsSound bn x (derived-IsSound made) lt
derived-IsSound (by_sub_digit bn x made lt) = sub_digit-IsSound bn x (derived-IsSound made) lt
derived-IsSound (by_add bn n bn' error carry made made' e) =
    let sound = derived-IsSound made in
    let (r, e', facts) = bn_add-Sum bn n sound.0 (derived-IsSound made').0 in
    let (normal, count, how) = facts in
    result (λ (r : Errno × (Bn × ℕ)). IsSound (r.1.0)) e' e (keeps bn r.1.0 sound normal count)
derived-IsSound (by_sub bn bn' n error before borrow made made' e) =
    sub-IsSound bn bn' n error before borrow (derived-IsSound made) (derived-IsSound made') e
derived-IsSound (by_mult bn bn' n error made made' e) =
    let sound = derived-IsSound made in
    let (r, e', facts) = bn_mult-Product bn n sound.0 (derived-IsSound made').0 in
    let (normal, count, how) = facts in
    result (λ (r : Errno × Bn). IsSound (r.1)) e' e (keeps bn r.1 sound normal count)

-- What is left out: the digit 0 is stored as one digit, which a well-formed object has not.
assigned_zero : (bn : Bn) → IsSound bn → ¬ IsNormal ((bn_assign_digit bn 0).1)
unfolding bn_assign_digit
assigned_zero bn (normal, pos, le) after =
    let some_digits : (bn.count == 0) ≡ false = ground arith in
    let (stored, top) : IsNormal (record bn { digits = 1; num = set bn.num 0 0 }) =
      rw some_digits at after in
    elim top [ inl e ↦ absurd (omega (arith, e)) | inr high ↦ high (low_zero bn.num) ]
  where
    low_zero : (num : List ℕ) → get_or (set num 0 0) 0 0 ≡ 0
    low_zero [] = refl
    low_zero (d ∷ ds) = refl

-- Every object that is made by bn_init, the assignments, and the additions, subtractions and
-- multiplications, in any order and with any operands so made, but without assigning the digit 0 by
-- bn_assign_digit, is well-formed: `digits` is the significant length of its number and no more than `count`, which is
-- between 1 and the length of the array, and its number is below `2 ^ (64 * count)`.
pub Made-IsSound : (bn : Bn) → Made bn → IsSound bn × (bn_value bn < capacity bn.count)
Made-IsSound bn made = let sound = derived-IsSound made in (sound, value_below bn sound)
