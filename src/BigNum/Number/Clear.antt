-- ===== src/BigNum/Number/Clear.antt =====
-- Clearing the digits above the number, bn_init_digits__int of include/math/big_num.h.
use liblcb.Base.{
  ℕ, zero, suc, ◌+◌, ◌-◌, ◌≤◌, ◌≡◌, inl, inr, refl, sym, ap, ◌∙◌, subst, arith, min, List, ◌++◌,
  All, All-append, leb, Bool-cases, length, take, drop, replicate, length-append, length-take_le,
  length-replicate, length-drop, take-append, take-append_le, take-take_le,
}
use liblcb.BigNum.Value.{take-IsDigit, drop-IsDigit, IsDigit, value, value-append}
use liblcb.BigNum.Number.{Bn, clear, bn_init_digits__int}
use liblcb.BigNum.Number.Store.{bn_value, IsStored, IsNormal, HasTop, HasTop-take}

value-zeros : (n : ℕ) → value (replicate n 0) ≡ 0
value-zeros zero = refl
value-zeros (suc n) = omega (arith, value-zeros n)

pub zeros-IsDigit : (n : ℕ) → All IsDigit (replicate n 0)
zeros-IsDigit zero = tt
zeros-IsDigit (suc n) = (omega arith, zeros-IsDigit n)

clear-value :
    (num : List ℕ) (i n : ℕ)
    → i + n ≤ length num
    → All IsDigit num
    → (value (take (i + n) (clear num i n)) ≡ value (take i num))
      × (length (clear num i n) ≡ length num)
      × All IsDigit (clear num i n)
unfolding clear
clear-value num i n le all =
    let head = take i num ++ replicate n 0 in
    let len : length head ≡ i + n =
      length-append (take i num) (replicate n 0)
      ∙ omega (arith, length-take_le i num (omega arith), length-replicate {A = ℕ} n 0) in
    let zeros : value head ≡ value (take i num) =
      value-append (take i num) (replicate n 0) ∙ rw (value-zeros n) (omega arith) in
    (
      ap value (take-append (i + n) head (drop (i + n) num) len) ∙ zeros,
      length-append head (drop (i + n) num) ∙ omega (arith, len, length-drop (i + n) num),
      All-append IsDigit head (drop (i + n) num)
          (All-append IsDigit (take i num) (replicate n 0) (take-IsDigit i num all)
            (zeros-IsDigit n))
          (drop-IsDigit (i + n) num all),
    )

-- Clearing keeps the number, and makes it that of as many digits as are wanted.
pub bn_init_digits__int-IsStored :
    (bn : Bn) (wanted : ℕ)
    → IsStored bn
    → bn.digits ≤ wanted
    → IsStored (bn_init_digits__int bn wanted)
      × (value (take (min wanted bn.count) (bn_init_digits__int bn wanted).num) ≡ bn_value bn)
      × ((bn_init_digits__int bn wanted).count ≡ bn.count)
      × ((bn_init_digits__int bn wanted).digits ≡ bn.digits)
unfolding bn_init_digits__int
bn_init_digits__int-IsStored bn wanted (hd, hc, all) le = elim (Bool-cases (leb wanted bn.digits)) [
  | inl same ↦
      let there : min wanted bn.count ≡ bn.digits = ground arith in
      rw (same, there) ((hd, hc, all), refl, refl, refl)
  | inr more ↦
      let n : ℕ = min wanted bn.count - bn.digits in
      let reach : bn.digits + n ≡ min wanted bn.count = ground arith in
      let (val, len, digits) = clear-value bn.num bn.digits n (omega arith) all in
      let known = rw (reach) at val in
      rw (more) ((hd, omega (arith, len), digits), known, refl, refl)
]

-- The array that the loops get, with the digits above the number cleared.
pub init_array :
    (bn : Bn) (wanted : ℕ)
    → IsStored bn
    → bn.digits ≤ wanted
    → (length (take (bn_init_digits__int bn wanted).count (bn_init_digits__int bn wanted).num)
        ≡ bn.count)
      × All IsDigit (take (bn_init_digits__int bn wanted).count (bn_init_digits__int bn wanted).num)
      × (value (
            take
              (min wanted bn.count)
              (take (bn_init_digits__int bn wanted).count (bn_init_digits__int bn wanted).num))
          ≡ bn_value bn)
init_array bn wanted stored le =
    let bn1 = bn_init_digits__int bn wanted in
    let ((hd, hc, all), low, count, digits) = bn_init_digits__int-IsStored bn wanted stored le in
    (
      length-take_le bn1.count bn1.num hc ∙ count,
      take-IsDigit bn1.count bn1.num all,
      ap value (take-take_le (min wanted bn.count) bn1.count bn1.num (omega (arith, count))) ∙ low,
    )

take-clear : (num : List ℕ) (i n : ℕ) → i ≤ length num → take i (clear num i n) ≡ take i num
unfolding clear
take-clear num i n le =
    let len = length-take_le i num le in
    take-append_le i (take i num ++ replicate n 0) (drop (i + n) num)
      (omega (arith, length-append (take i num) (replicate n 0), len))
    ∙ take-append i (take i num) (replicate n 0) len

kept_digits :
    (bn : Bn) (wanted : ℕ)
    → IsStored bn
    → take bn.digits (bn_init_digits__int bn wanted).num ≡ take bn.digits bn.num
unfolding bn_init_digits__int
kept_digits bn wanted (hd, hc, all) = elim (Bool-cases (leb wanted bn.digits)) [
  | inl same ↦ rw (same) refl
  | inr more ↦
      rw (more) (take-clear bn.num bn.digits (min wanted bn.count - bn.digits) (omega arith))
]

-- Clearing alone changes nothing that counts.
pub init_kept :
    (bn : Bn) (wanted : ℕ)
    → IsNormal bn
    → bn.digits ≤ wanted
    → IsNormal (bn_init_digits__int bn wanted)
      × (bn_value (bn_init_digits__int bn wanted) ≡ bn_value bn)
      × ((bn_init_digits__int bn wanted).count ≡ bn.count)
init_kept bn wanted (stored, top) le =
    let (stored', low, count, digits) = bn_init_digits__int-IsStored bn wanted stored le in
    let same = kept_digits bn wanted stored in
    (
      (
        stored',
        subst (HasTop (bn_init_digits__int bn wanted).num) (sym digits)
            (HasTop-take bn.num (bn_init_digits__int bn wanted).num bn.digits (sym same) top),
      ),
      ap value (
          subst (λ d. take d (bn_init_digits__int bn wanted).num ≡ take bn.digits bn.num)
            (sym digits) same),
      count,
    )
