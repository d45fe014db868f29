-- ===== src/BigNum/Number/Store.antt =====
-- The digits that count in a bn_t of include/math/big_num.h, and counting them again.
use liblcb.Base.{
  true, ℕ, zero, suc, ◌+◌, ◌-◌, ◌*◌, ◌≤◌, ◌<◌, ◌≡◌, ◌≢◌, ◌⊎◌, inl, inr, refl, sym, ap, ◌∙◌, arith,
  min, List, [], ◌∷◌, All, All-append, false, not, ◌&&◌, ltb, leb, ◌==◌, Bool-cases, length, get_or,
  take, drop, length-append, length-drop, take-append_le, get_or-take,
}
use liblcb.BigNum.Value.{take_bound, capacity_le, drop-IsDigit, IsDigit, value, capacity}
use liblcb.BigNum.Digits.{bn_digits_calc_digits}
use liblcb.BigNum.Number.{Bn, bn_calc_digits, bn_update_digits__int, with_digits}

abbrev pub bn_value : Bn → ℕ
bn_value bn = value (take bn.digits bn.num)

-- The array holds the digits, and there are no more digits than the object may have.
abbrev pub IsStored : Bn → Type 0
IsStored bn = (bn.digits ≤ bn.count) × (bn.count ≤ length bn.num) × All IsDigit bn.num

-- The highest of the first `n` digits is not 0.
abbrev pub HasTop : List ℕ → ℕ → Type 0
HasTop num n = (n ≡ 0) ⊎ (get_or num (n - 1) 0 ≢ 0)

abbrev pub IsNormal : Bn → Type 0
IsNormal bn = IsStored bn × HasTop bn.num bn.digits

pub take-suc-value :
    (i : ℕ) (a : List ℕ)
    → i < length a
    → value (take (suc i) a) ≡ value (take i a) + capacity i * get_or a i 0
take-suc-value i [] lt = elim lt [ ]
take-suc-value zero (d ∷ ds) lt = omega arith
take-suc-value (suc i) (d ∷ ds) lt = grind (arith, take-suc-value i ds (omega arith))

calc-value :
    (a : List ℕ) (n : ℕ)
    → n ≤ length a
    → (bn_digits_calc_digits a n ≤ n)
      × (value (take (bn_digits_calc_digits a n) a) ≡ value (take n a))
      × HasTop a (bn_digits_calc_digits a n)
unfolding bn_digits_calc_digits
calc-value a zero le = (omega arith, refl, inl refl)
calc-value a (suc i) le = elim (Bool-cases (get_or a i 0 == 0)) [
  | inl z ↦
      let (small, same, top) = calc-value a i (omega arith) in
      let clear : get_or a i 0 ≡ 0 = ground arith in
      let wider : value (take (suc i) a) ≡ value (take i a) =
        take-suc-value i a (omega arith) ∙ rw (clear) (omega arith) in
      rw (z) (omega (arith, small), same ∙ sym wider, top)
  | inr nz ↦
      let last : suc i - 1 ≡ i = omega arith in
      rw (nz) (omega arith, refl, inr (rw (last) (λ e. ground arith)))
]

-- The digits up to `wanted`, or as many as there may be.
update-cases :
    (bn : Bn) (wanted : ℕ)
    → bn.digits ≤ wanted
    → (bn_update_digits__int bn wanted ≡ bn_calc_digits bn (min wanted bn.count))
      ⊎ ((bn_update_digits__int bn wanted ≡ record bn { digits = wanted })
          × (wanted < bn.count)
          × (get_or bn.num (wanted - 1) 0 ≢ 0))
unfolding bn_update_digits__int
update-cases bn wanted le = elim (Bool-cases (leb bn.count wanted)) [
  | inl over ↦
      let room : min wanted bn.count ≡ bn.count = ground arith in rw (over, room) (inl refl)
  | inr under ↦
      let room : min wanted bn.count ≡ wanted = ground arith in
      let grows : ltb wanted bn.digits ≡ false = ground arith in
      elim (Bool-cases (ltb bn.digits wanted && not (get_or bn.num (wanted - 1) 0 == 0))) [
        | inl top ↦ rw (under, grows, top) (inr (refl, ground arith, λ e. ground arith))
        | inr low ↦ rw (under, grows, low, room) (inl refl)
      ]
]

pub bn_update_digits__int-IsNormal :
    (bn : Bn) (wanted : ℕ)
    → IsStored bn
    → bn.digits ≤ wanted
    → IsNormal (bn_update_digits__int bn wanted)
      × (bn_value (bn_update_digits__int bn wanted) ≡ value (take (min wanted bn.count) bn.num))
      × ((bn_update_digits__int bn wanted).count ≡ bn.count)
unfolding bn_calc_digits
bn_update_digits__int-IsNormal bn wanted (hd, hc, all) le = elim (update-cases bn wanted le) [
  | inl e ↦
      let (small, same, top) = calc-value bn.num (min wanted bn.count) (omega arith) in
      rw (e) (((omega (arith, small), hc, all), top), same, refl)
  | inr (e, lt, top) ↦
      let room : min wanted bn.count ≡ wanted = omega arith in
      rw (e, room) (((omega arith, hc, all), inr top), refl, refl)
]

-- Where fewer digits are counted again than the object had, its own are.
pub update_fewer-IsNormal :
    (bn : Bn) (wanted : ℕ)
    → IsStored bn
    → wanted < bn.digits
    → IsNormal (bn_update_digits__int bn wanted)
      × (bn_value (bn_update_digits__int bn wanted) ≡ bn_value bn)
      × ((bn_update_digits__int bn wanted).count ≡ bn.count)
unfolding bn_update_digits__int bn_calc_digits
update_fewer-IsNormal bn wanted (hd, hc, all) lt =
    let (small, same, top) = calc-value bn.num bn.digits (omega arith) in
    let under : leb bn.count wanted ≡ false = ground arith in
    let fewer : ltb wanted bn.digits ≡ true = ground arith in
    rw (under, fewer) (((omega (arith, small), hc, all), top), same, refl)

pub HasTop-take : (a b : List ℕ) (n : ℕ) → take n a ≡ take n b → HasTop a n → HasTop b n
HasTop-take a b n e (inl z) = inl z
HasTop-take a b zero e (inr top) = inl refl
HasTop-take a b (suc n) e (inr top) =
    let last : suc n - 1 ≡ n = omega arith in
    let there = rw (last) at top in
    inr (
      rw (last) (λ z. there (
        sym (get_or-take n (suc n) a 0 (omega arith))
        ∙ ap (λ x. get_or x n 0) e
        ∙ get_or-take n (suc n) b 0 (omega arith)
        ∙ z)))

pub with_digits-IsStored :
    (bn : Bn) (a : List ℕ)
    → IsStored bn
    → length a ≤ bn.count
    → All IsDigit a
    → IsStored (with_digits bn a)
unfolding with_digits
with_digits-IsStored bn a (hd, hc, all) len digits = (
  hd,
  omega (arith, length-append a (drop (length a) bn.num), length-drop (length a) bn.num),
  All-append IsDigit a (drop (length a) bn.num) digits (drop-IsDigit (length a) bn.num all),
)

-- The first digits are replaced, as many as are wanted.
pub with_digits-IsNormal :
    (bn : Bn) (a : List ℕ) (wanted count : ℕ)
    → IsStored bn
    → bn.digits ≤ wanted
    → bn.count ≡ count
    → min wanted count ≤ length a
    → length a ≤ count
    → All IsDigit a
    → IsNormal (bn_update_digits__int (with_digits bn a) wanted)
      × (bn_value (bn_update_digits__int (with_digits bn a) wanted)
          ≡ value (take (min wanted count) a))
      × ((bn_update_digits__int (with_digits bn a) wanted).count ≡ count)
unfolding with_digits
with_digits-IsNormal bn a wanted count stored le e reach len digits =
    let (normal, val, count') =
      bn_update_digits__int-IsNormal (with_digits bn a) wanted
        (with_digits-IsStored bn a stored (omega (arith, e, len)) digits) le in
    let cut = take-append_le (min wanted bn.count) a (drop (length a) bn.num) (omega arith) in
    (normal, val ∙ ap value cut ∙ ap (λ k. value (take (min wanted k) a)) e, count' ∙ e)

-- A number by its highest digit.
pub top_value :
    (a : List ℕ) (d : ℕ)
    → 0 < d
    → d ≤ length a
    → value (take d a) ≡ value (take (d - 1) a) + capacity (d - 1) * get_or a (d - 1) 0
top_value a zero pos le = elim pos [ ]
top_value a (suc d) pos le =
    let last : suc d - 1 ≡ d = omega arith in rw (last) (take-suc-value d a le)

-- Fewer digits make a lower number.
pub fewer_digits :
    (bn n : Bn) → IsNormal bn → IsStored n → n.digits < bn.digits → bn_value n < bn_value bn
fewer_digits bn n ((hd, hc, ha), top) (nd, nc, hn) lt =
    let bound = take_bound n.digits n.num (omega arith) hn in
    let le = capacity_le n.digits (bn.digits - 1) (omega arith) in
    let whole = top_value bn.num bn.digits (omega arith) (omega arith) in
    elim top [ inl z ↦ absurd (omega arith) | inr t ↦ grind arith ]
