-- ===== src/BigNum/Value.antt =====
-- What an array of 64-bit digits stands for: the number in base 2 ^ 64, lowest digit first.
use liblcb.Base.{
  ℕ, zero, suc, ◌+◌, ◌*◌, ◌^◌, ◌≤◌, ◌<◌, ◌≡◌, refl, ap, ◌∙◌, arith, List, [], ◌∷◌, ◌++◌, All,
  length, take, drop, length-take_le, length-drop, All-parts, take-append-drop, subst, sym, ◌-◌,
}
use native.Mathlib.Nat.{zero-add}

abbrev pub IsDigit : ℕ → Type 0
IsDigit d = d < 2 ^ 64

abbrev pub value : List ℕ → ℕ
value [] = 0
value (d ∷ ds) = d + 2 ^ 64 * value ds

-- One more than the greatest number of `n` digits.
abbrev pub capacity : ℕ → ℕ
capacity zero = 1
capacity (suc n) = 2 ^ 64 * capacity n

pub capacity_positive : (n : ℕ) → 0 < capacity n
capacity_positive zero = omega arith
capacity_positive (suc n) = omega (arith, capacity_positive n)

pub value_bound : (a : List ℕ) → All IsDigit a → value a < capacity (length a)
value_bound [] ok = omega arith
value_bound (d ∷ ds) (h, ok) = omega (arith, value_bound ds ok)

pub value-append : (a b : List ℕ) → value (a ++ b) ≡ value a + capacity (length a) * value b
value-append [] b = omega arith
value-append (d ∷ ds) b = omega (arith, value-append ds b)

pub value_split :
    (n : ℕ) (a : List ℕ) → n ≤ length a → value a ≡ value (take n a) + capacity n * value (drop n a)
value_split zero a le = omega arith
value_split (suc n) [] le = absurd (omega arith)
value_split (suc n) (d ∷ ds) le = omega (arith, value_split n ds (omega arith))

-- Quotient and remainder by a capacity are unique.
pub digits_unique : (k x y p q : ℕ) → x < k → y < k → x + k * p ≡ y + k * q → (x ≡ y) × (p ≡ q)
digits_unique k x y zero zero hx hy e = (omega arith, refl)
digits_unique k x y zero (suc q) hx hy e = absurd (grind arith)
digits_unique k x y (suc p) zero hx hy e = absurd (grind arith)
digits_unique k x y (suc p) (suc q) hx hy e =
    let (same, rest) = digits_unique k x y p q hx hy (grind arith) in (same, ap suc rest)

pub capacity_add : (m n : ℕ) → capacity (m + n) ≡ capacity m * capacity n
capacity_add zero n = rw (zero-add n) (omega arith)
capacity_add (suc m) n =
    let next : suc m + n ≡ suc (m + n) = omega arith in rw (next, capacity_add m n) (grind arith)

pub capacity_le : (m n : ℕ) → m ≤ n → capacity m ≤ capacity n
capacity_le m n le =
    let parts : m + (n - m) ≡ n = omega arith in
    let sum = capacity_add m (n - m) in
    let whole = rw (parts) at sum in let some_left = capacity_positive (n - m) in grind arith

pub take-IsDigit : (n : ℕ) (a : List ℕ) → All IsDigit a → All IsDigit (take n a)
take-IsDigit n a all =
    (All-parts IsDigit (take n a) (drop n a)
      (subst (All IsDigit) (sym (take-append-drop n a)) all)).0

pub drop-IsDigit : (n : ℕ) (a : List ℕ) → All IsDigit a → All IsDigit (drop n a)
drop-IsDigit n a all =
    (All-parts IsDigit (take n a) (drop n a)
      (subst (All IsDigit) (sym (take-append-drop n a)) all)).1

pub take_bound : (n : ℕ) (a : List ℕ) → n ≤ length a → All IsDigit a → value (take n a) < capacity n
take_bound n a le all =
    let bound = value_bound (take n a) (take-IsDigit n a all) in
    let len = length-take_le n a le in let known = rw (len) at bound in known

drop_bound : (n : ℕ) (a : List ℕ) → All IsDigit a → value (drop n a) < capacity (length a - n)
drop_bound n a all =
    let bound = value_bound (drop n a) (drop-IsDigit n a all) in
    let len = length-drop n a in let known = rw (len) at bound in known

merge : (k m c w h v l : ℕ) → w ≡ k * m → v ≡ l + k * h → l + k * (h + m * c) ≡ v + w * c
merge k m c w h v l ew ev = rw (ew, ev) (grind arith)

-- The low `n` digits of `r`, which keep to themselves what happens to the low digits of `a`.
module _ (n : ℕ) (a r : List ℕ) (le : n ≤ length a) (len : length r ≡ length a) (ha : All IsDigit a)
    (hr : All IsDigit r) where
  abbrev room : ℕ
  room = capacity (length a - n)

  whole_capacity : capacity (length a) ≡ capacity n * room
  whole_capacity =
      let parts : n + (length a - n) ≡ length a = omega arith in
      let sum = capacity_add n (length a - n) in let known = rw (parts) at sum in known

  high_bound : value (drop n r) < room
  high_bound = let bound = drop_bound n r hr in let known = rw (len) at bound in known

  low_bound : value (take n r) < capacity n
  low_bound = take_bound n r (omega arith) hr

  no_overflow : (h c k : ℕ) → h + k * c ≡ value (drop n a) → k ≡ room → c ≡ 0
  no_overflow h zero k e same = refl
  no_overflow h (suc c) k e same = absurd (let b = drop_bound n a ha in grind arith)

  no_borrow : (c k : ℕ) → value (drop n r) ≡ value (drop n a) + k * c → k ≡ room → c ≡ 0
  no_borrow zero k e same = refl
  no_borrow (suc c) k e same = absurd (let b = high_bound in grind arith)

  pub low_sum :
      (c t : ℕ)
      → t < capacity n
      → value r + capacity (length a) * c ≡ t + capacity n * value (drop n a)
      → (value (take n r) ≡ t) × (c ≡ 0)
  low_sum c t lt e =
      let split = value_split n r (omega arith) in
      let whole = whole_capacity in
      let (low, high) =
        digits_unique (capacity n) (value (take n r)) t (value (drop n r) + room * c)
          (value (drop n a)) low_bound lt
          (merge (capacity n) room c (capacity (length a)) (value (drop n r)) (value r)
              (value (take n r)) whole split
            ∙ e) in
      (low, no_overflow (value (drop n r)) c room high refl)

  pub low_difference :
      (c t : ℕ)
      → t < capacity n
      → value r ≡ t + capacity n * value (drop n a) + capacity (length a) * c
      → (value (take n r) ≡ t) × (c ≡ 0)
  low_difference c t lt e =
      let split = value_split n r (omega arith) in
      let whole = whole_capacity in
      let (low, high) =
        digits_unique (capacity n) (value (take n r)) t (value (drop n r))
          (value (drop n a) + room * c) low_bound lt
          (sym split
            ∙ e
            ∙ sym (
                merge (capacity n) room c (capacity (length a)) (value (drop n a))
                  (t + capacity n * value (drop n a)) t whole refl)) in
      (low, no_borrow c room high refl)
