-- ===== src/BigNum/Bytes/Import.antt =====
-- Importing bytes, include/math/big_num.h: the number that the bytes spell, and what is left of the
-- old one.
use liblcb.Base.{
  ℕ, zero, suc, ◌+◌, ◌-◌, ◌*◌, ◌/◌, ◌^◌, ◌≤◌, ◌<◌, ◌≡◌, ◌⊎◌, inl, inr, refl, sym, ap, ◌∙◌, arith,
  min, List, [], ◌∷◌, ◌++◌, All, Bytes, IsByte, true, false, ltb, leb, ◌==◌, ◌||◌, if◌then◌else◌,
  Bool-cases, length, take, drop, All-append, length-append, length-drop, length-take_le,
  take-append, take-append_le, take-take_le, drop-append, drop-take, drop-all, Errno, ok, einval,
  eoverflow,
}
use native.Mathlib.Nat.{pow-suc, one-le-pow}
use liblcb.BigNum.Value.{IsDigit, value, capacity, value_split, take-IsDigit, drop-IsDigit}
use liblcb.BigNum.Number.{Bn, bn_update_digits__int, with_digits}
use liblcb.BigNum.Number.Store.{
  bn_value, IsNormal, with_digits-IsStored, with_digits-IsNormal, update_fewer-IsNormal,
}
use liblcb.BigNum.Bytes.{
  gather, gather_digits, reverse_onto, reverse, bn_digits_import_le_bin, bn_digits_import_be_bin,
  imported, bn_import_le_bin, bn_import_be_bin,
}

-- The number that bytes spell, the lowest first, and the highest first.
abbrev pub le_value : Bytes → ℕ
le_value [] = 0
le_value (b ∷ bs) = b + 256 * le_value bs

abbrev pub be_value_onto : ℕ → Bytes → ℕ
be_value_onto high [] = high
be_value_onto high (b ∷ bs) = be_value_onto (high * 256 + b) bs

abbrev pub be_value : Bytes → ℕ
be_value bs = be_value_onto 0 bs

next_weight :
    (weight left : ℕ) → weight * 256 ^ suc left ≡ 2 ^ 64 → weight * 256 * 256 ^ left ≡ 2 ^ 64
next_weight weight left e = let known = rw (pow-suc 256 left) at e in grind (arith, known)

gather-value :
    (left digit weight : ℕ) (bs : Bytes)
    → weight * 256 ^ left ≡ 2 ^ 64
    → value (gather left digit weight bs) ≡ digit + weight * le_value bs
unfolding gather
gather-value left digit weight [] e = omega arith
gather-value zero digit weight (b ∷ bs) e =
    let rest = gather-value 7 b 256 bs (omega arith) in
    let one : weight ≡ 2 ^ 64 = omega (arith, e) in rw (rest, one) (omega arith)
gather-value (suc left) digit weight (b ∷ bs) e =
    gather-value left (digit + b * weight) (weight * 256) bs (next_weight weight left e)
    ∙ grind arith

gather-IsDigit :
    (left digit weight : ℕ) (bs : Bytes)
    → weight * 256 ^ left ≡ 2 ^ 64
    → digit < weight
    → All IsByte bs
    → All IsDigit (gather left digit weight bs)
unfolding gather
gather-IsDigit left digit weight [] e lt all =
    let some_power = one-le-pow left 256 (omega arith) in (grind arith, tt)
gather-IsDigit zero digit weight (b ∷ bs) e lt (hb, all) =
    (omega (arith, e), gather-IsDigit 7 b 256 bs (omega arith) hb all)
gather-IsDigit (suc left) digit weight (b ∷ bs) e lt (hb, all) =
    gather-IsDigit left (digit + b * weight) (weight * 256) bs (next_weight weight left e)
      (grind arith) all

length-gather :
    (left digit weight : ℕ) (bs : Bytes)
    → left < 8
    → length (gather left digit weight bs) ≡ (length bs + 15 - left) / 8
unfolding gather
length-gather left digit weight [] lt = omega arith
length-gather zero digit weight (b ∷ bs) lt = omega (arith, length-gather 7 b 256 bs (omega arith))
length-gather (suc left) digit weight (b ∷ bs) lt =
    omega (arith, length-gather left (digit + b * weight) (weight * 256) bs (omega arith))

-- The digits of bytes.
gather_digits-value :
    (bs : Bytes)
    → All IsByte bs
    → (value (gather_digits bs) ≡ le_value bs)
      × All IsDigit (gather_digits bs)
      × (length (gather_digits bs) ≡ (length bs + 7) / 8)
unfolding gather_digits
gather_digits-value [] all = (refl, tt, omega arith)
gather_digits-value (b ∷ bs) (hb, all) = (
  gather-value 7 b 256 bs (omega arith),
  gather-IsDigit 7 b 256 bs (omega arith) hb all,
  omega (arith, length-gather 7 b 256 bs (omega arith)),
)

reverse_onto-value :
    (bs out : Bytes) → le_value (reverse_onto bs out) ≡ be_value_onto (le_value out) bs
unfolding reverse_onto
reverse_onto-value [] out = refl
reverse_onto-value (b ∷ bs) out =
    reverse_onto-value bs (b ∷ out) ∙ ap (λ h. be_value_onto h bs) (omega arith)

pub length-reverse_onto : (bs out : Bytes) → length (reverse_onto bs out) ≡ length bs + length out
unfolding reverse_onto
length-reverse_onto [] out = omega arith
length-reverse_onto (b ∷ bs) out = omega (arith, length-reverse_onto bs (b ∷ out))

pub reverse_onto-IsByte :
    (bs out : Bytes) → All IsByte bs → All IsByte out → All IsByte (reverse_onto bs out)
unfolding reverse_onto
reverse_onto-IsByte [] out all all' = all'
reverse_onto-IsByte (b ∷ bs) out (hb, all) all' = reverse_onto-IsByte bs (b ∷ out) all (hb, all')

-- What is left of the old number above the first `k` digits.
abbrev pub left_over : Bn → ℕ → ℕ
left_over bn k = value (drop k (take bn.digits bn.num))

stored_digits :
    (bn : Bn) (ds : List ℕ) (k : ℕ)
    → IsNormal bn
    → All IsDigit ds
    → length ds ≡ k
    → k ≤ bn.count
    → (let bn' = bn_update_digits__int (with_digits bn (ds ++ drop k (take bn.count bn.num))) k in
        IsNormal bn'
        × (bn'.count ≡ bn.count)
        × (bn_value bn' ≡ value ds + capacity k * left_over bn k))
unfolding with_digits
stored_digits bn ds k (stored, top) all len le =
    let (hd, hc, digits) = stored in
    let a = take bn.count bn.num in
    let whole = ds ++ drop k a in
    let a_len = length-take_le bn.count bn.num hc in
    let rest = drop-IsDigit k a (take-IsDigit bn.count bn.num digits) in
    let size : length whole ≡ bn.count =
      omega (arith, length-append ds (drop k a), length-drop k a, len, a_len, le) in
    let whole_digits = All-append IsDigit ds (drop k a) all rest in
    elim (Bool-cases (leb bn.digits k)) [
      | inl over ↦
          let (kept, val, count) =
            with_digits-IsNormal bn whole k bn.count stored (ground arith) refl
              (omega (arith, size, le)) (omega (arith, size)) whole_digits in
          let reach : min k bn.count ≡ k = omega (arith, le) in
          let none_left : drop k (take bn.digits bn.num) ≡ [] =
            drop-all k (take bn.digits bn.num)
              (ground (arith, length-take_le bn.digits bn.num (omega arith))) in
          (
            kept,
            count,
            val
                ∙ ap (λ n. value (take n whole)) reach
                ∙ ap value (take-append k ds (drop k a) len)
                ∙ sym (rw (none_left) (omega arith)),
          )
      | inr under ↦
          let lt : k < bn.digits = ground arith in
          let (kept, val, count) =
            update_fewer-IsNormal (with_digits bn whole) k
              (with_digits-IsStored bn whole stored (omega (arith, size)) whole_digits) lt in
          let j = bn.digits - k in
          let parts : bn.digits ≡ k + j = omega (arith, lt) in
          let shown : take bn.digits (whole ++ drop (length whole) bn.num) ≡ take bn.digits whole =
            take-append_le bn.digits whole (drop (length whole) bn.num) (omega (arith, size, hd)) in
          let low : take k (take bn.digits whole) ≡ ds =
            take-take_le k bn.digits whole (omega (arith, lt)) ∙ take-append k ds (drop k a) len in
          let high : drop k (take bn.digits whole) ≡ drop k (take bn.digits bn.num) =
            drop-take k bn.digits j whole parts
            ∙ ap (take j) (drop-append k ds (drop k a) len)
            ∙ sym (drop-take k bn.digits j a parts)
            ∙ ap (drop k) (take-take_le bn.digits bn.count bn.num hd) in
          let split =
            value_split k (take bn.digits whole)
              (omega (arith, length-take_le bn.digits whole (omega (arith, size, hd)), lt)) in
          let known = rw (low, high) at split in (kept, count, val ∙ ap value shown ∙ known)
    ]

-- What importing promises: for 1 to 8 bytes for each digit, the number of the bytes, below what is left of the old number above them.
abbrev pub IsImported : Bn → Bytes → ℕ → Errno × Bn → Type 0
IsImported bn buf number (error, bn') =
    IsNormal bn'
    × (bn'.count ≡ bn.count)
    × (((error ≡ ok)
          × (0 < length buf)
          × (length buf ≤ bn.count * 8)
          × (bn_value bn'
              ≡ number + capacity ((length buf + 7) / 8) * left_over bn ((length buf + 7) / 8)))
        ⊎ ((error ≡ einval) × (length buf ≡ 0) × (bn' ≡ bn))
        ⊎ ((error ≡ eoverflow) × (bn.count * 8 < length buf) × (bn' ≡ bn)))

checked-IsImported :
    (bn : Bn) (buf : Bytes) (ds : List ℕ) (number : ℕ)
    → IsNormal bn
    → 0 < bn.count
    → All IsDigit ds
    → value ds ≡ number
    → length ds ≡ (length buf + 7) / 8
    → IsImported bn buf number (
        imported bn (
          if length (take bn.count bn.num) == 0 || length buf == 0
          then (einval, (take bn.count bn.num, 0))
          else if ltb (length (take bn.count bn.num) * 8) (length buf)
          then (eoverflow, (take bn.count bn.num, 0))
          else (ok, (ds ++ drop (length ds) (take bn.count bn.num), length ds))))
checked-IsImported bn buf ds number normal pos all val len =
    let (stored, top) = normal in
    let a_len = length-take_le bn.count bn.num stored.1 in
    elim (Bool-cases (length (take bn.count bn.num) == 0 || length buf == 0)) [
      | inl empty ↦ rw (empty) (
        normal,
        refl,
        inr (
            inl (
              refl,
              no_bytes (length (take bn.count bn.num)) (omega (arith, a_len, pos)) empty,
              refl,
            )),
      )
      | inr some_bytes ↦ elim (Bool-cases (ltb (length (take bn.count bn.num) * 8) (length buf))) [
        | inl long ↦
            rw (some_bytes, long) (normal, refl, inr (inr (refl, ground (arith, a_len), refl)))
        | inr fits ↦
            let (kept, count, sum) =
              stored_digits bn ds (length ds) normal all refl (ground (arith, a_len, len)) in
            rw (some_bytes, fits)
              (
                kept,
                count,
                inl (
                  refl,
                  has_bytes (length (take bn.count bn.num)) some_bytes,
                  ground (arith, a_len),
                  sum
                      ∙ ap (λ v. v + capacity (length ds) * left_over bn (length ds)) val
                      ∙ ap (λ k. number + capacity k * left_over bn k) len,
                ),
              )
      ]
    ]
  where
    no_bytes : (n : ℕ) → 0 < n → (n == 0 || length buf == 0) ≡ true → length buf ≡ 0
    no_bytes n lt e = ground arith

    has_bytes : (n : ℕ) → (n == 0 || length buf == 0) ≡ false → 0 < length buf
    has_bytes n e = ground arith

-- For a well-formed object that may have digits and a buffer of bytes, both imports keep the object
-- well-formed. The buffer may have from 1 to 8 bytes for each digit that the object may have, and
-- otherwise it is refused and nothing changes. The number becomes that of the bytes, plus what the
-- old number had above the digits that the bytes fill, which is not cleared.
pub bn_import-IsImported :
    (bn : Bn) (buf : Bytes)
    → IsNormal bn
    → 0 < bn.count
    → All IsByte buf
    → IsImported bn buf (le_value buf) (bn_import_le_bin bn buf)
      × IsImported bn buf (be_value buf) (bn_import_be_bin bn buf)
unfolding bn_import_le_bin bn_import_be_bin bn_digits_import_le_bin bn_digits_import_be_bin
bn_import-IsImported bn buf normal pos all =
    let (val, digits, len) = gather_digits-value buf all in
    let (val', digits', len') =
      gather_digits-value (reverse buf) (reverse_onto-IsByte buf [] all tt) in
    let size : length (reverse buf) ≡ length buf = omega (arith, length-reverse_onto buf []) in
    (
      checked-IsImported bn buf (gather_digits buf) (le_value buf) normal pos digits val len,
      checked-IsImported bn buf (gather_digits (reverse buf)) (be_value buf) normal pos digits'
          (val' ∙ reverse_onto-value buf []) (omega (arith, len', size)),
    )
