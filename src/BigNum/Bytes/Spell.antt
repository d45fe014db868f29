-- ===== src/BigNum/Bytes/Spell.antt =====
-- What bytes spell, and the bytes of digit arrays, for the exports of include/math/big_num.h.
use liblcb.Base.{
  ℕ, zero, suc, ◌+◌, ◌-◌, ◌*◌, ◌/◌, ◌≤◌, ◌<◌, ◌≡◌, ◌⊎◌, inl, inr, refl, sym, ap, ◌∙◌, arith, List,
  [], ◌∷◌, ◌++◌, All, Bytes, IsByte, ◌==◌, Bool-cases, length, take, drop, replicate, get_or,
  All-parts, All-append, subst, take-append-drop,
}
use liblcb.BigNum.Value.{IsDigit, value}
use liblcb.BigNum.Bytes.{spread, array_bytes, significant, reverse_onto}
use liblcb.BigNum.Bytes.Import.{le_value, be_value, be_value_onto}

-- One more than the greatest number of `n` bytes.
abbrev pub span : ℕ → ℕ
span zero = 1
span (suc n) = 256 * span n

pub spread-value :
    (n d : ℕ) (rest : Bytes)
    → d < span n
    → le_value (spread n d ++ rest) ≡ d + span n * le_value rest
spread-value zero d rest lt = omega arith
spread-value (suc n) d rest lt = omega (arith, spread-value n (d / 256) rest (omega arith))

pub array_bytes-value : (a : List ℕ) → All IsDigit a → le_value (array_bytes a) ≡ value a
unfolding array_bytes
array_bytes-value [] all = refl
array_bytes-value (d ∷ ds) (h, all) =
    omega (arith, spread-value 8 d (array_bytes ds) (omega arith), array_bytes-value ds all)

pub take-suc-le_value :
    (i : ℕ) (bytes : Bytes)
    → i < length bytes
    → le_value (take (suc i) bytes) ≡ le_value (take i bytes) + span i * get_or bytes i 0
take-suc-le_value i [] lt = elim lt [ ]
take-suc-le_value zero (b ∷ bs) lt = omega arith
take-suc-le_value (suc i) (b ∷ bs) lt = grind (arith, take-suc-le_value i bs (omega arith))

pub significant-value :
    (bytes : Bytes) (n : ℕ)
    → n ≤ length bytes
    → (significant bytes n ≤ n)
      × (le_value (take (significant bytes n) bytes) ≡ le_value (take n bytes))
      × ((significant bytes n ≡ 0) ⊎ (span (significant bytes n - 1) ≤ le_value (take n bytes)))
unfolding significant
significant-value bytes zero le = (omega arith, refl, inl refl)
significant-value bytes (suc i) le =
    let step = take-suc-le_value i bytes (omega arith) in
    elim (Bool-cases (get_or bytes i 0 == 0)) [
      | inl z ↦
          let (small, same, top) = significant-value bytes i (omega arith) in
          let clear : get_or bytes i 0 ≡ 0 = ground arith in
          let wider : le_value (take (suc i) bytes) ≡ le_value (take i bytes) =
            step ∙ rw (clear) (omega arith) in
          rw (z, wider) (omega (arith, small), same, top)
      | inr nz ↦
          let last : suc i - 1 ≡ i = omega arith in
          let some_byte : 0 < get_or bytes i 0 = ground arith in
          rw (nz, last) (omega arith, refl, inr (grind (arith, step)))
    ]

-- Written from the highest byte on.
pub reverse_onto-be_value :
    (bs out : Bytes) → be_value_onto 0 (reverse_onto bs out) ≡ be_value_onto (le_value bs) out
unfolding reverse_onto
reverse_onto-be_value [] out = refl
reverse_onto-be_value (b ∷ bs) out =
    reverse_onto-be_value bs (b ∷ out) ∙ ap (λ h. be_value_onto h out) (omega arith)

pub zeros-be_value : (n : ℕ) (bs : Bytes) → be_value (replicate n 0 ++ bs) ≡ be_value bs
zeros-be_value zero bs = refl
zeros-be_value (suc n) bs = zeros-be_value n bs

pub span_positive : (n : ℕ) → 1 ≤ span n
span_positive zero = omega arith
span_positive (suc n) = omega (arith, span_positive n)

pub span_le : (m n : ℕ) → m ≤ n → span m ≤ span n
span_le zero n le = span_positive n
span_le (suc m) zero le = absurd (omega arith)
span_le (suc m) (suc n) le = omega (arith, span_le m n (omega arith))

pub take-IsByte : (n : ℕ) (bs : Bytes) → All IsByte bs → All IsByte (take n bs)
take-IsByte n bs all =
    (All-parts IsByte (take n bs) (drop n bs)
      (subst (All IsByte) (sym (take-append-drop n bs)) all)).0

pub drop-IsByte : (n : ℕ) (bs : Bytes) → All IsByte bs → All IsByte (drop n bs)
drop-IsByte n bs all =
    (All-parts IsByte (take n bs) (drop n bs)
      (subst (All IsByte) (sym (take-append-drop n bs)) all)).1

pub zeros-IsByte : (n : ℕ) → All IsByte (replicate n 0)
zeros-IsByte zero = tt
zeros-IsByte (suc n) = (omega arith, zeros-IsByte n)

pub spread-IsByte : (n d : ℕ) → All IsByte (spread n d)
spread-IsByte zero d = tt
spread-IsByte (suc n) d = (omega arith, spread-IsByte n (d / 256))

pub array_bytes-IsByte : (a : List ℕ) → All IsByte (array_bytes a)
unfolding array_bytes
array_bytes-IsByte [] = tt
array_bytes-IsByte (d ∷ ds) =
    All-append IsByte (spread 8 d) (array_bytes ds) (spread-IsByte 8 d) (array_bytes-IsByte ds)
