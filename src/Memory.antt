-- ===== src/Memory.antt =====
-- include/utils/mem_utils.h, the byte searches and comparisons that the other parts call. A result
-- pointer is an index, and NULL is `none`. Of a comparison only whether it is 0 is modelled.
use liblcb.Base.{ℕ, zero, suc, Option, none, some, [], ◌∷◌, Bytes, Bool, true, false}
use liblcb.Base.{
  leb, ◌==◌, if◌then◌else◌, ◌&&◌, bit_or, ◌≡◌, ◌<◌, refl, arith, length, get_or, Option-cases,
  and_true, ap, inl, inr,
}

-- `mem_chr`: the first place of a byte.
unfoldable pub mem_chr : Bytes → ℕ → Option ℕ
mem_chr [] what = none
mem_chr (b ∷ bs) what =
    let later = mem_chr bs what in
    if b == what then some 0 else elim later [ none ↦ none | some i ↦ some (suc i) ]

-- `mem_rchr`: the last place of a byte.
unfoldable pub mem_rchr : Bytes → ℕ → Option ℕ
mem_rchr [] what = none
mem_rchr (b ∷ bs) what = elim (mem_rchr bs what) [
  | none ↦ if b == what then some 0 else none
  | some i ↦ some (suc i)
]

-- `0 == mem_cmpn(a, a_size, b, b_size)`
unfoldable pub mem_cmpn : Bytes → Bytes → Bool
mem_cmpn [] [] = true
mem_cmpn [] (y ∷ ys) = false
mem_cmpn (x ∷ xs) [] = false
mem_cmpn (x ∷ xs) (y ∷ ys) = x == y && mem_cmpn xs ys

-- The folding of `mem_cmpi` (the portable branch).
abbrev pub fold_case : ℕ → ℕ
fold_case b = if leb b'A' b && leb b b'Z' then bit_or b 32 else b

-- `0 == mem_cmpin(a, a_size, b, b_size)`
unfoldable pub mem_cmpin : Bytes → Bytes → Bool
mem_cmpin [] [] = true
mem_cmpin [] (y ∷ ys) = false
mem_cmpin (x ∷ xs) [] = false
mem_cmpin (x ∷ xs) (y ∷ ys) = fold_case x == fold_case y && mem_cmpin xs ys

pub mem_cmpn_self : (xs : Bytes) → mem_cmpn xs xs ≡ true
unfolding mem_cmpn
mem_cmpn_self [] = refl
mem_cmpn_self (x ∷ xs) = ground (arith, mem_cmpn_self xs)

pub mem_cmpin_self : (xs : Bytes) → mem_cmpin xs xs ≡ true
unfolding mem_cmpin
mem_cmpin_self [] = refl
mem_cmpin_self (x ∷ xs) = rw (mem_cmpin_self xs) (ground arith)

pub mem_chr-lt : (bs : Bytes) (what i : ℕ) → mem_chr bs what ≡ some i → i < length bs
unfolding mem_chr
mem_chr-lt [] what i h = ground arith
mem_chr-lt (b ∷ bs) what i h = elim (Option-cases (mem_chr bs what)) [
  | inl e ↦ ground (arith, e)
  | inr (j, e) ↦ ground (arith, e, mem_chr-lt bs what j e)
]

pub mem_rchr-lt : (bs : Bytes) (what i : ℕ) → mem_rchr bs what ≡ some i → i < length bs
unfolding mem_rchr
mem_rchr-lt [] what i h = ground arith
mem_rchr-lt (b ∷ bs) what i h = elim (Option-cases (mem_rchr bs what)) [
  | inl e ↦ ground (arith, e)
  | inr (j, e) ↦ ground (arith, e, mem_rchr-lt bs what j e)
]

pub mem_chr-found : (bs : Bytes) (what i : ℕ) → mem_chr bs what ≡ some i → get_or bs i 0 ≡ what
unfolding mem_chr
mem_chr-found [] what i h = ground arith
mem_chr-found (b ∷ bs) what zero h = elim (Option-cases (mem_chr bs what)) [
  | inl e ↦ ground (arith, e)
  | inr (j, e) ↦ ground (arith, e)
]
mem_chr-found (b ∷ bs) what (suc i) h = elim (Option-cases (mem_chr bs what)) [
  | inl e ↦ ground (arith, e)
  | inr (j, e) ↦ ground (arith, e, mem_chr-found bs what i)
]

pub length-mem_cmpin : (xs ys : Bytes) → mem_cmpin xs ys ≡ true → length xs ≡ length ys
unfolding mem_cmpin
length-mem_cmpin [] [] h = refl
length-mem_cmpin [] (y ∷ ys) h = ground arith
length-mem_cmpin (x ∷ xs) [] h = ground arith
length-mem_cmpin (x ∷ xs) (y ∷ ys) h =
    ap suc (length-mem_cmpin xs ys (and_true (fold_case x == fold_case y) (mem_cmpin xs ys) h).1)
