-- ===== src/Ini/Set/Copy.antt =====
-- `memcpy` into a line's memory, for src/utils/ini.c.
use liblcb.Base.{ℕ, zero, suc, ◌+◌, ◌≤◌, ◌≡◌, refl, ap, arith}
use liblcb.Base.{some, [], ◌∷◌, ◌++◌, Bytes}
use liblcb.Base.{length, take, drop, take-append, length-drop, length-append, length-take_le}
use liblcb.Ini.Line.{memcpy, slice}

pub take_prefix :
    (n k : ℕ) (xs ys : Bytes) → n ≤ k → n ≤ length xs → take n (take k xs ++ ys) ≡ take n xs
take_prefix zero k xs ys h hk = refl
take_prefix (suc n) zero xs ys h hk = absurd (omega arith)
take_prefix (suc n) (suc k) [] ys h hk = absurd (omega arith)
take_prefix (suc n) (suc k) (x ∷ xs) ys h hk =
    ap (x ∷◌) (take_prefix n k xs ys (omega arith) (omega arith))

drop_prefix : (k : ℕ) (xs ys : Bytes) → k ≤ length xs → drop k (take k xs ++ ys) ≡ ys
drop_prefix zero xs ys h = refl
drop_prefix (suc k) [] ys h = absurd (omega arith)
drop_prefix (suc k) (x ∷ xs) ys h = drop_prefix k xs ys (omega arith)

-- The bytes copied are there, and those before them are as they were.
abbrev pub Copied : Bytes → ℕ → Bytes → Bytes → Type 0
Copied memory off bs memory' =
    (memcpy memory off bs ≡ some memory')
    × (length memory' ≡ length memory)
    × (slice off (length bs) memory' ≡ bs)
    × ((n : ℕ) → n ≤ off → take n memory' ≡ take n memory)

pub memcpy-Copied :
    (memory : Bytes) (off : ℕ) (bs : Bytes)
    → off + length bs ≤ length memory
    → (memory' : Bytes) × Copied memory off bs memory'
unfolding memcpy
memcpy-Copied memory off bs h =
    let rest = drop (off + length bs) memory in
    (
      take off memory ++ (bs ++ rest),
      (
        ground arith,
        omega (
          arith,
          length-append (take off memory) (bs ++ rest),
          length-append bs rest,
          length-take_le off memory (omega arith),
          length-drop (off + length bs) memory,
        ),
        rw (drop_prefix off memory (bs ++ rest) (omega arith))
            (take-append (length bs) bs rest refl),
        λ n hn. take_prefix n off memory (bs ++ rest) hn (omega arith),
      ),
    )
