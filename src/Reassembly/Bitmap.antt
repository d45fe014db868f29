-- ===== src/Reassembly/Bitmap.antt =====
-- include/utils/reass_helper.h: the bitmap of the blocks.
use liblcb.Base.{
  ℕ, zero, suc, ◌+◌, ◌*◌, ◌/◌, ◌%◌, ◌^◌, ◌<◌, ◌≡◌, refl, sym, arith, subst, wrap, bit_or,
}
use liblcb.Base.{some, [], ◌∷◌, Bytes, set, get_elem?}
use liblcb.Base.{ok, eagain}
use liblcb.Base.Bits.{tables_agree, tables_agree-eq}
use liblcb.Reassembly.{Reass, mark_block, mark_in, bit_of, with_bit}

abbrev bit_after : ℕ → ℕ
bit_after n = bit_or (n / 8) (2 ^ (n % 8)) / 2 ^ (n % 8) % 2

pub bit_of-with_bit : (byte bit : ℕ) → byte < 256 → bit_of (with_bit byte bit) bit ≡ 1
unfolding tables_agree
bit_of-with_bit byte bit h =
    let n = byte * 8 + bit % 8 in
    let e : n / 8 ≡ byte = omega arith in
    let e' : n % 8 ≡ bit % 8 = omega arith in
    let t : bit_after n ≡ 1 = tables_agree-eq bit_after (λ n. 1) 2048 n (omega arith) refl in
    subst (λ k. bit_or byte (2 ^ k) / 2 ^ k % 2 ≡ 1) e'
      (subst (λ b. bit_or b (2 ^ (n % 8)) / 2 ^ (n % 8) % 2 ≡ 1) e t)

pub get_elem?-set :
    (xs : Bytes) (i x y : ℕ) → get_elem? xs i ≡ some x → get_elem? (set xs i y) i ≡ some y
get_elem?-set [] i x y h = ground arith
get_elem?-set (z ∷ xs) zero x y h = refl
get_elem?-set (z ∷ xs) (suc i) x y h = get_elem?-set xs i x y h

-- A block whose bit is set.
pub mark_block_again :
    (r : Reass) (bytes : Bytes) (byte blk_idx : ℕ)
    → r.bitmap ≡ some bytes
    → blk_idx < r.bitmap_size
    → get_elem? bytes (blk_idx / 8) ≡ some byte
    → bit_of byte blk_idx ≡ 1
    → mark_block r blk_idx ≡ some (eagain, record r { dup_cnt = wrap (r.dup_cnt + 1) })
unfolding mark_block mark_in
mark_block_again r bytes byte blk_idx e h g b =
    subst (λ o. mark_in r o blk_idx ≡ some (eagain, record r { dup_cnt = wrap (r.dup_cnt + 1) }))
      (sym e) (rw (mark_in, g, b) (ground arith))

abbrev pub marked : Reass → Bytes → ℕ → ℕ → Reass
marked r bytes byte blk_idx = record r {
  bitmap = some (set bytes (blk_idx / 8) (with_bit byte blk_idx));
}

pub mark_block_new :
    (r : Reass) (bytes : Bytes) (byte blk_idx : ℕ)
    → r.bitmap ≡ some bytes
    → blk_idx < r.bitmap_size
    → get_elem? bytes (blk_idx / 8) ≡ some byte
    → bit_of byte blk_idx ≡ 0
    → mark_block r blk_idx ≡ some (ok, marked r bytes byte blk_idx)
unfolding mark_block mark_in
mark_block_new r bytes byte blk_idx e h g b =
    subst (λ o. mark_in r o blk_idx ≡ some (ok, marked r bytes byte blk_idx)) (sym e)
      (rw (mark_in, g, b) (ground arith))
