-- ===== src/Reassembly/Safety.antt =====
-- include/utils/reass_helper.h: which fragments are written inside the buffer.
use liblcb.Base.{
  wrap, ℕ, zero, suc, ◌+◌, ◌*◌, ◌/◌, ◌^◌, ◌<◌, ◌≤◌, ◌≡◌, ◌⊎◌, inl, inr, refl, sym, ap, arith, ◌∙◌,
}
use liblcb.Base.{
  Option, some, ◌++◌, Bytes, Bool, true, false, not, ◌||◌, ◌&&◌, ltb, leb, ◌==◌, if◌then◌else◌,
}
use liblcb.Base.{
  length, take, drop, set, get_elem?, length-set, length-append, length-take_le, length-drop,
  length-replicate, replicate,
}
use liblcb.Base.{
  Errno, ok, is_ok, einval, enobufs, erange, eagain, Bool-cases, if_rule, subst, [], ◌∷◌,
}
use liblcb.Reassembly.{
  reass_hlp_reset, Reass, reass_hlp_seq_calc_diff, open_frag, product_ok, splice, add_data,
  mark_block, mark_in, place_frag, reass_hlp_handle_frag, bit_of, with_bit, clear_bitmap,
}

-- The sizes that the helper keeps are those of its memory.
abbrev pub Sized : Reass → Type 0
Sized r =
    (length r.buf ≡ r.buf_size)
    × (r.buf_size < 2 ^ 64)
    × ((bytes : Bytes) × (r.bitmap ≡ some bytes) × (length bytes ≡ r.bitmap_size))

abbrev pub Done : (Reass → Type 0) → Option (Errno × Reass) → Type 0
Done P o = (status : Errno) × (r' : Reass) × (o ≡ some (status, r')) × P r'

if-Done :
    (P : Reass → Type 0) (b : Bool) (x y : Errno × Reass)
    → P x.1
    → P y.1
    → Done P (if b then some x else some y)
if-Done P true (status, r) y p q = (status, r, refl, p)
if-Done P false x (status, r) p q = (status, r, refl, q)

length-splice :
    (buf frag : Bytes) (offset : ℕ)
    → offset + length frag ≤ length buf
    → (buf' : Bytes) × (splice buf offset frag ≡ some buf') × (length buf' ≡ length buf)
unfolding splice
length-splice buf frag offset h = (
  take offset buf ++ (frag ++ drop (offset + length frag) buf),
  ground arith,
  omega (
    arith,
    length-append (take offset buf) (frag ++ drop (offset + length frag) buf),
    length-append frag (drop (offset + length frag) buf),
    length-take_le offset buf (omega arith),
    length-drop (offset + length frag) buf,
  ),
)

add_data-Sized :
    (r : Reass) (seq_no : ℕ) (is_last : Bool) (frag : Bytes) (offset : ℕ)
    → Sized r
    → offset + length frag < 2 ^ 64
    → offset + length frag ≤ r.buf_size
    → Done Sized (add_data r seq_no is_last frag offset)
unfolding add_data
add_data-Sized r seq_no is_last frag offset h hw hb =
    let (buf', e, el) = length-splice r.buf frag offset (omega (arith, h.0)) in
    rw (add_data, e) (if-Done Sized _ _ _ h (el ∙ h.0, h.1, h.2))

-- What the bitmap lets through.
abbrev Marked : Reass → ℕ → Option (Errno × Reass) → Type 0
Marked r blk_idx o =
    (status : Errno) × (r' : Reass) × (o ≡ some (status, r'))
    × Sized r'
    × ((is_ok status ≡ false) ⊎ (blk_idx < r.bitmap_size))
    × (r'.buf_size ≡ r.buf_size)

get_some : (bytes : Bytes) (i : ℕ) → i < length bytes → (byte : ℕ) × (get_elem? bytes i ≡ some byte)
get_some [] i h = absurd (omega arith)
get_some (b ∷ bytes) zero h = (b, refl)
get_some (b ∷ bytes) (suc i) h = get_some bytes i (omega arith)

mark_in-Marked :
    (r : Reass) (bytes : Bytes) (blk_idx : ℕ)
    → Sized r
    → length bytes ≡ r.bitmap_size
    → Marked r blk_idx (mark_in r (some bytes) blk_idx)
unfolding mark_in
mark_in-Marked r bytes blk_idx h el = elim (Bool-cases (leb r.bitmap_size blk_idx)) [
  | inl t ↦ rw t (erange, r, refl, h, inl refl, refl)
  | inr t ↦
      let i = blk_idx / 8 in
      let (byte, e) = get_some bytes i (ground arith) in
      elim (Bool-cases (bit_of byte blk_idx == 0)) [
        | inl z ↦
            rw (t, e, z)
              (
                ok,
                record r { bitmap = some (set bytes i (with_bit byte blk_idx)) },
                refl,
                (h.0, h.1, (set bytes i (with_bit byte blk_idx), refl, length-set bytes i _ ∙ el)),
                inr (ground arith),
                refl,
              )
        | inr z ↦
            rw (t, e, z)
              (eagain, record r { dup_cnt = wrap (r.dup_cnt + 1) }, refl, h, inl refl, refl)
      ]
]

mark_block-Marked : (r : Reass) (blk_idx : ℕ) → Sized r → Marked r blk_idx (mark_block r blk_idx)
unfolding mark_block
mark_block-Marked r blk_idx h =
    let (hb, hs, (bytes, e, el)) = h in
    subst (λ o. Marked r blk_idx (mark_in r o blk_idx)) (sym e)
      (mark_in-Marked r bytes blk_idx h el)

product_ok-some :
    (blk_idx blk_size offset : ℕ)
    → 0 < blk_size
    → (fits : Bool) × (product_ok blk_idx blk_size offset ≡ some fits)
unfolding product_ok
product_ok-some blk_idx blk_size offset h =
    elim (Bool-cases (not (leb (2 ^ 32) blk_idx || leb (2 ^ 32) blk_size))) [
      | inl e ↦ (true, rw e refl)
      | inr e ↦ (offset / blk_size == blk_idx, rw e (ground arith))
    ]

below_bitmap : (i n k f top : ℕ) → i < n → k ≤ top → f ≤ top → n * top < 2 ^ 64 → i * k + f < 2 ^ 64
below_bitmap i n k f top hi hk hf hn = grind arith

fits_in :
    (fits : Bool) (size total : ℕ)
    → total < 2 ^ 64
    → not fits || ltb size (wrap total) ≡ false
    → total ≤ size
fits_in fits size total h t = ground arith

place_frag-Sized :
    (r : Reass) (seq_no : ℕ) (is_last : Bool) (frag : Bytes) (top : ℕ)
    → Sized r
    → 0 < r.blk_size
    → r.blk_size ≤ top
    → length frag ≤ top
    → r.bitmap_size * top < 2 ^ 64
    → Done Sized (place_frag r seq_no is_last frag)
unfolding place_frag
place_frag-Sized r seq_no is_last frag top h h0 hk hf hn =
    let idx = reass_hlp_seq_calc_diff r.first_seq_no seq_no in
    let offset = wrap (idx * r.blk_size) in
    let (fits, ef) = product_ok-some idx r.blk_size offset h0 in
    let (status, r', e, h', b, eb) = mark_block-Marked r idx h in
    let total : idx < r.bitmap_size → offset + length frag < 2 ^ 64 = λ lt.
      omega (arith, below_bitmap idx r.bitmap_size r.blk_size (length frag) top lt hk hf hn) in
    elim (Bool-cases (not fits || ltb r.buf_size (wrap (offset + length frag)))) [
      | inl t ↦ rw (place_frag, ef, t) (einval, r, refl, h)
      | inr t ↦ elim b [
        | inl f ↦ rw (place_frag, ef, t, e, f) (status, r', refl, h')
        | inr lt ↦
            rw (place_frag, ef, t, e)
              (if_rule (Done Sized) (is_ok status) (add_data r' seq_no is_last frag offset)
                (some (status, r'))
                (add_data-Sized r' seq_no is_last frag offset h' (total lt) (
                  subst (λ n. offset + length frag ≤ n) (sym eb)
                    (fits_in fits r.buf_size (offset + length frag) (total lt) t)))
                (status, r', refl, h'))
      ]
    ]

-- What opening leaves.
abbrev Opened : Reass → ℕ → Errno × Reass → Type 0
Opened r top x =
    Sized x.1
    × ((is_ok x.0 ≡ false) ⊎ (0 < x.1.blk_size))
    × (x.1.blk_size ≤ top)
    × (x.1.bitmap_size ≡ r.bitmap_size)

open_frag-Opened :
    (r : Reass) (seq_no : ℕ) (is_first is_last : Bool) (size top : ℕ)
    → Sized r
    → (is_first ≡ true) ⊎ (0 < r.blk_size)
    → r.blk_size ≤ top
    → size ≤ top
    → Opened r top (open_frag r seq_no is_first is_last size)
unfolding open_frag reass_hlp_reset
open_frag-Opened r seq_no true is_last size top h hf hk hs =
    let (hb, h64, (bytes, e, el)) = h in
    let fresh : Sized (reass_hlp_reset r) = (
      hb,
      h64,
      (
        replicate r.bitmap_size 0,
        ap (λ o. clear_bitmap o r.bitmap_size) e,
        length-replicate r.bitmap_size 0,
      ),
    ) in
    elim (Bool-cases (size == 0)) [
      | inl z ↦ rw (open_frag, z) (h, inl refl, hk, refl)
      | inr z ↦
          rw (open_frag, z)
            (if_rule (Opened r top) _
              (enobufs, record (reass_hlp_reset r) { blk_size = size; first_seq_no = seq_no })
              (ok, record (reass_hlp_reset r) { blk_size = size; first_seq_no = seq_no })
              (fresh, inl refl, hs, refl) (fresh, inr (ground arith), hs, refl))
    ]
open_frag-Opened r seq_no false is_last size top h hf hk hs =
    if_rule (Opened r top) (not is_last && not (r.blk_size == size)) (einval, r) (ok, _)
      (h, inl refl, hk, refl) (h, inr (ground arith), hk, refl)

-- With a bitmap, and a block size that the first fragment has set or sets, handling a fragment never
-- writes outside the buffer or the bitmap, whatever its sequence number, and keeps their sizes: as
-- long as the bitmap's size times the largest block or fragment stays below 2 ^ 64.
pub reass_hlp_handle_frag-Sized :
    (r : Reass) (seq_no : ℕ) (is_first is_last : Bool) (frag : Bytes) (top : ℕ)
    → Sized r
    → (is_first ≡ true) ⊎ (0 < r.blk_size)
    → r.blk_size ≤ top
    → length frag ≤ top
    → r.bitmap_size * top < 2 ^ 64
    → (status : Errno) × (r' : Reass) × (reass_hlp_handle_frag r seq_no is_first is_last frag
        ≡ some (status, r'))
      × Sized r'
unfolding reass_hlp_handle_frag
reass_hlp_handle_frag-Sized r seq_no is_first is_last frag top h hf hk hs hn =
    let opened = open_frag r seq_no is_first is_last (length frag) in
    let (h1, h2, h3, h4) =
      open_frag-Opened r seq_no is_first is_last (length frag) top h hf hk hs in
    elim h2 [
      | inl f ↦ rw f (opened.0, opened.1, refl, h1)
      | inr h0 ↦
          if_rule (Done Sized) (is_ok opened.0) (place_frag opened.1 seq_no is_last frag)
            (some opened)
            (place_frag-Sized opened.1 seq_no is_last frag top h1 h0 h3 hs
              (subst (λ n. n * top < 2 ^ 64) (sym h4) hn))
            (opened.0, opened.1, refl, h1)
    ]
