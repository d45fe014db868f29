-- ===== src/Reassembly/Outside.antt =====
-- include/utils/reass_helper.h: without a bitmap a fragment can be written outside the buffer.
use liblcb.Base.{wrap, ℕ, ◌+◌, ◌*◌, ◌^◌, ◌<◌, ◌≤◌, ◌≡◌, refl, sym, arith, subst}
use liblcb.Base.{none, some, Bytes, Bool, true, false, length}
use liblcb.Base.{ok, le→ltb}
use liblcb.Reassembly.{
  Reass, reass_hlp_seq_calc_diff, open_frag, product_ok, splice, add_data, mark_block, mark_in,
  place_frag, reass_hlp_handle_frag,
}
use native.Mathlib.Nat.{mod-eq_of_lt, mul-div_cancel}

pub mark_block-none :
    (r : Reass) (blk_idx : ℕ) → r.bitmap ≡ none → mark_block r blk_idx ≡ some (ok, r)
unfolding mark_block mark_in
mark_block-none r blk_idx e = subst (λ o. mark_in r o blk_idx ≡ some (ok, r)) (sym e) refl

pub product_ok_exact :
    (blk_idx blk_size : ℕ)
    → 0 < blk_size
    → blk_idx * blk_size < 2 ^ 64
    → product_ok blk_idx blk_size (wrap (blk_idx * blk_size)) ≡ some true
unfolding product_ok
product_ok_exact blk_idx blk_size h hw =
    rw (mod-eq_of_lt hw, mul-div_cancel blk_idx h) (ground arith)

add_data_outside :
    (r : Reass) (seq_no : ℕ) (is_last : Bool) (frag : Bytes) (offset : ℕ)
    → length r.buf < offset + length frag
    → wrap (offset + length frag) ≤ r.buf_size
    → add_data r seq_no is_last frag offset ≡ none
unfolding add_data splice
add_data_outside r seq_no is_last frag offset h hw = ground arith

place_frag_outside :
    (r : Reass) (seq_no blk_idx : ℕ) (is_last : Bool) (frag : Bytes)
    → r.bitmap ≡ none
    → 0 < r.blk_size
    → reass_hlp_seq_calc_diff r.first_seq_no seq_no ≡ blk_idx
    → blk_idx * r.blk_size < 2 ^ 64
    → length r.buf < blk_idx * r.blk_size + length frag
    → wrap (blk_idx * r.blk_size + length frag) ≤ r.buf_size
    → place_frag r seq_no is_last frag ≡ none
unfolding place_frag
place_frag_outside r seq_no blk_idx is_last frag hb h0 ho h64 h hw =
    rw
      (
        place_frag,
        ho,
        product_ok_exact blk_idx r.blk_size h0 h64,
        mod-eq_of_lt h64,
        le→ltb r.buf_size (wrap (blk_idx * r.blk_size + length frag)) hw,
        mark_block-none r blk_idx hb,
        add_data_outside r seq_no is_last frag (blk_idx * r.blk_size) h hw,
      )
      refl

-- Without a bitmap, a last fragment whose place in the message lies past the buffer is written there
-- when its end passes 2 ^ 64 and so compares as inside the buffer: the size test adds the place and
-- the length without a check of that sum.
pub reass_hlp_handle_frag_outside :
    (r : Reass) (seq_no blk_idx : ℕ) (frag : Bytes)
    → r.bitmap ≡ none
    → 0 < r.blk_size
    → reass_hlp_seq_calc_diff r.first_seq_no seq_no ≡ blk_idx
    → blk_idx * r.blk_size < 2 ^ 64
    → length r.buf < blk_idx * r.blk_size + length frag
    → wrap (blk_idx * r.blk_size + length frag) ≤ r.buf_size
    → reass_hlp_handle_frag r seq_no false true frag ≡ none
unfolding reass_hlp_handle_frag open_frag
reass_hlp_handle_frag_outside r seq_no blk_idx frag hb h0 ho h64 h hw =
    place_frag_outside (open_frag r seq_no false true (length frag)).1 seq_no blk_idx true frag hb
      h0 ho h64 h hw
