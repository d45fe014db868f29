-- ===== src/Reassembly/Tests.antt =====
-- Runs of the functions of include/utils/reass_helper.h, and the theorems at concrete inputs.
use liblcb.Base.{
  wrap, Bytes, ◌++◌, ◌-◌, ◌^◌, ◌≡◌, refl, arith, inl, none, some, ◌∷◌, [], true, false,
}
use liblcb.Base.{Errno, ok, eagain, replicate, codes, ◌>>=◌, ltb, if◌then◌else◌, ◌+◌}
use liblcb.Reassembly.{
  Reass, reass_hlp_reset, reass_hlp_seq_calc_diff, open_frag, product_ok, splice, add_data,
  mark_block, place_frag, reass_hlp_handle_frag, frag_status,
}
use liblcb.Reassembly.Sequence.{reass_hlp_seq_calc_diff-wrap}
use liblcb.Reassembly.Safety.{Sized, reass_hlp_handle_frag-Sized}
use liblcb.Reassembly.Twice.{reass_hlp_handle_frag_twice}
use liblcb.Reassembly.Outside.{reass_hlp_handle_frag_outside}

abbrev empty : Reass
empty = record {
  buf = replicate 8 0;
  buf_size = 8;
  bitmap = some (replicate 2 0);
  bitmap_size = 2;
  blk_size = 0;
  blk_cnt = 0;
  recv_cnt = 0;
  sequence_size = 0;
  dup_cnt = 0;
  reorders_cnt = 0;
  first_seq_no = 0;
  last_seq_no = 0;
  cur_seq_no = 0;
}

-- Two fragments in order, and the buffer after them.
abbrev outcome : Errno × Reass → Errno × Bytes
outcome (status, r) = (status, r.buf)

two_fragments :
    (reass_hlp_handle_frag empty 7 true false (codes "abc") >>= λ x.
    (reass_hlp_handle_frag x.1 8 false true (codes "de") >>= λ y. some (outcome y)))
    ≡ some (ok, codes "abcde" ++ (0 ∷ 0 ∷ 0 ∷ []))
unfolding reass_hlp_handle_frag place_frag open_frag reass_hlp_reset mark_block add_data splice
    product_ok reass_hlp_seq_calc_diff frag_status
two_fragments = refl

reass_hlp_seq_calc_diff-wrap_example :
    reass_hlp_seq_calc_diff (2 ^ 64 - 1) (wrap (2 ^ 64 - 1 + 1))
    ≡ (if ltb (2 ^ 64 - 1 + 1) (2 ^ 64) then 1 else 0)
reass_hlp_seq_calc_diff-wrap_example =
    reass_hlp_seq_calc_diff-wrap (2 ^ 64 - 1) 1 (omega arith) (omega arith)

reass_hlp_handle_frag-Sized_example :
    (status : Errno) × (r' : Reass) × (reass_hlp_handle_frag empty 7 true false (codes "abc")
      ≡ some (status, r'))
    × Sized r'
reass_hlp_handle_frag-Sized_example =
    reass_hlp_handle_frag-Sized empty 7 true false (codes "abc") 3
      (refl, omega arith, (replicate 2 0, refl, refl)) (inl refl) (omega arith) (omega arith)
      (omega arith)

-- Blocks of 4 bytes, and no bitmap.
abbrev open_ended : Reass
open_ended = record empty { bitmap = none; blk_size = 4; blk_cnt = 1; recv_cnt = 4 }

reass_hlp_handle_frag_outside_example :
    reass_hlp_handle_frag open_ended (2 ^ 62 - 1) false true (codes "abcdefgh") ≡ none
unfolding reass_hlp_seq_calc_diff
reass_hlp_handle_frag_outside_example =
    reass_hlp_handle_frag_outside open_ended (2 ^ 62 - 1) (2 ^ 62 - 1) (codes "abcdefgh") refl
      (omega arith) refl (omega arith) (omega arith) (omega arith)

-- After a first block of 3 bytes with the number 7.
abbrev running : Reass
running = record empty {
  bitmap = some (1 ∷ 0 ∷ []);
  blk_size = 3;
  blk_cnt = 1;
  recv_cnt = 3;
  first_seq_no = 7;
  cur_seq_no = 7;
}

abbrev full_table : Bytes
full_table = 0 ∷ 0 ∷ 0 ∷ (codes "de" ++ (0 ∷ 0 ∷ 0 ∷ []))

reass_hlp_handle_frag_twice_example :
    (r1 r2 : Reass) × (reass_hlp_handle_frag running 8 false true (codes "de")
      ≡ some (frag_status r1, r1))
    × (r1.buf ≡ full_table)
    × (r1.blk_cnt ≡ wrap 2)
    × (r1.recv_cnt ≡ wrap 5)
    × (reass_hlp_handle_frag r1 8 false true (codes "de") ≡ some (eagain, r2))
    × (r2.buf ≡ full_table)
    × (r2.dup_cnt ≡ wrap 1)
    × (r2.blk_cnt ≡ r1.blk_cnt)
    × (r2.recv_cnt ≡ r1.recv_cnt)
unfolding reass_hlp_seq_calc_diff splice
reass_hlp_handle_frag_twice_example =
    reass_hlp_handle_frag_twice running 1 8 true (codes "de") (1 ∷ 0 ∷ []) full_table 1
      (omega arith, refl, omega arith, omega arith, omega arith) (inl refl) refl refl (omega arith)
      refl refl
