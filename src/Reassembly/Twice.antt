-- ===== src/Reassembly/Twice.antt =====
-- include/utils/reass_helper.h: a fragment that is sent twice.
use liblcb.Base.{ℕ, ◌+◌, ◌*◌, ◌/◌, ◌^◌, ◌<◌, ◌≤◌, ◌≡◌, ◌⊎◌, refl, arith, ◌∙◌, wrap}
use liblcb.Base.{
  some, Bytes, Bool, true, false, not, ◌&&◌, ltb, ◌==◌, if◌then◌else◌, length, set, get_elem?,
}
use liblcb.Base.{ok, eagain}
use liblcb.Reassembly.{
  Reass, reass_hlp_seq_calc_diff, open_frag, splice, add_data, frag_status, place_frag,
  reass_hlp_handle_frag, bit_of, with_bit,
}
use liblcb.Reassembly.Bitmap.{
  bit_of-with_bit, get_elem?-set, mark_block_again, mark_block_new, marked,
}
use liblcb.Reassembly.Outside.{product_ok_exact}
use native.Mathlib.Nat.{mod-eq_of_lt}

-- The state that `add_data` leaves.
abbrev added : Reass → ℕ → Bool → Bytes → ℕ → Bytes → Reass
added r seq_no is_last frag offset buf = record r {
  sequence_size =
      if is_last && r.sequence_size == 0 then wrap (offset + length frag) else r.sequence_size;
  last_seq_no = if is_last && r.sequence_size == 0 then seq_no else r.last_seq_no;
  buf = buf;
  recv_cnt = wrap (r.recv_cnt + length frag);
  blk_cnt = wrap (r.blk_cnt + 1);
  cur_seq_no = seq_no;
}

refused :
    (last : Bool) (size total sequence_size : ℕ)
    → total ≤ size
    → size < 2 ^ 64
    → last && ltb size (if last then wrap total else sequence_size) ≡ false
refused true size total sequence_size h h64 = ground arith
refused false size total sequence_size h h64 = refl

inside : (size total : ℕ) → total ≤ size → size < 2 ^ 64 → ltb size (wrap total) ≡ false
inside size total h h64 = ground arith

add_data_fits :
    (r : Reass) (seq_no : ℕ) (is_last : Bool) (frag : Bytes) (offset : ℕ) (buf : Bytes)
    → offset + length frag ≤ r.buf_size
    → r.buf_size < 2 ^ 64
    → splice r.buf offset frag ≡ some buf
    → add_data r seq_no is_last frag offset
      ≡ some (
        frag_status (added r seq_no is_last frag offset buf),
        added r seq_no is_last frag offset buf,
      )
unfolding add_data
add_data_fits r seq_no is_last frag offset buf h h64 e =
    let room : (is_last && r.sequence_size == 0)
          && ltb r.buf_size (
              if is_last && r.sequence_size == 0
              then wrap (offset + length frag)
              else r.sequence_size)
        ≡ false =
      refused (is_last && r.sequence_size == 0) r.buf_size (offset + length frag) r.sequence_size h
        h64 in
    rw (add_data, room, e) refl

-- The state after a fragment that was accepted at the block `blk_idx`.
abbrev accepted : Reass → Bytes → ℕ → ℕ → ℕ → Bool → Bytes → Bytes → Reass
accepted r bytes byte blk_idx seq_no is_last frag buf =
    added (marked r bytes byte blk_idx) seq_no is_last frag (blk_idx * r.blk_size) buf

module _ (blk_idx seq_no : ℕ) (is_last : Bool) (frag : Bytes) where
  -- The fragment is in range: its place and its end are inside the buffer, and its block number is
  -- below the bytes of the bitmap.
  abbrev InRange : Reass → Type 0
  InRange r =
      (0 < r.blk_size)
      × (reass_hlp_seq_calc_diff r.first_seq_no seq_no ≡ blk_idx)
      × (blk_idx < r.bitmap_size)
      × (blk_idx * r.blk_size + length frag ≤ r.buf_size)
      × (r.buf_size < 2 ^ 64)

  place_frag_new :
      (r : Reass) (bytes buf : Bytes) (byte : ℕ)
      → InRange r
      → r.bitmap ≡ some bytes
      → get_elem? bytes (blk_idx / 8) ≡ some byte
      → bit_of byte blk_idx ≡ 0
      → splice r.buf (blk_idx * r.blk_size) frag ≡ some buf
      → place_frag r seq_no is_last frag
        ≡ some (
          frag_status (accepted r bytes byte blk_idx seq_no is_last frag buf),
          accepted r bytes byte blk_idx seq_no is_last frag buf,
        )
  unfolding place_frag
  place_frag_new r bytes buf byte h e g b s =
      let (h0, hd, hi, hr, h64) = h in
      rw
        (
          place_frag,
          hd,
          product_ok_exact blk_idx r.blk_size h0 (omega (arith, hr, h64)),
          mod-eq_of_lt {n = blk_idx * r.blk_size} {m = 2 ^ 64} (omega (arith, hr, h64)),
          inside r.buf_size (blk_idx * r.blk_size + length frag) hr h64,
          mark_block_new r bytes byte blk_idx e hi g b,
        )
        (add_data_fits (marked r bytes byte blk_idx) seq_no is_last frag (blk_idx * r.blk_size) buf
          hr h64 s)

  place_frag_again :
      (r : Reass) (bytes : Bytes) (byte : ℕ)
      → InRange r
      → r.bitmap ≡ some bytes
      → get_elem? bytes (blk_idx / 8) ≡ some byte
      → bit_of byte blk_idx ≡ 1
      → place_frag r seq_no is_last frag
        ≡ some (eagain, record r { dup_cnt = wrap (r.dup_cnt + 1) })
  unfolding place_frag
  place_frag_again r bytes byte h e g b =
      let (h0, hd, hi, hr, h64) = h in
      rw
        (
          place_frag,
          hd,
          product_ok_exact blk_idx r.blk_size h0 (omega (arith, hr, h64)),
          mod-eq_of_lt {n = blk_idx * r.blk_size} {m = 2 ^ 64} (omega (arith, hr, h64)),
          inside r.buf_size (blk_idx * r.blk_size + length frag) hr h64,
          mark_block_again r bytes byte blk_idx e hi g b,
        )
        refl

-- What opening makes of a fragment that is not the first.
abbrev reordered : Reass → ℕ → Reass
reordered r seq_no = record r {
  reorders_cnt = wrap (r.reorders_cnt + (if wrap (r.cur_seq_no + 1) == seq_no then 0 else 1));
}

sized : (last : Bool) (a b : ℕ) → (last ≡ true) ⊎ (a ≡ b) → not last && not (a == b) ≡ false
sized last a b h = ground arith

open_later :
    (r : Reass) (seq_no : ℕ) (is_last : Bool) (size : ℕ)
    → (is_last ≡ true) ⊎ (r.blk_size ≡ size)
    → open_frag r seq_no false is_last size ≡ (ok, reordered r seq_no)
unfolding open_frag
open_later r seq_no is_last size h =
    let fine : not is_last && not (r.blk_size == size) ≡ false = sized is_last r.blk_size size h in
    rw (open_frag, fine) refl

handle_later :
    (r : Reass) (seq_no : ℕ) (is_last : Bool) (frag : Bytes)
    → (is_last ≡ true) ⊎ (r.blk_size ≡ length frag)
    → reass_hlp_handle_frag r seq_no false is_last frag
      ≡ place_frag (reordered r seq_no) seq_no is_last frag
unfolding reass_hlp_handle_frag
handle_later r seq_no is_last frag h = rw (open_later r seq_no is_last (length frag) h) refl

-- A fragment whose place and end are inside the buffer, whose bit is clear, and whose block number is
-- below the size of the bitmap in bytes (which the code compares it with), is copied to its place,
-- and its block and bytes are counted; when the same fragment comes again it is refused with EAGAIN,
-- nothing is copied, no block and no byte is counted, and the duplicate is. The fragment is not the
-- first, and has the block size or is the last; the block size is above 0, the buffer below 2 ^ 64
-- bytes, there is a bitmap, and its byte that holds the bit is below 256.
pub reass_hlp_handle_frag_twice :
    (r : Reass) (blk_idx seq_no : ℕ) (is_last : Bool) (frag bytes buf : Bytes) (byte : ℕ)
    → InRange blk_idx seq_no is_last frag r
    → (is_last ≡ true) ⊎ (r.blk_size ≡ length frag)
    → r.bitmap ≡ some bytes
    → get_elem? bytes (blk_idx / 8) ≡ some byte
    → byte < 256
    → bit_of byte blk_idx ≡ 0
    → splice r.buf (blk_idx * r.blk_size) frag ≡ some buf
    → (r1 r2 : Reass) × (reass_hlp_handle_frag r seq_no false is_last frag
        ≡ some (frag_status r1, r1))
      × (r1.buf ≡ buf)
      × (r1.blk_cnt ≡ wrap (r.blk_cnt + 1))
      × (r1.recv_cnt ≡ wrap (r.recv_cnt + length frag))
      × (reass_hlp_handle_frag r1 seq_no false is_last frag ≡ some (eagain, r2))
      × (r2.buf ≡ buf)
      × (r2.dup_cnt ≡ wrap (r.dup_cnt + 1))
      × (r2.blk_cnt ≡ r1.blk_cnt)
      × (r2.recv_cnt ≡ r1.recv_cnt)
reass_hlp_handle_frag_twice r blk_idx seq_no is_last frag bytes buf byte h hs e g hb b s =
    let r1 = accepted (reordered r seq_no) bytes byte blk_idx seq_no is_last frag buf in
    let bytes1 = set bytes (blk_idx / 8) (with_bit byte blk_idx) in
    (
      r1,
      record (reordered r1 seq_no) { dup_cnt = wrap (r.dup_cnt + 1) },
      handle_later r seq_no is_last frag hs
          ∙ place_frag_new blk_idx seq_no is_last frag (reordered r seq_no) bytes buf byte h e g b
              s,
      refl,
      refl,
      refl,
      handle_later r1 seq_no is_last frag hs
          ∙ place_frag_again blk_idx seq_no is_last frag (reordered r1 seq_no) bytes1
              (with_bit byte blk_idx) h refl
              (get_elem?-set bytes (blk_idx / 8) byte (with_bit byte blk_idx) g)
              (bit_of-with_bit byte blk_idx hb),
      refl,
      refl,
      refl,
      refl,
    )
