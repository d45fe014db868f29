-- ===== src/Reassembly.antt =====
-- include/utils/reass_helper.h: putting the fragments of a message together in one buffer.
mod Tests
pub mod Sequence
pub mod Safety
pub mod Outside
pub mod Bitmap
pub mod Twice
use liblcb.Base.{wrap, ℕ, zero, suc, ◌+◌, ◌-◌, ◌*◌, ◌/◌, ◌%◌, ◌^◌, Option, none, some, ◌++◌, Bytes}
use liblcb.Base.{Bool, true, false, not, ◌&&◌, ◌||◌, ltb, leb, ◌==◌, if◌then◌else◌, ◌>>=◌, bit_or}
use liblcb.Base.{length, take, drop, set, get_elem?, replicate}
use liblcb.Base.{Errno, ok, is_ok, einval, enobufs, erange, eagain, ebadmsg}

-- `reass_hlp_t`. A NULL bitmap is `none`.
pub record Reass : Type 0 where
  pub buf : Bytes
  pub buf_size : ℕ
  pub bitmap : Option Bytes
  pub bitmap_size : ℕ
  pub blk_size : ℕ
  pub blk_cnt : ℕ
  pub recv_cnt : ℕ
  pub sequence_size : ℕ
  pub dup_cnt : ℕ
  pub reorders_cnt : ℕ
  pub first_seq_no : ℕ
  pub last_seq_no : ℕ
  pub cur_seq_no : ℕ

-- `memset(bitmap, 0x00, bitmap_size)` on a bitmap of `bitmap_size` bytes.
abbrev pub clear_bitmap : Option Bytes → ℕ → Option Bytes
clear_bitmap none size = none
clear_bitmap (some bytes) size = some (replicate size 0)

-- `cur_seq_no` stays.
unfoldable pub reass_hlp_reset : Reass → Reass
reass_hlp_reset r = record r {
  bitmap = clear_bitmap r.bitmap r.bitmap_size;
  blk_size = 0;
  blk_cnt = 0;
  recv_cnt = 0;
  sequence_size = 0;
  dup_cnt = 0;
  reorders_cnt = 0;
  first_seq_no = 0;
  last_seq_no = 0;
}

-- A NULL buffer is `none`.
unfoldable pub reass_hlp_init : Reass → Option Bytes → ℕ → Option Bytes → ℕ → Errno × Reass
reass_hlp_init r none buf_size bitmap bitmap_size = (einval, r)
reass_hlp_init r (some buf) buf_size bitmap bitmap_size = if buf_size == 0 then (einval, r) else (
  ok,
  reass_hlp_reset
      (record r { buf = buf; buf_size = buf_size; bitmap = bitmap; bitmap_size = bitmap_size }),
)

unfoldable pub reass_hlp_seq_calc_diff : ℕ → ℕ → ℕ
reass_hlp_seq_calc_diff first last =
    if leb first last then last - first else last + (2 ^ 64 - 1 - first)

-- `REASS_HLP_GET_BIT(bitmap, bit)` of the byte that it is in.
abbrev pub bit_of : ℕ → ℕ → ℕ
bit_of byte bit = byte / 2 ^ (bit % 8) % 2

-- `REASS_HLP_SET_BIT(bitmap, bit)`
abbrev pub with_bit : ℕ → ℕ → ℕ
with_bit byte bit = bit_or byte (2 ^ (bit % 8))

-- Up to `/* Prepare: calc block index and offset. */`.
unfoldable pub open_frag : Reass → ℕ → Bool → Bool → ℕ → Errno × Reass
open_frag r seq_no true is_last data_size =
    let r' = record (reass_hlp_reset r) { blk_size = data_size; first_seq_no = seq_no } in
    let small : Bool = elim r.bitmap [
      | none ↦ false
      | some bytes ↦ ltb (wrap (r.bitmap_size * 8)) (r.buf_size / data_size)
    ] in
    if data_size == 0 then (einval, r) else if small then (enobufs, r') else (ok, r')
open_frag r seq_no false is_last data_size =
    let reorders = if wrap (r.cur_seq_no + 1) == seq_no then 0 else 1 in
    if not is_last && not (r.blk_size == data_size)
    then (einval, r)
    else (ok, record r { reorders_cnt = wrap (r.reorders_cnt + reorders) })

-- The check of the product, `none` for a division by 0. `x & (SIZE_T_MAX << 32)` is not 0 when a bit
-- from 32 on is set.
unfoldable pub product_ok : ℕ → ℕ → ℕ → Option Bool
product_ok blk_idx blk_size offset =
    if not (leb (2 ^ 32) blk_idx || leb (2 ^ 32) blk_size)
    then some true
    else if blk_size == 0
    then none
    else some (offset / blk_size == blk_idx)

-- `memcpy((buf + offset), data, data_size)`, `none` for a write outside the buffer.
unfoldable pub splice : Bytes → ℕ → Bytes → Option Bytes
splice buf offset frag =
    if leb (offset + length frag) (length buf)
    then some (take offset buf ++ (frag ++ drop (offset + length frag) buf))
    else none

-- The last two tests.
unfoldable pub frag_status : Reass → Errno
frag_status r =
    if r.sequence_size == 0
      || ltb r.blk_cnt (wrap (reass_hlp_seq_calc_diff r.first_seq_no r.last_seq_no + 1))
    then eagain
    else if r.sequence_size == r.recv_cnt
    then ok
    else ebadmsg

-- From `/* Add new data. */` on.
unfoldable pub add_data : Reass → ℕ → Bool → Bytes → ℕ → Option (Errno × Reass)
add_data r seq_no is_last frag offset =
    let last = is_last && r.sequence_size == 0 in
    let size = if last then wrap (offset + length frag) else r.sequence_size in
    let r' = record r {
      sequence_size = size;
      last_seq_no = if last then seq_no else r.last_seq_no;
    } in
    if last && ltb r.buf_size size
    then some (enobufs, r')
    else (splice r.buf offset frag >>= λ buf.
        (let r'' = record r' {
          buf = buf;
          recv_cnt = wrap (r.recv_cnt + length frag);
          blk_cnt = wrap (r.blk_cnt + 1);
          cur_seq_no = seq_no;
        } in
          some (frag_status r'', r'')))

mark_in : Reass → Option Bytes → ℕ → Option (Errno × Reass)
mark_in r none blk_idx = some (ok, r)
mark_in r (some bytes) blk_idx =
    if leb r.bitmap_size blk_idx
    then some (erange, r)
    else (get_elem? bytes (blk_idx / 8) >>= λ byte.
        (if bit_of byte blk_idx == 0
          then some
              (ok, record r { bitmap = some (set bytes (blk_idx / 8) (with_bit byte blk_idx)) })
          else some (eagain, record r { dup_cnt = wrap (r.dup_cnt + 1) })))

-- The bitmap's test and its update; `none` for an access outside of it.
unfoldable pub mark_block : Reass → ℕ → Option (Errno × Reass)
unfolding mark_in
mark_block r blk_idx = mark_in r r.bitmap blk_idx

-- An error is returned to the caller at once.
abbrev pub if_ok :
    Option (Errno × Reass) → (Reass → Option (Errno × Reass)) → Option (Errno × Reass)
if_ok none next = none
if_ok (some (status, r)) next = if is_ok status then next r else some (status, r)

-- From the block's index on.
unfoldable pub place_frag : Reass → ℕ → Bool → Bytes → Option (Errno × Reass)
place_frag r seq_no is_last frag =
    let blk_idx = reass_hlp_seq_calc_diff r.first_seq_no seq_no in
    let offset = wrap (blk_idx * r.blk_size) in
    product_ok blk_idx r.blk_size offset >>= λ fits.
    (if not fits || ltb r.buf_size (wrap (offset + length frag))
      then some (einval, r)
      else if_ok (mark_block r blk_idx) (λ r'. add_data r' seq_no is_last frag offset))

-- `data_size` is the length of `frag`, the `data`, and a NULL pointer with size 0 is no bytes.
unfoldable pub reass_hlp_handle_frag : Reass → ℕ → Bool → Bool → Bytes → Option (Errno × Reass)
reass_hlp_handle_frag r seq_no is_first is_last frag =
    if_ok (some (open_frag r seq_no is_first is_last (length frag)))
      (λ r'. place_frag r' seq_no is_last frag)
