-- ===== src/Bencode.antt =====
-- src/utils/bt_encode.c: decoding a bencoded buffer, and finding a key in a dictionary. The buffer
-- `mem` stands at the address `base`, and a pointer is an address.
mod Tests
pub mod Str
pub mod Endless
use liblcb.Base.{
  ℕ, zero, suc, ◌+◌, ◌-◌, ◌%◌, ◌^◌, Option, none, some, [], ◌∷◌, Bytes, Bool, true, false,
}
use liblcb.Base.{
  ltb, leb, ◌==◌, if◌then◌else◌, ◌&&◌, ◌||◌, not, length, take, drop, get_elem?, wrap,
}
use liblcb.Base.{Errno, einval, ebadmsg}
use liblcb.Memory.{mem_chr, mem_cmpn}
use liblcb.Num.Parse.{str2usize, str2s64}

-- `bt_en_node_t`: `raw` and `raw_size`, and `val`. The value of a string is `raw` again, and a number
-- is its 64-bit pattern.
mutual
  pub data Node : Type 0 where
    node_str : ℕ → ℕ → Node
    node_num : ℕ → ℕ → ℕ → Node
    node_list : ℕ → ℕ → Nodes → Node
    node_dict : ℕ → ℕ → Pairs → Node

  pub data Nodes : Type 0 where
    no_nodes : Nodes
    node_then : Node → Nodes → Nodes

  pub data Pairs : Type 0 where
    no_pairs : Pairs
    pair_then : Node → Node → Pairs → Pairs

-- What a call or a loop comes to: a result and where it ends, an error, or a read outside the
-- buffer. `unfinished` means that the fuel ran out.
pub data Result {ℓ} (A : Type ℓ) : Type ℓ where
  found : A → ℕ → Result A
  failed : Errno → Result A
  overread : Result A
  unfinished : Result A

-- `a - b` on addresses and sizes.
abbrev pub minus : ℕ → ℕ → ℕ
minus a b = (a + 2 ^ 64 - b) % 2 ^ 64

abbrev pub is_digit : ℕ → Bool
is_digit b = leb b'0' b && leb b b'9'

-- The case of a byte string, where `text` is the buffer from `cur` on.
unfoldable pub decode_str : ℕ → ℕ → Bytes → Result Node
decode_str buf_max cur text = elim (mem_chr (drop 1 text) b':') [
  | none ↦ failed ebadmsg
  | some k ↦
      let raw_size = str2usize (some (take (suc k) text)) in
      let ptm = cur + suc k + 1 in
      if leb buf_max (wrap (raw_size + ptm))
      then failed ebadmsg
      else found (node_str ptm raw_size) (wrap (raw_size + (suc k + 1)))
]

-- The case of an integer.
unfoldable pub decode_num : ℕ → Bytes → Result Node
decode_num cur text = elim (mem_chr (drop 1 text) b'e') [
  | none ↦ failed ebadmsg
  | some k ↦ found (node_num (cur + 1) k (str2s64 (some (take k (drop 1 text))))) (suc k + 1)
]

-- The ends of the cases of a list and a dictionary.
unfoldable pub decode_list : ℕ → Result Nodes → Result Node
decode_list cur (found l at) =
    found (node_list (cur + 1) (minus at (cur + 2)) l) (minus (at + 1) cur)
decode_list cur (failed error) = failed error
decode_list cur overread = overread
decode_list cur unfinished = unfinished

unfoldable pub decode_dict : ℕ → Result Pairs → Result Node
decode_dict cur (found d at) =
    found (node_dict (cur + 1) (minus at (cur + 2)) d) (minus (at + 1) cur)
decode_dict cur (failed error) = failed error
decode_dict cur overread = overread
decode_dict cur unfinished = unfinished

-- The `switch` over the first byte.
unfoldable pub decode_text : ℕ → ℕ → Bytes → Result Nodes → Result Pairs → Result Node
decode_text buf_max cur [] l d = overread
decode_text buf_max cur (b ∷ bs) l d =
    if is_digit b
    then decode_str buf_max cur (b ∷ bs)
    else if b == b'i'
    then decode_num cur (b ∷ bs)
    else if b == b'l'
    then decode_list cur l
    else if b == b'd'
    then decode_dict cur d
    else failed ebadmsg

-- `*cur`, where `none` is a read outside the buffer.
abbrev pub byte_at : ℕ → Bytes → ℕ → Option ℕ
byte_at base mem cur = if ltb cur base then none else get_elem? mem (cur - base)

-- A loop behind an item: the range check, and whether its end follows.
unfoldable pub next_item : {A : Type 0} → ℕ → Bytes → ℕ → A → (A → A) → Result A → Result A
next_item base mem cur last before rest =
    if ltb (base + length mem) cur then failed ebadmsg else elim (byte_at base mem cur) [
      | none ↦ overread
      | some b ↦ if b == b'e' then found last cur else elim rest [
        | found items at ↦ found (before items) at
        | failed error ↦ failed error
        | overread ↦ overread
        | unfinished ↦ unfinished
      ]
    ]

abbrev pub is_str : Node → Bool
is_str (node_str raw raw_size) = true
is_str (node_num raw raw_size i) = false
is_str (node_list raw raw_size l) = false
is_str (node_dict raw raw_size d) = false

unfoldable mutual
  -- The call on the buffer from `cur` on.
  pub bt_en_decode : ℕ → ℕ → Bytes → ℕ → Result Node
  bt_en_decode zero base mem cur = unfinished
  bt_en_decode (suc fuel) base mem cur =
      let l = list_loop fuel base mem (cur + 1) in
      let d = dict_loop fuel base mem (cur + 1) in
      if cur == base + length mem
      then failed einval
      else if ltb cur base || ltb (base + length mem) cur
      then overread
      else decode_text (base + length mem) cur (drop (cur - base) mem) l d

  pub list_loop : ℕ → ℕ → Bytes → ℕ → Result Nodes
  list_loop zero base mem cur = unfinished
  list_loop (suc fuel) base mem cur = elim (bt_en_decode fuel base mem cur) [
    | found node off ↦
        next_item base mem (wrap (cur + off)) (node_then node no_nodes) (node_then node)
          (list_loop fuel base mem (wrap (cur + off)))
    | failed error ↦ failed error
    | overread ↦ overread
    | unfinished ↦ unfinished
  ]

  -- A key that is no string ends the loop without an error.
  pub dict_loop : ℕ → ℕ → Bytes → ℕ → Result Pairs
  dict_loop zero base mem cur = unfinished
  dict_loop (suc fuel) base mem cur = elim (bt_en_decode fuel base mem cur) [
    | found key key_off ↦ elim (is_str key) [
      | false ↦ found no_pairs cur
      | true ↦ elim (bt_en_decode fuel base mem (wrap (cur + key_off))) [
        | found node off ↦
            next_item base mem (wrap (wrap (cur + key_off) + off)) (pair_then key node no_pairs)
              (pair_then key node) (dict_loop fuel base mem (wrap (wrap (cur + key_off) + off)))
        | failed error ↦ failed error
        | overread ↦ overread
        | unfinished ↦ unfinished
      ]
    ]
    | failed error ↦ failed error
    | overread ↦ overread
    | unfinished ↦ unfinished
  ]

-- BT_EN_TYPE_*
abbrev pub type_of : Node → ℕ
type_of (node_str raw raw_size) = 0
type_of (node_num raw raw_size i) = 1
type_of (node_list raw raw_size l) = 2
type_of (node_dict raw raw_size d) = 3

-- `0 == mem_cmpn(key_name, key_name_size, key->val.s, key->raw_size)`; `none` is a read outside the
-- buffer, or through a key that is no string.
unfoldable pub same_key : ℕ → Bytes → Bytes → Node → Option Bool
same_key base mem key_name (node_str raw raw_size) =
    if not (length key_name == raw_size)
    then some false
    else if ltb raw base || ltb (base + length mem) (raw + raw_size)
    then none
    else some (mem_cmpn key_name (take raw_size (drop (raw - base) mem)))
same_key base mem key_name (node_num raw raw_size i) = none
same_key base mem key_name (node_list raw raw_size l) = none
same_key base mem key_name (node_dict raw raw_size d) = none

-- What `bt_dict_find` comes to: 0 with the value and its index, -1, EINVAL, or a bad read.
pub data Lookup : Type 0 where
  hit : Node → ℕ → Lookup
  miss : Lookup
  bad_args : Lookup
  bad_read : Lookup

-- The loop; the first `off` entries are passed over, and `i` counts.
unfoldable pub find_loop : ℕ → Bytes → Bytes → ℕ → ℕ → ℕ → Pairs → Lookup
find_loop base mem key_name key_type off i no_pairs = miss
find_loop base mem key_name key_type off i (pair_then key val d) =
    let later = find_loop base mem key_name key_type off (suc i) d in
    if ltb i off || not (type_of val == key_type || key_type == 255)
    then later
    else elim (same_key base mem key_name key) [
      | none ↦ bad_read
      | some true ↦ hit val i
      | some false ↦ later
    ]

-- No offset is `none`, which is 0.
unfoldable pub bt_dict_find : ℕ → Bytes → Node → Option ℕ → Bytes → ℕ → Lookup
bt_dict_find base mem (node_str raw raw_size) cur_off key_name key_type = bad_args
bt_dict_find base mem (node_num raw raw_size i) cur_off key_name key_type = bad_args
bt_dict_find base mem (node_list raw raw_size l) cur_off key_name key_type = bad_args
bt_dict_find base mem (node_dict raw raw_size no_pairs) cur_off key_name key_type = bad_args
bt_dict_find base mem (node_dict raw raw_size (pair_then key val d)) cur_off key_name key_type =
    let off : ℕ = elim cur_off [ none ↦ 0 | some i ↦ i ] in
    if length key_name == 0
    then bad_args
    else find_loop base mem key_name key_type off 0 (pair_then key val d)
