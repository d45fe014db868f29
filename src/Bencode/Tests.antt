-- ===== src/Bencode/Tests.antt =====
-- Runs of the functions of src/utils/bt_encode.c, and the theorems at concrete inputs.
use liblcb.Base.{◌-◌, ◌^◌, ◌≡◌, refl, arith, none, [], codes}
use liblcb.Memory.{mem_chr, mem_cmpn}
use liblcb.Num.Parse.{str2usize, str2s64, str2snum, str2unum, str2num, str2num_sign}
use liblcb.Bencode.{
  found, overread, unfinished, node_str, node_num, node_list, node_dict, no_nodes, node_then,
  no_pairs, pair_then,
}
use liblcb.Bencode.{
  bt_en_decode, decode_text, decode_str, decode_num, decode_list, decode_dict, next_item,
  bt_dict_find, find_loop, same_key, hit,
}
use liblcb.Bencode.Endless.{message, bt_en_decode-endless}
use liblcb.Bencode.Str.{encoded, string_result, bt_en_decode_string}

-- The range of a list leaves out its last byte.
list_run :
    bt_en_decode 9 100 (codes "l1:xi-7ee") 100
    ≡ found
        (node_list 101 6
          (node_then (node_str 103 1) (node_then (node_num 105 2 (2 ^ 64 - 7)) no_nodes)))
        9
unfolding bt_en_decode decode_text decode_str decode_num decode_list next_item mem_chr str2usize
    str2s64 str2snum str2unum str2num str2num_sign
list_run = refl

dict_run :
    bt_dict_find 0
      (codes "d1:ai5ee")
      (node_dict 1 5 (pair_then (node_str 3 1) (node_num 5 1 5) no_pairs))
      none
      (codes "a")
      255
    ≡ hit (node_num 5 1 5) 0
unfolding bt_dict_find find_loop same_key mem_cmpn
dict_run = refl

-- A key that is no string ends a dictionary without an error.
key_run : bt_en_decode 9 100 (codes "di1ei2ee") 100 ≡ found (node_dict 101 (2 ^ 64 - 1) no_pairs) 2
unfolding bt_en_decode decode_text decode_num decode_dict mem_chr str2s64 str2snum str2num
    str2num_sign
key_run = refl

-- The byte behind an item is read without a check.
end_run : bt_en_decode 9 100 (codes "li5e") 100 ≡ overread
unfolding bt_en_decode decode_text decode_num decode_list next_item mem_chr str2s64 str2snum str2num
    str2num_sign
end_run = refl

bt_en_decode-endless_example : bt_en_decode 1000 4096 (message (codes "spam")) 4096 ≡ unfinished
bt_en_decode-endless_example = bt_en_decode-endless 1000 4096 (codes "spam") (omega arith)

bt_en_decode_string_example :
    bt_en_decode 1 4096 (encoded b'4' [] (codes "spam") (codes "e")) 4096
    ≡ string_result 4096 [] (codes "spam") (codes "e")
unfolding str2usize str2unum str2num
bt_en_decode_string_example =
    bt_en_decode_string 0 4096 b'4' [] (codes "spam") (codes "e") ((omega arith, omega arith), tt)
      refl (omega arith)
