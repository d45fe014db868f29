-- ===== src/BufStr/Tests.antt =====
-- Runs of the buffer helpers, and their round trip at a concrete input.
use liblcb.Base.{◌≡◌, refl, arith, some, none, [], ◌∷◌, ◌++◌, Bytes, ℕ, true, false}
use liblcb.Base.{List, none, ok, einval, enobufs, replicate, codes, ◌>>=◌}
use liblcb.Base.Buffer.{put, puts, store}
use liblcb.Base64.{null, mem}
use liblcb.Num.Hex.{hex_digit}
use liblcb.BufStr.{
  hex_loop, hex_done, convert_hex, cvt_hex2bin, hex_tbl, high_digit, low_digit, bin_loop,
  convert_bin, cvt_bin2hex, data_xor8, xor_loop, memxorbuf,
}
use liblcb.BufStr.Args.{
  is_sptab, calc_sptab_count, calc_sptab_count_r, calc_non_sptab_count, calc_non_sptab_count_r,
  arg_at, args_loop, buf2args, yn_set_flag32,
}
use liblcb.BufStr.Args.Words.{Word, line_of, cut_line, places, buf2args-line_of}
use liblcb.Memory.{mem_chr}
use liblcb.BufStr.Hex.{stored, decoded, cvt_hex2bin-cvt_bin2hex}

abbrev room : ℕ → Bytes
room n = replicate n 7

two_bytes_as_text :
    cvt_bin2hex (mem (0x0f ∷ 0xa4 ∷ [])) true (mem (room 6))
    ≡ some (record { status = ok; size_ret = some 4; out = mem (codes "0fa4" ++ (0 ∷ 7 ∷ [])) })
unfolding cvt_bin2hex convert_bin bin_loop puts put high_digit low_digit hex_tbl
two_bytes_as_text = refl

filled_with_zeros :
    cvt_bin2hex (mem (0x0f ∷ [])) false (mem (room 5))
    ≡ some (record { status = ok; size_ret = some 4; out = mem (codes "0f00" ++ (0 ∷ [])) })
unfolding cvt_bin2hex convert_bin bin_loop puts put high_digit low_digit hex_tbl
filled_with_zeros = refl

no_bytes_as_text :
    (cvt_bin2hex (mem []) true (mem (room 5))
      ≡ some
          (record { status = ok; size_ret = some 2; out = mem (codes "00" ++ (0 ∷ 7 ∷ 7 ∷ [])) }))
    × (cvt_bin2hex (mem []) false (mem (room 5))
        ≡ some (record { status = ok; size_ret = some 4; out = mem (codes "0000" ++ (0 ∷ [])) }))
unfolding cvt_bin2hex convert_bin puts put
no_bytes_as_text = (refl, refl)

text_errors :
    (cvt_bin2hex (mem (1 ∷ 2 ∷ [])) true (mem (room 3))
      ≡ some (record { status = enobufs; size_ret = some 4; out = mem (room 3) }))
    × (cvt_bin2hex (null 2) true (mem (room 3))
        ≡ some (record { status = einval; size_ret = none; out = mem (room 3) }))
    × (cvt_hex2bin (mem (codes "0fa4")) true (null 1)
        ≡ some (record { status = enobufs; size_ret = some 2; out = null 1 }))
    × (cvt_hex2bin (mem []) true (mem (room 3))
        ≡ some (record { status = einval; size_ret = none; out = mem (room 3) }))
unfolding cvt_bin2hex convert_bin cvt_hex2bin convert_hex
text_errors = (refl, refl, refl, refl)

text_with_junk :
    (cvt_hex2bin (mem (codes "0F:a4 1")) false (mem (room 4))
      ≡ some (record { status = ok; size_ret = some 2; out = mem (0x0f ∷ 0xa4 ∷ 7 ∷ 7 ∷ []) }))
    × (cvt_hex2bin (mem (codes "0F:a4 1")) true (mem (room 4))
        ≡ some (record { status = ok; size_ret = some 4; out = mem (0x0f ∷ 0xa4 ∷ 0 ∷ 0 ∷ []) }))
unfolding cvt_hex2bin convert_hex hex_loop hex_done hex_digit puts put
text_with_junk = (refl, refl)

xor_runs :
    (data_xor8 (mem (1 ∷ 2 ∷ 7 ∷ [])) ≡ 4)
    × (memxorbuf (mem (1 ∷ 2 ∷ 3 ∷ [])) (mem (1 ∷ 2 ∷ [])) ≡ mem (0 ∷ 0 ∷ 2 ∷ []))
unfolding data_xor8 memxorbuf xor_loop
xor_runs = (refl, refl)

blanks_at_both_ends :
    (calc_sptab_count (codes "  ab ") ≡ 2)
    × (calc_sptab_count_r (codes "  ab ") ≡ 1)
    × (calc_non_sptab_count (codes "ab c") ≡ 2)
    × (calc_non_sptab_count_r (codes "ab cde") ≡ 3)
unfolding calc_sptab_count calc_sptab_count_r calc_non_sptab_count calc_non_sptab_count_r is_sptab
blanks_at_both_ends = (refl, refl, refl, refl)

-- The first byte is a blank too, or no blank, and is not counted.
first_byte_left_out :
    (calc_sptab_count_r (codes "   ") ≡ 2) × (calc_non_sptab_count_r (codes "abc") ≡ 2)
unfolding calc_sptab_count_r calc_non_sptab_count_r is_sptab
first_byte_left_out = (refl, refl)

quoted_argument :
    buf2args (codes " a \"b c\" d") 2
    ≡ some (record {
      args = record { start = 1; size = 1 } ∷ record { start = 4; size = 3 } ∷ [];
      buf = codes " a" ++ (0 ∷ codes "\"b c" ++ (0 ∷ codes " d"));
    })
unfolding buf2args args_loop arg_at calc_sptab_count calc_non_sptab_count is_sptab store mem_chr
quoted_argument = refl

-- The 0 behind an argument that the buffer ends with is a write behind the buffer.
last_argument : buf2args (codes "a b") 2 ≡ none
unfolding buf2args args_loop arg_at calc_sptab_count calc_non_sptab_count is_sptab store
last_argument = refl

flag_runs :
    (yn_set_flag32 (codes "yes") 4 (some 3) ≡ (ok, some 7))
    × (yn_set_flag32 (codes "No") 2 (some 3) ≡ (ok, some 1))
    × (yn_set_flag32 [] 2 (some 3) ≡ (ok, some 1))
    × (yn_set_flag32 (codes "x") 2 (some 3) ≡ (einval, some 3))
unfolding yn_set_flag32
flag_runs = (refl, refl, refl, refl)

abbrev two_words : List Word
two_words =
    record { gap = codes " "; first = b'a'; others = codes "bc"; end = 9 }
    ∷ record { gap = []; first = b'd'; others = []; end = b' ' }
    ∷ []

buf2args-line_of_example :
    buf2args (line_of two_words (codes " ")) 5
    ≡ some (record { args = places 0 two_words; buf = cut_line two_words (codes " ") })
unfolding is_sptab
buf2args-line_of_example =
    buf2args-line_of two_words (codes " ") 5
      (((refl, tt), (refl, (refl, (refl, tt))), refl, refl), ((tt, (refl, tt), refl, refl), tt))
      (refl, tt) (omega arith)

cvt_hex2bin-cvt_bin2hex_example :
    (cvt_bin2hex (mem (0x0f ∷ 0xa4 ∷ [])) true (mem (room 6)) >>= λ r.
    cvt_hex2bin (stored r) false (mem (room 3)))
    ≡ some (decoded false (0x0f ∷ 0xa4 ∷ []) (room 3))
cvt_hex2bin-cvt_bin2hex_example =
    cvt_hex2bin-cvt_bin2hex 0x0f (0xa4 ∷ []) (room 6) (room 3) false
      (omega arith, (omega arith, tt)) (omega arith) (omega arith) (omega arith)
