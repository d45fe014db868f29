-- ===== src/Crc32/Tests.antt =====
-- Runs of the functions of include/math/crc32.h on the texts of its self test, and the theorems at
-- concrete inputs.
use liblcb.Base.{
  ◌++◌, ◌≡◌, ◌≢◌, refl, arith, some, [], ◌∷◌, codes, Bytes, Bool, true, ◌&&◌, ltb, ltb→lt, and_true,
  All, IsByte,
}
use liblcb.Crc32.Register.{normal_register, reflect_register}
use liblcb.Crc32.Tables.{
  crc32_tbl256_04c11db7, crc32_tbl256_814141ab, crc32_tbl16_edb88320, crc32_tbl256_edb88320,
  crc32_tbl16_1edc6f41, crc32_tbl256_1edc6f41, crc32_tbl16_a833982b, crc32_tbl256_a833982b,
}
use liblcb.Crc32.Update.{
  not32, normal4_step, crc32_normal4, normal8_step, crc32_normal8, crc32_normal, reflect4_step,
  crc32_reflect4, reflect8_step, crc32_reflect8, crc32_reflect, crc32a_update, crc32cksum_update,
  crc32mpeg2_update, crc32b_update, crc32jamcrc_update, crc32c_update, crc32d_update, crc32q_update,
  crc32a, crc32cksum, crc32mpeg2, crc32b, crc32jamcrc, crc32c, crc32d, crc32q,
}
use liblcb.Crc32.Updates.{crc32_update-register}
use liblcb.Crc32.Changed.{crc32_update_changed}

abbrev digits : Bytes
digits = codes "123456789"

abbrev small : Bytes → Bool
small [] = true
small (x ∷ xs) = ltb x 256 && small xs

bytes_ok : (xs : Bytes) → small xs ≡ true → All IsByte xs
bytes_ok [] e = tt
bytes_ok (x ∷ xs) e =
    let (a, b) = and_true (ltb x 256) (small xs) e in (ltb→lt x 256 a, bytes_ok xs b)

abbrev fox : Bytes
fox = codes "The quick brown fox jumps over the lazy dog."

check_a : crc32a digits ≡ some 0xfc89_1918
unfolding crc32a crc32a_update normal4_step crc32_normal4 normal8_step crc32_normal8 crc32_normal
    crc32_tbl256_04c11db7
check_a = refl

check_cksum : crc32cksum digits ≡ some 0x765e_7680
unfolding crc32cksum crc32cksum_update normal4_step crc32_normal4 normal8_step crc32_normal8
    crc32_normal crc32_tbl256_04c11db7
check_cksum = refl

check_mpeg2 : crc32mpeg2 digits ≡ some 0x0376_e6e7
unfolding crc32mpeg2 crc32mpeg2_update normal4_step crc32_normal4 normal8_step crc32_normal8
    crc32_normal crc32_tbl256_04c11db7
check_mpeg2 = refl

check_b : crc32b digits ≡ some 0xcbf4_3926
unfolding crc32b crc32b_update reflect4_step crc32_reflect4 reflect8_step crc32_reflect8
    crc32_reflect crc32_tbl256_edb88320 crc32_tbl16_edb88320
check_b = refl

check_jamcrc : crc32jamcrc digits ≡ some 0x340b_c6d9
unfolding crc32jamcrc crc32jamcrc_update reflect4_step crc32_reflect4 reflect8_step crc32_reflect8
    crc32_reflect crc32_tbl256_edb88320 crc32_tbl16_edb88320
check_jamcrc = refl

check_c : crc32c digits ≡ some 0xe306_9283
unfolding crc32c crc32c_update reflect4_step crc32_reflect4 reflect8_step crc32_reflect8
    crc32_reflect crc32_tbl256_1edc6f41 crc32_tbl16_1edc6f41
check_c = refl

check_d : crc32d digits ≡ some 0x8731_5576
unfolding crc32d crc32d_update reflect4_step crc32_reflect4 reflect8_step crc32_reflect8
    crc32_reflect crc32_tbl256_a833982b crc32_tbl16_a833982b
check_d = refl

check_q : crc32q digits ≡ some 0x3010_bf7f
unfolding crc32q crc32q_update normal4_step crc32_normal4 normal8_step crc32_normal8 crc32_normal
    crc32_tbl256_814141ab
check_q = refl

long_a : crc32a (fox ++ fox) ≡ some 0x3c6c_e7f5
unfolding crc32a crc32a_update normal4_step crc32_normal4 normal8_step crc32_normal8 crc32_normal
    crc32_tbl256_04c11db7
long_a = refl

long_b : crc32b (fox ++ fox) ≡ some 0x77f1_35f3
unfolding crc32b crc32b_update reflect4_step crc32_reflect4 reflect8_step crc32_reflect8
    crc32_reflect crc32_tbl256_edb88320 crc32_tbl16_edb88320
long_b = refl

long_c : crc32c (fox ++ fox) ≡ some 0x05f4_2d23
unfolding crc32c crc32c_update reflect4_step crc32_reflect4 reflect8_step crc32_reflect8
    crc32_reflect crc32_tbl256_1edc6f41 crc32_tbl16_1edc6f41
long_c = refl

long_d : crc32d (fox ++ fox) ≡ some 0xb840_d0c9
unfolding crc32d crc32d_update reflect4_step crc32_reflect4 reflect8_step crc32_reflect8
    crc32_reflect crc32_tbl256_a833982b crc32_tbl16_a833982b
long_d = refl

long_q : crc32q (fox ++ fox) ≡ some 0x75ae_4cce
unfolding crc32q crc32q_update normal4_step crc32_normal4 normal8_step crc32_normal8 crc32_normal
    crc32_tbl256_814141ab
long_q = refl

crc32_update-register_example :
    (crc32a_update 7 digits ≡ some (not32 (normal_register 0x04c1_1db7 (not32 7) digits)))
    × (crc32cksum_update 7 digits ≡ some (not32 (normal_register 0x04c1_1db7 (not32 7) digits)))
    × (crc32mpeg2_update 7 digits ≡ some (normal_register 0x04c1_1db7 7 digits))
    × (crc32b_update 7 digits ≡ some (not32 (reflect_register 0xedb8_8320 (not32 7) digits)))
    × (crc32jamcrc_update 7 digits ≡ some (reflect_register 0xedb8_8320 7 digits))
    × (crc32c_update 7 digits ≡ some (not32 (reflect_register 0x82f6_3b78 (not32 7) digits)))
    × (crc32d_update 7 digits ≡ some (not32 (reflect_register 0xd419_cc15 (not32 7) digits)))
    × (crc32q_update 7 digits ≡ some (normal_register 0x8141_41ab 7 digits))
crc32_update-register_example = crc32_update-register 7 digits (omega arith) (bytes_ok digits refl)

crc32_update_changed_example :
    (crc32a_update 7 (digits ++ 1 ∷ fox) ≢ crc32a_update 7 (digits ++ 2 ∷ fox))
    × (crc32cksum_update 7 (digits ++ 1 ∷ fox) ≢ crc32cksum_update 7 (digits ++ 2 ∷ fox))
    × (crc32mpeg2_update 7 (digits ++ 1 ∷ fox) ≢ crc32mpeg2_update 7 (digits ++ 2 ∷ fox))
    × (crc32b_update 7 (digits ++ 1 ∷ fox) ≢ crc32b_update 7 (digits ++ 2 ∷ fox))
    × (crc32jamcrc_update 7 (digits ++ 1 ∷ fox) ≢ crc32jamcrc_update 7 (digits ++ 2 ∷ fox))
    × (crc32c_update 7 (digits ++ 1 ∷ fox) ≢ crc32c_update 7 (digits ++ 2 ∷ fox))
    × (crc32d_update 7 (digits ++ 1 ∷ fox) ≢ crc32d_update 7 (digits ++ 2 ∷ fox))
    × (crc32q_update 7 (digits ++ 1 ∷ fox) ≢ crc32q_update 7 (digits ++ 2 ∷ fox))
crc32_update_changed_example =
    crc32_update_changed 7 digits fox 1 2 (omega arith) (bytes_ok digits refl) (bytes_ok fox refl)
      (omega arith) (omega arith) (omega arith)
