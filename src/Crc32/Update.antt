-- ===== src/Crc32/Update.antt =====
-- The byte loops of include/math/crc32.h and the macros over them. `none` is a read outside a
-- table.
use liblcb.Base.{
  ℕ, ◌-◌, ◌*◌, ◌/◌, ◌%◌, ◌^◌, List, [], ◌∷◌, Option, none, some, ◌>>=◌, Bytes, length, get_elem?,
  ltb, if◌then◌else◌,
}
use Prim.Native.Nat.{bit_xor}
use liblcb.Crc32.Tables.{
  crc32_tbl256_04c11db7, crc32_tbl256_814141ab, crc32_tbl16_edb88320, crc32_tbl256_edb88320,
  crc32_tbl16_1edc6f41, crc32_tbl256_1edc6f41, crc32_tbl16_a833982b, crc32_tbl256_a833982b,
}

-- `x << n` and `~x` of a `uint32_t`.
abbrev pub shl32 : ℕ → ℕ → ℕ
shl32 x n = x * 2 ^ n % 2 ^ 32

abbrev pub not32 : ℕ → ℕ
not32 x = 2 ^ 32 - 1 - x

abbrev pub crc32_small_tbl_limit : ℕ
crc32_small_tbl_limit = 64

unfoldable pub normal4_step : List ℕ → ℕ → Option ℕ
normal4_step table256 crc =
    get_elem? table256 (crc / 2 ^ 28) >>= (λ entry. some (bit_xor (shl32 crc 4) entry))

unfoldable pub crc32_normal4 : List ℕ → ℕ → Bytes → Option ℕ
crc32_normal4 table256 crc [] = some crc
crc32_normal4 table256 crc (byte ∷ buf) =
    normal4_step table256 (bit_xor crc (shl32 byte 24))
    >>= normal4_step table256
    >>= (λ crc'. crc32_normal4 table256 crc' buf)

unfoldable pub normal8_step : List ℕ → ℕ → ℕ → Option ℕ
normal8_step table256 crc byte =
    get_elem? table256 (bit_xor (crc / 2 ^ 24) byte)
    >>= (λ entry. some (bit_xor (shl32 crc 8) entry))

unfoldable pub crc32_normal8 : List ℕ → ℕ → Bytes → Option ℕ
crc32_normal8 table256 crc [] = some crc
crc32_normal8 table256 crc (byte ∷ buf) =
    normal8_step table256 crc byte >>= (λ crc'. crc32_normal8 table256 crc' buf)

unfoldable pub crc32_normal : List ℕ → ℕ → Bytes → Option ℕ
crc32_normal table256 init buf =
    if ltb (length buf) crc32_small_tbl_limit
    then crc32_normal4 table256 init buf
    else crc32_normal8 table256 init buf

unfoldable pub reflect4_step : List ℕ → ℕ → Option ℕ
reflect4_step table16 crc =
    get_elem? table16 (crc % 2 ^ 4) >>= (λ entry. some (bit_xor (crc / 2 ^ 4) entry))

unfoldable pub crc32_reflect4 : List ℕ → ℕ → Bytes → Option ℕ
crc32_reflect4 table16 crc [] = some crc
crc32_reflect4 table16 crc (byte ∷ buf) =
    reflect4_step table16 (bit_xor crc byte)
    >>= reflect4_step table16
    >>= (λ crc'. crc32_reflect4 table16 crc' buf)

unfoldable pub reflect8_step : List ℕ → ℕ → ℕ → Option ℕ
reflect8_step table256 crc byte =
    get_elem? table256 (bit_xor byte crc % 2 ^ 8) >>= (λ entry. some (bit_xor (crc / 2 ^ 8) entry))

unfoldable pub crc32_reflect8 : List ℕ → ℕ → Bytes → Option ℕ
crc32_reflect8 table256 crc [] = some crc
crc32_reflect8 table256 crc (byte ∷ buf) =
    reflect8_step table256 crc byte >>= (λ crc'. crc32_reflect8 table256 crc' buf)

-- `none` for the table of 16 is the null pointer.
unfoldable pub crc32_reflect : List ℕ → Option (List ℕ) → ℕ → Bytes → Option ℕ
crc32_reflect table256 none init buf = crc32_reflect8 table256 init buf
crc32_reflect table256 (some table16) init buf =
    if ltb (length buf) crc32_small_tbl_limit
    then crc32_reflect4 table16 init buf
    else crc32_reflect8 table256 init buf

abbrev pub not_result : Option ℕ → Option ℕ
not_result none = none
not_result (some crc) = some (not32 crc)

unfoldable pub crc32a_update : ℕ → Bytes → Option ℕ
crc32a_update crc bytes = not_result (crc32_normal crc32_tbl256_04c11db7 (not32 crc) bytes)

unfoldable pub crc32a : Bytes → Option ℕ
crc32a bytes = crc32a_update (not32 0xffff_ffff) bytes

unfoldable pub crc32cksum_update : ℕ → Bytes → Option ℕ
crc32cksum_update crc bytes = not_result (crc32_normal crc32_tbl256_04c11db7 (not32 crc) bytes)

unfoldable pub crc32cksum : Bytes → Option ℕ
crc32cksum bytes = crc32cksum_update (not32 0) bytes

unfoldable pub crc32mpeg2_update : ℕ → Bytes → Option ℕ
crc32mpeg2_update crc bytes = crc32_normal crc32_tbl256_04c11db7 crc bytes

unfoldable pub crc32mpeg2 : Bytes → Option ℕ
crc32mpeg2 bytes = crc32mpeg2_update 0xffff_ffff bytes

unfoldable pub crc32b_update : ℕ → Bytes → Option ℕ
crc32b_update crc bytes =
    not_result (crc32_reflect crc32_tbl256_edb88320 (some crc32_tbl16_edb88320) (not32 crc) bytes)

unfoldable pub crc32b : Bytes → Option ℕ
crc32b bytes = crc32b_update (not32 0xffff_ffff) bytes

unfoldable pub crc32jamcrc_update : ℕ → Bytes → Option ℕ
crc32jamcrc_update crc bytes =
    crc32_reflect crc32_tbl256_edb88320 (some crc32_tbl16_edb88320) crc bytes

unfoldable pub crc32jamcrc : Bytes → Option ℕ
crc32jamcrc bytes = crc32jamcrc_update 0xffff_ffff bytes

unfoldable pub crc32c_update : ℕ → Bytes → Option ℕ
crc32c_update crc bytes =
    not_result (crc32_reflect crc32_tbl256_1edc6f41 (some crc32_tbl16_1edc6f41) (not32 crc) bytes)

unfoldable pub crc32c : Bytes → Option ℕ
crc32c bytes = crc32c_update (not32 0xffff_ffff) bytes

unfoldable pub crc32d_update : ℕ → Bytes → Option ℕ
crc32d_update crc bytes =
    not_result (crc32_reflect crc32_tbl256_a833982b (some crc32_tbl16_a833982b) (not32 crc) bytes)

unfoldable pub crc32d : Bytes → Option ℕ
crc32d bytes = crc32d_update (not32 0xffff_ffff) bytes

unfoldable pub crc32q_update : ℕ → Bytes → Option ℕ
crc32q_update crc bytes = crc32_normal crc32_tbl256_814141ab crc bytes

unfoldable pub crc32q : Bytes → Option ℕ
crc32q bytes = crc32q_update 0 bytes
