-- ===== src/Base64.antt =====
-- include/utils/base64.h. `none` is a write past the end of a buffer.
pub mod Tables
pub mod Encode
pub mod Decode
pub mod RoundTrip
pub mod InPlace
mod Tests
use liblcb.Base.{
  ℕ, zero, suc, ◌+◌, ◌-◌, ◌*◌, ◌/◌, ◌%◌, ◌^◌, Option, none, some, List, [], ◌∷◌, Bytes,
}
use liblcb.Base.{ltb, leb, ◌==◌, if◌then◌else◌, not, length, get_or, take, bit_and, bit_or, codes}
use liblcb.Base.{◌>>=◌, Errno, ok, einval, enobufs}
use liblcb.Base.Buffer.{Cursor, put, puts, buffer}

unfoldable pub base64_tbl_coding : Bytes
base64_tbl_coding = codes "ABCDEFGHIJKLMNOPQRSTUVWXYZabcdefghijklmnopqrstuvwxyz0123456789+/"

-- `base64_tbl_decoding`, row by row of 16: 64 stands for a byte that is no symbol.
unfoldable pub base64_tbl_decoding : Bytes
base64_tbl_decoding =
    64 ∷ 64 ∷ 64 ∷ 64 ∷ 64 ∷ 64 ∷ 64 ∷ 64 ∷ 64 ∷ 64 ∷ 64 ∷ 64 ∷ 64 ∷ 64 ∷ 64 ∷ 64 ∷ 64 ∷ 64 ∷ 64
    ∷ 64 ∷ 64 ∷ 64 ∷ 64 ∷ 64 ∷ 64 ∷ 64 ∷ 64 ∷ 64 ∷ 64 ∷ 64 ∷ 64 ∷ 64 ∷ 64 ∷ 64 ∷ 64 ∷ 64 ∷ 64 ∷ 64
    ∷ 64 ∷ 64 ∷ 64 ∷ 64 ∷ 64 ∷ 62 ∷ 64 ∷ 64 ∷ 64 ∷ 63 ∷ 52 ∷ 53 ∷ 54 ∷ 55 ∷ 56 ∷ 57 ∷ 58 ∷ 59 ∷ 60
    ∷ 61 ∷ 64 ∷ 64 ∷ 64 ∷ 64 ∷ 64 ∷ 64 ∷ 64 ∷ 0 ∷ 1 ∷ 2 ∷ 3 ∷ 4 ∷ 5 ∷ 6 ∷ 7 ∷ 8 ∷ 9 ∷ 10 ∷ 11 ∷ 12
    ∷ 13 ∷ 14 ∷ 15 ∷ 16 ∷ 17 ∷ 18 ∷ 19 ∷ 20 ∷ 21 ∷ 22 ∷ 23 ∷ 24 ∷ 25 ∷ 64 ∷ 64 ∷ 64 ∷ 64 ∷ 64 ∷ 64
    ∷ 26 ∷ 27 ∷ 28 ∷ 29 ∷ 30 ∷ 31 ∷ 32 ∷ 33 ∷ 34 ∷ 35 ∷ 36 ∷ 37 ∷ 38 ∷ 39 ∷ 40 ∷ 41 ∷ 42 ∷ 43 ∷ 44
    ∷ 45 ∷ 46 ∷ 47 ∷ 48 ∷ 49 ∷ 50 ∷ 51 ∷ 64 ∷ 64 ∷ 64 ∷ 64 ∷ 64 ∷ 64 ∷ 64 ∷ 64 ∷ 64 ∷ 64 ∷ 64 ∷ 64
    ∷ 64 ∷ 64 ∷ 64 ∷ 64 ∷ 64 ∷ 64 ∷ 64 ∷ 64 ∷ 64 ∷ 64 ∷ 64 ∷ 64 ∷ 64 ∷ 64 ∷ 64 ∷ 64 ∷ 64 ∷ 64 ∷ 64
    ∷ 64 ∷ 64 ∷ 64 ∷ 64 ∷ 64 ∷ 64 ∷ 64 ∷ 64 ∷ 64 ∷ 64 ∷ 64 ∷ 64 ∷ 64 ∷ 64 ∷ 64 ∷ 64 ∷ 64 ∷ 64 ∷ 64
    ∷ 64 ∷ 64 ∷ 64 ∷ 64 ∷ 64 ∷ 64 ∷ 64 ∷ 64 ∷ 64 ∷ 64 ∷ 64 ∷ 64 ∷ 64 ∷ 64 ∷ 64 ∷ 64 ∷ 64 ∷ 64 ∷ 64
    ∷ 64 ∷ 64 ∷ 64 ∷ 64 ∷ 64 ∷ 64 ∷ 64 ∷ 64 ∷ 64 ∷ 64 ∷ 64 ∷ 64 ∷ 64 ∷ 64 ∷ 64 ∷ 64 ∷ 64 ∷ 64 ∷ 64
    ∷ 64 ∷ 64 ∷ 64 ∷ 64 ∷ 64 ∷ 64 ∷ 64 ∷ 64 ∷ 64 ∷ 64 ∷ 64 ∷ 64 ∷ 64 ∷ 64 ∷ 64 ∷ 64 ∷ 64 ∷ 64 ∷ 64
    ∷ 64 ∷ 64 ∷ 64 ∷ 64 ∷ 64 ∷ 64 ∷ 64 ∷ 64 ∷ 64 ∷ 64 ∷ 64 ∷ 64 ∷ 64 ∷ 64 ∷ 64 ∷ 64 ∷ 64 ∷ 64 ∷ 64
    ∷ 64 ∷ 64 ∷ 64 ∷ 64 ∷ 64 ∷ 64 ∷ 64 ∷ []

-- A pointer and a size: NULL with a size, or the address of that many bytes.
pub data Src : Type 0 where
  null : ℕ → Src
  mem : Bytes → Src

-- What a call returns, what it stores through its size pointer, and the destination after it.
pub record Coded : Type 0 where
  pub status : Errno
  pub size_ret : Option ℕ
  pub dst : Option Bytes

unfoldable pub symbol : ℕ → ℕ
symbol i = get_or base64_tbl_coding i 0

abbrev pub index_1 : ℕ → ℕ
index_1 a = a / 4

abbrev pub index_2 : ℕ → ℕ → ℕ
index_2 a b = bit_or (bit_and (a * 16) 0x30) (bit_and (b / 16) 0x0f)

abbrev pub index_3 : ℕ → ℕ → ℕ
index_3 b c = bit_or (bit_and (b * 4) 0x3c) (bit_and (c / 64) 0x03)

abbrev pub index_4 : ℕ → ℕ
index_4 c = bit_and c 0x3f

-- The main loop takes three bytes while three are left, and the tail is what it leaves.
unfoldable pub encode_loop : Bytes → Cursor → Option Cursor
encode_loop [] w = some w
encode_loop (a ∷ []) w =
    puts w (symbol (index_1 a) ∷ symbol (bit_and (a * 16) 0x30) ∷ b'=' ∷ b'=' ∷ [])
encode_loop (a ∷ b ∷ []) w =
    puts w (symbol (index_1 a) ∷ symbol (index_2 a b) ∷ symbol (bit_and (b * 4) 0x3c) ∷ b'=' ∷ [])
encode_loop (a ∷ b ∷ c ∷ bs) w =
    puts w
      (symbol (index_1 a) ∷ symbol (index_2 a b) ∷ symbol (index_3 b c) ∷ symbol (index_4 c) ∷ [])
    >>= λ w'. encode_loop bs w'

-- `enc_size` of `src_size` bytes; the product is a `size_t`.
unfoldable pub encoded_size : ℕ → ℕ
encoded_size n = (if n / 3 * 3 == n then n / 3 else n / 3 + 1) * 4 % 2 ^ 64

-- The destination from the checks on: the symbols, then `(*wpos) = 0`.
unfoldable pub encode_to : Bytes → Bytes → Option Coded
encode_to src dst = encode_loop src (record { written = []; room = dst }) >>= λ w. put w 0 >>= λ w'.
    some
      (record { status = ok; size_ret = some (encoded_size (length src)); dst = some (buffer w') })

-- `dst_size` is what the caller says that `dst` holds.
unfoldable pub base64_encode : Src → Option Bytes → ℕ → Option Coded
base64_encode (null n) dst dst_size =
    if n == 0
    then some (record { status = ok; size_ret = some 0; dst = dst })
    else some (record { status = einval; size_ret = none; dst = dst })
base64_encode (mem []) dst dst_size = some (record { status = ok; size_ret = some 0; dst = dst })
base64_encode (mem (b ∷ bs)) none dst_size =
    let n = encoded_size (length (b ∷ bs)) in
    some (record {
      status = if ltb dst_size n then enobufs else einval;
      size_ret = some n;
      dst = none;
    })
base64_encode (mem (b ∷ bs)) (some dst) dst_size =
    let n = encoded_size (length (b ∷ bs)) in
    if ltb dst_size n
    then some (record { status = enobufs; size_ret = some n; dst = some dst })
    else encode_to (b ∷ bs) dst

unfoldable pub value : ℕ → ℕ
value c = get_or base64_tbl_decoding c 0

abbrev pub byte_1 : ℕ → ℕ → ℕ
byte_1 p q = bit_or (value p * 4) (value q / 16) % 256

abbrev pub byte_2 : ℕ → ℕ → ℕ
byte_2 q r = bit_or (value q * 16) (value r / 4) % 256

abbrev pub byte_3 : ℕ → ℕ → ℕ
byte_3 r s = bit_or (value r * 64) (value s) % 256

-- The main loop takes four symbols while four are left; the tail is two, three, or ignored.
unfoldable pub decode_loop : Bytes → Cursor → Option Cursor
decode_loop [] w = some w
decode_loop (p ∷ []) w = some w
decode_loop (p ∷ q ∷ []) w = puts w (byte_1 p q ∷ [])
decode_loop (p ∷ q ∷ r ∷ []) w = puts w (byte_1 p q ∷ byte_2 q r ∷ [])
decode_loop (p ∷ q ∷ r ∷ s ∷ cs) w =
    puts w (byte_1 p q ∷ byte_2 q r ∷ byte_3 r s ∷ []) >>= λ w'. decode_loop cs w'

-- `for (src_size_real = src_size; 0 < src_size_real; src_size_real --)` down over the padding.
unfoldable pub size_real : Bytes → ℕ → ℕ
size_real src zero = 0
size_real src (suc n) = if get_or src n 0 == b'=' then size_real src n else suc n

-- `dcd_size`, an upper bound of what is written.
unfoldable pub decoded_size : ℕ → ℕ
decoded_size n = (if n / 4 * 4 == n then n / 4 else n / 4 + 1) * 3

-- The destination from the checks on; `src` has lost its padding.
unfoldable pub decode_to : Bytes → Bytes → Option Coded
decode_to src dst = decode_loop src (record { written = []; room = dst }) >>= λ w. put w 0 >>= λ w'.
    some (record { status = ok; size_ret = some (length w.written); dst = some (buffer w') })

decode_checked : Bytes → Option Bytes → ℕ → Option Coded
decode_checked src none dst_size =
    let n = decoded_size (length src) in
    some (
      if ltb dst_size n
      then record { status = enobufs; size_ret = some n; dst = none }
      else record { status = einval; size_ret = none; dst = none })
decode_checked src (some dst) dst_size =
    let n = decoded_size (length src) in
    if ltb dst_size n
    then some (record { status = enobufs; size_ret = some n; dst = some dst })
    else decode_to src dst

unfoldable pub base64_decode : Src → Option Bytes → ℕ → Option Coded
unfolding decode_checked
base64_decode (null n) dst dst_size =
    if n == 0
    then some (record { status = ok; size_ret = some 0; dst = dst })
    else some (record { status = einval; size_ret = none; dst = dst })
base64_decode (mem src) dst dst_size =
    let real = size_real src (length src) in
    if real == 0
    then some (record { status = ok; size_ret = some 0; dst = dst })
    else if ltb real 2
    then some (record { status = einval; size_ret = none; dst = dst })
    else decode_checked (take real src) dst dst_size
