-- ===== src/BufStr.antt =====
-- src/utils/buf_str.c: bytes to hexadecimal text and back, and the XOR of buffers, all of them
-- between buffers that do not overlap. `none` is a write past the end of a buffer.
pub mod Args
pub mod Hex
pub mod Xor
mod Tests
use liblcb.Base.{ℕ, ◌+◌, ◌-◌, ◌*◌, ◌/◌, ◌%◌, Option, none, some, [], ◌∷◌, Bytes, Bool, true, false}
use liblcb.Base.{ltb, ◌==◌, if◌then◌else◌, wrap, length, get_or, replicate, bit_and, bit_or, codes}
use liblcb.Base.{◌>>=◌, Errno, ok, einval, enobufs}
use liblcb.Base.Buffer.{Cursor, put, puts, buffer}
use Prim.Native.Nat.{bit_xor}
use liblcb.Base64.{Src, null, mem}
use liblcb.Num.Hex.{hex_digit}

-- What a call returns, what it stores through its size pointer, and the output after it.
pub record Converted : Type 0 where
  pub status : Errno
  pub size_ret : Option ℕ
  pub out : Src

abbrev pub size_of : Src → ℕ
size_of (null n) = n
size_of (mem bs) = length bs

abbrev pub failed : Errno → Src → Option Converted
failed code out = some (record { status = code; size_ret = none; out = out })

abbrev pub converted : ℕ → Cursor → Converted
converted size w = record {
  status = ok;
  size_ret = some (size - length w.room);
  out = mem (buffer w);
}

-- `((uint8_t)(byte << 4)) | cur_char`
abbrev pub push_nibble : ℕ → ℕ → ℕ
push_nibble byte d = bit_or (byte * 16 % 256) d

-- The loop of `cvt_hex2bin`, whose digits are those of `STRH2NUM`; a `put` that fails is
-- `bin == bin_max`.
unfoldable pub hex_loop : Bytes → ℕ → ℕ → Cursor → Errno × Cursor
hex_loop [] byte cnt w = (ok, w)
hex_loop (c ∷ cs) byte cnt w = elim (hex_digit c) [
  | none ↦ hex_loop cs byte cnt w
  | some d ↦ elim (ltb (cnt + 1) 2) [
    | true ↦ hex_loop cs (push_nibble byte d) (cnt + 1) w
    | false ↦ elim (put w (push_nibble byte d)) [
      | none ↦ (enobufs, w)
      | some w' ↦ hex_loop cs 0 0 w'
    ]
  ]
]

-- What follows the loop: with `auto_out_size` the rest of the output is cleared and counted.
unfoldable pub hex_done : Bool → ℕ → Errno × Cursor → Option Converted
hex_done auto size (ok, w) =
    (if auto then puts w (replicate (length w.room) 0) else some w) >>= λ w'.
    some (converted size w')
hex_done auto size (code, w) = failed code (mem (buffer w))

unfoldable pub convert_hex : Src → Bool → Src → Option Converted
convert_hex (mem (c ∷ cs)) auto (mem bin) =
    hex_done auto (length bin) (hex_loop (c ∷ cs) 0 0 (record { written = []; room = bin }))
convert_hex (mem (c ∷ cs)) auto (null n) = failed einval (null n)
convert_hex (mem []) auto bin = failed einval bin
convert_hex (null n) auto bin = failed einval bin

-- `cvt_hex2bin`; `auto` is `0 != auto_out_size`.
unfoldable pub cvt_hex2bin : Src → Bool → Src → Option Converted
cvt_hex2bin hex auto bin =
    if ltb (size_of bin) (size_of hex / 2)
    then some (record { status = enobufs; size_ret = some (size_of hex / 2); out = bin })
    else convert_hex hex auto bin

unfoldable pub hex_tbl : Bytes
hex_tbl = codes "0123456789abcdef"

unfoldable pub high_digit : ℕ → ℕ
high_digit byte = get_or hex_tbl (bit_and (byte / 16) 0x0f) 0

unfoldable pub low_digit : ℕ → ℕ
low_digit byte = get_or hex_tbl (bit_and byte 0x0f) 0

-- The loop of `cvt_bin2hex`.
unfoldable pub bin_loop : Bytes → Cursor → Option Cursor
bin_loop [] w = some w
bin_loop (b ∷ bs) w = puts w (high_digit b ∷ low_digit b ∷ []) >>= bin_loop bs

-- `ok_exit`: a 0 behind the text, if there is room, which the size leaves out.
abbrev pub end_text : Cursor → Cursor
end_text w = elim w.room [ [] ↦ w | _ ∷ r ↦ record { written = w.written; room = 0 ∷ r } ]

-- `n & ~((size_t)1)`
abbrev pub even_part : ℕ → ℕ
even_part n = n / 2 * 2

-- With the buffers there: no bytes are one zero, or as many as there is room for.
unfoldable pub convert_bin : Bytes → Bool → Bytes → Option Converted
convert_bin [] auto hex =
    puts (record { written = []; room = hex })
      (replicate (if auto then 2 else even_part (length hex)) b'0')
    >>= λ w. some (converted (length hex) (end_text w))
convert_bin (b ∷ bs) auto hex =
    let tm = wrap (2 * length (b ∷ bs)) in
    if ltb (length hex) tm
    then some (record { status = enobufs; size_ret = some tm; out = mem hex })
    else bin_loop (b ∷ bs) (record { written = []; room = hex })
      >>= (λ w.
          if auto then some w else puts w (replicate (even_part (wrap (length hex - tm))) b'0'))
      >>= (λ w. some (converted (length hex) (end_text w)))

-- `cvt_bin2hex`; `auto` is `0 != auto_out_size`.
unfoldable pub cvt_bin2hex : Src → Bool → Src → Option Converted
cvt_bin2hex (mem bin) auto (mem hex) =
    if ltb (length hex) 2 then failed einval (mem hex) else convert_bin bin auto hex
cvt_bin2hex (mem bin) auto (null n) = failed einval (null n)
cvt_bin2hex (null n) auto hex = failed einval hex

abbrev pub xor_bytes : ℕ → Bytes → ℕ
xor_bytes ret [] = ret
xor_bytes ret (b ∷ bs) = xor_bytes (bit_xor ret b) bs

-- `data_xor8`
unfoldable pub data_xor8 : Src → ℕ
data_xor8 (null n) = 0
data_xor8 (mem bs) = xor_bytes 0 bs

-- The loop of `memxorbuf`: the third argument is what is left of the source from `si` on.
unfoldable pub xor_loop : ℕ → Bytes → Bytes → Bytes → Bytes
xor_loop s ss [] left = []
xor_loop s ss (d ∷ ds) [] = bit_xor d s ∷ xor_loop s ss ds ss
xor_loop s ss (d ∷ ds) (x ∷ xs) = bit_xor d x ∷ xor_loop s ss ds xs

-- `memxorbuf`: the destination after it.
unfoldable pub memxorbuf : Src → Src → Src
memxorbuf (mem dst) (mem (s ∷ ss)) = mem (xor_loop s ss dst (s ∷ ss))
memxorbuf dst src = dst
