-- ===== src/Num/Hex.antt =====
-- include/utils/strh2num.h: hexadecimal text to numbers, with the conventions of `Parse`.
pub mod Value
use liblcb.Base.{ℕ, ◌+◌, ◌*◌, ◌-◌, ◌%◌, ◌^◌, Option, none, some, [], ◌∷◌, Bytes}
use liblcb.Base.{ltb, leb, ◌==◌, if◌then◌else◌, Bool, true, false, ◌&&◌, bit_or}

-- The value of a hexadecimal digit; `none` is the `continue`.
unfoldable pub hex_digit : ℕ → Option ℕ
hex_digit b =
    if leb b'0' b && leb b b'9'
    then some (b - b'0')
    else if leb b'a' b && leb b b'f'
    then some (b - (b'a' - 10))
    else if leb b'A' b && leb b b'F'
    then some (b - (b'A' - 10))
    else none

-- `(_type)(((_type)(_res << 4)) | _cval)`
abbrev pub push_digit : ℕ → ℕ → Option ℕ → ℕ
push_digit w res none = res
push_digit w res (some d) = bit_or (res * 16 % 2 ^ w) d % 2 ^ w

-- `STRH2NUM`
unfoldable pub strh2num : ℕ → ℕ → Bytes → ℕ
strh2num w res [] = res
strh2num w res (b ∷ bs) = strh2num w (push_digit w res (hex_digit b)) bs

-- `STRH2NUM_SIGN`: the last of the leading signs counts. `true` is -1.
unfoldable pub strh2num_sign : Bool → Bytes → Bool
strh2num_sign sign [] = sign
strh2num_sign sign (b ∷ bs) =
    let minus = strh2num_sign true bs in
    let plus = strh2num_sign false bs in
    if b == b'-' then minus else if b == b'+' then plus else sign

-- `STRH2UNUM`
unfoldable pub strh2unum : ℕ → Option Bytes → ℕ
strh2unum w none = 0
strh2unum w (some str) = strh2num w 0 str

-- `STRH2SNUM`; `_res *= _sign` wraps at `w` bits.
unfoldable pub strh2snum : ℕ → Option Bytes → ℕ
strh2snum w none = 0
strh2snum w (some str) =
    let res = strh2num w 0 str in if strh2num_sign false str then (2 ^ w - res) % 2 ^ w else res

unfoldable pub strh2usize : Option Bytes → ℕ
strh2usize = strh2unum 64

unfoldable pub strh2u8 : Option Bytes → ℕ
strh2u8 = strh2unum 8

unfoldable pub strh2u16 : Option Bytes → ℕ
strh2u16 = strh2unum 16

unfoldable pub strh2u32 : Option Bytes → ℕ
strh2u32 = strh2unum 32

unfoldable pub strh2u64 : Option Bytes → ℕ
strh2u64 = strh2unum 64

unfoldable pub strh2ssize : Option Bytes → ℕ
strh2ssize = strh2snum 64

unfoldable pub strh2s8 : Option Bytes → ℕ
strh2s8 = strh2snum 8

unfoldable pub strh2s16 : Option Bytes → ℕ
strh2s16 = strh2snum 16

unfoldable pub strh2s32 : Option Bytes → ℕ
strh2s32 = strh2snum 32

unfoldable pub strh2s64 : Option Bytes → ℕ
strh2s64 = strh2snum 64
