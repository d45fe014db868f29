-- ===== src/Num/Parse.antt =====
-- include/utils/str2num.h: decimal text to numbers. A type of `w` bits holds values modulo 2 ^ w;
-- a signed result is given as its bit pattern. NULL or empty text gives 0.
pub mod Value
pub mod RoundTrip
use liblcb.Base.{ℕ, ◌+◌, ◌*◌, ◌-◌, ◌%◌, ◌^◌, Option, none, some, List, [], ◌∷◌, Bytes}
use liblcb.Base.{ltb, ◌==◌, if◌then◌else◌, Bool, true, false}

-- `uint8_t _cval = (str[i] - '0')`
abbrev pub cval : ℕ → ℕ
cval b = (b + 256 - 48) % 256

-- `STR2NUM`: bytes that are no digits are passed over, wherever they stand.
unfoldable pub str2num : ℕ → ℕ → Bytes → ℕ
str2num w res [] = res
str2num w res (b ∷ bs) =
    str2num w (if ltb 9 (cval b) then res else (res * 10 % 2 ^ w + cval b) % 2 ^ w) bs

-- `STR2NUM_SIGN`: the last of the leading signs counts. `true` is -1.
unfoldable pub str2num_sign : Bool → Bytes → Bool
str2num_sign sign [] = sign
str2num_sign sign (b ∷ bs) =
    let minus = str2num_sign true bs in
    let plus = str2num_sign false bs in if b == 45 then minus else if b == 43 then plus else sign

-- `STR2UNUM`
unfoldable pub str2unum : ℕ → Option Bytes → ℕ
unfolding str2num
str2unum w none = 0
str2unum w (some str) = str2num w 0 str

-- `STR2SNUM`; `_res *= _sign` wraps at `w` bits.
unfoldable pub str2snum : ℕ → Option Bytes → ℕ
unfolding str2num str2num_sign
str2snum w none = 0
str2snum w (some str) =
    let res = str2num w 0 str in if str2num_sign false str then (2 ^ w - res) % 2 ^ w else res

unfoldable pub str2usize : Option Bytes → ℕ
str2usize = str2unum 64

unfoldable pub str2u8 : Option Bytes → ℕ
str2u8 = str2unum 8

unfoldable pub str2u16 : Option Bytes → ℕ
str2u16 = str2unum 16

unfoldable pub str2u32 : Option Bytes → ℕ
str2u32 = str2unum 32

unfoldable pub str2u64 : Option Bytes → ℕ
str2u64 = str2unum 64

unfoldable pub str2ssize : Option Bytes → ℕ
str2ssize = str2snum 64

unfoldable pub str2s8 : Option Bytes → ℕ
str2s8 = str2snum 8

unfoldable pub str2s16 : Option Bytes → ℕ
str2s16 = str2snum 16

unfoldable pub str2s32 : Option Bytes → ℕ
str2s32 = str2snum 32

unfoldable pub str2s64 : Option Bytes → ℕ
str2s64 = str2snum 64
