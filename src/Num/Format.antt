-- ===== src/Num/Format.antt =====
-- include/utils/num2str.h: numbers to decimal text.
-- `none` is a write outside the caller's buffer. What a function stores through `buf_size_ret` is
-- the field `size_ret` (`none`: nothing is stored), and a NULL `buf` is the argument `none`.
pub mod Length
pub mod Unsigned
pub mod Signed
use liblcb.Base.{ℕ, zero, suc, ◌+◌, ◌/◌, ◌%◌, ◌^◌, ◌-◌, Option, none, some, List, [], ◌∷◌, Bytes}
use liblcb.Base.{ltb, ◌==◌, if◌then◌else◌, ◌||◌, drop, set, ◌>>=◌, Errno, ok, einval, enospc}
use liblcb.Base.Buffer.{store}
use liblcb.Base.Int.{ℤ, pos, negsuc}

-- `pow10lst`: the entry at 0 is 0, and is never read.
abbrev pub pow10lst : List ℕ
pow10lst =
    0 ∷ 10 ∷ 100 ∷ 1000 ∷ 10000 ∷ 100000 ∷ 1000000 ∷ 10000000 ∷ 100000000 ∷ 1000000000 ∷ 10000000000
    ∷ 100000000000 ∷ 1000000000000 ∷ 10000000000000 ∷ 100000000000000 ∷ 1000000000000000
    ∷ 10000000000000000 ∷ 100000000000000000 ∷ 1000000000000000000 ∷ 10000000000000000000 ∷ []

-- `for (_len = 1; _len < POW10LST_COUNT && num > pow10lst[_len]; _len ++);` over the entries from
-- `_len` on.
unfoldable pub scan_len : ℕ → List ℕ → ℕ → ℕ
scan_len num [] len = len
scan_len num (p ∷ ps) len = if ltb p num then scan_len num ps (len + 1) else len

unfoldable pub num_len : ℕ → ℕ
num_len num = scan_len num (drop 1 pow10lst) 1

-- `do { buf --; (*buf) = digit(num % 10); num /= 10; } while (num);` from index `i` down.
-- At index 0 the decrement leaves the buffer.
unfoldable pub put_digits : (ℕ → ℕ) → ℕ → ℕ → Bytes → Option Bytes
put_digits digit zero num buf = none
put_digits digit (suc i) num buf = store buf i (digit (num % 10)) >>= λ buf'.
    let rest = put_digits digit i (num / 10) buf' in if num / 10 == 0 then some buf' else rest

pub record Text : Type 0 where
  pub status : Errno
  pub size_ret : Option ℕ
  pub buf : Bytes

abbrev pub plus_digit : ℕ → ℕ
plus_digit d = 48 + d

-- In C the remainder of a negative number is negative.
abbrev pub minus_digit : ℕ → ℕ
minus_digit d = 48 - d

-- `(*(buf + len)) = 0` and the digits, from a checked length.
unfoldable pub fill : (ℕ → ℕ) → ℕ → ℕ → Bytes → Option Text
fill digit len num buf = store buf len 0 >>= λ ended. put_digits digit len num ended >>= λ done.
    some (record { status = ok; size_ret = some len; buf = done })

-- `UNUM2STR`; `num` is below 2 ^ 64.
unfoldable pub unum2str : ℕ → Option Bytes → ℕ → Option Text
unum2str num none size = some (record { status = einval; size_ret = none; buf = [] })
unum2str num (some buf) size =
    let len = num_len num in
    if size == 0
    then some (record { status = einval; size_ret = none; buf = buf })
    else if ltb size (len + 1)
    then some (record { status = enospc; size_ret = some (len + 1); buf = buf })
    else fill plus_digit len num buf

-- What is left of `SNUM2STR` behind the sign test: `neg` is 0 or 1, `cast` is `(uint64_t)num`, and
-- `num` is the magnitude of a value that `digit` turns to characters.
unfoldable pub signed_text : (ℕ → ℕ) → ℕ → ℕ → ℕ → Bytes → ℕ → Option Text
signed_text digit neg cast num buf size =
    let len = num_len cast + neg in
    if ltb size (len + 1)
    then some (record { status = enospc; size_ret = some (len + 1); buf = buf })
    else (if neg == 0 then some buf else store buf 0 45) >>= λ signed. fill digit len num signed

-- `SNUM2STR` for a type of `w` bits. `num = ((_type)0) - num` wraps to `num` itself at the least
-- value -2 ^ (w - 1), which stays negative.
unfoldable pub snum2str : ℕ → ℤ → Option Bytes → ℕ → Option Text
snum2str w num none size = some (record { status = einval; size_ret = none; buf = [] })
snum2str w (pos n) (some buf) size =
    if size == 0
    then some (record { status = einval; size_ret = none; buf = buf })
    else signed_text plus_digit 0 n n buf size
snum2str w (negsuc k) (some buf) size =
    if size == 0
    then some (record { status = einval; size_ret = none; buf = buf })
    else if k + 1 == 2 ^ (w - 1)
    then signed_text minus_digit 1 (2 ^ 64 - (k + 1)) (k + 1) buf size
    else signed_text plus_digit 1 (k + 1) (k + 1) buf size

-- The functions, each for `char` and for `uint8_t` text. A call converts its argument to the type.
unfoldable pub usize2str : ℕ → Option Bytes → ℕ → Option Text
usize2str num = unum2str (num % 2 ^ 64)

unfoldable pub u82str : ℕ → Option Bytes → ℕ → Option Text
u82str num = unum2str (num % 2 ^ 8)

unfoldable pub u162str : ℕ → Option Bytes → ℕ → Option Text
u162str num = unum2str (num % 2 ^ 16)

unfoldable pub u322str : ℕ → Option Bytes → ℕ → Option Text
u322str num = unum2str (num % 2 ^ 32)

unfoldable pub u642str : ℕ → Option Bytes → ℕ → Option Text
u642str num = unum2str (num % 2 ^ 64)

unfoldable pub ssize2str : ℤ → Option Bytes → ℕ → Option Text
ssize2str = snum2str 64

unfoldable pub s82str : ℤ → Option Bytes → ℕ → Option Text
s82str = snum2str 8

unfoldable pub s162str : ℤ → Option Bytes → ℕ → Option Text
s162str = snum2str 16

unfoldable pub s322str : ℤ → Option Bytes → ℕ → Option Text
s322str = snum2str 32

unfoldable pub s642str : ℤ → Option Bytes → ℕ → Option Text
s642str = snum2str 64
