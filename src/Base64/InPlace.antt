-- ===== src/Base64/InPlace.antt =====
-- include/utils/base64.h, `base64_en_copy` and `base64_decode_fmt`: the symbols of a text are
-- copied to the destination, which is then decoded onto itself. The reads go through the same
-- memory as the writes, at an index of their own.
pub mod Aliasing
pub mod Format
use liblcb.Base.{ℕ, zero, suc, ◌+◌, ◌-◌, ◌*◌, ◌/◌, Option, none, some, [], ◌∷◌, ◌++◌, Bytes}
use liblcb.Base.{ltb, ◌==◌, if◌then◌else◌, length, get_or, ◌>>=◌, ok, einval, enobufs}
use liblcb.Base.Buffer.{Cursor, put, buffer}
use liblcb.Base64.{Src, null, mem, Coded, value, byte_1, byte_2, byte_3, size_real, decoded_size}

-- The loop of `base64_en_copy`.
unfoldable pub copy_loop : Bytes → Cursor → Option Cursor
copy_loop [] w = some w
copy_loop (b ∷ bs) w =
    let skip = copy_loop bs w in
    let keep = put w b >>= λ w'. copy_loop bs w' in if value b == 64 then skip else keep

unfoldable pub base64_en_copy : Src → Option Bytes → Option Coded
base64_en_copy (null n) dst =
    if n == 0
    then some (record { status = ok; size_ret = some 0; dst = dst })
    else some (record { status = einval; size_ret = none; dst = dst })
base64_en_copy (mem []) dst = some (record { status = ok; size_ret = some 0; dst = dst })
base64_en_copy (mem (b ∷ bs)) none = some (record { status = einval; size_ret = none; dst = none })
base64_en_copy (mem (b ∷ bs)) (some dst) =
    copy_loop (b ∷ bs) (record { written = []; room = dst }) >>= λ w.
    some (record { status = ok; size_ret = some (length w.written); dst = some (buffer w) })

-- `(*p)` at index `i` of the memory that is being written.
abbrev pub read : Cursor → ℕ → ℕ
read w i = get_or (buffer w) i 0

-- The tail of `base64_decode` with `t` symbols left at index `r`.
unfoldable pub inplace_tail : ℕ → ℕ → Cursor → Option Cursor
inplace_tail t r w =
    if t == 2
    then put w (byte_1 (read w r) (read w (r + 1)))
    else if t == 3
    then (put w (byte_1 (read w r) (read w (r + 1))) >>= λ w1.
        put w1 (byte_2 (read w1 (r + 1)) (read w1 (r + 2))))
    else some w

-- The main loop of `base64_decode`, `m` rounds with `rpos` at `r`, and the tail.
unfoldable pub inplace_loop : ℕ → ℕ → ℕ → Cursor → Option Cursor
inplace_loop zero t r w = inplace_tail t r w
inplace_loop (suc m) t r w = put w (byte_1 (read w r) (read w (r + 1))) >>= λ w1.
    put w1 (byte_2 (read w1 (r + 1)) (read w1 (r + 2))) >>= λ w2.
    put w2 (byte_3 (read w2 (r + 2)) (read w2 (r + 3))) >>= λ w3. inplace_loop m t (r + 4) w3

-- `base64_decode(buf, n, buf, dst_size, &size)`.
unfoldable pub decode_inplace : Bytes → ℕ → ℕ → Option Coded
decode_inplace buf n dst_size =
    let real = size_real buf n in
    if real == 0
    then some (record { status = ok; size_ret = some 0; dst = some buf })
    else if ltb real 2
    then some (record { status = einval; size_ret = none; dst = some buf })
    else if ltb dst_size (decoded_size real)
    then some (record { status = enobufs; size_ret = some (decoded_size real); dst = some buf })
    else inplace_loop (real / 4) (real - real / 4 * 4) 0 (record { written = []; room = buf })
      >>= λ w. put w 0 >>= λ w'.
          some (record { status = ok; size_ret = some (length w.written); dst = some (buffer w') })

src_size : Src → ℕ
src_size (null n) = n
src_size (mem bs) = length bs

-- With a NULL destination only the empty text comes this far, and decodes to nothing.
decode_copied : Coded → Option Bytes → ℕ → ℕ → Option Coded
decode_copied c none n dst_size =
    if n == 0
    then some (record { status = ok; size_ret = some 0; dst = none })
    else some (record { status = einval; size_ret = none; dst = none })
decode_copied c (some buf) n dst_size = decode_inplace buf n dst_size

after_copy : Coded → Option ℕ → ℕ → Option Coded
unfolding decode_copied
after_copy c none dst_size = some c
after_copy c (some n) dst_size = decode_copied c c.dst n dst_size

-- The copy stores a size exactly when it returns 0.
unfoldable pub base64_decode_fmt : Src → Option Bytes → ℕ → Option Coded
unfolding src_size after_copy
base64_decode_fmt src dst dst_size =
    if ltb dst_size (src_size src)
    then some (record { status = enobufs; size_ret = none; dst = dst })
    else base64_en_copy src dst >>= λ c. after_copy c c.size_ret dst_size
