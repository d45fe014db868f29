-- ===== src/BufStr/Args.antt =====
-- Words in src/utils/buf_str.c: spaces, argument lists, the yes/no flags and uptimes.
pub mod Words
use liblcb.Base.{
  ℕ, zero, suc, ◌+◌, ◌-◌, ◌*◌, ◌/◌, ◌%◌, ◌^◌, Option, none, some, List, [], ◌∷◌, ◌++◌, Bytes,
}
use liblcb.Base.{Bool, true, false, ◌&&◌, ◌||◌, not, ltb, leb, ◌==◌, if◌then◌else◌, wrap, length}
use liblcb.Base.{get_or, take, drop, bit_and, bit_or, ◌>>=◌, Errno, ok, einval}
use liblcb.Base.Buffer.{store}
use liblcb.Memory.{mem_chr}

unfoldable pub is_sptab : ℕ → Bool
is_sptab c = c == b' ' || c == 9

-- The spaces and tabs in front.
unfoldable pub calc_sptab_count : Bytes → ℕ
calc_sptab_count [] = 0
calc_sptab_count (c ∷ cs) = if is_sptab c then suc (calc_sptab_count cs) else 0

-- Those at the end, where the first byte is not looked at.
abbrev pub count_sptab_to : Bytes → ℕ → ℕ
count_sptab_to buf zero = 0
count_sptab_to buf (suc i) =
    if is_sptab (get_or buf (suc i) 0) then suc (count_sptab_to buf i) else 0

unfoldable pub calc_sptab_count_r : Bytes → ℕ
calc_sptab_count_r buf = count_sptab_to buf (length buf - 1)

unfoldable pub calc_non_sptab_count : Bytes → ℕ
calc_non_sptab_count [] = 0
calc_non_sptab_count (c ∷ cs) = if is_sptab c then 0 else suc (calc_non_sptab_count cs)

abbrev pub count_non_sptab_to : Bytes → ℕ → ℕ
count_non_sptab_to buf zero = 0
count_non_sptab_to buf (suc i) =
    if is_sptab (get_or buf (suc i) 0) then 0 else suc (count_non_sptab_to buf i)

unfoldable pub calc_non_sptab_count_r : Bytes → ℕ
calc_non_sptab_count_r buf = count_non_sptab_to buf (length buf - 1)

-- An element of `args` and of `args_sizes`: an offset into the buffer, and a size.
pub record Arg : Type 0 where
  pub start : ℕ
  pub size : ℕ

-- The elements that are stored, as many as are returned, and the buffer after the call.
pub record Args : Type 0 where
  pub args : List Arg
  pub buf : Bytes

abbrev pub quoted_size : Bytes → ℕ
quoted_size rest = elim (mem_chr rest b'"') [ none ↦ length rest | some i ↦ i ]

-- The argument that begins at `pos`, behind the spaces.
unfoldable pub arg_at : Bytes → ℕ → Arg
arg_at buf pos =
    if get_or buf pos 0 == b'"'
    then record { start = pos + 1; size = quoted_size (drop (pos + 1) buf) }
    else record { start = pos; size = calc_non_sptab_count (drop pos buf) }

abbrev pub add_arg : Arg → Args → Args
add_arg a r = record { args = a ∷ r.args; buf = r.buf }

-- The loop, with what `ret` leaves of `max_args`. `cur_size` is what the buffer has from
-- `cur_pos` on. `none` is the write of the 0 behind an argument that ends with the buffer.
unfoldable pub args_loop : ℕ → Bytes → ℕ → Option Args
args_loop zero buf pos = some (record { args = []; buf = buf })
args_loop (suc left) buf pos = elim (ltb (pos + calc_sptab_count (drop pos buf)) (length buf)) [
  | false ↦ some (record { args = []; buf = buf })
  | true ↦
      let a = arg_at buf (pos + calc_sptab_count (drop pos buf)) in
      store buf (a.start + a.size) 0
      >>= (λ buf'. args_loop left buf' (a.start + a.size + 1))
      >>= (λ r. some (add_arg a r))
]

-- `buf2args`, with `args` and `args_sizes` that have room for `max_args`.
unfoldable pub buf2args : Bytes → ℕ → Option Args
buf2args buf max_args = args_loop max_args buf 0

-- `~flag_bit` of a `uint32_t`
abbrev pub not_flag : ℕ → ℕ
not_flag flag_bit = 2 ^ 32 - 1 - flag_bit

-- `yn_set_flag32`, where an empty buffer stands for NULL too.
unfoldable pub yn_set_flag32 : Bytes → ℕ → Option ℕ → Errno × Option ℕ
yn_set_flag32 buf flag_bit none = (einval, none)
yn_set_flag32 [] flag_bit (some flags) = (ok, some (bit_and flags (not_flag flag_bit)))
yn_set_flag32 (c ∷ cs) flag_bit (some flags) =
    if c == b'0' || c == b'n' || c == b'N' || c == b'f' || c == b'F'
    then (ok, some (bit_and flags (not_flag flag_bit)))
    else if c == b'1' || c == b'y' || c == b'Y' || c == b't' || c == b'T'
    then (ok, some (bit_or flags flag_bit))
    else (einval, some flags)
