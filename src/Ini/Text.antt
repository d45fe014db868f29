-- ===== src/Ini/Text.antt =====
-- src/utils/buf_str.c, `buf_get_next_line`, and src/utils/ini.c, parsing and generating a file. A
-- pointer into the input is the suffix that begins there.
pub mod RoundTrip
pub mod Generate
pub mod Parsed
pub mod Total
use liblcb.Base.{
  ℕ, zero, suc, ◌+◌, ◌-◌, Option, none, some, [], ◌∷◌, ◌++◌, Bytes, Bool, true, false,
}
use liblcb.Base.{ltb, ◌==◌, if◌then◌else◌, ◌||◌, ◌&&◌, length, take, drop, get_or, ◌>>=◌}
use liblcb.Base.Buffer.{Cursor, puts, buffer}
use liblcb.Memory.{mem_chr, mem_rchr}
use liblcb.Ini.Line.{Line, Ini, data_of, ini_line_alloc, memcpy}
use liblcb.Ini.Line.{LineType, empty_line, invalid_line, comment_line, section_line, value_line}

abbrev pub skip_lf : Bytes → Bytes
skip_lf [] = []
skip_lf (b ∷ bs) = if b == 10 then bs else b ∷ bs

-- From the end of a line over its CR and LF.
abbrev pub skip_eol : Bytes → Bytes
skip_eol [] = []
skip_eol (b ∷ bs) = if b == 13 then skip_lf bs else skip_lf (b ∷ bs)

-- `end - ptr`: up to the LF, less a CR before it, or to the end of the input.
unfoldable pub line_length : Bytes → ℕ
line_length ptr = elim (mem_chr ptr 10) [
  | none ↦ length ptr
  | some k ↦ if ltb 0 k && get_or ptr (k - 1) 0 == 13 then k - 1 else k
]

line_at : Bytes → Option (Bytes × Bytes)
line_at [] = none
line_at (b ∷ bs) =
    let ptr : Bytes = b ∷ bs in let n = line_length ptr in some (take n ptr, drop n ptr)

-- The line and the input from its end on; `none` is the end of the input. The previous line's end
-- is `some rest`, and the first call has `none` and looks at `buf`.
unfoldable pub buf_get_next_line : Bytes → Option Bytes → Option (Bytes × Bytes)
unfolding line_at
buf_get_next_line buf none = line_at buf
buf_get_next_line buf (some rest) = line_at (skip_eol rest)

-- What `memcpy(line->data, pline, line_size)` leaves in a fresh line.
abbrev pub filled : Bytes → Line
filled bytes = record (ini_line_alloc (length bytes)) {
  memory = bytes ++ drop (length bytes) (ini_line_alloc (length bytes)).memory;
}

section_of : Bytes → Option ℕ → Line
section_of bytes none = record (filled bytes) { type = invalid_line }
section_of bytes (some k) = record (filled bytes) {
  type = section_line;
  name = 1;
  name_size = k - 1;
}

value_of : Bytes → Option ℕ → Line
value_of bytes none = record (filled bytes) { type = invalid_line }
value_of bytes (some k) = record (filled bytes) {
  type = value_line;
  name = 0;
  name_size = k;
  val = k + 1;
  val_size = length bytes - (k + 1);
}

-- The body of the loop of `ini_buf_parse`.
unfoldable pub parse_line : Bytes → Line
unfolding section_of value_of ini_line_alloc
parse_line [] = filled []
parse_line (b ∷ bs) =
    if b == b';' || b == b'#'
    then record (filled (b ∷ bs)) { type = comment_line }
    else if b == b'['
    then section_of (b ∷ bs) (mem_rchr (b ∷ bs) b']')
    else value_of (b ∷ bs) (mem_chr (b ∷ bs) b'=')

-- The loop on fuel: `none` means that the fuel ran out.
unfoldable pub parse_loop : ℕ → Bytes → Option Bytes → Ini → Option Ini
parse_loop zero buf prev lines = none
parse_loop (suc fuel) buf prev lines = elim (buf_get_next_line buf prev) [
  | none ↦ some lines
  | some (line, rest) ↦ parse_loop fuel buf (some rest) (lines ++ (parse_line line ∷ []))
]

-- Each round but the first passes an end of line, so `length buf + 2` rounds are enough.
unfoldable pub ini_buf_parse : Ini → Bytes → Option Ini
ini_buf_parse lines buf = parse_loop (suc (suc (length buf))) buf none lines

unfoldable pub ini_buf_calc_size : Ini → ℕ
ini_buf_calc_size [] = 0
ini_buf_calc_size (l ∷ ls) = l.data_size + 2 + ini_buf_calc_size ls

-- The loop of `ini_buf_gen`. Its size test does not take off what is written already. The Boolean
-- is whether the loop came to its end; `none` is a write past the buffer.
unfoldable pub gen_loop : Ini → ℕ → Cursor → Option (Bool × Cursor)
gen_loop [] buf_size w = some (true, w)
gen_loop (l ∷ ls) buf_size w =
    let next = puts w (data_of l ++ (13 ∷ 10 ∷ [])) >>= λ w'. gen_loop ls buf_size w' in
    if ltb buf_size (l.data_size + 2) then some (false, w) else next

-- The values that `ini_buf_gen` returns: 0, -1, and EINVAL.
pub data GenStatus : Type 0 where
  all_written line_too_long invalid_buffer : GenStatus

-- The value, the size stored (`none`: nothing is stored), and the buffer.
pub record Generated : Type 0 where
  pub status : GenStatus
  pub size_ret : Option ℕ
  pub buf : Bytes

abbrev pub gen_status : Bool → GenStatus
gen_status true = all_written
gen_status false = line_too_long

-- `buf` has `buf_size` bytes; a buffer of none is refused.
unfoldable pub ini_buf_gen : Ini → Bytes → Option Generated
ini_buf_gen lines [] = some (record { status = invalid_buffer; size_ret = none; buf = [] })
ini_buf_gen lines (b ∷ bs) =
    gen_loop lines (length (b ∷ bs)) (record { written = []; room = b ∷ bs }) >>= λ r.
    some
      (record { status = gen_status r.0; size_ret = some (length r.1.written); buf = buffer r.1 })
