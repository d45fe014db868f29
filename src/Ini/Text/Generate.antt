-- ===== src/Ini/Text/Generate.antt =====
-- src/utils/ini.c: `ini_buf_calc_size` and `ini_buf_gen`.
use liblcb.Base.{ℕ, ◌+◌, ◌≤◌, ◌<◌, ◌≡◌, refl, sym, ◌∙◌, arith, inl, inr}
use liblcb.Base.{
  Option, none, some, [], ◌∷◌, ◌++◌, Bytes, Bool, true, false, if◌then◌else◌, ◌==◌, List, map, All,
}
use liblcb.Base.{length, take, drop, take-append, length-take_le, le→ltb}
use liblcb.Base.{length-append, append_assoc, ◌>>=◌, Option-cases, bind_ext}
use liblcb.Base.Buffer.{Cursor, puts, puts_fits, puts_overflow, puts-append}
use liblcb.Ini.Line.{Line, Ini, data_of}
use liblcb.Ini.Text.{ini_buf_calc_size, ini_buf_gen, gen_loop, Generated, parse_line, ini_buf_parse}
use liblcb.Ini.Text.{all_written, invalid_buffer}
use liblcb.Ini.Text.Parsed.{data_of-parse_line, parse_line-IsLine}
use liblcb.Ini.Text.RoundTrip.{IsText, text_of, crlf, ini_buf_parse-text_of}

-- A line whose `data_size` bytes are inside its memory.
abbrev pub IsStored : Line → Type 0
IsStored l = l.data_size ≤ length l.memory

pub length-text_of :
    (lines : Ini)
    → All IsStored lines
    → length (text_of (map data_of lines)) ≡ ini_buf_calc_size lines
unfolding text_of ini_buf_calc_size
length-text_of [] h = refl
length-text_of (l ∷ ls) h = omega (
  arith,
  length-text_of ls h.1,
  length-take_le l.data_size l.memory h.0,
  length-append (data_of l) (crlf ++ text_of (map data_of ls)),
)

-- The loop is one write of the whole text, as long as no single line is refused.
abbrev pub IsSingle : ℕ → Line → Type 0
IsSingle buf_size l = l.data_size + 2 ≤ buf_size

abbrev pub finished : Cursor → Option (Bool × Cursor)
finished w = some (true, w)

puts_line :
    (w : Cursor) (d t : Bytes)
    → (puts w (d ++ (crlf ++ t)) >>= finished)
      ≡ (puts w (d ++ crlf) >>= λ w'. (puts w' t >>= finished))
puts_line w d t = elim (Option-cases (puts w (d ++ crlf))) [
  | inl e ↦ rw (sym (append_assoc d crlf t), puts-append (d ++ crlf) t w, e) refl
  | inr (w', e) ↦ rw (sym (append_assoc d crlf t), puts-append (d ++ crlf) t w, e) refl
]

pub gen_loop-text_of :
    (lines : Ini) (n : ℕ) (w : Cursor)
    → All (IsSingle n) lines
    → gen_loop lines n w ≡ (puts w (text_of (map data_of lines)) >>= finished)
unfolding gen_loop text_of puts
gen_loop-text_of [] n w h = refl
gen_loop-text_of (l ∷ ls) n w h = rw (le→ltb n (l.data_size + 2) h.0) (
    bind_ext (puts w (data_of l ++ crlf)) (λ w'. gen_loop ls n w')
      (λ w'. puts w' (text_of (map data_of ls)) >>= finished) (λ w'. gen_loop-text_of ls n w' h.1)
    ∙ sym (puts_line w (data_of l) (text_of (map data_of ls))))

-- What is returned for a buffer of no bytes, and for one that holds the text of all lines.
abbrev pub refused_buffer : Generated
refused_buffer = record { status = invalid_buffer; size_ret = none; buf = [] }

abbrev pub whole_text : Ini → Bytes → Generated
whole_text lines buf = record {
  status = all_written;
  size_ret = some (ini_buf_calc_size lines);
  buf = text_of (map data_of lines) ++ drop (ini_buf_calc_size lines) buf;
}

calc_size-IsSingle : (lines : Ini) (n : ℕ) → ini_buf_calc_size lines ≤ n → All (IsSingle n) lines
unfolding ini_buf_calc_size
calc_size-IsSingle [] n h = tt
calc_size-IsSingle (l ∷ ls) n h = (omega arith, calc_size-IsSingle ls n (omega arith))

pub ini_buf_gen_fits :
    (lines : Ini) (buf : Bytes)
    → All IsStored lines
    → ini_buf_calc_size lines ≤ length buf
    → ini_buf_gen lines buf
      ≡ some (if length buf == 0 then refused_buffer else whole_text lines buf)
unfolding ini_buf_gen
ini_buf_gen_fits lines [] h hs = refl
ini_buf_gen_fits lines (b ∷ bs) h hs =
    let buf : Bytes = b ∷ bs in
    let some_room : (length buf == 0) ≡ false = ground arith in
    rw
      (
        some_room,
        gen_loop-text_of lines (length buf) (record { written = []; room = buf })
            (calc_size-IsSingle lines (length buf) hs),
        puts_fits (text_of (map data_of lines)) [] buf (omega (arith, length-text_of lines h)),
        length-text_of lines h,
      )
      refl

-- When each line fits the buffer by itself but all of them together do not, `ini_buf_gen` writes
-- past the end of the buffer: its size test does not take off what is written already.
pub ini_buf_gen_overflow :
    (lines : Ini) (buf : Bytes)
    → All IsStored lines
    → All (IsSingle (length buf)) lines
    → length buf < ini_buf_calc_size lines
    → ini_buf_gen lines buf ≡ none
unfolding ini_buf_gen ini_buf_calc_size
ini_buf_gen_overflow [] [] h h1 hs = elim hs [ ]
ini_buf_gen_overflow (l ∷ ls) [] h (h1, _) hs = absurd (omega arith)
ini_buf_gen_overflow lines (b ∷ bs) h h1 hs =
    let buf : Bytes = b ∷ bs in
    rw
      (
        gen_loop-text_of lines (length buf) (record { written = []; room = buf }) h1,
        puts_overflow (text_of (map data_of lines)) [] buf (omega (arith, length-text_of lines h)),
      )
      refl

data_of-parsed : (ds : List Bytes) → map data_of (map parse_line ds) ≡ ds
data_of-parsed [] = refl
data_of-parsed (d ∷ ds) = rw (data_of-parse_line d, data_of-parsed ds) refl

parsed-IsStored : (ds : List Bytes) → All IsStored (map parse_line ds)
parsed-IsStored [] = tt
parsed-IsStored (d ∷ ds) = ((parse_line-IsLine d).0, parsed-IsStored ds)

-- Writing out parsed lines without an LF succeeds into any buffer that has bytes, and the calculated
-- size of them; parsing what was written gives the same lines, and nothing of the rest of the buffer
-- is read.
pub ini_buf_parse-ini_buf_gen :
    (ds : List Bytes) (buf : Bytes)
    → All IsText ds
    → 0 < length buf
    → ini_buf_calc_size (map parse_line ds) ≤ length buf
    → (n : ℕ) × (after : Bytes) × (ini_buf_gen (map parse_line ds) buf
        ≡ some (record { status = all_written; size_ret = some n; buf = after }))
      × (ini_buf_parse [] (take n after) ≡ some (map parse_line ds))
ini_buf_parse-ini_buf_gen ds buf h some_bytes hs =
    let lines : Ini = map parse_line ds in
    let some_room : (length buf == 0) ≡ false = ground arith in
    let size = length-text_of lines (parsed-IsStored ds) in
    (
      ini_buf_calc_size lines,
      text_of (map data_of lines) ++ drop (ini_buf_calc_size lines) buf,
      ini_buf_gen_fits lines buf (parsed-IsStored ds) hs ∙ rw some_room refl,
      rw
          (
            take-append (ini_buf_calc_size lines) (text_of (map data_of lines))
                (drop (ini_buf_calc_size lines) buf) size,
            data_of-parsed ds,
          )
          (ini_buf_parse-text_of ds [] h),
    )
