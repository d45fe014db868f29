-- ===== src/Ini/Text/RoundTrip.antt =====
-- src/utils/ini.c: `ini_buf_parse` on lines that end in CR and LF.
use liblcb.Base.{ℕ, zero, suc, ◌≤◌, ◌<◌, ◌≡◌, ◌≢◌, refl, ◌∙◌, arith}
use liblcb.Base.{none, some, [], ◌∷◌, ◌++◌, Bytes, List, map, All}
use liblcb.Base.{length, drop, get_or, take-append}
use liblcb.Base.{length-append, append_assoc, append-nil}
use liblcb.Memory.{mem_chr}
use liblcb.Ini.Line.{Ini}
use liblcb.Ini.Text.{buf_get_next_line, line_at, line_length, parse_line, parse_loop, ini_buf_parse}

abbrev pub IsText : Bytes → Type 0
IsText = All (λ b. b ≢ 10)

abbrev pub crlf : Bytes
crlf = 13 ∷ 10 ∷ []

-- A file of the given lines.
unfoldable pub text_of : List Bytes → Bytes
text_of [] = []
text_of (d ∷ ds) = d ++ (crlf ++ text_of ds)

mem_chr-crlf :
    (d more : Bytes) → IsText d → mem_chr (d ++ (crlf ++ more)) 10 ≡ some (suc (length d))
unfolding mem_chr
mem_chr-crlf [] more h = refl
mem_chr-crlf (b ∷ d) more h = rw (mem_chr-crlf d more h.1) (ground (arith, h.0))

get_or-crlf : (d more : Bytes) → get_or (d ++ (crlf ++ more)) (length d) 0 ≡ 13
get_or-crlf [] more = refl
get_or-crlf (b ∷ d) more = get_or-crlf d more

line_length-crlf : (d more : Bytes) → IsText d → line_length (d ++ (crlf ++ more)) ≡ length d
unfolding line_length
line_length-crlf d more h =
    rw (line_length, mem_chr-crlf d more h) (ground (arith, get_or-crlf d more))

drop-append : (xs ys : Bytes) → drop (length xs) (xs ++ ys) ≡ ys
drop-append [] ys = refl
drop-append (x ∷ xs) ys = drop-append xs ys

line_at-crlf : (d more : Bytes) → IsText d → line_at (d ++ (crlf ++ more)) ≡ some (d, crlf ++ more)
unfolding line_at
line_at-crlf [] more h = rw (line_length-crlf [] more h) refl
line_at-crlf (b ∷ d) more h =
    rw
      (
        line_length-crlf (b ∷ d) more h,
        take-append (length d) d (crlf ++ more) refl,
        drop-append d (crlf ++ more),
      )
      refl

parse_loop-text_of :
    (ds : List Bytes) (fuel : ℕ) (buf : Bytes) (lines : Ini)
    → All IsText ds
    → length ds < fuel
    → parse_loop fuel buf (some (crlf ++ text_of ds)) lines ≡ some (lines ++ map parse_line ds)
unfolding parse_loop text_of buf_get_next_line line_at
parse_loop-text_of ds zero buf lines h hf = absurd (omega arith)
parse_loop-text_of [] (suc fuel) buf lines h hf = rw append-nil refl
parse_loop-text_of (d ∷ ds) (suc fuel) buf lines h hf =
    rw (parse_loop, line_at-crlf d (text_of ds) h.0)
      (parse_loop-text_of ds fuel buf (lines ++ (parse_line d ∷ [])) h.1 (omega arith)
        ∙ rw (append_assoc) refl)

length_text : (ds : List Bytes) → length ds ≤ length (text_of ds)
unfolding text_of
length_text [] = omega arith
length_text (d ∷ ds) = omega (arith, length_text ds, length-append d (crlf ++ text_of ds))

empty_file : (lines : Ini) → parse_loop 2 (text_of []) none lines ≡ some (lines ++ [])
unfolding parse_loop buf_get_next_line text_of line_at
empty_file lines = rw append-nil refl

parse_first :
    (d : Bytes) (ds : List Bytes) (fuel : ℕ) (lines : Ini)
    → All IsText (d ∷ ds)
    → length ds < fuel
    → parse_loop (suc fuel) (text_of (d ∷ ds)) none lines ≡ some (lines ++ map parse_line (d ∷ ds))
unfolding parse_loop buf_get_next_line text_of
parse_first d ds fuel lines h hf =
    rw (parse_loop, line_at-crlf d (text_of ds) h.0)
      (parse_loop-text_of ds fuel (text_of (d ∷ ds)) (lines ++ (parse_line d ∷ [])) h.1 hf
        ∙ rw (append_assoc) refl)

-- Parsing a file whose lines hold no LF and end in CR and LF appends one parsed line for each of
-- them, in order, to the lines that are there.
pub ini_buf_parse-text_of :
    (ds : List Bytes) (lines : Ini)
    → All IsText ds
    → ini_buf_parse lines (text_of ds) ≡ some (lines ++ map parse_line ds)
unfolding ini_buf_parse text_of
ini_buf_parse-text_of [] lines h = empty_file lines
ini_buf_parse-text_of (d ∷ ds) lines h =
    parse_first d ds (suc (length (text_of (d ∷ ds)))) lines h (omega (arith, length_text (d ∷ ds)))
