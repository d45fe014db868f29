-- ===== src/Ini/Tests.antt =====
-- Runs of the functions of src/utils/ini.c, and the theorems at concrete inputs.
use liblcb.Base.{
  ◌≡◌, ◌≢◌, refl, arith, inr, Option, none, some, [], ◌∷◌, ◌++◌, Bytes, true, List, map,
}
use liblcb.Base.{ℕ, All, take, replicate, codes, ok}
use liblcb.Memory.{mem_chr, mem_rchr, mem_cmpn, mem_cmpin}
use liblcb.Ini.Line.{Ini, IsLine}
use liblcb.Ini.Text.{
  parse_line, ini_buf_parse, ini_buf_gen, ini_buf_calc_size, all_written, invalid_buffer,
}
use liblcb.Ini.Text.RoundTrip.{IsText, text_of, ini_buf_parse-text_of}
use liblcb.Ini.Text.Generate.{IsStored, ini_buf_gen_overflow, ini_buf_parse-ini_buf_gen}
use liblcb.Ini.Text.Parsed.{parse_line-IsLine}
use liblcb.Ini.Text.Total.{ini_buf_parse-IsParsed}
use liblcb.Ini.Find.{
  ini_sect_find, ini_sect_findi, ini_sect_val_find, ini_val_get, ini_val_get_uint, val_find_loop,
  ini_sect_val_enum, scan_val,
}
use liblcb.Ini.Find.First.{first_section, ini_sect_find-first}
use liblcb.Ini.Set.{Realloc, ini_val_set, ini_val_set_uint}
use liblcb.Ini.Set.GetSet.{ini_val_get-ini_val_set}
use liblcb.Ini.Set.Number.{ini_val_get_uint-ini_val_set_uint}

abbrev texts : List Bytes
texts = codes "[a]" ∷ codes "X=1" ∷ [] ∷ codes "[b]" ∷ []

abbrev demo : Ini
demo = map parse_line texts

demo-IsLine : All IsLine demo
demo-IsLine = (
  parse_line-IsLine (codes "[a]"),
  (parse_line-IsLine (codes "X=1"), (parse_line-IsLine [], (parse_line-IsLine (codes "[b]"), tt))),
)

abbrev moving : Realloc
moving = record { moves = true; junk = 0xA5 }

abbrev a : Option Bytes
a = some (codes "a")

abbrev x : Option Bytes
x = some (codes "x")

a-named : a ≢ some []
a-named = ground arith

ini_val_get-ini_val_set_example :
    (lines' : Ini) × (ini_val_set moving demo a x (codes "a value that is too long for the line")
      ≡ some lines')
    × All IsLine lines'
    × (ini_val_get lines' a x ≡ some (codes "a value that is too long for the line"))
ini_val_get-ini_val_set_example =
    ini_val_get-ini_val_set moving a a-named b'x' [] (codes "a value that is too long for the line")
      demo demo-IsLine

ini_val_get_uint-ini_val_set_uint_example :
    (lines' : Ini) × (ini_val_set_uint moving (replicate 64 7) demo a x 42 ≡ some (ok, lines'))
    × (ini_val_get_uint lines' a x ≡ some 42)
ini_val_get_uint-ini_val_set_uint_example =
    ini_val_get_uint-ini_val_set_uint moving (replicate 64 7) demo a b'x' [] 2 42 a-named
      demo-IsLine refl
      (record { some_digit = omega arith; fits = omega arith; no_leading_zero = inr (omega arith) })
      (omega arith) (inr (omega arith))

texts-IsText : All IsText texts
texts-IsText = ground arith

ini_buf_parse-text_of_example : ini_buf_parse [] (text_of texts) ≡ some demo
ini_buf_parse-text_of_example = ini_buf_parse-text_of texts [] texts-IsText

-- A search for the spelling of a name finds it in another case.
other_case : ini_sect_val_find demo 0 x ≡ some 1
unfolding ini_sect_val_find val_find_loop ini_sect_val_enum scan_val parse_line mem_chr mem_rchr
    mem_cmpin
other_case = refl

ini_buf_parse-IsParsed_example :
    (lines' : Ini) × (ini_buf_parse demo (codes "[c]" ++ (13 ∷ 13 ∷ 10 ∷ codes "y")) ≡ some lines')
    × All IsLine lines'
ini_buf_parse-IsParsed_example =
    ini_buf_parse-IsParsed demo (codes "[c]" ++ (13 ∷ 13 ∷ 10 ∷ codes "y")) demo-IsLine

demo-IsStored : All IsStored demo
unfolding parse_line mem_rchr mem_chr
demo-IsStored = (omega arith, (omega arith, (omega arith, (omega arith, tt))))

empty_buffer_refused :
    ini_buf_gen [] [] ≡ some (record { status = invalid_buffer; size_ret = none; buf = [] })
unfolding ini_buf_gen
empty_buffer_refused = refl

ini_buf_gen_overflow_example : ini_buf_gen demo (replicate 8 7) ≡ none
unfolding ini_buf_calc_size parse_line mem_rchr mem_chr
ini_buf_gen_overflow_example =
    ini_buf_gen_overflow demo (replicate 8 7) demo-IsStored
      (omega arith, (omega arith, (omega arith, (omega arith, tt)))) (omega arith)

ini_buf_parse-ini_buf_gen_example :
    (n : ℕ) × (after : Bytes) × (ini_buf_gen demo (replicate 20 7)
      ≡ some (record { status = all_written; size_ret = some n; buf = after }))
    × (ini_buf_parse [] (take n after) ≡ some demo)
unfolding ini_buf_calc_size parse_line mem_rchr mem_chr
ini_buf_parse-ini_buf_gen_example =
    ini_buf_parse-ini_buf_gen texts (replicate 20 7) texts-IsText (omega arith) (omega arith)

ini_sect_find-first_example :
    (ini_sect_find demo (some (codes "b")) ≡ first_section mem_cmpn (codes "b") demo 0)
    × (ini_sect_findi demo (some (codes "b")) ≡ first_section mem_cmpin (codes "b") demo 0)
ini_sect_find-first_example = ini_sect_find-first demo (some (codes "b"))
