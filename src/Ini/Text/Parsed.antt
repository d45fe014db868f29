-- ===== src/Ini/Text/Parsed.antt =====
-- src/utils/ini.c: what `ini_buf_parse` makes of a line, and that its loop comes to an end.
use liblcb.Base.{ℕ, ◌+◌, ◌<◌, ◌≡◌, refl, sym, arith}
use liblcb.Base.{Option, none, some, [], ◌∷◌, Bytes}
use liblcb.Base.{◌==◌, ◌||◌, length, drop, take-append, length-drop}
use liblcb.Base.{replicate, length-append, length-replicate, if_rule}
use liblcb.Memory.{mem_chr, mem_rchr, mem_chr-lt, mem_rchr-lt}
use liblcb.Ini.Line.{Line, data_of, IsLine, ini_line_alloc, comment_line}
use liblcb.Ini.Text.{parse_line, section_of, value_of, filled}

-- The four ways to fill in a line.
parse_line_rule :
    (P : Line → Type 0) (b : ℕ) (d : Bytes)
    → P (record (filled (b ∷ d)) { type = comment_line })
    → P (section_of (b ∷ d) (mem_rchr (b ∷ d) b']'))
    → P (value_of (b ∷ d) (mem_chr (b ∷ d) b'='))
    → P (parse_line (b ∷ d))
unfolding parse_line
parse_line_rule P b d p q r =
    if_rule P (b == b';' || b == b'#') _ _ p (if_rule P (b == b'[') _ _ q r)

length-filled : (d : Bytes) → length (filled d).memory ≡ length d + 16
unfolding ini_line_alloc
length-filled d = omega (
  arith,
  length-append d (drop (length d) (replicate (length d + 16) 0)),
  length-drop {A = ℕ} (length d) (replicate (length d + 16) 0),
  length-replicate {A = ℕ} (length d + 16) 0,
)

data_of-filled : (d : Bytes) → data_of (filled d) ≡ d
unfolding ini_line_alloc
data_of-filled d = take-append (length d) d _ refl

data_of-section_of : (d : Bytes) (o : Option ℕ) → data_of (section_of d o) ≡ d
unfolding section_of ini_line_alloc
data_of-section_of d none = data_of-filled d
data_of-section_of d (some k) = data_of-filled d

data_of-value_of : (d : Bytes) (o : Option ℕ) → data_of (value_of d o) ≡ d
unfolding value_of ini_line_alloc
data_of-value_of d none = data_of-filled d
data_of-value_of d (some k) = data_of-filled d

pub data_of-parse_line : (d : Bytes) → data_of (parse_line d) ≡ d
unfolding parse_line ini_line_alloc
data_of-parse_line [] = refl
data_of-parse_line (b ∷ d) =
    parse_line_rule (λ l. data_of l ≡ b ∷ d) b d (data_of-filled (b ∷ d))
      (data_of-section_of (b ∷ d) _) (data_of-value_of (b ∷ d) _)

filled-IsLine : (d : Bytes) → IsLine (filled d)
unfolding ini_line_alloc
filled-IsLine d =
    (omega (arith, length-filled d), omega (arith, length-filled d), omega arith, omega arith, tt)

section_of-IsLine :
    (d : Bytes) (o : Option ℕ) → o ≡ mem_rchr d b']' → 0 < length d → IsLine (section_of d o)
unfolding section_of ini_line_alloc
section_of-IsLine d none h hd = filled-IsLine d
section_of-IsLine d (some k) h hd = (
  omega (arith, length-filled d),
  omega (arith, length-filled d),
  omega (arith, mem_rchr-lt d b']' k (sym h)),
  omega arith,
  refl,
)

value_of-IsLine : (d : Bytes) (o : Option ℕ) → o ≡ mem_chr d b'=' → IsLine (value_of d o)
unfolding value_of ini_line_alloc
value_of-IsLine d none h = filled-IsLine d
value_of-IsLine d (some k) h = (
  omega (arith, length-filled d),
  omega (arith, length-filled d),
  omega (arith, mem_chr-lt d b'=' k (sym h)),
  omega (arith, mem_chr-lt d b'=' k (sym h)),
  (refl, omega arith),
)

-- Each line that the parser makes has its name and its value inside its data, and its data
-- inside its memory.
pub parse_line-IsLine : (d : Bytes) → IsLine (parse_line d)
unfolding parse_line ini_line_alloc
parse_line-IsLine [] = filled-IsLine []
parse_line-IsLine (b ∷ d) =
    parse_line_rule IsLine b d (filled-IsLine (b ∷ d))
      (section_of-IsLine (b ∷ d) _ refl (omega arith)) (value_of-IsLine (b ∷ d) _ refl)
