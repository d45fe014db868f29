-- ===== src/Ini/Text/Total.antt =====
-- src/utils/ini.c: the loop of `ini_buf_parse` comes to its end.
use liblcb.Base.{ℕ, zero, suc, ◌-◌, ◌≤◌, ◌<◌, ◌≡◌, ◌⊎◌, refl, sym, ap, arith, inl, inr}
use liblcb.Base.{Option, none, some, [], ◌∷◌, ◌++◌, Bytes, All}
use liblcb.Base.{ltb, ◌==◌, ◌&&◌, length, drop, get_or, length-drop, drop-cons, drop-all}
use liblcb.Base.{Option-cases, Bool-cases}
use liblcb.Memory.{mem_chr, mem_chr-found, mem_chr-lt}
use liblcb.Ini.Line.{Line, Ini, IsLine}
use liblcb.Ini.Text.{
  buf_get_next_line, line_at, line_length, parse_line, parse_loop, ini_buf_parse, skip_eol, skip_lf,
}
use liblcb.Ini.Text.Parsed.{parse_line-IsLine}

-- Where a line may end: at the end of the input, or where an end of line follows.
abbrev IsEnd : Bytes → Type 0
IsEnd rest = (rest ≡ []) ⊎ (length (skip_eol rest) < length rest)

length-skip_lf : (bs : Bytes) → length (skip_lf bs) ≤ length bs
length-skip_lf [] = omega arith
length-skip_lf (b ∷ bs) = ground arith

length-skip_eol : (bs : Bytes) → length (skip_eol bs) ≤ length bs
length-skip_eol [] = omega arith
length-skip_eol (b ∷ bs) = ground (arith, length-skip_lf bs)

cons-IsEnd : (b : ℕ) (bs : Bytes) → (b ≡ 13) ⊎ (b ≡ 10) → IsEnd (b ∷ bs)
cons-IsEnd b bs h = inr (ground (arith, h, length-skip_lf bs))

drop-IsEnd :
    (n : ℕ) (ptr : Bytes)
    → n < length ptr
    → (get_or ptr n 0 ≡ 13) ⊎ (get_or ptr n 0 ≡ 10)
    → IsEnd (drop n ptr)
drop-IsEnd n ptr h hb = rw (drop-cons n ptr 0 h) (cons-IsEnd (get_or ptr n 0) _ hb)

drop_line-IsEnd : (ptr : Bytes) → IsEnd (drop (line_length ptr) ptr)
unfolding line_length
drop_line-IsEnd ptr = elim (Option-cases (mem_chr ptr 10)) [
  | inl e ↦ rw (line_length, e) (inl (drop-all (length ptr) ptr (omega arith)))
  | inr (k, e) ↦ elim (Bool-cases (ltb 0 k && get_or ptr (k - 1) 0 == 13)) [
    | inl t ↦
        rw (line_length, e, t)
          (drop-IsEnd (k - 1) ptr (omega (arith, mem_chr-lt ptr 10 k e)) (ground arith))
    | inr t ↦
        rw (line_length, e, t)
          (drop-IsEnd k ptr (mem_chr-lt ptr 10 k e) (inr (mem_chr-found ptr 10 k e)))
  ]
]

All-append : (P : Line → Type 0) (xs : Ini) (y : Line) → All P xs → P y → All P (xs ++ (y ∷ []))
All-append P [] y h hy = (hy, tt)
All-append P (x ∷ xs) y h hy = (h.0, All-append P xs y h.1 hy)

abbrev IsParsed : Option Ini → Type 0
IsParsed o = (lines : Ini) × (o ≡ some lines) × All IsLine lines

some_inj : {A : Type 0} {x y : A} → some x ≡ some y → x ≡ y
some_inj {A} {x} {y} h = ap (λ o. elim o [ none ↦ x | some z ↦ z ]) h

line_at-rest :
    (ptr line rest : Bytes)
    → line_at ptr ≡ some (line, rest)
    → (drop (line_length ptr) ptr ≡ rest) × (0 < length ptr)
unfolding line_at
line_at-rest [] line rest h = ground arith
line_at-rest (b ∷ ptr) line rest h = (ap (λ r. r.1) (some_inj h), omega arith)

next-IsEnd :
    (ptr line rest : Bytes)
    → line_at ptr ≡ some (line, rest)
    → IsEnd rest × (length rest ≤ length ptr) × (0 < length ptr)
next-IsEnd ptr line rest h =
    let e = line_at-rest ptr line rest h in
    (
      rw (sym e.0) (drop_line-IsEnd ptr),
      rw (sym e.0) (omega (arith, length-drop (line_length ptr) ptr)),
      e.1,
    )

shorter :
    {n : ℕ} (rest rest' : Bytes)
    → IsEnd rest
    → length rest' ≤ length (skip_eol rest)
    → 0 < length (skip_eol rest)
    → length rest < suc n
    → length rest' < n
shorter rest rest' (inl e) h h0 hn = omega (arith, length-skip_eol rest, ap length e)
shorter rest rest' (inr e) h h0 hn = omega arith

parse_loop-IsParsed :
    (fuel : ℕ) (buf rest : Bytes) (lines : Ini)
    → IsEnd rest
    → length rest < fuel
    → All IsLine lines
    → IsParsed (parse_loop fuel buf (some rest) lines)
unfolding parse_loop buf_get_next_line
parse_loop-IsParsed zero buf rest lines he hf hl = absurd (omega arith)
parse_loop-IsParsed (suc fuel) buf rest lines he hf hl =
    elim (Option-cases (line_at (skip_eol rest))) [
      | inl e ↦ rw (parse_loop, e) (lines, refl, hl)
      | inr ((line, rest'), e) ↦
          let n = next-IsEnd (skip_eol rest) line rest' e in
          rw (parse_loop, e)
            (parse_loop-IsParsed fuel buf rest' (lines ++ (parse_line line ∷ [])) n.0
              (shorter rest rest' he n.1 n.2 hf)
              (All-append IsLine lines (parse_line line) hl (parse_line-IsLine line)))
    ]

-- Parsing always comes to an end, on any input, and when each line that was there has its name and
-- its value inside its data and its data inside its memory, so have all lines afterwards.
pub ini_buf_parse-IsParsed :
    (lines : Ini) (buf : Bytes)
    → All IsLine lines
    → (lines' : Ini) × (ini_buf_parse lines buf ≡ some lines') × All IsLine lines'
unfolding ini_buf_parse parse_loop buf_get_next_line
ini_buf_parse-IsParsed lines buf hl = elim (Option-cases (line_at buf)) [
  | inl e ↦ rw (parse_loop, e) (lines, refl, hl)
  | inr ((line, rest), e) ↦
      let n = next-IsEnd buf line rest e in
      rw (parse_loop, e)
        (parse_loop-IsParsed (suc (length buf)) buf rest (lines ++ (parse_line line ∷ [])) n.0
          (omega (arith, n.1))
          (All-append IsLine lines (parse_line line) hl (parse_line-IsLine line)))
]
