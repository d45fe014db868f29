-- ===== src/Ini/Find/First.antt =====
-- src/utils/ini.c: the searches for a section and for a value find the first that matches.
use liblcb.Base.{ℕ, zero, suc, ◌+◌, ◌≤◌, ◌<◌, ◌≡◌, ◌≢◌, refl, sym, ap, arith, inl, inr, ◌∙◌}
use liblcb.Base.{Option, none, some, [], ◌∷◌, Bytes, Bool}
use liblcb.Base.{
  if◌then◌else◌, ◌&&◌, length, drop, drop-all, length-drop, le→ltb, lt→ltb, Option-cases,
  Bool-cases,
}
use liblcb.Memory.{mem_cmpn, mem_cmpin}
use liblcb.Ini.Line.{Line, Ini, name_of, is_section, is_value, bytes_of}
use liblcb.Ini.Find.{
  scan_sect, ini_sect_enum, sect_find_loop, ini_sect_find, ini_sect_findi, sect_find_by,
}
use liblcb.Ini.Find.{
  scan_val, ini_sect_val_enum, val_find_loop, ini_sect_val_find, ini_sect_val_findi,
}

-- The index of the first section line whose name is the same.
unfoldable pub first_section : (Bytes → Bytes → Bool) → Bytes → Ini → ℕ → Option ℕ
first_section same name [] i = none
first_section same name (l ∷ ls) i =
    let later = first_section same name ls (suc i) in
    if is_section l.type && same (name_of l) name then some i else later

-- The index of the first value line with the name in any case, up to the next section line.
unfoldable pub first_value : Bytes → Ini → ℕ → Option ℕ
first_value name [] i = none
first_value name (l ∷ ls) i =
    let later = first_value name ls (suc i) in
    if is_section l.type
    then none
    else if is_value l.type && mem_cmpin (name_of l) name
    then some i
    else later

drop-tail :
    (lines : Ini) (l : Line) (ls : Ini) (i : ℕ) → drop i lines ≡ l ∷ ls → drop (suc i) lines ≡ ls
drop-tail [] l ls zero h = ground arith
drop-tail [] l ls (suc i) h = ground arith
drop-tail (x ∷ lines) l ls zero h = ap (drop 1) h
drop-tail (x ∷ lines) l ls (suc i) h = drop-tail lines l ls i h

module _ (same : Bytes → Bytes → Bool) (name : Bytes) (lines : Ini) where
  after_sect : Option (ℕ × Line) → Option ℕ
  after_sect none = none
  after_sect (some (j, l)) =
      if same (name_of l) name then some j else first_section same name (drop (suc j) lines) (suc j)

  scan_sect-first :
      (ls : Ini) (i : ℕ)
      → drop i lines ≡ ls
      → after_sect (scan_sect ls i) ≡ first_section same name ls i
  unfolding after_sect scan_sect first_section
  scan_sect-first [] i h = refl
  scan_sect-first (l ∷ ls) i h = elim (Bool-cases (is_section l.type)) [
    | inl e ↦ rw (e, drop-tail lines l ls i h) refl
    | inr e ↦ rw e (scan_sect-first ls (suc i) (drop-tail lines l ls i h))
  ]

scan_sect-lt :
    (ls : Ini) (i j : ℕ) (l : Line) → scan_sect ls i ≡ some (j, l) → (i ≤ j) × (j < i + length ls)
unfolding scan_sect
scan_sect-lt [] i j l h = ground arith
scan_sect-lt (x ∷ ls) i j l h = elim (Bool-cases (is_section x.type)) [
  | inl e ↦ ground (arith, e)
  | inr e ↦ ground (arith, e, scan_sect-lt ls (suc i) j l)
]

sect_find_loop-first :
    (same : Bytes → Bytes → Bool) (name : Bytes) (lines : Ini) (fuel i : ℕ)
    → i ≤ length lines
    → length lines < fuel + i
    → sect_find_loop same fuel lines i name ≡ first_section same name (drop i lines) i
unfolding sect_find_loop ini_sect_enum after_sect
sect_find_loop-first same name lines zero i hi hf = absurd (omega arith)
sect_find_loop-first same name lines (suc fuel) i hi hf =
    elim (Option-cases (scan_sect (drop i lines) i)) [
      | inl e ↦
          rw (sect_find_loop, le→ltb (length lines) i hi, e)
            (sym (ap (after_sect same name lines) e)
              ∙ scan_sect-first same name lines (drop i lines) i refl)
      | inr ((j, l), e) ↦
          let b = scan_sect-lt (drop i lines) i j l e in
          rw
            (
              sect_find_loop,
              le→ltb (length lines) i hi,
              e,
              sect_find_loop-first same name lines fuel (suc j)
                  (omega (arith, b, length-drop i lines)) (omega (arith, b, length-drop i lines)),
            )
            (sym (ap (after_sect same name lines) e)
              ∙ scan_sect-first same name lines (drop i lines) i refl)
    ]

module _ (name : Bytes) (lines : Ini) where
  after_val : Option (ℕ × Line) → Option ℕ
  after_val none = none
  after_val (some (j, l)) =
      if mem_cmpin (name_of l) name then some j else first_value name (drop (suc j) lines) (suc j)

  scan_val-first :
      (ls : Ini) (i : ℕ) → drop i lines ≡ ls → after_val (scan_val ls i) ≡ first_value name ls i
  unfolding after_val scan_val first_value
  scan_val-first [] i h = refl
  scan_val-first (l ∷ ls) i h = elim (Bool-cases (is_section l.type)) [
    | inl s ↦ rw s refl
    | inr s ↦ elim (Bool-cases (is_value l.type)) [
      | inl e ↦ rw (s, e, drop-tail lines l ls i h) refl
      | inr e ↦ rw (s, e) (scan_val-first ls (suc i) (drop-tail lines l ls i h))
    ]
  ]

scan_val-lt :
    (ls : Ini) (i j : ℕ) (l : Line) → scan_val ls i ≡ some (j, l) → (i ≤ j) × (j < i + length ls)
unfolding scan_val
scan_val-lt [] i j l h = ground arith
scan_val-lt (x ∷ ls) i j l h = ground (arith, scan_val-lt ls (suc i) j l)

val_find_loop-first :
    (name : Bytes) (lines : Ini) (off fuel i : ℕ)
    → suc off ≤ i
    → length lines < fuel + i
    → val_find_loop fuel lines off i name ≡ first_value name (drop i lines) i
unfolding val_find_loop ini_sect_val_enum after_val first_value
val_find_loop-first name lines off zero i hi hf = rw (drop-all i lines (omega arith)) refl
val_find_loop-first name lines off (suc fuel) i hi hf =
    elim (Option-cases (scan_val (drop i lines) i)) [
      | inl e ↦
          rw (val_find_loop, le→ltb i (suc off) hi, e)
            (sym (ap (after_val name lines) e) ∙ scan_val-first name lines (drop i lines) i refl)
      | inr ((j, l), e) ↦
          let b = scan_val-lt (drop i lines) i j l e in
          rw
            (
              val_find_loop,
              le→ltb i (suc off) hi,
              e,
              val_find_loop-first name lines off fuel (suc j) (omega (arith, b)) (omega (arith, b)),
            )
            (sym (ap (after_val name lines) e) ∙ scan_val-first name lines (drop i lines) i refl)
    ]

-- The first round starts behind the section line.
val_find_loop_start :
    (name : Bytes) (lines : Ini) (off fuel : ℕ)
    → val_find_loop (suc fuel) lines off 0 name ≡ val_find_loop (suc fuel) lines off (suc off) name
unfolding val_find_loop ini_sect_val_enum
val_find_loop_start name lines off fuel =
    rw (val_find_loop, le→ltb (suc off) (suc off) (omega arith), lt→ltb 0 (suc off) (omega arith))
      refl

-- The first section line with the asked name: NULL asks for the empty name, and a name of no bytes
-- for nothing.
abbrev pub asked_section : (Bytes → Bytes → Bool) → Ini → Option Bytes → Option ℕ
asked_section same lines none = first_section same [] lines 0
asked_section same lines (some []) = none
asked_section same lines (some (b ∷ bs)) = first_section same (b ∷ bs) lines 0

-- The sections that the two searches find are the first section lines with the asked name, in its
-- spelling or in any case; a NULL name asks for the empty name and an empty name finds none.
pub ini_sect_find-first :
    (lines : Ini) (sect : Option Bytes)
    → (ini_sect_find lines sect ≡ asked_section mem_cmpn lines sect)
      × (ini_sect_findi lines sect ≡ asked_section mem_cmpin lines sect)
unfolding ini_sect_find ini_sect_findi sect_find_by
ini_sect_find-first lines none = (
  sect_find_loop-first mem_cmpn [] lines (suc (length lines)) 0 (omega arith) (omega arith),
  sect_find_loop-first mem_cmpin [] lines (suc (length lines)) 0 (omega arith) (omega arith),
)
ini_sect_find-first lines (some []) = (refl, refl)
ini_sect_find-first lines (some (b ∷ bs)) = (
  sect_find_loop-first mem_cmpn (b ∷ bs) lines (suc (length lines)) 0 (omega arith) (omega arith),
  sect_find_loop-first mem_cmpin (b ∷ bs) lines (suc (length lines)) 0 (omega arith) (omega arith),
)

-- A name that is NULL or not empty asks for the first section line with it.
pub ini_sect_find_named :
    (lines : Ini) (sect : Option Bytes)
    → sect ≢ some []
    → ini_sect_find lines sect ≡ first_section mem_cmpn (bytes_of sect) lines 0
ini_sect_find_named lines none h = (ini_sect_find-first lines none).0
ini_sect_find_named lines (some []) h = absurd (h refl)
ini_sect_find_named lines (some (b ∷ bs)) h = (ini_sect_find-first lines (some (b ∷ bs))).0

pub ini_sect_val_find-first :
    (lines : Ini) (off b : ℕ) (bs : Bytes)
    → (ini_sect_val_find lines off (some (b ∷ bs))
        ≡ first_value (b ∷ bs) (drop (suc off) lines) (suc off))
      × (ini_sect_val_findi lines off (some (b ∷ bs))
          ≡ first_value (b ∷ bs) (drop (suc off) lines) (suc off))
unfolding ini_sect_val_find ini_sect_val_findi
ini_sect_val_find-first lines off b bs =
    let found =
      val_find_loop_start (b ∷ bs) lines off (length lines)
      ∙ val_find_loop-first (b ∷ bs) lines off (suc (length lines)) (suc off) (omega arith)
          (omega arith) in
    (found, found)
