-- ===== src/Ini/Find.antt =====
-- src/utils/ini.c, `ini_sect_enum` to `ini_vali_get_uint`. An offset is an index of the list, and
-- INI_OFFSET_INVALID and ENOENT are `none`. A NULL name is `none`; a name with no size given is its
-- bytes up to the 0 byte.
pub mod First
use liblcb.Base.{ℕ, zero, suc, ◌+◌, ◌-◌, Option, none, some, [], ◌∷◌, Bytes, Bool, true, false}
use liblcb.Base.{ltb, ◌==◌, if◌then◌else◌, length, drop, get_elem?, ◌>>=◌}
use liblcb.Memory.{mem_cmpn, mem_cmpin}
use liblcb.Num.Parse.{str2ssize, str2usize}
use liblcb.Ini.Line.{Line, Ini, name_of, val_of, is_section, is_value}

-- The loop of `ini_sect_enum` over the lines from index `i` on.
unfoldable pub scan_sect : Ini → ℕ → Option (ℕ × Line)
scan_sect [] i = none
scan_sect (l ∷ ls) i = if is_section l.type then some (i, l) else scan_sect ls (suc i)

unfoldable pub ini_sect_enum : Ini → ℕ → Option (ℕ × Line)
ini_sect_enum lines off =
    let i = if ltb (length lines) off then 0 else off in scan_sect (drop i lines) i

-- The loop of `ini_sect_find` and `ini_sect_findi`, on fuel.
unfoldable pub sect_find_loop : (Bytes → Bytes → Bool) → ℕ → Ini → ℕ → Bytes → Option ℕ
sect_find_loop same zero lines i name = none
sect_find_loop same (suc fuel) lines i name = elim (ini_sect_enum lines i) [
  | none ↦ none
  | some (j, l) ↦
      let later = sect_find_loop same fuel lines (suc j) name in
      if same (name_of l) name then some j else later
]

sect_find_by : (Bytes → Bytes → Bool) → Ini → Option Bytes → Option ℕ
sect_find_by same lines none = sect_find_loop same (suc (length lines)) lines 0 []
sect_find_by same lines (some []) = none
sect_find_by same lines (some (b ∷ bs)) = sect_find_loop same (suc (length lines)) lines 0 (b ∷ bs)

unfoldable pub ini_sect_find : Ini → Option Bytes → Option ℕ
unfolding sect_find_by
ini_sect_find = sect_find_by mem_cmpn

unfoldable pub ini_sect_findi : Ini → Option Bytes → Option ℕ
unfolding sect_find_by
ini_sect_findi = sect_find_by mem_cmpin

-- The loop of `ini_sect_val_enum` over the lines from index `i` on.
unfoldable pub scan_val : Ini → ℕ → Option (ℕ × Line)
scan_val [] i = none
scan_val (l ∷ ls) i =
    if is_section l.type then none else if is_value l.type then some (i, l) else scan_val ls (suc i)

unfoldable pub ini_sect_val_enum : Ini → ℕ → ℕ → Option (ℕ × Line)
ini_sect_val_enum lines sect_off val_off =
    let i = if ltb val_off (suc sect_off) then suc sect_off else val_off in
    scan_val (drop i lines) i

-- The loop of `ini_sect_val_find` and `ini_sect_val_findi`, on fuel. Both compare with `mem_cmpin`.
unfoldable pub val_find_loop : ℕ → Ini → ℕ → ℕ → Bytes → Option ℕ
val_find_loop zero lines sect_off i name = none
val_find_loop (suc fuel) lines sect_off i name = elim (ini_sect_val_enum lines sect_off i) [
  | none ↦ none
  | some (j, l) ↦
      let later = val_find_loop fuel lines sect_off (suc j) name in
      if mem_cmpin (name_of l) name then some j else later
]

unfoldable pub ini_sect_val_find : Ini → ℕ → Option Bytes → Option ℕ
ini_sect_val_find lines sect_off none = none
ini_sect_val_find lines sect_off (some []) = none
ini_sect_val_find lines sect_off (some (b ∷ bs)) =
    val_find_loop (suc (length lines)) lines sect_off 0 (b ∷ bs)

unfoldable pub ini_sect_val_findi : Ini → ℕ → Option Bytes → Option ℕ
ini_sect_val_findi lines sect_off none = none
ini_sect_val_findi lines sect_off (some []) = none
ini_sect_val_findi lines sect_off (some (b ∷ bs)) =
    val_find_loop (suc (length lines)) lines sect_off 0 (b ∷ bs)

unfoldable pub ini_val_get : Ini → Option Bytes → Option Bytes → Option Bytes
ini_val_get lines sect name = ini_sect_find lines sect >>= λ sect_off.
    ini_sect_val_find lines sect_off name >>= λ val_off.
    get_elem? lines val_off >>= λ l. some (val_of l)

unfoldable pub ini_vali_get : Ini → Option Bytes → Option Bytes → Option Bytes
ini_vali_get lines sect name = ini_sect_findi lines sect >>= λ sect_off.
    ini_sect_val_findi lines sect_off name >>= λ val_off.
    get_elem? lines val_off >>= λ l. some (val_of l)

-- The number as its 64-bit pattern.
unfoldable pub ini_val_get_int : Ini → Option Bytes → Option Bytes → Option ℕ
ini_val_get_int lines sect name = ini_val_get lines sect name >>= λ v. some (str2ssize (some v))

unfoldable pub ini_val_get_uint : Ini → Option Bytes → Option Bytes → Option ℕ
ini_val_get_uint lines sect name = ini_val_get lines sect name >>= λ v. some (str2usize (some v))

unfoldable pub ini_vali_get_int : Ini → Option Bytes → Option Bytes → Option ℕ
ini_vali_get_int lines sect name = ini_vali_get lines sect name >>= λ v. some (str2ssize (some v))

unfoldable pub ini_vali_get_uint : Ini → Option Bytes → Option Bytes → Option ℕ
ini_vali_get_uint lines sect name = ini_vali_get lines sect name >>= λ v. some (str2usize (some v))
