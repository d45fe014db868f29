-- ===== src/Ini/Set.antt =====
-- src/utils/ini.c, `ini_val_set`, `ini_val_set_int` and `ini_val_set_uint`. `none` is a write past
-- the end of a line's memory.
pub mod Copy
pub mod Write
pub mod Slots
pub mod Place
pub mod Held
pub mod GetSet
pub mod Number
use liblcb.Base.{
  ℕ, zero, suc, ◌+◌, ◌-◌, Option, none, some, [], ◌∷◌, ◌++◌, Bytes, Bool, true, false,
}
use liblcb.Base.{
  ltb, ◌==◌, if◌then◌else◌, length, take, drop, set, get_elem?, replicate, ◌>>=◌, Errno, ok, is_ok,
}
use liblcb.Base.Int.{ℤ}
use liblcb.Num.Format.{Text, ssize2str, usize2str}
use liblcb.Ini.Line.{
  Line, Ini, section_line, value_line, is_section, is_empty, memcpy, ini_line_alloc, alloc_padding,
  bytes_of,
}
use liblcb.Ini.Find.{ini_sect_find, ini_sect_val_find}

-- What `realloc` chooses: whether the block moves, and what the added bytes hold.
pub record Realloc : Type 0 where
  pub moves : Bool
  pub junk : ℕ

-- The line of a new section.
unfoldable pub new_section : Bytes → Option Line
unfolding ini_line_alloc memcpy
new_section name =
    let line = ini_line_alloc (length name + 2) in
    memcpy line.memory 0 (b'[' ∷ []) >>= λ m1. memcpy m1 1 name >>= λ m2.
    memcpy m2 (1 + length name) (b']' ∷ []) >>= λ m3.
    some (record line { memory = m3; type = section_line; name = 1; name_size = length name })

-- `for (val_off = (sect_off + 1); ...; val_off ++)` over the lines from index `i` on.
unfoldable pub section_end : Ini → ℕ → ℕ
section_end [] i = i
section_end (l ∷ ls) i = if is_section l.type then i else section_end ls (suc i)

is_empty_at : Ini → ℕ → Bool
is_empty_at [] i = false
is_empty_at (l ∷ ls) zero = is_empty l.type
is_empty_at (l ∷ ls) (suc i) = is_empty_at ls i

-- `for (; 0 < val_off && ...; val_off --)` back over empty lines.
unfoldable pub before_empty : Ini → ℕ → ℕ
unfolding is_empty_at
before_empty lines zero = zero
before_empty lines (suc i) = if is_empty_at lines i then before_empty lines i else suc i

-- The `memmove` and the new slot.
abbrev pub insert_at : ℕ → Line → Ini → Ini
insert_at i l lines = take i lines ++ (l ∷ drop i lines)

-- `alloc_new_line`
unfoldable pub new_value_line : Bytes → ℕ → Option Line
unfolding ini_line_alloc memcpy
new_value_line name data_size =
    let line = ini_line_alloc data_size in
    memcpy line.memory 0 name >>= λ m1. memcpy m1 (length name) (b'=' ∷ []) >>= λ m2.
    some (record line {
      memory = m2;
      type = value_line;
      name = 0;
      name_size = length name;
      val = length name + 1;
    })

-- `realloc` of the block behind `data` to `n` bytes.
abbrev pub resized : ℕ → ℕ → Bytes → Bytes
resized junk n memory = take n memory ++ replicate (n - length memory) junk

-- The existing line, made large enough. If the block does not move, `data_allocated_size` stays.
unfoldable pub with_room : Realloc → Line → ℕ → Line
with_room heap l data_size =
    let memory = resized heap.junk (data_size + alloc_padding) l.memory in
    if ltb data_size l.data_allocated_size
    then l
    else if heap.moves
    then record l {
      memory = memory;
      data_allocated_size = data_size + alloc_padding;
      name = 0;
      val = l.name_size + 1;
    }
    else record l { memory = memory }

-- `update_value`
unfoldable pub update_value : Line → ℕ → Bytes → Option Line
update_value l data_size val = memcpy l.memory l.val val >>= λ memory.
    some (record l { memory = memory; data_size = data_size; val_size = length val })

-- A section that is there, or a new one at the end, and its offset.
unfoldable pub find_or_add_section : Ini → Option Bytes → Option (Ini × ℕ)
find_or_add_section lines sect = elim (ini_sect_find lines sect) [
  | some off ↦ some (lines, off)
  | none ↦ new_section (bytes_of sect) >>= λ l. some (lines ++ (l ∷ []), length lines)
]

-- The value's line, there or new.
unfoldable pub set_in_section : Realloc → Ini → ℕ → Option Bytes → Bytes → Option Ini
set_in_section heap lines sect_off name val =
    let data_size = length (bytes_of name) + 1 + length val in
    elim (ini_sect_val_find lines sect_off name) [
      | none ↦
          let i = before_empty lines (section_end (drop (suc sect_off) lines) (suc sect_off)) in
          new_value_line (bytes_of name) data_size >>= λ l.
          update_value l data_size val >>= λ l'. some (insert_at i l' lines)
      | some i ↦ get_elem? lines i >>= λ l.
          update_value (with_room heap l data_size) data_size val >>= λ l'. some (set lines i l')
    ]

unfoldable pub ini_val_set : Realloc → Ini → Option Bytes → Option Bytes → Bytes → Option Ini
ini_val_set heap lines sect name val =
    find_or_add_section lines sect >>= λ r. set_in_section heap r.0 r.1 name val

-- The formatted number is stored, or the formatter's error is returned.
unfoldable pub set_text : Realloc → Ini → Option Bytes → Option Bytes → Text → Option (Errno × Ini)
set_text heap lines sect name text =
    let n : ℕ = elim text.size_ret [ none ↦ 0 | some k ↦ k ] in
    if is_ok text.status
    then (ini_val_set heap lines sect name (take n text.buf) >>= λ lines'. some (ok, lines'))
    else some (text.status, lines)

-- `stack` is what `char buf[64]` holds.
unfoldable pub ini_val_set_int :
    Realloc → Bytes → Ini → Option Bytes → Option Bytes → ℤ → Option (Errno × Ini)
ini_val_set_int heap stack lines sect name val =
    ssize2str val (some stack) 64 >>= λ text. set_text heap lines sect name text

unfoldable pub ini_val_set_uint :
    Realloc → Bytes → Ini → Option Bytes → Option Bytes → ℕ → Option (Errno × Ini)
ini_val_set_uint heap stack lines sect name val =
    usize2str val (some stack) 64 >>= λ text. set_text heap lines sect name text
