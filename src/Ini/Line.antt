-- ===== src/Ini/Line.antt =====
-- src/utils/ini.c: `ini_line_t` and its allocation. `ini_t` is the list of its lines. Every
-- allocation succeeds, so no slot of `lines` is NULL.
use liblcb.Base.{ℕ, suc, ◌≡◌, ◌+◌, Option, none, some, [], ◌++◌, Bytes, Bool, true, false, List}
use liblcb.Base.{leb, ◌≤◌, if◌then◌else◌, length, take, drop, replicate}

pub data LineType : Type 0 where
  empty_line invalid_line comment_line section_line value_line : LineType

-- `memory` is all that `data` points to; `name` and `val` are offsets into it.
pub record Line : Type 0 where
  pub memory : Bytes
  pub data_size : ℕ
  pub data_allocated_size : ℕ
  pub type : LineType
  pub name : ℕ
  pub name_size : ℕ
  pub val : ℕ
  pub val_size : ℕ

abbrev pub Ini : Type 0
Ini = List Line

abbrev pub slice : ℕ → ℕ → Bytes → Bytes
slice off size memory = take size (drop off memory)

abbrev pub data_of : Line → Bytes
data_of l = take l.data_size l.memory

abbrev pub name_of : Line → Bytes
name_of l = slice l.name l.name_size l.memory

abbrev pub val_of : Line → Bytes
val_of l = slice l.val l.val_size l.memory

abbrev pub is_section : LineType → Bool
is_section section_line = true
is_section empty_line = false
is_section invalid_line = false
is_section comment_line = false
is_section value_line = false

abbrev pub is_value : LineType → Bool
is_value value_line = true
is_value section_line = false
is_value empty_line = false
is_value invalid_line = false
is_value comment_line = false

abbrev pub is_empty : LineType → Bool
is_empty empty_line = true
is_empty section_line = false
is_empty value_line = false
is_empty invalid_line = false
is_empty comment_line = false

-- `memcpy` into a line's memory; `none` is a write past its end.
unfoldable pub memcpy : Bytes → ℕ → Bytes → Option Bytes
memcpy memory off bs =
    if leb (off + length bs) (length memory)
    then some (take off memory ++ (bs ++ drop (off + length bs) memory))
    else none

abbrev pub alloc_padding : ℕ
alloc_padding = 16

-- `ini_line_alloc__int`
unfoldable pub ini_line_alloc : ℕ → Line
ini_line_alloc size = record {
  memory = replicate (size + alloc_padding) 0;
  data_size = size;
  data_allocated_size = size + alloc_padding;
  type = empty_line;
  name = 0;
  name_size = 0;
  val = 0;
  val_size = 0;
}

-- Where the name and the value of a line stand.
abbrev pub Layout : LineType → Line → Type 0
Layout value_line l = (l.name ≡ 0) × (l.val ≡ suc l.name_size)
Layout section_line l = l.name ≡ 1
Layout empty_line l = Unit {0}
Layout invalid_line l = Unit {0}
Layout comment_line l = Unit {0}

-- Every size is inside the memory, and the name and the value are inside the data.
abbrev pub IsLine : Line → Type 0
IsLine l =
    (l.data_size ≤ length l.memory)
    × (l.data_allocated_size ≤ length l.memory)
    × (l.name + l.name_size ≤ l.data_size)
    × (l.val + l.val_size ≤ l.data_size)
    × Layout l.type l

-- NULL with size 0, or the bytes.
abbrev pub bytes_of : Option Bytes → Bytes
bytes_of none = []
bytes_of (some name) = name
