-- ===== src/Ini/Set/Write.antt =====
-- src/utils/ini.c: what `ini_val_set` writes into a line's memory.
use liblcb.Base.{ℕ, zero, suc, ◌+◌, ◌-◌, ◌≤◌, ◌<◌, ◌≡◌, refl, sym, ap, arith, inl, inr, ◌∙◌}
use liblcb.Base.{some, [], ◌∷◌, Bytes, replicate}
use liblcb.Base.{ltb, length, take, drop, length-append, length-replicate}
use liblcb.Base.{Bool-cases, if_rule, subst}
use liblcb.Ini.Line.{
  Line, value_line, section_line, IsLine, Layout, slice, name_of, val_of, ini_line_alloc,
  alloc_padding,
}
use liblcb.Ini.Set.{Realloc, with_room, resized, update_value, new_value_line, new_section}
use liblcb.Ini.Set.Copy.{take_prefix, memcpy-Copied}

-- A value line that the name and the value can be read from.
abbrev pub Holds : Line → Bytes → Bytes → Type 0
Holds l name val = (l.type ≡ value_line) × (name_of l ≡ name) × (val_of l ≡ val) × IsLine l

pub update_value-Holds :
    (l : Line) (data_size : ℕ) (val : Bytes)
    → l.type ≡ value_line
    → l.name ≡ 0
    → l.val ≡ suc l.name_size
    → data_size ≡ l.name_size + 1 + length val
    → data_size ≤ length l.memory
    → l.data_allocated_size ≤ length l.memory
    → (l' : Line) × (update_value l data_size val ≡ some l') × Holds l' (name_of l) val
unfolding update_value
update_value-Holds l data_size val ht hn hv hd hm ha =
    let (memory, (e, el, ev, ep)) = memcpy-Copied l.memory l.val val (omega arith) in
    (
      record l { memory = memory; data_size = data_size; val_size = length val },
      rw e refl,
      (
        ht,
        rw hn (ep l.name_size (omega arith)),
        ev,
        (omega arith, omega arith, omega arith, omega arith, rw ht (hn, hv)),
      ),
    )

-- What the update needs of the line `w` that `with_room` makes of `l`.
abbrev pub RoomFor : Line → ℕ → Line → Type 0
RoomFor l data_size w =
    (w.type ≡ value_line)
    × (w.name ≡ 0)
    × (w.val ≡ suc w.name_size)
    × (w.name_size ≡ l.name_size)
    × (data_size ≤ length w.memory)
    × (w.data_allocated_size ≤ length w.memory)
    × (name_of w ≡ name_of l)

pub value-Layout :
    (l : Line) → l.type ≡ value_line → IsLine l → (l.name ≡ 0) × (l.val ≡ suc l.name_size)
value-Layout l ht h = subst (λ t. Layout t l) ht h.4

length-take_rest : (n : ℕ) (xs : Bytes) → n ≤ length (take n xs) + (n - length xs)
length-take_rest zero xs = omega arith
length-take_rest (suc n) [] = omega arith
length-take_rest (suc n) (x ∷ xs) = omega (arith, length-take_rest n xs)

length-resized : (junk n : ℕ) (memory : Bytes) → n ≤ length (resized junk n memory)
length-resized junk n memory = omega (
  arith,
  length-append (take n memory) (replicate (n - length memory) junk),
  length-replicate (n - length memory) junk,
  length-take_rest n memory,
)

pub with_room-RoomFor :
    (heap : Realloc) (l : Line) (data_size : ℕ)
    → IsLine l
    → l.type ≡ value_line
    → l.name_size < data_size
    → RoomFor l data_size (with_room heap l data_size)
unfolding with_room
with_room-RoomFor heap l data_size h ht hs =
    let (hn, hv) = value-Layout l ht h in
    let room = length-resized heap.junk (data_size + alloc_padding) l.memory in
    let same =
      take_prefix l.name_size (data_size + alloc_padding) l.memory
        (replicate (data_size + alloc_padding - length l.memory) heap.junk) (omega arith)
        (omega (arith, h.0, h.2)) in
    elim (Bool-cases (ltb data_size l.data_allocated_size)) [
      | inl e ↦ rw e (ht, hn, hv, refl, ground arith, h.1, refl)
      | inr e ↦ rw e (
          if_rule (RoomFor l data_size) heap.moves _ _
            (ht, refl, omega arith, refl, omega (arith, room), room, rw hn same)
            (ht, hn, hv, refl, omega (arith, room), ground (arith, room), rw hn same))
    ]

take-nil : (n : ℕ) → take {A = ℕ} n [] ≡ []
take-nil zero = refl
take-nil (suc n) = refl

slice_1 : (n : ℕ) (m : Bytes) → slice 1 n m ≡ drop 1 (take (suc n) m)
slice_1 n [] = take-nil n
slice_1 n (x ∷ m) = refl

pub new_value_line_lem :
    (name : Bytes) (data_size : ℕ)
    → length name < data_size
    → (l : Line) × (new_value_line name data_size ≡ some l)
      × (l.type ≡ value_line)
      × (l.name ≡ 0)
      × (l.name_size ≡ length name)
      × (l.val ≡ suc l.name_size)
      × (data_size ≤ length l.memory)
      × (l.data_allocated_size ≤ length l.memory)
      × (name_of l ≡ name)
unfolding new_value_line ini_line_alloc
new_value_line_lem name data_size h =
    let block : Bytes = replicate (data_size + 16) 0 in
    let size = length-replicate {A = ℕ} (data_size + 16) 0 in
    let (m1, (e1, l1, v1, p1)) = memcpy-Copied block 0 name (omega (arith, size)) in
    let (m2, (e2, l2, v2, p2)) =
      memcpy-Copied m1 (length name) (b'=' ∷ []) (omega (arith, size, l1)) in
    (
      record {
        memory = m2;
        data_size = data_size;
        data_allocated_size = data_size + alloc_padding;
        type = value_line;
        name = 0;
        name_size = length name;
        val = length name + 1;
        val_size = 0;
      },
      rw (e1, e2) refl,
      refl,
      refl,
      refl,
      omega arith,
      omega (arith, size, l1, l2),
      omega (arith, size, l1, l2),
      p2 (length name) (omega arith) ∙ v1,
    )

pub new_section_lem :
    (name : Bytes)
    → (l : Line) × (new_section name ≡ some l)
      × (l.type ≡ section_line)
      × (name_of l ≡ name)
      × IsLine l
unfolding new_section ini_line_alloc
new_section_lem name =
    let block : Bytes = replicate (length name + 2 + 16) 0 in
    let size = length-replicate {A = ℕ} (length name + 2 + 16) 0 in
    let (m1, (e1, l1, v1, p1)) = memcpy-Copied block 0 (b'[' ∷ []) (omega (arith, size)) in
    let (m2, (e2, l2, v2, p2)) = memcpy-Copied m1 1 name (omega (arith, size, l1)) in
    let (m3, (e3, l3, v3, p3)) =
      memcpy-Copied m2 (1 + length name) (b']' ∷ []) (omega (arith, size, l1, l2)) in
    (
      record {
        memory = m3;
        data_size = length name + 2;
        data_allocated_size = length name + 2 + alloc_padding;
        type = section_line;
        name = 1;
        name_size = length name;
        val = 0;
        val_size = 0;
      },
      rw (e1, e2, e3) refl,
      refl,
      slice_1 (length name) m3
          ∙ ap (drop 1) (p3 (suc (length name)) (omega arith))
          ∙ sym (slice_1 (length name) m2)
          ∙ v2,
      (
        omega (arith, size, l1, l2, l3),
        omega (arith, size, l1, l2, l3),
        omega arith,
        omega arith,
        refl,
      ),
    )
