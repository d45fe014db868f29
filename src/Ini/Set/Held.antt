-- ===== src/Ini/Set/Held.antt =====
-- src/utils/ini.c: the value line that `ini_val_set` updates or makes.
use liblcb.Base.{◌+◌, ◌≡◌, sym, arith, ◌∙◌}
use liblcb.Base.{some, Bytes, true}
use liblcb.Base.{length, length-take_le, subst}
use liblcb.Memory.{mem_cmpin, length-mem_cmpin}
use liblcb.Ini.Line.{Line, value_line, name_of, IsLine}
use liblcb.Ini.Set.{Realloc, with_room, update_value, new_value_line}
use liblcb.Ini.Set.Write.{
  Holds, with_room-RoomFor, update_value-Holds, new_value_line_lem, value-Layout,
}

-- A line that was there, updated.
pub update-Holds :
    (heap : Realloc) (v : Line) (name val : Bytes)
    → IsLine v
    → v.type ≡ value_line
    → mem_cmpin (name_of v) name ≡ true
    → (v' : Line) × (update_value
          (with_room heap v (length name + 1 + length val))
          (length name + 1 + length val)
          val
        ≡ some v')
      × Holds v' (name_of v) val
update-Holds heap v name val h ht hn =
    let size = length name + 1 + length val in
    let layout = value-Layout v ht h in
    let same : length name ≡ v.name_size =
      sym (length-mem_cmpin (name_of v) name hn)
      ∙ rw layout.0 (length-take_le v.name_size v.memory (omega (arith, h.0, h.2))) in
    let (rt, rn, rv, rs, rm, ra, re) = with_room-RoomFor heap v size h ht (omega (arith, same)) in
    let (v', e, holds) =
      update_value-Holds (with_room heap v size) size val rt rn rv (omega (arith, rs, same)) rm
        ra in
    (v', e, subst (λ n. Holds v' n val) re holds)

-- A new line.
pub new-Holds :
    (name val : Bytes)
    → (l v' : Line) × (new_value_line name (length name + 1 + length val) ≡ some l)
      × (update_value l (length name + 1 + length val) val ≡ some v')
      × Holds v' name val
new-Holds name val =
    let size = length name + 1 + length val in
    let (l, e, lt, ln, ls, lv, lm, la, le) = new_value_line_lem name size (omega arith) in
    let (v', e', holds) = update_value-Holds l size val lt ln lv (omega (arith, ls)) lm la in
    (l, v', e, e', subst (λ n. Holds v' n val) le holds)
