-- ===== src/Ini/Set/GetSet.antt =====
-- src/utils/ini.c: reading back what `ini_val_set` stored.
use liblcb.Base.{ℕ, suc, ◌+◌, ◌≡◌, ◌≢◌, refl, sym, ap, arith, inl, inr, ◌∙◌}
use liblcb.Base.{Option, none, some, [], ◌∷◌, ◌++◌, Bytes, true}
use liblcb.Base.{
  length, take, drop, get_elem?, All, All-append, All-parts, Option-cases, length-take_le,
  take-append-drop, subst,
}
use liblcb.Memory.{mem_cmpn, mem_cmpin, mem_cmpn_self, mem_cmpin_self}
use liblcb.Ini.Line.{Line, Ini, value_line, section_line, name_of, val_of, IsLine, bytes_of}
use liblcb.Ini.Find.{ini_sect_find, ini_sect_val_find, ini_val_get}
use liblcb.Ini.Find.First.{first_value, ini_sect_find_named, ini_sect_val_find-first}
use liblcb.Ini.Set.{Realloc, set_in_section, find_or_add_section, ini_val_set, insert_at}
use liblcb.Ini.Set.Write.{new_section_lem}
use liblcb.Ini.Set.Place.{
  first_section-Split, first_value-Split, first_value-insert, place_in_section, is_value-line,
  is_section-line, first_section-append,
}
use liblcb.Ini.Set.Slots.{drop_at, get_behind, set_behind, insert_behind}
use liblcb.Ini.Set.Held.{update-Holds, new-Holds}

ini_val_get_found :
    (lines : Ini) (sect name : Option Bytes) (k j : ℕ) (v : Line)
    → ini_sect_find lines sect ≡ some k
    → ini_sect_val_find lines k name ≡ some j
    → get_elem? lines j ≡ some v
    → ini_val_get lines sect name ≡ some (val_of v)
unfolding ini_val_get
ini_val_get_found lines sect name k j v e1 e2 e3 = rw (e1, e2, e3) refl

-- The value lines of the section at `k` hold the value, whatever the lines behind it were.
abbrev Stores : Ini → Option Bytes → Option Bytes → Bytes → Option Ini → Type 0
Stores lines sect name val r =
    (lines' : Ini) × (r ≡ some lines')
    × All IsLine lines'
    × (ini_val_get lines' sect name ≡ some val)

module _ (heap : Realloc) (sect : Option Bytes) (hs : sect ≢ some []) (b : ℕ) (bs val : Bytes) where
  -- The lines with a section line in the middle, found by its name.
  module _ (before : Ini) (at : Line)
      (found : (behind' : Ini)
        → ini_sect_find (before ++ (at ∷ behind')) sect ≡ some (length before)) where
    val_find_behind :
        (behind' : Ini)
        → ini_sect_val_find (before ++ (at ∷ behind')) (length before) (some (b ∷ bs))
          ≡ first_value (b ∷ bs) behind' (suc (length before))
    val_find_behind behind' =
        (ini_sect_val_find-first (before ++ (at ∷ behind')) (length before) b bs).0
        ∙ rw (drop_at before at behind') refl

    read_back :
        (vb : Ini) (v' : Line) (vd : Ini) (j : ℕ)
        → first_value (b ∷ bs) (vb ++ (v' ∷ vd)) (suc (length before)) ≡ some j
        → suc (length before) + length vb ≡ j
        → ini_val_get (before ++ (at ∷ (vb ++ (v' ∷ vd)))) sect (some (b ∷ bs)) ≡ some (val_of v')
    read_back vb v' vd j h hj =
        ini_val_get_found (before ++ (at ∷ (vb ++ (v' ∷ vd)))) sect (some (b ∷ bs)) (length before)
          j v' (found (vb ++ (v' ∷ vd))) (val_find_behind (vb ++ (v' ∷ vd)) ∙ h)
          (get_behind before at vb v' vd j hj)

    updated_at :
        (vb : Ini) (v : Line) (vd : Ini) (j : ℕ)
        → All IsLine (before ++ (at ∷ (vb ++ (v ∷ vd))))
        → v.type ≡ value_line
        → mem_cmpin (name_of v) (b ∷ bs) ≡ true
        → first_value (b ∷ bs) (vb ++ (v ∷ vd)) (suc (length before)) ≡ some j
        → suc (length before) + length vb ≡ j
        → ((v' : Line)
            → v'.type ≡ value_line
            → mem_cmpin (name_of v') (b ∷ bs) ≡ true
            → first_value (b ∷ bs) (vb ++ (v' ∷ vd)) (suc (length before)) ≡ some j)
        → Stores (before ++ (at ∷ (vb ++ (v ∷ vd)))) sect (some (b ∷ bs)) val (
            set_in_section heap
              (before ++ (at ∷ (vb ++ (v ∷ vd))))
              (length before)
              (some (b ∷ bs))
              val)
    unfolding set_in_section
    updated_at vb v vd j hl ht hn h hj keeps =
        let (h1, (ha, hb)) = All-parts IsLine before (at ∷ (vb ++ (v ∷ vd))) hl in
        let (h2, (hv, h3)) = All-parts IsLine vb (v ∷ vd) hb in
        let (v', e, holds) = update-Holds heap v (b ∷ bs) val hv ht hn in
        let hn' : mem_cmpin (name_of v') (b ∷ bs) ≡ true = rw holds.1 hn in
        (
          before ++ (at ∷ (vb ++ (v' ∷ vd))),
          rw
              (
                set_in_section,
                val_find_behind (vb ++ (v ∷ vd)),
                h,
                get_behind before at vb v vd j hj,
                e,
                set_behind before at vb v vd j v' hj,
              )
              refl,
          All-append IsLine before _ h1 (ha, All-append IsLine vb (v' ∷ vd) h2 (holds.3, h3)),
          read_back vb v' vd j (keeps v' holds.0 hn') hj ∙ ap some holds.2,
        )

    inserted :
        (behind : Ini)
        → at.type ≡ section_line
        → All IsLine (before ++ (at ∷ behind))
        → first_value (b ∷ bs) behind (suc (length before)) ≡ none
        → Stores
            (before ++ (at ∷ behind))
            sect
            (some (b ∷ bs))
            val
            (set_in_section heap (before ++ (at ∷ behind)) (length before) (some (b ∷ bs)) val)
    unfolding set_in_section
    inserted behind ht hl h =
        let (m, em, hm, hk) = place_in_section before at behind (rw ht refl) in
        let (l, v', e, e', holds) = new-Holds (b ∷ bs) val in
        let (h1, (ha, hb)) = All-parts IsLine before (at ∷ behind) hl in
        let same : mem_cmpin (name_of v') (b ∷ bs) ≡ true = rw holds.1 (mem_cmpin_self (b ∷ bs)) in
        let parts =
          All-parts IsLine (take m behind) (drop m behind) (rw (take-append-drop m behind) hb) in
        (
          before ++ (at ∷ insert_at m v' behind),
          rw
              (
                set_in_section,
                val_find_behind behind,
                h,
                e,
                e',
                drop_at before at behind,
                em,
                insert_behind before at behind m (suc (length before) + m) v' refl,
              )
              refl,
          All-append IsLine before _ h1 (
            ha,
            All-append IsLine (take m behind) (v' ∷ drop m behind) parts.0 (holds.3, parts.1),
          ),
          read_back (take m behind) v' (drop m behind) (suc (length before) + m)
                (first_value-insert (b ∷ bs) behind (suc (length before)) m v' h hm hk
                  (rw holds.0 refl) (rw holds.0 refl) same)
                (omega (arith, length-take_le m behind hk))
              ∙ ap some holds.2,
        )

  at_section :
      (before : Ini) (at : Line) (behind : Ini)
      → ((behind' : Ini) → ini_sect_find (before ++ (at ∷ behind')) sect ≡ some (length before))
      → at.type ≡ section_line
      → All IsLine (before ++ (at ∷ behind))
      → Stores
          (before ++ (at ∷ behind))
          sect
          (some (b ∷ bs))
          val
          (set_in_section heap (before ++ (at ∷ behind)) (length before) (some (b ∷ bs)) val)
  at_section before at behind found ht hl =
      elim (Option-cases (first_value (b ∷ bs) behind (suc (length before)))) [
        | inl h ↦ inserted before at found behind ht hl h
        | inr (j, h) ↦
            let (vb, v, vd, e1, e2, e3, e4, e5) =
              first_value-Split (b ∷ bs) behind (suc (length before)) j h in
            subst
              (λ bh.
                Stores (before ++ (at ∷ bh)) sect (some (b ∷ bs)) val
                  (set_in_section heap (before ++ (at ∷ bh)) (length before) (some (b ∷ bs)) val))
              (sym e1)
              (updated_at before at found vb v vd j
                (subst (λ bh. All IsLine (before ++ (at ∷ bh))) e1 hl) (is_value-line v.type e3) e4
                (subst (λ bh. first_value (b ∷ bs) bh (suc (length before)) ≡ some j) e1 h) e2
                (λ v' t' n'. e5 v' (rw t' refl) (rw t' refl) n'))
      ]

  known_section :
      (lines : Ini) (k : ℕ)
      → ini_sect_find lines sect ≡ some k
      → All IsLine lines
      → Stores lines sect (some (b ∷ bs)) val (set_in_section heap lines k (some (b ∷ bs)) val)
  known_section lines k h hl =
      let (before, at, behind, e1, e2, e3, e4) =
        first_section-Split mem_cmpn (bytes_of sect) lines 0 k
          (sym (ini_sect_find_named lines sect hs) ∙ h) in
      let place : length before ≡ k = omega (arith, e2) in
      subst
        (λ n.
          Stores lines sect (some (b ∷ bs)) val (set_in_section heap lines n (some (b ∷ bs)) val))
        place
        (subst
          (λ ls.
            Stores ls sect (some (b ∷ bs)) val
              (set_in_section heap ls (length before) (some (b ∷ bs)) val))
          (sym e1)
          (at_section before at behind
            (λ behind'.
              ini_sect_find_named (before ++ (at ∷ behind')) sect hs
              ∙ e4 behind'
              ∙ ap some (sym place))
            (is_section-line at.type e3) (subst (All IsLine) e1 hl)))

  -- Storing a value always succeeds and keeps each line's name and value inside its data and its
  -- data inside its memory, wherever `realloc` puts the blocks; reading the name in the section
  -- then gives that value. The section name is not empty, unless it is NULL, nor is the value's.
  pub ini_val_get-ini_val_set :
      (lines : Ini)
      → All IsLine lines
      → (lines' : Ini) × (ini_val_set heap lines sect (some (b ∷ bs)) val ≡ some lines')
        × All IsLine lines'
        × (ini_val_get lines' sect (some (b ∷ bs)) ≡ some val)
  unfolding ini_val_set find_or_add_section
  ini_val_get-ini_val_set lines hl = elim (Option-cases (ini_sect_find lines sect)) [
    | inr (k, h) ↦ rw (find_or_add_section, h) (known_section lines k h hl)
    | inl h ↦
        let (l, e, lt, ln, hl') = new_section_lem (bytes_of sect) in
        rw (find_or_add_section, h, e)
          (at_section lines l []
            (λ behind'.
              ini_sect_find_named (lines ++ (l ∷ behind')) sect hs
              ∙ first_section-append mem_cmpn (bytes_of sect) lines 0 l behind'
                  (sym (ini_sect_find_named lines sect hs) ∙ h) (rw lt refl)
                  (rw ln (mem_cmpn_self (bytes_of sect)))
              ∙ ap some (omega arith))
            lt (All-append IsLine lines (l ∷ []) hl (hl', tt)))
  ]
