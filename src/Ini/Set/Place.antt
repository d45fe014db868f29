-- ===== src/Ini/Set/Place.antt =====
-- src/utils/ini.c: where `ini_val_set` finds or places a line.
use liblcb.Base.{ℕ, zero, suc, ◌+◌, ◌-◌, ◌≤◌, ◌<◌, ◌≡◌, refl, ap, arith, inl, inr, ◌∙◌}
use liblcb.Base.{none, some, [], ◌∷◌, ◌++◌, Bytes, Bool, true, false}
use liblcb.Base.{◌&&◌, length, Bool-cases, and_true}
use liblcb.Memory.{mem_cmpin}
use liblcb.Ini.Line.{Line, Ini, LineType, section_line, value_line, name_of, is_section, is_value}
use liblcb.Ini.Find.First.{first_section, first_value}
use liblcb.Ini.Set.{section_end, before_empty, insert_at, is_empty_at}

pub first_section-Split :
    (same : Bytes → Bytes → Bool) (name : Bytes) (lines : Ini) (i k : ℕ)
    → first_section same name lines i ≡ some k
    → (before : Ini) × (at : Line) × (behind : Ini) × (lines ≡ before ++ (at ∷ behind))
      × (i + length before ≡ k)
      × (is_section at.type ≡ true)
      × ((behind' : Ini) → first_section same name (before ++ (at ∷ behind')) i ≡ some k)
unfolding first_section
first_section-Split same name [] i k h = ground arith
first_section-Split same name (l ∷ ls) i k h =
    elim (Bool-cases (is_section l.type && same (name_of l) name)) [
      | inl e ↦ (
        [],
        l,
        ls,
        refl,
        ground (arith, e),
        ground (arith, e),
        λ behind'. rw e (ground (arith, e)),
      )
      | inr e ↦
          let (before, at, behind, e1, e2, e3, e4) =
            first_section-Split same name ls (suc i) k (rw e at h) in
          (
            l ∷ before,
            at,
            behind,
            ap (l ∷◌) e1,
            omega (arith, e2),
            e3,
            λ behind'. rw e (e4 behind'),
          )
    ]

-- The value line that is found, and what the search says when it is replaced by one that matches.
pub first_value-Split :
    (name : Bytes) (lines : Ini) (i k : ℕ)
    → first_value name lines i ≡ some k
    → (before : Ini) × (at : Line) × (behind : Ini) × (lines ≡ before ++ (at ∷ behind))
      × (i + length before ≡ k)
      × (is_value at.type ≡ true)
      × (mem_cmpin (name_of at) name ≡ true)
      × ((at' : Line)
          → is_section at'.type ≡ false
          → is_value at'.type ≡ true
          → mem_cmpin (name_of at') name ≡ true
          → first_value name (before ++ (at' ∷ behind)) i ≡ some k)
unfolding first_value
first_value-Split name [] i k h = ground arith
first_value-Split name (l ∷ ls) i k h = elim (Bool-cases (is_section l.type)) [
  | inl s ↦ ground (arith, s)
  | inr s ↦ elim (Bool-cases (is_value l.type && mem_cmpin (name_of l) name)) [
    | inl e ↦
        let (ev, en) = and_true (is_value l.type) (mem_cmpin (name_of l) name) e in
        (
          [],
          l,
          ls,
          refl,
          ground (arith, s, e),
          ev,
          en,
          λ at' s' v' n'. rw (s', v', n') (ground (arith, s, e)),
        )
    | inr e ↦
        let (before, at, behind, e1, e2, e3, e4, e5) =
          first_value-Split name ls (suc i) k (rw (s, e) at h) in
        (
          l ∷ before,
          at,
          behind,
          ap (l ∷◌) e1,
          omega (arith, e2),
          e3,
          e4,
          λ at' s' v' n'. rw (s, e) (e5 at' s' v' n'),
        )
  ]
]

-- Before the next section line a new line that matches is found, where none was.
pub first_value-insert :
    (name : Bytes) (lines : Ini) (i m : ℕ) (new : Line)
    → first_value name lines i ≡ none
    → i + m ≤ section_end lines i
    → m ≤ length lines
    → is_section new.type ≡ false
    → is_value new.type ≡ true
    → mem_cmpin (name_of new) name ≡ true
    → first_value name (insert_at m new lines) i ≡ some (i + m)
unfolding first_value section_end
first_value-insert name lines i zero new h hm hl s v n = rw (s, v, n) (ap some (omega arith))
first_value-insert name [] i (suc m) new h hm hl s v n = absurd (omega arith)
first_value-insert name (l ∷ ls) i (suc m) new h hm hl s v n =
    elim (Bool-cases (is_section l.type)) [
      | inl e ↦ absurd (omega (arith, (rw e at hm)))
      | inr e ↦ elim (Bool-cases (is_value l.type && mem_cmpin (name_of l) name)) [
        | inl e' ↦ ground (arith, e, e')
        | inr e' ↦
            rw (e, e')
              (first_value-insert name ls (suc i) m new (rw (e, e') at h)
                  (omega (arith, (rw e at hm))) (omega arith) s v n
                ∙ ap some (omega arith))
      ]
    ]

pub section_end_bounds :
    (lines : Ini) (i : ℕ) → (i ≤ section_end lines i) × (section_end lines i ≤ i + length lines)
unfolding section_end
section_end_bounds [] i = (omega arith, omega arith)
section_end_bounds (l ∷ ls) i = ground (arith, section_end_bounds ls (suc i))

section-is_empty_at :
    (before : Ini) (at : Line) (behind : Ini)
    → is_section at.type ≡ true
    → is_empty_at (before ++ (at ∷ behind)) (length before) ≡ false
unfolding is_empty_at
section-is_empty_at [] at behind h = ground arith
section-is_empty_at (l ∷ before) at behind h = section-is_empty_at before at behind h

not_at :
    (lines : Ini) (k i : ℕ)
    → is_empty_at lines k ≡ false
    → k < suc i
    → is_empty_at lines i ≡ true
    → k < i
not_at lines k i h hk e = grind arith

-- The way back over empty lines stops behind a line that is not empty.
before_empty_bounds :
    (lines : Ini) (k i : ℕ)
    → is_empty_at lines k ≡ false
    → k < i
    → (k < before_empty lines i) × (before_empty lines i ≤ i)
unfolding before_empty
before_empty_bounds lines k zero h hk = absurd (omega arith)
before_empty_bounds lines k (suc i) h hk = elim (Bool-cases (is_empty_at lines i)) [
  | inl e ↦
      let b = before_empty_bounds lines k i h (not_at lines k i h hk e) in
      rw e (b.0, omega (arith, b.1))
  | inr e ↦ rw e (hk, omega arith)
]

-- The place that `ini_val_set` chooses for a new line is in the section.
pub place_in_section :
    (before : Ini) (at : Line) (behind : Ini)
    → is_section at.type ≡ true
    → (m : ℕ) × (before_empty (before ++ (at ∷ behind)) (section_end behind (suc (length before)))
        ≡ suc (length before) + m)
      × (suc (length before) + m ≤ section_end behind (suc (length before)))
      × (m ≤ length behind)
place_in_section before at behind h =
    let e = section_end behind (suc (length before)) in
    let b =
      before_empty_bounds (before ++ (at ∷ behind)) (length before) e
        (section-is_empty_at before at behind h)
        (omega (arith, section_end_bounds behind (suc (length before)))) in
    let i = before_empty (before ++ (at ∷ behind)) e in
    (
      i - suc (length before),
      omega (arith, b),
      omega (arith, b),
      omega (arith, b, section_end_bounds behind (suc (length before))),
    )

-- A section line behind all the lines is found where none was.
pub first_section-append :
    (same : Bytes → Bytes → Bool) (name : Bytes) (lines : Ini) (i : ℕ) (new : Line) (behind : Ini)
    → first_section same name lines i ≡ none
    → is_section new.type ≡ true
    → same (name_of new) name ≡ true
    → first_section same name (lines ++ (new ∷ behind)) i ≡ some (i + length lines)
unfolding first_section
first_section-append same name [] i new behind h s n = rw (s, n) (ap some (omega arith))
first_section-append same name (l ∷ ls) i new behind h s n =
    elim (Bool-cases (is_section l.type && same (name_of l) name)) [
      | inl e ↦ ground (arith, e)
      | inr e ↦ rw e (
          first_section-append same name ls (suc i) new behind (rw e at h) s n
          ∙ ap some (omega arith))
    ]

pub is_section-line : (t : LineType) → is_section t ≡ true → t ≡ section_line
is_section-line t h = ground arith

pub is_value-line : (t : LineType) → is_value t ≡ true → t ≡ value_line
is_value-line t h = ground arith
