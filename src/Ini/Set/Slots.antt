-- ===== src/Ini/Set/Slots.antt =====
-- src/utils/ini.c: the array of lines around a slot, read, overwritten and moved up.
use liblcb.Base.{ℕ, zero, suc, ◌+◌, ◌≡◌, refl, ap, arith, some, [], ◌∷◌, ◌++◌}
use liblcb.Base.{length, drop, set, get_elem?, subst}
use liblcb.Ini.Line.{Line, Ini}
use liblcb.Ini.Set.{insert_at}

-- Lists of lines at a place.
pub get_at : (xs : Ini) (y : Line) (zs : Ini) → get_elem? (xs ++ (y ∷ zs)) (length xs) ≡ some y
get_at [] y zs = refl
get_at (x ∷ xs) y zs = get_at xs y zs

pub set_at :
    (xs : Ini) (y : Line) (zs : Ini) (v : Line)
    → set (xs ++ (y ∷ zs)) (length xs) v ≡ xs ++ (v ∷ zs)
set_at [] y zs v = refl
set_at (x ∷ xs) y zs v = ap (x ∷◌) (set_at xs y zs v)

pub drop_at : (xs : Ini) (y : Line) (zs : Ini) → drop (suc (length xs)) (xs ++ (y ∷ zs)) ≡ zs
drop_at [] y zs = refl
drop_at (x ∷ xs) y zs = drop_at xs y zs

pub insert_behind :
    (xs : Ini) (y : Line) (zs : Ini) (m i : ℕ) (new : Line)
    → i ≡ suc (length xs) + m
    → insert_at i new (xs ++ (y ∷ zs)) ≡ xs ++ (y ∷ insert_at m new zs)
insert_behind xs y zs m zero new h = absurd (omega arith)
insert_behind [] y zs m (suc i) new h = ap (λ n. y ∷ insert_at n new zs) (omega arith)
insert_behind (x ∷ xs) y zs m (suc i) new h =
    ap (x ∷◌) (insert_behind xs y zs m i new (omega arith))

-- The same behind a second place, `j`.
pub get_behind :
    (xs : Ini) (y : Line) (vs : Ini) (v : Line) (vd : Ini) (j : ℕ)
    → suc (length xs) + length vs ≡ j
    → get_elem? (xs ++ (y ∷ (vs ++ (v ∷ vd)))) j ≡ some v
get_behind xs y vs v vd zero h = absurd (omega arith)
get_behind [] y vs v vd (suc j) h =
    subst (λ n. get_elem? (vs ++ (v ∷ vd)) n ≡ some v) (omega arith) (get_at vs v vd)
get_behind (x ∷ xs) y vs v vd (suc j) h = get_behind xs y vs v vd j (omega arith)

pub set_behind :
    (xs : Ini) (y : Line) (vs : Ini) (v : Line) (vd : Ini) (j : ℕ) (new : Line)
    → suc (length xs) + length vs ≡ j
    → set (xs ++ (y ∷ (vs ++ (v ∷ vd)))) j new ≡ xs ++ (y ∷ (vs ++ (new ∷ vd)))
set_behind xs y vs v vd zero new h = absurd (omega arith)
set_behind [] y vs v vd (suc j) new h =
    subst (λ n. y ∷ set (vs ++ (v ∷ vd)) n new ≡ y ∷ (vs ++ (new ∷ vd))) (omega arith)
      (ap (y ∷◌) (set_at vs v vd new))
set_behind (x ∷ xs) y vs v vd (suc j) new h =
    ap (x ∷◌) (set_behind xs y vs v vd j new (omega arith))
