-- ===== src/BigNum/Digits.antt =====
-- The operations on arrays of digits of include/math/big_num.h. An array with its count is a list;
-- the one at `&a[k]` is what is left of the list behind `k` digits. Where the two arrays may be the
-- same one, each digit of the second is read before that digit of the first is written. `none` is
-- an access behind the array.
use liblcb.Base.{
  ℕ, zero, suc, ◌+◌, ◌-◌, ◌*◌, ◌/◌, ◌%◌, ◌^◌, List, [], ◌∷◌, Option, some, none, ◌>>=◌, Bool, wrap,
  ltb, leb, ◌==◌, if◌then◌else◌, length, get_or, take, drop, ◌++◌, Errno, ok, eoverflow, replicate,
}
use liblcb.Base.Int.{ℤ, pos, negsuc}

abbrev pub bn_max_digit : ℕ
bn_max_digit = 2 ^ 64 - 1

-- The digits of `a`, and the carry or borrow.
abbrev pub Carried : Type 0
Carried = List ℕ × ℕ

abbrev pub prepend : ℕ → Carried → Carried
prepend d (ds, crr) = (d ∷ ds, crr)

abbrev pub flag : Bool → ℕ
flag b = if b then 1 else 0

-- bn_digits_calc_digits: the loop from the top.
unfoldable pub bn_digits_calc_digits : List ℕ → ℕ → ℕ
bn_digits_calc_digits a zero = 0
bn_digits_calc_digits a (suc i) =
    let rest = bn_digits_calc_digits a i in if get_or a i 0 == 0 then rest else suc i

-- The sign of `a - b`, for two arrays at different places.
unfoldable pub bn_digits_cmp : List ℕ → List ℕ → ℕ → ℤ
bn_digits_cmp a b zero = pos 0
bn_digits_cmp a b (suc i) =
    let rest = bn_digits_cmp a b i in
    if get_or a i 0 == get_or b i 0
    then rest
    else if ltb (get_or b i 0) (get_or a i 0)
    then pos 1
    else negsuc 0

unfoldable pub bn_digits_assign_zero : List ℕ → List ℕ
bn_digits_assign_zero a = replicate (length a) 0

-- The loop of bn_digits_add_digit behind the first digit.
unfoldable pub carry_loop : List ℕ → Carried
carry_loop [] = ([], 1)
carry_loop (d ∷ ds) =
    let rest = carry_loop ds in
    let d' = wrap (d + 1) in if leb 1 d' then (d' ∷ ds, 0) else prepend d' rest

unfoldable pub bn_digits_add_digit : List ℕ → ℕ → Carried
bn_digits_add_digit [] b = ([], 0)
bn_digits_add_digit (d ∷ ds) b =
    let d' = wrap (d + b) in
    if b == 0 then (d ∷ ds, 0) else if leb b d' then (d' ∷ ds, 0) else prepend d' (carry_loop ds)

-- One round: the new digit and the carry.
unfoldable pub add_step : ℕ → ℕ → ℕ → ℕ × ℕ
add_step x tm crr =
    let x1 = wrap (x + crr) in
    let crr1 = flag (ltb x1 crr) in
    let x2 = wrap (x1 + tm) in if tm == 0 then (x1, crr1) else (x2, if ltb x2 tm then 1 else crr1)

unfoldable pub add_rest : List ℕ → ℕ → Carried
add_rest [] crr = ([], crr)
add_rest (d ∷ ds) crr = if crr == 0 then (d ∷ ds, crr) else bn_digits_add_digit (d ∷ ds) crr

unfoldable pub add_loop : List ℕ → List ℕ → ℕ → Option Carried
add_loop a [] crr = some (add_rest a crr)
add_loop [] (tm ∷ b) crr = none
add_loop (x ∷ a) (tm ∷ b) crr =
    let step = add_step x tm crr in add_loop a b step.1 >>= (λ r. some (prepend step.0 r))

unfoldable pub bn_digits_add : List ℕ → List ℕ → Option (Errno × Carried)
bn_digits_add a b =
    if length b == 0
    then some (ok, (a, 0))
    else if ltb (length a) (length b)
    then some (eoverflow, (a, 0))
    else add_loop a b 0 >>= (λ r. some (ok, r))

-- The loop of bn_digits_sub_digit behind the first digit.
unfoldable pub borrow_loop : List ℕ → ℕ → Carried
borrow_loop [] brrw = ([], brrw)
borrow_loop (d ∷ ds) brrw =
    let d' = wrap (d + 2 ^ 64 - brrw) in
    let rest = borrow_loop ds (flag (ltb (bn_max_digit - brrw) d')) in
    if brrw == 0 then (d ∷ ds, brrw) else prepend d' rest

unfoldable pub bn_digits_sub_digit : List ℕ → ℕ → Carried
bn_digits_sub_digit [] b = ([], 0)
bn_digits_sub_digit (d ∷ ds) b =
    let d' = wrap (d + 2 ^ 64 - b) in
    if b == 0 then (d ∷ ds, 0) else prepend d' (borrow_loop ds (flag (ltb (bn_max_digit - b) d')))

unfoldable pub sub_step : ℕ → ℕ → ℕ → ℕ × ℕ
sub_step x tm brrw =
    let x1 = wrap (x + 2 ^ 64 - brrw) in
    let brrw1 = flag (ltb (bn_max_digit - brrw) x1) in
    let x2 = wrap (x1 + 2 ^ 64 - tm) in
    if tm == 0 then (x1, brrw1) else (x2, if ltb (bn_max_digit - tm) x2 then 1 else brrw1)

unfoldable pub sub_rest : List ℕ → ℕ → Carried
sub_rest [] brrw = ([], brrw)
sub_rest (d ∷ ds) brrw = if brrw == 0 then (d ∷ ds, brrw) else bn_digits_sub_digit (d ∷ ds) brrw

unfoldable pub sub_loop : List ℕ → List ℕ → ℕ → Option Carried
sub_loop a [] brrw = some (sub_rest a brrw)
sub_loop [] (tm ∷ b) brrw = none
sub_loop (x ∷ a) (tm ∷ b) brrw =
    let step = sub_step x tm brrw in sub_loop a b step.1 >>= (λ r. some (prepend step.0 r))

-- bn_digits_sub with bn_digits_sub__int in it, for two arrays; the last argument is the borrow that
-- is stored before the call, and stays on an error.
unfoldable pub bn_digits_sub : List ℕ → List ℕ → ℕ → Option (Errno × Carried)
bn_digits_sub a b borrow =
    if length b == 0
    then some (ok, (a, 0))
    else if ltb (length a) (length b)
    then some (eoverflow, (a, borrow))
    else sub_loop a b 0 >>= (λ r. some (ok, r))

-- The same where both are one array: as many digits are set to zero.
unfoldable pub bn_digits_sub_same : List ℕ → ℕ → ℕ → Errno × Carried
bn_digits_sub_same a b_count borrow =
    if b_count == 0
    then (ok, (a, 0))
    else if ltb (length a) b_count
    then (eoverflow, (a, borrow))
    else (ok, (bn_digits_assign_zero (take b_count a) ++ drop b_count a, 0))

-- The product of two digits, low and high.
unfoldable pub bn_digit_mult__int : ℕ → ℕ → ℕ × ℕ
bn_digit_mult__int a b = (a * b % 2 ^ 64, a * b / 2 ^ 64)

unfoldable pub mult_step : ℕ → ℕ → ℕ → ℕ → ℕ × ℕ
mult_step d x b crr =
    let product = if b == 0 then (0, 0) else bn_digit_mult__int d b in
    let x1 = wrap (x + crr) in
    let crr1 = wrap (flag (ltb x1 crr) + product.1) in
    let x2 = wrap (x1 + product.0) in (x2, if ltb x2 product.0 then wrap (crr1 + 1) else crr1)

unfoldable pub mult_loop : ℕ → List ℕ → List ℕ → ℕ → Option Carried
mult_loop d a [] crr = some (add_rest a crr)
mult_loop d [] (x ∷ b) crr = none
mult_loop d (x ∷ a) (y ∷ b) crr =
    let step = mult_step d x y crr in mult_loop d a b step.1 >>= (λ r. some (prepend step.0 r))

-- a += b * d; the digits only, as no caller takes the carry.
unfoldable pub bn_digits_add_digit_mult__int : List ℕ → List ℕ → ℕ → Option (List ℕ)
bn_digits_add_digit_mult__int a b d =
    if d == 1
    then bn_digits_add a b >>= (λ r. some (r.1.0))
    else mult_loop d a b 0 >>= (λ r. some (r.0))
