-- ===== src/BigNum/Number.antt =====
-- bn_t and its operations, include/math/big_num.h. `num` is the whole array; the digits from
-- `digits` on hold anything until bn_init_digits__int clears them. An operand that may be the
-- object itself is `none` then. `none` as a result is a read outside of the array.
pub mod Store
pub mod Clear
pub mod Add
pub mod Sub
pub mod Mult
pub mod Digit
pub mod Assign
pub mod Made
pub mod Compare
use liblcb.Base.{
  ℕ, zero, suc, ◌+◌, ◌-◌, ◌/◌, ◌^◌, min, List, [], ◌∷◌, ◌++◌, Option, some, none, ◌>>=◌, Bool,
  false, not, ◌&&◌, ◌||◌, ltb, leb, ◌==◌, if◌then◌else◌, length, get_or, get_elem?, set, take, drop,
  replicate, Errno, ok, einval, eoverflow, is_ok,
}
use Prim.Native.Nat.{max}
use liblcb.Base.Int.{ℤ, pos, negsuc}
use liblcb.BigNum.Digits.{
  Carried, bn_digits_calc_digits, bn_digits_cmp, bn_digits_add_digit, bn_digits_add,
  bn_digits_sub_digit, bn_digits_sub, bn_digits_sub_same, bn_digits_add_digit_mult__int,
}

pub record Bn : Type 0 where
  pub count : ℕ
  pub digits : ℕ
  pub num : List ℕ

abbrev pub bn_bit_len : ℕ
bn_bit_len = 2048

abbrev pub bn_max_digits : ℕ
bn_max_digits = bn_bit_len / 64

unfoldable pub bn_init : Bn → ℕ → Errno × Bn
bn_init bn bits =
    let count = (bits + 63) / 64 in
    if ltb bn_bit_len bits || bits == 0
    then (einval, bn)
    else if ltb bn_max_digits count
    then (einval, record bn { count = count })
    else (ok, record bn { count = count; digits = 0 })

unfoldable pub bn_calc_digits : Bn → ℕ → Bn
bn_calc_digits bn n = record bn { digits = bn_digits_calc_digits bn.num n }

-- `n` digits from `i` on are set to 0.
unfoldable pub clear : List ℕ → ℕ → ℕ → List ℕ
clear num i n = take i num ++ replicate n 0 ++ drop (i + n) num

unfoldable pub bn_init_digits__int : Bn → ℕ → Bn
bn_init_digits__int bn digit_off =
    if leb digit_off bn.digits
    then bn
    else record bn { num = clear bn.num bn.digits (min digit_off bn.count - bn.digits) }

unfoldable pub bn_update_digits__int : Bn → ℕ → Bn
bn_update_digits__int bn digits =
    if leb bn.count digits
    then bn_calc_digits bn bn.count
    else if ltb digits bn.digits
    then bn_calc_digits bn bn.digits
    else if ltb bn.digits digits && not (get_or bn.num (digits - 1) 0 == 0)
    then record bn { digits = digits }
    else bn_calc_digits bn digits

unfoldable pub bn_is_zero : Bn → Bool
bn_is_zero bn = bn.digits == 0

unfoldable pub bn_is_one : Bn → Bool
bn_is_one bn = bn.digits == 1 && get_or bn.num 0 0 == 1

-- The sign of `a - b`, for two objects.
unfoldable pub bn_cmp : Bn → Bn → ℤ
bn_cmp a b =
    if a.digits == b.digits
    then bn_digits_cmp a.num b.num a.digits
    else if ltb b.digits a.digits
    then pos 1
    else negsuc 0

unfoldable pub bn_assign : Bn → Bn → Errno × Bn
bn_assign dst src = if ltb dst.count src.digits then (eoverflow, dst) else (
  ok,
  record dst { digits = src.digits; num = take src.digits src.num ++ drop src.digits dst.num },
)

unfoldable pub bn_assign_zero : Bn → Bn
bn_assign_zero bn = record bn { digits = 0 }

unfoldable pub bn_assign_digit : Bn → ℕ → Errno × Bn
bn_assign_digit bn digit =
    if bn.count == 0
    then (eoverflow, bn)
    else (ok, record bn { digits = 1; num = set bn.num 0 digit })

-- The first digits of the array are written back.
unfoldable pub with_digits : Bn → List ℕ → Bn
with_digits bn a = record bn { num = a ++ drop (length a) bn.num }

-- bn += n for a digit; the carry is not stored where nothing is added.
unfoldable pub bn_add_digit : Bn → ℕ → Bn × Option ℕ
bn_add_digit bn n =
    let digits = suc bn.digits in
    let bn1 = bn_init_digits__int bn digits in
    let r = bn_digits_add_digit (take bn1.count bn1.num) n in
    if n == 0 then (bn, none) else (bn_update_digits__int (with_digits bn1 r.0) digits, some r.1)

unfoldable pub sub_digit_extent : Bn → ℕ → ℕ
sub_digit_extent bn n =
    if bn.digits == 0 || (bn.digits == 1 && ltb (get_or bn.num 0 0) n) then bn.count else bn.digits

-- bn -= n for a digit; the borrow is not stored where nothing is taken off.
unfoldable pub bn_sub_digit : Bn → ℕ → Bn × Option ℕ
bn_sub_digit bn n =
    let digits = sub_digit_extent bn n in
    let bn1 = bn_init_digits__int bn digits in
    let r = bn_digits_sub_digit (take bn1.count bn1.num) n in
    if n == 0 then (bn, none) else (bn_update_digits__int (with_digits bn1 r.0) digits, some r.1)

abbrev pub finish : Bn → ℕ → Errno × Carried → Errno × (Bn × ℕ)
finish bn digits (error, (a, crr)) =
    if is_ok error
    then (ok, (bn_update_digits__int (with_digits bn a) digits, crr))
    else (error, (bn, crr))

-- bn += n, with the carry. Where `n` is `bn`, its digits are those of `bn` all the same.
unfoldable pub bn_add : Bn → Bn → Option (Errno × (Bn × ℕ))
bn_add bn n =
    let digits = suc (max bn.digits n.digits) in
    let bn1 = bn_init_digits__int bn digits in
    bn_digits_add (take bn1.count bn1.num) (take n.digits n.num)
    >>= (λ r. some (finish bn1 digits r))

unfoldable pub top_digit : Bn → Option ℕ
top_digit bn = if bn.digits == 0 then none else get_elem? bn.num (bn.digits - 1)

-- How many digits of `bn` the difference may need.
unfoldable pub sub_extent : Bn → Bn → Option ℕ
sub_extent bn n =
    if ltb bn.digits n.digits
    then some bn.count
    else if bn.digits == n.digits
    then top_digit bn
      >>= (λ x. top_digit n >>= (λ y. some (if leb x y then bn.count else bn.digits)))
    else some bn.digits

-- bn -= n, with the borrow, whose value before the call is the last argument; behind `bn == n`
-- the code goes on with the cleared object.
unfoldable pub bn_sub : Bn → Option Bn → ℕ → Option (Errno × (Bn × ℕ))
bn_sub bn none borrow =
    let bn0 = bn_assign_zero bn in
    sub_extent bn0 bn0 >>= (λ digits.
      let bn1 = bn_init_digits__int bn0 digits in
      some (finish bn1 digits (bn_digits_sub_same (take bn1.count bn1.num) bn1.digits 0)))
bn_sub bn (some n) borrow = sub_extent bn n >>= (λ digits.
    let bn1 = bn_init_digits__int bn digits in
    bn_digits_sub (take bn1.count bn1.num) (take n.digits n.num) borrow
    >>= (λ r. some (finish bn1 digits r)))

-- The loop of bn_mult: `a` is the array from digit `j` on.
unfoldable pub mult_rows : List ℕ → List ℕ → List ℕ → Option (List ℕ)
mult_rows m [] a = some a
mult_rows m (d ∷ ds) a =
    (if d == 0 then some a else bn_digits_add_digit_mult__int a m d)
    >>= (λ a'. mult_rows m ds (drop 1 a') >>= (λ r. some (take 1 a' ++ r)))

unfoldable pub is_positive : ℤ → Bool
is_positive (pos n) = not (n == 0)
is_positive (negsuc n) = false

abbrev pub operand : Bn → Option Bn → Bn
operand bn none = bn
operand bn (some n) = n

unfoldable pub multiplicand : Bn → Option Bn → Bn
multiplicand bn none = bn
multiplicand bn (some n) = if is_positive (bn_cmp bn n) then bn else n

unfoldable pub multiplier : Bn → Option Bn → Bn
multiplier bn none = bn
multiplier bn (some n) = if is_positive (bn_cmp bn n) then n else bn

-- The array after the loop over the digits of the multiplier, from an array of zeros.
unfoldable pub mult_digits : Bn → Option Bn → ℕ → List ℕ → Option (List ℕ)
mult_digits bn n digits zeros =
    let m = multiplicand bn n in
    let k = multiplier bn n in
    mult_rows (take m.digits m.num) (take k.digits k.num) (take digits zeros)

-- bn *= n.
unfoldable pub bn_mult : Bn → Option Bn → Option (Errno × Bn)
bn_mult bn n =
    let digits = bn.digits + (operand bn n).digits in
    let bn1 = bn_init_digits__int (bn_assign_zero bn) digits in
    if bn_is_zero bn || bn_is_zero (operand bn n)
    then some (ok, bn_assign_zero bn)
    else if ltb bn.count digits
    then some (eoverflow, bn)
    else mult_digits bn n digits bn1.num
      >>= (λ r. some (ok, bn_update_digits__int (with_digits bn1 r) digits))
