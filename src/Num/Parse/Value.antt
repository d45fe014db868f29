-- ===== src/Num/Parse/Value.antt =====
-- What `STR2NUM` computes: the number that the digits of the text spell, modulo 2 ^ w.
use liblcb.Base.{ℕ, zero, suc, ◌+◌, ◌*◌, ◌-◌, ◌/◌, ◌%◌, ◌^◌, ◌<◌, ◌≡◌, refl, sym, ap, ◌∙◌, arith}
use liblcb.Base.{Bool, true, false, ◌&&◌, ◌||◌, some, [], ◌∷◌, ◌++◌, Bytes, All, IsByte}
use liblcb.Base.{leb, ◌==◌, if◌then◌else◌}
use liblcb.Num.Decimal.{decimal}
use liblcb.Num.Parse.{str2num, str2num_sign, str2unum, str2snum}
use native.Mathlib.Nat.{zero-mod, pow-suc, mod-add-mod, add-mul-mod_self_right, mod-add-div'}

abbrev pub is_digit : ℕ → Bool
is_digit b = leb b'0' b && leb b b'9'

-- The digits of a text, with all else left out.
abbrev pub digits_of : Bytes → Bytes
digits_of [] = []
digits_of (b ∷ bs) = if is_digit b then b ∷ digits_of bs else digits_of bs

-- The number that digits spell, highest first, behind the number `acc`.
abbrev pub spell : ℕ → Bytes → ℕ
spell acc [] = acc
spell acc (b ∷ bs) = spell (acc * 10 + (b - b'0')) bs

-- One step of wrapping arithmetic: `v` may be reduced before it, and the product in it.
pub wrap_step : (v c k m : ℕ) → (v % m * k % m + c) % m ≡ (v * k + c) % m
wrap_step v c k m =
    mod-add-mod (v % m * k) m c
    ∙ sym (add-mul-mod_self_right (v % m * k + c) (v / m * k) m)
    ∙ ap (λ (t : ℕ). t % m) (omega (arith, ap (λ (t : ℕ). t * k) (mod-add-div' v m)))

str2num-spell :
    (w v : ℕ) (bs : Bytes)
    → All IsByte bs
    → str2num w (v % 2 ^ w) bs ≡ spell v (digits_of bs) % 2 ^ w
unfolding str2num
str2num-spell w v [] h = refl
str2num-spell w v (b ∷ bs) h = ground (
  arith,
  wrap_step v (b - 48) 10 (2 ^ w),
  str2num-spell w v bs h.1,
  str2num-spell w (v * 10 + (b - 48)) bs h.1,
)

-- `STR2UNUM` gives the number that the digits of the text spell, modulo 2 ^ w: whatever stands
-- between the digits is passed over, and a number that does not fit wraps.
pub str2unum-spell :
    (w : ℕ) (bs : Bytes) → All IsByte bs → str2unum w (some bs) ≡ spell 0 (digits_of bs) % 2 ^ w
unfolding str2unum
str2unum-spell w bs h =
    rw (← str2num-spell w 0 bs h) (ap (λ z. str2num w z bs) (sym (zero-mod (2 ^ w))))

-- The signs in front of the text, and the last of them.
abbrev pub is_minus : Bool → Bytes → Bool
is_minus sign [] = sign
is_minus sign (b ∷ bs) = if b == b'-' || b == b'+' then is_minus (b == b'-') bs else sign

str2num_sign-is_minus : (sign : Bool) (bs : Bytes) → str2num_sign sign bs ≡ is_minus sign bs
unfolding str2num_sign
str2num_sign-is_minus sign [] = refl
str2num_sign-is_minus sign (b ∷ bs) =
    ground (arith, str2num_sign-is_minus true bs, str2num_sign-is_minus false bs)

-- `STR2SNUM` gives that number modulo 2 ^ w, negated modulo 2 ^ w when the last of the leading
-- signs is "-".
pub str2snum-spell :
    (w : ℕ) (bs : Bytes)
    → All IsByte bs
    → str2snum w (some bs) ≡ (
        if is_minus false bs
        then (2 ^ w - spell 0 (digits_of bs) % 2 ^ w) % 2 ^ w
        else spell 0 (digits_of bs) % 2 ^ w)
unfolding str2snum str2unum
str2snum-spell w bs h = rw (← str2unum-spell w bs h, str2num_sign-is_minus)

-- The digits of a number spell it, behind what was read before.
pub spell-append : (xs ys : Bytes) (acc : ℕ) → spell acc (xs ++ ys) ≡ spell (spell acc xs) ys
spell-append [] ys acc = refl
spell-append (x ∷ xs) ys acc = spell-append xs ys (acc * 10 + (x - b'0'))

pub spell-decimal : (p num acc : ℕ) → num < 10 ^ p → spell acc (decimal p num) ≡ acc * 10 ^ p + num
spell-decimal zero num acc h = omega arith
spell-decimal (suc p) num acc h =
    rw
      (
        spell-append (decimal p (num / 10)),
        spell-decimal p (num / 10) acc (omega (arith, pow-suc 10 p)),
      )
      (omega (arith, ap (λ (t : ℕ). acc * t) (pow-suc 10 p)))

pub digits_of-append : (xs ys : Bytes) → digits_of (xs ++ ys) ≡ digits_of xs ++ digits_of ys
digits_of-append [] ys = refl
digits_of-append (x ∷ xs) ys = ground (arith, digits_of-append xs ys)

pub digits_of-decimal : (p num : ℕ) → digits_of (decimal p num) ≡ decimal p num
digits_of-decimal zero num = refl
digits_of-decimal (suc p) num =
    rw (digits_of-append (decimal p (num / 10)), digits_of-decimal p (num / 10)) (ground arith)

pub All-append : (xs ys : Bytes) → All IsByte xs → All IsByte ys → All IsByte (xs ++ ys)
All-append [] ys h k = k
All-append (x ∷ xs) ys h k = (h.0, All-append xs ys h.1 k)

pub decimal-IsByte : (p num : ℕ) → All IsByte (decimal p num)
decimal-IsByte zero num = tt
decimal-IsByte (suc p) num = All-append _ _ (decimal-IsByte p (num / 10)) (omega arith)
