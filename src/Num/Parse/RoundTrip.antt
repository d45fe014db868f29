-- ===== src/Num/Parse/RoundTrip.antt =====
-- Reading back what num2str.h wrote.
use liblcb.Base.{
  ℕ, zero, suc, ◌/◌, Bool, true, le→ltb, append_assoc, ◌+◌, ◌*◌, ◌-◌, ◌%◌, ◌^◌, ◌≤◌, ◌<◌, ◌≡◌, ◌≢◌,
  refl, ◌∙◌, arith,
}
use liblcb.Base.{◌⊎◌, some, [], ◌∷◌, ◌++◌, Bytes, length, take, take-append, drop, ok}
use liblcb.Base.Int.{negsuc}
use liblcb.Num.Decimal.{decimal, HasDigits, length-decimal}
use liblcb.Num.Format.{Text, unum2str, snum2str}
use liblcb.Num.Format.Unsigned.{unum2str_decimal}
use liblcb.Num.Format.Signed.{snum2str_negative}
use liblcb.Num.Parse.{str2unum, str2snum}
use liblcb.Num.Parse.Value.{
  is_minus, str2unum-spell, str2snum-spell, spell-decimal, digits_of-decimal, decimal-IsByte,
}
use native.Mathlib.Nat.{pow-le-pow_right, mod-eq_of_lt, zero-mul, zero-add}

fits64 : (w num : ℕ) → num < 2 ^ w → w ≤ 64 → num < 2 ^ 64
fits64 w num h le = omega (arith, pow-le-pow_right {n = 2} (omega arith) {i = w} {j = 64} le)

str2unum-decimal :
    (w p num : ℕ) → num < 10 ^ p → num < 2 ^ w → str2unum w (some (decimal p num)) ≡ num
str2unum-decimal w p num d fits =
    rw
      (
        str2unum-spell w (decimal p num) (decimal-IsByte p num),
        digits_of-decimal p num,
        spell-decimal p num 0 d,
      )
      (rw (zero-mul, zero-add) (mod-eq_of_lt fits))

-- Let `num` fit in `w` ≤ 64 bits, have exactly `p` digits, and be no power of ten but 1. In a
-- buffer with room for `p + 1` bytes `UNUM2STR` succeeds, and `STR2UNUM` reads `num` back from the
-- text, as long as it is reported to be.
pub str2unum-unum2str :
    (w p num : ℕ) (buf : Bytes) (size : ℕ)
    → HasDigits p num
    → num < 2 ^ w
    → w ≤ 64
    → (p ≡ 1) ⊎ (10 ^ p ≢ 10 * num)
    → p + 1 ≤ size
    → size ≤ length buf
    → (t : Text) × (unum2str num (some buf) size ≡ some t)
      × (t.status ≡ ok)
      × (t.size_ret ≡ some p)
      × (str2unum w (some (take p t.buf)) ≡ num)
str2unum-unum2str w p num buf size d fits le ne room len = (
  record { status = ok; size_ret = some p; buf = decimal p num ++ (0 ∷ drop (suc p) buf) },
  unum2str_decimal p num buf size d (fits64 w num fits le) ne (omega arith) len
      ∙ rw (le→ltb size (p + 1) room),
  refl,
  refl,
  rw (take-append p (decimal p num) (0 ∷ drop (suc p) buf) (length-decimal p num))
      (str2unum-decimal w p num d.fits fits),
)

-- A digit is no sign.
is_minus-decimal :
    (p num d : ℕ) (sign : Bool) (rest : Bytes)
    → d < 10
    → is_minus sign (decimal p num ++ ((48 + d) ∷ rest)) ≡ sign
is_minus-decimal zero num d sign rest h = ground arith
is_minus-decimal (suc p) num d sign rest h =
    rw append_assoc (is_minus-decimal p (num / 10) (num % 10) sign ((48 + d) ∷ rest) (omega arith))

str2snum-decimal :
    (w p num : ℕ)
    → num < 10 ^ suc p
    → 0 < num
    → num < 2 ^ w
    → str2snum w (some (45 ∷ decimal (suc p) num)) ≡ 2 ^ w - num
str2snum-decimal w p num d pos fits =
    rw
      (
        str2snum-spell w (45 ∷ decimal (suc p) num) (omega arith, decimal-IsByte (suc p) num),
        is_minus-decimal p (num / 10) (num % 10) true [] (omega arith),
        digits_of-decimal (suc p) num,
        spell-decimal (suc p) num 0 d,
        zero-mul,
        zero-add,
        mod-eq_of_lt fits,
      )
      (mod-eq_of_lt (omega arith))

-- Let m = k + 1 fit in `w` ≤ 64 bits under the sign, have exactly `p` digits, and be no power of
-- ten but 1. With room for `p + 2` bytes `SNUM2STR` writes -m, and `STR2SNUM` reads back the bit
-- pattern 2 ^ w - m of -m from the text.
pub str2snum-snum2str :
    (w p k b : ℕ) (bs : Bytes) (size : ℕ)
    → HasDigits p (k + 1)
    → 1 ≤ w
    → w ≤ 64
    → k + 1 < 2 ^ (w - 1)
    → (p ≡ 1) ⊎ (10 ^ p ≢ 10 * (k + 1))
    → p + 2 ≤ size
    → size ≤ length (b ∷ bs)
    → (t : Text) × (snum2str w (negsuc k) (some (b ∷ bs)) size ≡ some t)
      × (t.status ≡ ok)
      × (t.size_ret ≡ some (p + 1))
      × (str2snum w (some (take (p + 1) t.buf)) ≡ 2 ^ w - (k + 1))
str2snum-snum2str w zero k b bs size d one le fits ne room len = absurd (omega (arith, d))
str2snum-snum2str w (suc p) k b bs size d one le fits ne room len =
    let text : Bytes = 45 ∷ decimal (suc p) (k + 1) in
    let wide : k + 1 < 2 ^ w =
      omega (arith, pow-le-pow_right {n = 2} (omega arith) {i = w - 1} {j = w} (omega arith)) in
    let out : Text = record {
      status = ok;
      size_ret = some (suc p + 1);
      buf = text ++ (0 ∷ drop (suc p + 1) bs);
    } in
    (
      out,
      snum2str_negative w (suc p) k b bs size d (fits64 w (k + 1) wide le) (omega arith) ne room
          len,
      refl,
      refl,
      rw
          (take-append (suc p + 1) text (0 ∷ drop (suc p + 1) bs)
            (omega (arith, length-decimal p ((k + 1) / 10), length-decimal (suc p) (k + 1))))
          (str2snum-decimal w p (k + 1) d.fits (omega arith) wide),
    )
