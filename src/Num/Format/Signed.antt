-- ===== src/Num/Format/Signed.antt =====
-- What `SNUM2STR` writes.
use liblcb.Base.{ℕ, ◌+◌, ◌*◌, ◌-◌, ◌^◌, ◌≤◌, ◌<◌, ◌≡◌, ◌≢◌, refl, arith}
use liblcb.Base.{◌⊎◌, inr, Option, none, some, [], ◌∷◌, ◌++◌, Bytes, length, drop, append_assoc}
use liblcb.Base.{ok}
use liblcb.Base.Buffer.{store}
use liblcb.Base.Int.{pos, negsuc}
use liblcb.Num.Decimal.{decimal, HasDigits}
use liblcb.Num.Format.{plus_digit, num_len, fill, signed_text, unum2str, snum2str}
use liblcb.Num.Format.Length.{num_len_exact, num_len_power}
use liblcb.Num.Format.Unsigned.{fill-decimal, HasDigits-le-20}
use native.Mathlib.Nat.{pow-suc, one-le-pow}
use native.Mathlib.Numerals.{add-one}

-- `signed_text` of a negative number, behind the size check.
signed_text_minus :
    (num len : ℕ) (b : ℕ) (bs : Bytes) (size : ℕ)
    → num_len num ≡ len
    → len + 2 ≤ size
    → signed_text plus_digit 1 num num (b ∷ bs) size ≡ fill plus_digit (len + 1) num (45 ∷ bs)
unfolding signed_text store
signed_text_minus num len b bs size e h = rw e (ground arith)

-- A number that is not negative is written as `UNUM2STR` writes it.
pub snum2str-unum2str :
    (w n : ℕ) (buf : Option Bytes) (size : ℕ) → snum2str w (pos n) buf size ≡ unum2str n buf size
unfolding snum2str signed_text unum2str
snum2str-unum2str w n none size = refl
snum2str-unum2str w n (some buf) size = ground arith

-- Let m = k + 1 have exactly `p` digits, be no power of ten but 1, and -m not be the least value
-- of the type. With room for `p + 2` bytes `SNUM2STR` writes "-", the `p` digits of m, a 0 byte
-- and nothing else, and reports `p + 1`.
pub snum2str_negative :
    (w p k b : ℕ) (bs : Bytes) (size : ℕ)
    → HasDigits p (k + 1)
    → k + 1 < 2 ^ 64
    → k + 1 ≢ 2 ^ (w - 1)
    → (p ≡ 1) ⊎ (10 ^ p ≢ 10 * (k + 1))
    → p + 2 ≤ size
    → size ≤ length (b ∷ bs)
    → snum2str w (negsuc k) (some (b ∷ bs)) size
      ≡ some (record {
        status = ok;
        size_ret = some (p + 1);
        buf = 45 ∷ (decimal p (k + 1) ++ (0 ∷ drop (p + 1) bs));
      })
unfolding snum2str
snum2str_negative w p k b bs size d u least ne room fits = ground (
  arith,
  signed_text_minus (k + 1) p b bs size
      (num_len_exact p (k + 1) d (HasDigits-le-20 p (k + 1) d u) ne) room,
  fill-decimal p 1 (p + 1) (k + 1) (45 ∷ bs) d,
  append_assoc (decimal p (k + 1)) (0 ∷ []) (drop (p + 1) bs),
)

HasDigits-power : (k : ℕ) → HasDigits (k + 1) (10 ^ k)
HasDigits-power k = rw add-one (record {
  some_digit = omega arith;
  fits = omega (arith, pow-suc 10 k, one-le-pow k 10 (omega arith));
  no_leading_zero = inr (omega (arith, pow-suc 10 k));
})

-- The sign is lost at -10, -100, ..., -10 ^ 18: one digit too few is counted, so the first digit
-- is written over the "-", and the text is that of 10 ^ k. The status is 0.
pub snum2str_sign_lost :
    (w k b : ℕ) (bs : Bytes) (size : ℕ)
    → 1 ≤ k
    → k ≤ 18
    → 10 ^ k ≢ 2 ^ (w - 1)
    → k + 2 ≤ size
    → size ≤ length (b ∷ bs)
    → snum2str w (negsuc (10 ^ k - 1)) (some (b ∷ bs)) size
      ≡ some (record {
        status = ok;
        size_ret = some (k + 1);
        buf = decimal (k + 1) (10 ^ k) ++ (0 ∷ drop (k + 1) bs);
      })
unfolding snum2str
snum2str_sign_lost w k b bs size one le least room fits = ground (
  arith,
  one-le-pow k 10 (omega arith),
  (let e : 10 ^ k - 1 + 1 ≡ 10 ^ k = omega (arith, one-le-pow k 10 (omega arith)) in e),
  signed_text_minus (10 ^ k) k b bs size (num_len_power k one (omega arith)) room,
  fill-decimal (k + 1) 0 (k + 1) (10 ^ k) (45 ∷ bs) (HasDigits-power k),
  append_assoc (decimal (k + 1) (10 ^ k)) (0 ∷ []) (drop (k + 1) bs),
)
