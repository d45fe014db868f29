-- ===== src/Num/Format/Unsigned.antt =====
-- What `UNUM2STR` writes.
use liblcb.Base.{ℕ, zero, suc, ◌+◌, ◌*◌, ◌/◌, ◌%◌, ◌^◌, ◌≤◌, ◌<◌, ◌≡◌, ◌≢◌, refl, sym, ap, arith}
use liblcb.Base.{
  ◌⊎◌, ◌∙◌, none, some, [], ◌∷◌, ◌++◌, Bytes, length, length-set, set, lt→ltb, ltb, if◌then◌else◌,
}
use liblcb.Base.{drop, drop-set, take, take-set, take-append-drop, append_assoc, ok, enospc}
use liblcb.Base.Buffer.{store}
use liblcb.Num.Decimal.{decimal, HasDigits}
use liblcb.Num.Format.{put_digits, fill, Text, plus_digit, unum2str}
use liblcb.Num.Format.Length.{num_len_exact, num_len_power}
use native.Mathlib.Decide.{dec_lt}
use native.Mathlib.Nat.{pow-suc, one-le-pow, pow-le-pow_right}

module _ (digit : ℕ → ℕ) (k num : ℕ) (buf : Bytes) (room : k < length buf) where
  -- One round of the loop: the last one, and any other.
  put_digits_last :
      num < 10 → put_digits digit (suc k) num buf ≡ some (set buf k (digit (num % 10)))
  unfolding put_digits store
  put_digits_last h = ground arith

  put_digits_more :
      10 ≤ num
      → put_digits digit (suc k) num buf
        ≡ put_digits digit k (num / 10) (set buf k (digit (num % 10)))
  unfolding put_digits store
  put_digits_more h = ground arith

HasDigits-tail :
    (p num : ℕ) → HasDigits (suc (suc p)) num → HasDigits (suc p) (num / 10) × (10 ≤ num)
HasDigits-tail zero num d = omega (arith, d)
HasDigits-tail (suc p) num d = omega (
  arith,
  pow-suc 10 p,
  pow-suc 10 (suc p),
  pow-suc 10 (suc (suc p)),
  one-le-pow p 10 (omega arith),
  d,
)

-- A write at the index behind `i`, seen from `i` on.
take-drop-set :
    (i k v : ℕ) (buf : Bytes)
    → i ≤ k
    → k < length buf
    → (mid : Bytes)
    → take i (set buf k v) ++ (mid ++ drop k (set buf k v))
      ≡ take i buf ++ ((mid ++ (v ∷ [])) ++ drop (suc k) buf)
take-drop-set i k v buf le lt mid = rw (take-set buf i k v le, drop-set buf k v lt, append_assoc)

-- From index `k` down, the digits of a number with `p` digits end exactly at index `i`.
pub put_digits-decimal :
    (p k i num : ℕ) (buf : Bytes)
    → HasDigits p num
    → k ≡ i + p
    → k ≤ length buf
    → put_digits plus_digit k num buf ≡ some (take i buf ++ (decimal p num ++ drop k buf))
put_digits-decimal zero k i num buf d e h = absurd (omega (arith, d))
put_digits-decimal (suc p) zero i num buf d e h = absurd (omega arith)
put_digits-decimal (suc zero) (suc k) i num buf d e h =
    let same : i ≡ k = omega arith in
    put_digits_last plus_digit k num buf h (omega (arith, d))
    ∙ ap some (sym (take-append-drop k _))
    ∙ rw same (ap some (take-drop-set k k _ buf (omega arith) h []))
put_digits-decimal (suc (suc p)) (suc k) i num buf d e h =
    let (d', big) = HasDigits-tail p num d in
    put_digits_more plus_digit k num buf h big
    ∙ put_digits-decimal (suc p) k i (num / 10) _ d' (omega arith) (rw length-set (omega arith))
    ∙ ap some (take-drop-set i k _ buf (omega arith) h (decimal (suc p) (num / 10)))

-- A number with more digits than the pointer has places runs below index 0.
put_digits_underflow :
    (p num : ℕ) (digit : ℕ → ℕ) (buf : Bytes) → 10 ^ p ≤ num → put_digits digit p num buf ≡ none
unfolding put_digits store
put_digits_underflow zero num digit buf h = refl
put_digits_underflow (suc p) num digit buf h = ground (
  arith,
  pow-suc 10 p,
  one-le-pow p 10,
  put_digits_underflow p (num / 10) digit (set buf p (digit (num % 10))),
)

pub fill-decimal :
    (p i len num : ℕ) (buf : Bytes)
    → HasDigits p num
    → len ≡ i + p
    → len < length buf
    → fill plus_digit len num buf
      ≡ some (record {
        status = ok;
        size_ret = some len;
        buf = take i buf ++ ((decimal p num ++ (0 ∷ [])) ++ drop (suc len) buf);
      })
unfolding fill store
fill-decimal p i len num buf d e h =
    rw
      (
        lt→ltb len (length buf) h,
        put_digits-decimal p len i num (set buf len 0) d e (rw length-set (omega arith)),
      )
      (ap (λ b. some (record { status = ok; size_ret = some len; buf = b }))
        (take-drop-set i len 0 buf (omega arith) h (decimal p num)))

fill_underflow :
    (digit : ℕ → ℕ) (len num : ℕ) (buf : Bytes) → 10 ^ len ≤ num → fill digit len num buf ≡ none
unfolding fill store
fill_underflow digit len num buf h =
    ground (arith, put_digits_underflow len num digit (set buf len 0) h)

pub HasDigits-le-20 : (p num : ℕ) → HasDigits p num → num < 2 ^ 64 → p ≤ 20
HasDigits-le-20 p num d w = elim (dec_lt 20 p) [
  | yes lt ↦ absurd (omega (arith, d, pow-le-pow_right {n = 10} (omega arith) {i = 21} {j = p} lt))
  | no ge ↦ omega arith
]

-- What `unum2str` does on a number of `p` digits that is no power of ten from 10 on.
abbrev pub unsigned_result : ℕ → ℕ → Bytes → ℕ → Text
unsigned_result p num buf size =
    if ltb size (p + 1)
    then record { status = enospc; size_ret = some (p + 1); buf = buf }
    else record { status = ok; size_ret = some p; buf = decimal p num ++ (0 ∷ drop (suc p) buf) }

-- Let `num` be below 2 ^ 64 with exactly `p` digits, and no power of ten but 1. In a buffer of at
-- least `size` > 0 bytes `UNUM2STR` writes the `p` digits, a 0 byte and nothing else, and reports
-- `p`; if `p + 1` is over `size` it changes nothing, reports `p + 1`, and returns ENOSPC.
pub unum2str_decimal :
    (p num : ℕ) (buf : Bytes) (size : ℕ)
    → HasDigits p num
    → num < 2 ^ 64
    → (p ≡ 1) ⊎ (10 ^ p ≢ 10 * num)
    → 0 < size
    → size ≤ length buf
    → unum2str num (some buf) size ≡ some (unsigned_result p num buf size)
unfolding unum2str
unum2str_decimal p num buf size d w ne pos fits = ground (
  arith,
  num_len_exact p num d (HasDigits-le-20 p num d w) ne,
  fill-decimal p 0 p num buf d,
  append_assoc (decimal p num) (0 ∷ []) (drop (suc p) buf),
)

-- At 10, 100, ..., 10 ^ 19 `UNUM2STR` counts one digit too few, and with room for that many it
-- writes in front of the buffer.
pub unum2str_power :
    (k : ℕ) (buf : Bytes) (size : ℕ)
    → 1 ≤ k
    → k ≤ 19
    → k + 1 ≤ size
    → unum2str (10 ^ k) (some buf) size ≡ none
unfolding unum2str
unum2str_power k buf size one le fits =
    ground (arith, num_len_power k one le, fill_underflow plus_digit k (10 ^ k) buf (omega arith))
