-- ===== src/Num/Hex/Value.antt =====
-- What `STRH2NUM` computes: the number that the hexadecimal digits spell, modulo 2 ^ w.
use liblcb.Base.{ℕ, ◌+◌, ◌*◌, ◌/◌, ◌-◌, ◌%◌, ◌^◌, ◌<◌, ◌≡◌, refl, sym, ap, ◌∙◌, arith}
use liblcb.Base.{
  Option, none, some, Option-cases, List, [], ◌∷◌, Bytes, inl, inr, if◌then◌else◌, Bool, true,
  false,
}
use liblcb.Base.{◌≤◌, zero, suc, All, ltb, ◌==◌, codes, Bool-cases}
use liblcb.Base.Bits.{bit_or-add, tables_agree, tables_agree-eq}
use liblcb.Num.Parse.Value.{wrap_step, is_minus}
use liblcb.Num.Hex.{hex_digit, push_digit, strh2num, strh2num_sign, strh2unum, strh2snum}
use native.Mathlib.Nat.{
  one-le-pow, mod-eq_of_lt, mod-lt, add-mul-mod_self_right, mod-add-div', zero-mod,
}
use native.Mathlib.Numerals.{towards_suc}

-- The place of a byte in a text.
abbrev pub place_in : Bytes → ℕ → Option ℕ
place_in [] b = none
place_in (c ∷ cs) b =
    let later = place_in cs b in
    if c == b then some 0 else elim later [ none ↦ none | some i ↦ some (suc i) ]

-- The hexadecimal digits, whose place is their value, and those in capitals.
abbrev pub digits_lower : Bytes
digits_lower = codes "0123456789abcdef"

abbrev pub digits_upper : Bytes
digits_upper = codes "0123456789ABCDEF"

abbrev or_else : Option ℕ → Option ℕ → Option ℕ
or_else none later = later
or_else (some d) later = some d

abbrev pub nibble : ℕ → Option ℕ
nibble b = or_else (place_in digits_lower b) (place_in digits_upper b)

-- The values of the hexadecimal digits of a text, with all else left out.
abbrev keep : Option ℕ → List ℕ → List ℕ
keep none ds = ds
keep (some d) ds = d ∷ ds

abbrev pub hex_values : Bytes → List ℕ
hex_values [] = []
hex_values (b ∷ bs) = keep (nibble b) (hex_values bs)

-- The number that digits of base 16 make, highest first, behind the number `acc`.
abbrev pub spell_hex : ℕ → List ℕ → ℕ
spell_hex acc [] = acc
spell_hex acc (d ∷ ds) = spell_hex (acc * 16 + d) ds

code : Option ℕ → ℕ
code none = 0
code (some d) = suc d

decode : ℕ → Option ℕ
decode zero = none
decode (suc d) = some d

decode-code : (o : Option ℕ) → decode (code o) ≡ o
unfolding code decode
decode-code none = refl
decode-code (some d) = refl

small_bytes : tables_agree (λ b. code (hex_digit b)) (λ b. code (nibble b)) 128 ≡ true
unfolding tables_agree code hex_digit
small_bytes = refl

place_in-none : (cs : Bytes) (b : ℕ) → All (λ c. c < b) cs → place_in cs b ≡ none
place_in-none [] b all = refl
place_in-none (c ∷ cs) b (lt, all) =
    let other : (c == b) ≡ false = ground arith in rw (other, place_in-none cs b all) refl

hex_digit_beyond : (b : ℕ) → 128 ≤ b → hex_digit b ≡ none
unfolding hex_digit
hex_digit_beyond b le = ground arith

nibble_beyond : (b : ℕ) → 128 ≤ b → nibble b ≡ none
nibble_beyond b le =
    ap (λ o. or_else o (place_in digits_upper b)) (place_in-none digits_lower b (omega arith))
    ∙ place_in-none digits_upper b (omega arith)

-- The code's digits are those that stand in one of the two texts.
hex_digit-nibble : (b : ℕ) → hex_digit b ≡ nibble b
hex_digit-nibble b = elim (Bool-cases (ltb b 128)) [
  | inl small ↦
      sym (decode-code (hex_digit b))
      ∙ ap decode (
          tables_agree-eq (λ b. code (hex_digit b)) (λ b. code (nibble b)) 128 b (ground arith)
            small_bytes)
      ∙ decode-code (nibble b)
  | inr large ↦ hex_digit_beyond b (ground arith) ∙ sym (nibble_beyond b (ground arith))
]

hex_digit-lt : (b d : ℕ) → hex_digit b ≡ some d → d < 16
unfolding hex_digit
hex_digit-lt b d h = ground arith

-- A multiple of 16 stays one when a type of four bits or more wraps it.
mul_16-mod : (x m : ℕ) → 0 < m → x * 16 % (m * 16) ≡ x % m * 16
mul_16-mod x m pos =
    ap (λ (t : ℕ). t % (m * 16)) (omega (arith, ap (λ (t : ℕ). t * 16) (mod-add-div' x m)))
    ∙ add-mul-mod_self_right (x % m * 16) (x / m) (m * 16)
    ∙ mod-eq_of_lt (omega (arith, mod-lt x pos))

pow_add_four : (k : ℕ) → 2 ^ (k + 4) ≡ 2 ^ k * 16
pow_add_four k = simp towards_suc (omega arith)

push_digit-some :
    (k v d : ℕ)
    → d < 16
    → push_digit (k + 4) (v % 2 ^ (k + 4)) (some d) ≡ (v * 16 + d) % 2 ^ (k + 4)
push_digit-some k v d lt =
    rw
      (
        pow_add_four k,
        mul_16-mod (v % (2 ^ k * 16)) (2 ^ k) (one-le-pow k 2 (omega arith)),
        bit_or-add 4 (v % (2 ^ k * 16) % 2 ^ k) d lt,
      )
      (rw (← mul_16-mod (v % (2 ^ k * 16)) (2 ^ k) (one-le-pow k 2 (omega arith)))
        (wrap_step v d 16 (2 ^ k * 16)))

strh2num-spell_hex :
    (k v : ℕ) (bs : Bytes)
    → strh2num (k + 4) (v % 2 ^ (k + 4)) bs ≡ spell_hex v (hex_values bs) % 2 ^ (k + 4)
unfolding strh2num
strh2num-spell_hex k v [] = refl
strh2num-spell_hex k v (b ∷ bs) = rw (← hex_digit-nibble b) (elim (Option-cases (hex_digit b)) [
  | inl e ↦ rw e (strh2num-spell_hex k v bs)
  | inr (d, e) ↦
      rw (e, push_digit-some k v d (hex_digit-lt b d e)) (strh2num-spell_hex k (v * 16 + d) bs)
])

-- In a type of w = k + 4 bits `STRH2UNUM` gives the number that the hexadecimal digits of the
-- text spell, those of `0123456789abcdef` and `ABCDEF`, modulo 2 ^ w: other bytes are passed over, and a number that does not fit wraps.
pub strh2unum-spell_hex :
    (k : ℕ) (bs : Bytes) → strh2unum (k + 4) (some bs) ≡ spell_hex 0 (hex_values bs) % 2 ^ (k + 4)
unfolding strh2unum
strh2unum-spell_hex k bs =
    ap (λ z. strh2num (k + 4) z bs) (sym (zero-mod (2 ^ (k + 4)))) ∙ strh2num-spell_hex k 0 bs

strh2num_sign-is_minus : (sign : Bool) (bs : Bytes) → strh2num_sign sign bs ≡ is_minus sign bs
unfolding strh2num_sign
strh2num_sign-is_minus sign [] = refl
strh2num_sign-is_minus sign (b ∷ bs) =
    ground (arith, strh2num_sign-is_minus true bs, strh2num_sign-is_minus false bs)

-- `STRH2SNUM` gives that number, negated modulo 2 ^ w when the last of the leading signs is "-".
pub strh2snum-spell_hex :
    (k : ℕ) (bs : Bytes)
    → strh2snum (k + 4) (some bs) ≡ (
        if is_minus false bs
        then (2 ^ (k + 4) - spell_hex 0 (hex_values bs) % 2 ^ (k + 4)) % 2 ^ (k + 4)
        else spell_hex 0 (hex_values bs) % 2 ^ (k + 4))
unfolding strh2snum strh2unum
strh2snum-spell_hex k bs = rw (← strh2unum-spell_hex k bs, strh2num_sign-is_minus)
