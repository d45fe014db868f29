-- ===== src/Num/Tests.antt =====
-- Runs of the number functions, and the theorems at concrete inputs.
use liblcb.Base.{◌≡◌, refl, arith, inr, ◌^◌, ◌-◌, some, none, [], ◌∷◌, ◌++◌, Bytes}
use liblcb.Base.{ok, take, replicate}
use liblcb.Base.Buffer.{store}
use liblcb.Base.Int.{pos, negsuc}
use liblcb.Num.Decimal.{HasDigits}
use liblcb.Num.Format.{
  Text, unum2str, snum2str, num_len, scan_len, put_digits, fill, signed_text, s82str,
}
use liblcb.Num.Format.Unsigned.{unum2str_decimal, unum2str_power, unsigned_result}
use liblcb.Num.Format.Signed.{snum2str-unum2str, snum2str_sign_lost}
use liblcb.Num.Parse.{str2unum, str2snum}
use liblcb.Num.Parse.RoundTrip.{str2unum-unum2str, str2snum-snum2str}
use liblcb.Num.Hex.{strh2unum, hex_digit}
use liblcb.Num.Hex.Value.{strh2unum-spell_hex}

abbrev room : Bytes
room = replicate 24 0xaa

digits_255 : HasDigits 3 255
digits_255 = record {
  some_digit = omega arith;
  fits = omega arith;
  no_leading_zero = inr (omega arith);
}

unum2str_decimal_example : unum2str 255 (some room) 24 ≡ some (unsigned_result 3 255 room 24)
unum2str_decimal_example =
    unum2str_decimal 3 255 room 24 digits_255 (omega arith) (inr (λ e. omega arith)) (omega arith)
      (omega arith)

unum2str_power_example : unum2str 1000 (some room) 24 ≡ none
unum2str_power_example = unum2str_power 3 room 24 (omega arith) (omega arith) (omega arith)

snum2str-unum2str_example : snum2str 8 (pos 7) (some room) 24 ≡ unum2str 7 (some room) 24
snum2str-unum2str_example = snum2str-unum2str 8 7 (some room) 24

-- -10 comes out as "10".
snum2str_sign_lost_example :
    snum2str 32 (negsuc 9) (some room) 24
    ≡ some (record { status = ok; size_ret = some 2; buf = b'1' ∷ b'0' ∷ 0 ∷ replicate 21 0xaa })
snum2str_sign_lost_example =
    snum2str_sign_lost 32 1 0xaa (replicate 23 0xaa) 24 (omega arith) (omega arith)
      (λ e. omega arith) (omega arith) (omega arith)

-- The least value stays negative, is counted as a number of 20 digits, and comes out as bytes
-- below "0" at the end of 21: "/.(" in place of "-128".
s82str_least :
    s82str (negsuc 127) (some room) 24
    ≡ some (record {
      status = ok;
      size_ret = some 21;
      buf = b'-' ∷ (replicate 17 0xaa ++ (47 ∷ 46 ∷ 40 ∷ 0 ∷ 0xaa ∷ 0xaa ∷ []));
    })
unfolding s82str snum2str signed_text num_len scan_len fill put_digits store
s82str_least = refl

str2unum-unum2str_example :
    (t : Text) × (unum2str 255 (some room) 24 ≡ some t)
    × (t.status ≡ ok)
    × (t.size_ret ≡ some 3)
    × (str2unum 8 (some (take 3 t.buf)) ≡ 255)
str2unum-unum2str_example =
    str2unum-unum2str 8 3 255 room 24 digits_255 (omega arith) (omega arith)
      (inr (λ e. omega arith)) (omega arith) (omega arith)

str2snum-snum2str_example :
    (t : Text) × (snum2str 16 (negsuc 254) (some room) 24 ≡ some t)
    × (t.status ≡ ok)
    × (t.size_ret ≡ some 4)
    × (str2snum 16 (some (take 4 t.buf)) ≡ 2 ^ 16 - 255)
str2snum-snum2str_example =
    str2snum-snum2str 16 3 254 0xaa (replicate 23 0xaa) 24 digits_255 (omega arith) (omega arith)
      (omega arith) (inr (λ e. omega arith)) (omega arith) (omega arith)

strh2unum-spell_hex_example : strh2unum 8 (some (b'0' ∷ b'x' ∷ b'1' ∷ b'F' ∷ b'f' ∷ [])) ≡ 255
unfolding hex_digit
strh2unum-spell_hex_example = strh2unum-spell_hex 4 (b'0' ∷ b'x' ∷ b'1' ∷ b'F' ∷ b'f' ∷ [])
