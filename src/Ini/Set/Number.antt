-- ===== src/Ini/Set/Number.antt =====
-- src/utils/ini.c: `ini_val_set_uint` and `ini_val_get_uint` with the number formatting between.
use liblcb.Base.{ℕ, ◌*◌, ◌^◌, ◌%◌, ◌<◌, ◌≡◌, ◌≢◌, ◌⊎◌, refl, ap, arith, ◌∙◌}
use liblcb.Base.{Option, some, [], ◌∷◌, Bytes, length, take, All, Errno, ok}
use liblcb.Num.Decimal.{HasDigits}
use liblcb.Num.Format.{usize2str, unum2str, Text}
use liblcb.Num.Format.Unsigned.{HasDigits-le-20}
use liblcb.Num.Parse.{str2usize, str2unum}
use native.Mathlib.Nat.{mod-eq_of_lt}
use liblcb.Num.Parse.RoundTrip.{str2unum-unum2str}
use liblcb.Ini.Line.{Ini, IsLine}
use liblcb.Ini.Find.{ini_val_get, ini_val_get_uint}
use liblcb.Ini.Set.{Realloc, set_text, ini_val_set, ini_val_set_uint}
use liblcb.Ini.Set.GetSet.{ini_val_get-ini_val_set}

set_text_ok :
    (heap : Realloc) (lines lines' : Ini) (sect name : Option Bytes) (text : Text) (p : ℕ)
    → text.status ≡ ok
    → text.size_ret ≡ some p
    → ini_val_set heap lines sect name (take p text.buf) ≡ some lines'
    → set_text heap lines sect name text ≡ some (ok, lines')
unfolding set_text
set_text_ok heap lines lines' sect name text p e1 e2 e3 = rw (e1, e2, e3) refl

set_uint :
    (heap : Realloc) (stack : Bytes) (lines : Ini) (sect name : Option Bytes) (num : ℕ)
    (text : Text) (r : Errno × Ini)
    → num < 2 ^ 64
    → unum2str num (some stack) 64 ≡ some text
    → set_text heap lines sect name text ≡ some r
    → ini_val_set_uint heap stack lines sect name num ≡ some r
unfolding ini_val_set_uint usize2str
set_uint heap stack lines sect name num text r hn e1 e2 =
    let wrap : num % 2 ^ 64 ≡ num = mod-eq_of_lt hn in rw (wrap, e1) e2

get_uint :
    (lines : Ini) (sect name : Option Bytes) (v : Bytes)
    → ini_val_get lines sect name ≡ some v
    → ini_val_get_uint lines sect name ≡ some (str2unum 64 (some v))
unfolding ini_val_get_uint str2usize
get_uint lines sect name v e = rw e refl

-- A number below 2 ^ 64 with `p` digits that is no power of ten but 1 is stored without an error,
-- and reading it back gives the same number. The section name is not empty, unless it is NULL, nor
-- is the value's, and each line has its name and its value inside its data.
pub ini_val_get_uint-ini_val_set_uint :
    (heap : Realloc) (stack : Bytes) (lines : Ini) (sect : Option Bytes) (b : ℕ) (bs : Bytes)
    (p num : ℕ)
    → sect ≢ some []
    → All IsLine lines
    → length stack ≡ 64
    → HasDigits p num
    → num < 2 ^ 64
    → (p ≡ 1) ⊎ (10 ^ p ≢ 10 * num)
    → (lines' : Ini) × (ini_val_set_uint heap stack lines sect (some (b ∷ bs)) num
        ≡ some (ok, lines'))
      × (ini_val_get_uint lines' sect (some (b ∷ bs)) ≡ some num)
ini_val_get_uint-ini_val_set_uint heap stack lines sect b bs p num hs hl hk hd hn ne =
    let (t, e1, e2, e3, e4) =
      str2unum-unum2str 64 p num stack 64 hd hn (omega arith) ne
        (omega (arith, HasDigits-le-20 p num hd hn)) (omega arith) in
    let (lines', s1, s2, s3) = ini_val_get-ini_val_set heap sect hs b bs (take p t.buf) lines hl in
    (
      lines',
      set_uint heap stack lines sect (some (b ∷ bs)) num t (ok, lines') hn e1
          (set_text_ok heap lines lines' sect (some (b ∷ bs)) t p e2 e3 s1),
      get_uint lines' sect (some (b ∷ bs)) (take p t.buf) s3 ∙ ap some e4,
    )
