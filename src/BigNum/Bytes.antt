-- ===== src/BigNum/Bytes.antt =====
-- The conversions of bytes to big numbers in include/math/big_num.h. A digit has 8 bytes, the
-- lowest first, as a little-endian machine has it in memory.
pub mod Import
pub mod Spell
pub mod Export
pub mod RoundTrip
mod Runs
use liblcb.Base.{
  ℕ, zero, suc, ◌+◌, ◌-◌, ◌*◌, ◌/◌, ◌%◌, Option, some, none, replicate, get_or, ◌^◌, ◌≤◌, ◌<◌, ◌≡◌,
  ◌⊎◌, inl, inr, refl, sym, ap, ◌∙◌, arith, min, List, [], ◌∷◌, ◌++◌, All, Bytes, IsByte, Bool,
  true, false, ltb, leb, ◌==◌, ◌||◌, ◌>>=◌, not, if◌then◌else◌, Bool-cases, length, take, drop,
  Errno, ok, einval, eoverflow,
}
use liblcb.BigNum.Value.{IsDigit, value, capacity}
use liblcb.BigNum.Number.{Bn, bn_update_digits__int, with_digits}

-- The digits of bytes: `left` more bytes belong to the digit that is begun with `digit`, and the
-- next of them counts `weight`. What the last digit lacks is 0.
unfoldable pub gather : ℕ → ℕ → ℕ → Bytes → List ℕ
gather left digit weight [] = digit ∷ []
gather zero digit weight (b ∷ bs) = digit ∷ gather 7 b 256 bs
gather (suc left) digit weight (b ∷ bs) = gather left (digit + b * weight) (weight * 256) bs

unfoldable pub gather_digits : Bytes → List ℕ
gather_digits [] = []
gather_digits (b ∷ bs) = gather 7 b 256 bs

unfoldable pub reverse_onto : Bytes → Bytes → Bytes
reverse_onto [] out = out
reverse_onto (b ∷ bs) out = reverse_onto bs (b ∷ out)

abbrev pub reverse : Bytes → Bytes
reverse bs = reverse_onto bs []

-- The digits that are written, and the rest of the array; with `count_ret` stored.
unfoldable pub bn_digits_import_le_bin : List ℕ → Bytes → Errno × (List ℕ × ℕ)
bn_digits_import_le_bin a buf =
    let digits = gather_digits buf in
    if length a == 0 || length buf == 0
    then (einval, (a, 0))
    else if ltb (length a * 8) (length buf)
    then (eoverflow, (a, 0))
    else (ok, (digits ++ drop (length digits) a, length digits))

-- The bytes are copied from the last one on.
unfoldable pub bn_digits_import_be_bin : List ℕ → Bytes → Errno × (List ℕ × ℕ)
bn_digits_import_be_bin a buf =
    let digits = gather_digits (reverse buf) in
    if length a == 0 || length buf == 0
    then (einval, (a, 0))
    else if ltb (length a * 8) (length buf)
    then (eoverflow, (a, 0))
    else (ok, (digits ++ drop (length digits) a, length digits))

abbrev pub imported : Bn → Errno × (List ℕ × ℕ) → Errno × Bn
imported bn (ok, (a, digits)) = (ok, bn_update_digits__int (with_digits bn a) digits)
imported bn (error, (a, digits)) = (error, bn)

unfoldable pub bn_import_le_bin : Bn → Bytes → Errno × Bn
bn_import_le_bin bn buf = imported bn (bn_digits_import_le_bin (take bn.count bn.num) buf)

unfoldable pub bn_import_be_bin : Bn → Bytes → Errno × Bn
bn_import_be_bin bn buf = imported bn (bn_digits_import_be_bin (take bn.count bn.num) buf)

-- The bytes of a digit and of an array, the lowest first.
abbrev pub spread : ℕ → ℕ → Bytes
spread zero d = []
spread (suc n) d = d % 256 ∷ spread n (d / 256)

unfoldable pub array_bytes : List ℕ → Bytes
array_bytes [] = []
array_bytes (d ∷ ds) = spread 8 d ++ array_bytes ds

-- The search for the highest byte that is not 0.
unfoldable pub significant : Bytes → ℕ → ℕ
significant bytes zero = 0
significant bytes (suc i) =
    let rest = significant bytes i in if get_or bytes i 0 == 0 then rest else suc i

-- `auto` is BN_EXPORT_F_AUTO_SIZE. With the buffer the size that is stored, `none` if it is not.
unfoldable pub bn_digits_export_be_bin : List ℕ → Bool → Bytes → Errno × (Bytes × Option ℕ)
bn_digits_export_be_bin a auto buf =
    let size = length buf in
    let bytes = array_bytes a in
    let tm = significant bytes (length bytes) in
    let out = reverse (take tm bytes) in
    if size == 0
    then (einval, (buf, none))
    else if length a == 0
    then if auto then (ok, (0 ∷ drop 1 buf, some 1)) else (ok, (replicate size 0, some size))
    else if ltb size tm
    then (eoverflow, (buf, some (if auto then tm else size)))
    else if auto
    then (ok, (out ++ drop tm buf, some tm))
    else (ok, (replicate (size - tm) 0 ++ out, some size))

unfoldable pub bn_export_be_bin : Bn → Bool → Bytes → Errno × (Bytes × Option ℕ)
bn_export_be_bin bn auto buf = bn_digits_export_be_bin (take bn.digits bn.num) auto buf

-- The copy with the lowest byte first. `none` is a shift by more than a digit has.
unfoldable pub le_fits : ℕ → ℕ → Option Bool
le_fits top ddiff =
    if ltb 8 ddiff
    then some false
    else if ddiff == 8
    then (if top == 0 then none else some false)
    else if leb 8 ddiff
    then none
    else some (not (leb (2 ^ (1 + ddiff * 8) % 2 ^ 64) top))

abbrev pub le_copy : List ℕ → Bool → Bytes → Bool → Errno × (Bytes × Option ℕ)
le_copy a auto buf false = (eoverflow, (buf, some (if auto then length a * 8 else length buf)))
le_copy a auto buf true = (ok, (take (length buf) (array_bytes a), some (length buf)))

unfoldable pub bn_digits_export_le_bin : List ℕ → Bool → Bytes → Option (Errno × (Bytes × Option ℕ))
bn_digits_export_le_bin a auto buf =
    let size = length buf in
    let bn_size = length a * 8 in
    if size == 0
    then some (einval, (buf, none))
    else if ltb size bn_size
    then le_fits (get_or a (length a - 1) 0) (bn_size - size)
      >>= (λ fits. some (le_copy a auto buf fits))
    else if auto
    then some (ok, (array_bytes a ++ drop bn_size buf, some bn_size))
    else some (ok, (array_bytes a ++ replicate (size - bn_size) 0, some size))

unfoldable pub bn_export_le_bin : Bn → Bool → Bytes → Option (Errno × (Bytes × Option ℕ))
bn_export_le_bin bn auto buf = bn_digits_export_le_bin (take bn.digits bn.num) auto buf
