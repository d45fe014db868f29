-- ===== src/BigNum/Bytes/Runs.antt =====
-- Runs of the conversions of include/math/big_num.h, and the theorems at concrete inputs.
use liblcb.Base.{ℕ, ◌^◌, ◌≡◌, inl, inr, refl, arith, [], ◌∷◌, some, true, false, take, ok}
use liblcb.BigNum.Number.{Bn, bn_update_digits__int, bn_calc_digits, with_digits}
use liblcb.BigNum.Digits.{bn_digits_calc_digits}
use liblcb.BigNum.Number.Store.{bn_value, IsNormal}
use liblcb.BigNum.Bytes.{
  gather, gather_digits, reverse_onto, array_bytes, significant, bn_digits_import_be_bin,
  bn_import_le_bin, bn_import_be_bin, bn_digits_export_be_bin, bn_export_be_bin, le_fits,
  bn_digits_export_le_bin, bn_export_le_bin,
}
use liblcb.BigNum.Bytes.Import.{le_value, be_value, IsImported, bn_import-IsImported}
use liblcb.BigNum.Bytes.RoundTrip.{bn_import_be_bin-bn_export_be_bin}

abbrev old : Bn
old = record { count = 2; digits = 2; num = 3 ∷ 4 ∷ [] }

abbrev empty : Bn
empty = record { count = 2; digits = 0; num = 3 ∷ 4 ∷ [] }

abbrev small : Bn
small = record { count = 2; digits = 1; num = 258 ∷ 4 ∷ [] }

-- The second digit of the old number is still there.
import_run :
    bn_import_be_bin old (1 ∷ 2 ∷ []) ≡ (ok, record { count = 2; digits = 2; num = 258 ∷ 4 ∷ [] })
unfolding bn_import_be_bin bn_digits_import_be_bin gather_digits gather reverse_onto with_digits
    bn_update_digits__int bn_calc_digits bn_digits_calc_digits
import_run = refl

export_run : bn_export_be_bin small false (7 ∷ 7 ∷ 7 ∷ []) ≡ (ok, (0 ∷ 1 ∷ 2 ∷ [], some 3))
unfolding bn_export_be_bin bn_digits_export_be_bin array_bytes significant reverse_onto
export_run = refl

-- 2 ^ 40 in a buffer of two bytes is stored as 0, without an error.
export_le_run :
    bn_export_le_bin (record { count = 1; digits = 1; num = 2 ^ 40 ∷ [] }) true (7 ∷ 7 ∷ [])
    ≡ some (ok, (0 ∷ 0 ∷ [], some 2))
unfolding bn_export_le_bin bn_digits_export_le_bin le_fits array_bytes
export_le_run = refl

old-IsNormal : IsNormal old
old-IsNormal =
    ((omega arith, omega arith, (omega arith, (omega arith, tt))), inr (λ e. omega arith))

bn_import-IsImported_example :
    IsImported old (1 ∷ 2 ∷ []) (le_value (1 ∷ 2 ∷ [])) (bn_import_le_bin old (1 ∷ 2 ∷ []))
    × IsImported old (1 ∷ 2 ∷ []) (be_value (1 ∷ 2 ∷ [])) (bn_import_be_bin old (1 ∷ 2 ∷ []))
bn_import-IsImported_example =
    bn_import-IsImported old (1 ∷ 2 ∷ []) old-IsNormal (omega arith)
      (omega arith, (omega arith, tt))

bn_import_be_bin-bn_export_be_bin_example :
    (size : ℕ) × ((bn_export_be_bin small false (7 ∷ 7 ∷ 7 ∷ [])).0 ≡ ok)
    × ((bn_export_be_bin small false (7 ∷ 7 ∷ 7 ∷ [])).1.1 ≡ some size)
    × ((bn_import_be_bin empty (take size ((bn_export_be_bin small false (7 ∷ 7 ∷ 7 ∷ [])).1.0))).0
        ≡ ok)
    × (bn_value (
          (bn_import_be_bin empty
            (take size ((bn_export_be_bin small false (7 ∷ 7 ∷ 7 ∷ [])).1.0))).1)
        ≡ bn_value small)
bn_import_be_bin-bn_export_be_bin_example =
    bn_import_be_bin-bn_export_be_bin small empty false (7 ∷ 7 ∷ 7 ∷ [])
      ((omega arith, omega arith, (omega arith, (omega arith, tt))), inr (λ e. omega arith))
      ((omega arith, omega arith, (omega arith, (omega arith, tt))), inl refl) refl
      (omega arith, (omega arith, (omega arith, tt))) (omega arith) (omega arith) (omega arith)
