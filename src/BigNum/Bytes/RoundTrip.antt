-- ===== src/BigNum/Bytes/RoundTrip.antt =====
-- Exported bytes, include/math/big_num.h, are imported as the number they came from.
use liblcb.Base.{
  [], ℕ, ◌+◌, ◌*◌, ◌/◌, ◌≤◌, ◌<◌, ◌≡◌, inl, inr, ap, ◌∙◌, arith, All, Bytes, IsByte, Bool, some,
  length, take, drop, drop-all, length-take_le, Errno, ok,
}
use liblcb.BigNum.Value.{value}
use liblcb.BigNum.Number.{Bn}
use liblcb.BigNum.Number.Store.{bn_value, IsNormal}
use liblcb.BigNum.Bytes.{bn_export_be_bin, bn_import_be_bin}
use liblcb.BigNum.Bytes.Import.{be_value, left_over, IsImported, bn_import-IsImported}
use liblcb.BigNum.Bytes.Spell.{span, take-IsByte}
use liblcb.BigNum.Bytes.Export.{bn_export_be_bin-Export}

nothing_left : (dst : Bn) (k : ℕ) → dst.digits ≡ 0 → left_over dst k ≡ 0
nothing_left dst k e =
    ap (λ d. value (drop k (take d dst.num))) e ∙ ap value (drop-all k [] (omega arith))

imported_whole :
    (dst : Bn) (buf : Bytes) (number : ℕ) (r : Errno × Bn)
    → IsImported dst buf number r
    → dst.digits ≡ 0
    → 0 < length buf
    → length buf ≤ dst.count * 8
    → (r.0 ≡ ok) × (bn_value (r.1) ≡ number)
imported_whole dst buf number (error, dst') (kept, count, inl (e, some_bytes, fits, val)) empty pos
      le =
    let none_left = nothing_left dst ((length buf + 7) / 8) empty in
    (e, val ∙ rw (none_left) (omega arith))
imported_whole dst buf number (error, dst') (kept, count, inr (inl (e, z, same))) empty pos le =
    absurd (omega arith)
imported_whole dst buf number (error, dst') (kept, count, inr (inr (e, lt, same))) empty pos le =
    absurd (omega arith)

-- For a well-formed object whose number has room in a buffer of bytes, exporting it and importing
-- the bytes that were stored into an object that is 0, and that may have as many digits as the
-- buffer fills, both succeed and give the number back, with the automatic size and without.
pub bn_import_be_bin-bn_export_be_bin :
    (bn dst : Bn) (auto : Bool) (buf : Bytes)
    → IsNormal bn
    → IsNormal dst
    → dst.digits ≡ 0
    → All IsByte buf
    → 0 < length buf
    → length buf ≤ dst.count * 8
    → bn_value bn < span (length buf)
    → (size : ℕ) × ((bn_export_be_bin bn auto buf).0 ≡ ok)
      × ((bn_export_be_bin bn auto buf).1.1 ≡ some size)
      × ((bn_import_be_bin dst (take size ((bn_export_be_bin bn auto buf).1.0))).0 ≡ ok)
      × (bn_value ((bn_import_be_bin dst (take size ((bn_export_be_bin bn auto buf).1.0))).1)
          ≡ bn_value bn)
bn_import_be_bin-bn_export_be_bin bn dst auto buf normal normal' empty all pos le room =
    let exported = bn_export_be_bin-Export bn auto buf normal all pos in
    let (len, all', how) = exported in
    let buf' = (bn_export_be_bin bn auto buf).1.0 in
    elim how [
      | inr (e, same, high) ↦ absurd (omega (arith, high, room))
      | inl (e, (size, stored, some_bytes, small, val)) ↦
          let bytes_len = length-take_le size buf' (omega (arith, len, small)) in
          let (le_facts, be_facts) =
            bn_import-IsImported dst (take size buf') normal' (omega (arith, pos, le))
              (take-IsByte size buf' all') in
          let (done, number) =
            imported_whole dst (take size buf') (be_value (take size buf'))
              (bn_import_be_bin dst (take size buf')) be_facts empty
              (omega (arith, bytes_len, some_bytes)) (omega (arith, bytes_len, small, le)) in
          (size, e, stored, done, number ∙ val)
    ]
