-- ===== src/BigNum/Bytes/Export.antt =====
-- Exporting bytes, include/math/big_num.h: the bytes spell the number.
use liblcb.Base.{
  ℕ, zero, suc, ◌-◌, ◌≤◌, ◌<◌, ◌≡◌, ◌⊎◌, inl, inr, refl, sym, ap, ◌∙◌, arith, List, [], ◌∷◌, ◌++◌,
  All, Bytes, IsByte, Bool, true, false, ltb, ◌==◌, if◌then◌else◌, Bool-cases, Option, some, length,
  take, drop, replicate, Errno, ok, eoverflow, length-append, length-drop, length-take_le,
  length-replicate, take-append, take-all, append-nil, All-append,
}
use liblcb.BigNum.Value.{value, capacity_positive, take-IsDigit}
use liblcb.BigNum.Number.{Bn}
use liblcb.BigNum.Number.Store.{bn_value, IsNormal, top_value}
use liblcb.BigNum.Bytes.{
  array_bytes, significant, reverse, bn_digits_export_be_bin, bn_export_be_bin,
}
use liblcb.BigNum.Bytes.Import.{le_value, be_value, length-reverse_onto, reverse_onto-IsByte}
use liblcb.BigNum.Bytes.Spell.{
  take-IsByte, array_bytes-IsByte, array_bytes-value, drop-IsByte, reverse_onto-be_value,
  significant-value, span, span_le, zeros-IsByte, zeros-be_value,
}

-- What exporting promises: the bytes that it says it stored, at least one, spell the number, and the
-- buffer keeps its size; or the number has no room in the buffer, which stays as it was.
abbrev pub Export : Bn → Bytes → Errno × (Bytes × Option ℕ) → Type 0
Export bn buf (error, (buf', stored)) =
    (length buf' ≡ length buf)
    × All IsByte buf'
    × (((error ≡ ok)
          × ((size : ℕ) × (stored ≡ some size)
              × (0 < size)
              × (size ≤ length buf)
              × (be_value (take size buf') ≡ bn_value bn)))
        ⊎ ((error ≡ eoverflow) × (buf' ≡ buf) × (span (length buf) ≤ bn_value bn)))

module _ (bn : Bn) (buf : Bytes) (all_buf : All IsByte buf) (bytes : Bytes)
    (all_bytes : All IsByte bytes) (spelled : le_value bytes ≡ bn_value bn) (pos : 0 < bn_value bn)
    (room : 0 < length buf) where
  abbrev tm : ℕ
  tm = significant bytes (length bytes)

  abbrev out : Bytes
  out = reverse (take tm bytes)

  length-out : length out ≡ tm
  length-out =
      let (small, same, top) = significant-value bytes (length bytes) (omega arith) in
      omega (arith, length-reverse_onto (take tm bytes) [], length-take_le tm bytes small)

  out-be_value : be_value out ≡ bn_value bn
  out-be_value =
      let (small, same, top) = significant-value bytes (length bytes) (omega arith) in
      reverse_onto-be_value (take tm bytes) []
      ∙ same
      ∙ ap le_value (take-all bytes (length bytes) (omega arith))
      ∙ spelled

  out-IsByte : All IsByte out
  out-IsByte = reverse_onto-IsByte (take tm bytes) [] (take-IsByte tm bytes all_bytes) tt

  some_size : (n : ℕ) → n ≡ tm → 0 < n
  some_size zero e =
      let (small, same, top) = significant-value bytes (length bytes) (omega arith) in
      let none_taken : le_value (take tm bytes) ≡ 0 = ap (λ n. le_value (take n bytes)) (sym e) in
      let whole = ap le_value (take-all bytes (length bytes) (omega arith)) in
      absurd (omega (arith, same, none_taken, whole, spelled, pos))
  some_size (suc n) e = omega arith

  auto-Export : tm ≤ length buf → Export bn buf (ok, (out ++ drop tm buf, some tm))
  auto-Export le = (
    length-append out (drop tm buf) ∙ omega (arith, length-out, length-drop tm buf, le),
    All-append IsByte out (drop tm buf) out-IsByte (drop-IsByte tm buf all_buf),
    inl (
      refl,
      (
        tm,
        refl,
        some_size tm refl,
        le,
        ap be_value (take-append tm out (drop tm buf) length-out) ∙ out-be_value,
      ),
    ),
  )

  padded-Export :
      tm ≤ length buf
      → Export bn buf (ok, (replicate (length buf - tm) 0 ++ out, some (length buf)))
  padded-Export le =
      let padded = replicate (length buf - tm) 0 ++ out in
      let len : length padded ≡ length buf =
        length-append (replicate (length buf - tm) 0) out
        ∙ omega (arith, length-out, length-replicate {A = ℕ} (length buf - tm) 0, le) in
      (
        len,
        All-append IsByte (replicate (length buf - tm) 0) out (zeros-IsByte (length buf - tm))
            out-IsByte,
        inl (
          refl,
          (
            length buf,
            refl,
            room,
            omega arith,
            ap be_value (take-all padded (length buf) (omega (arith, len)))
                ∙ zeros-be_value (length buf - tm) out
                ∙ out-be_value,
          ),
        ),
      )

  refused-Export : (stored : Option ℕ) → length buf < tm → Export bn buf (eoverflow, (buf, stored))
  refused-Export stored lt =
      let (small, same, top) = significant-value bytes (length bytes) (omega arith) in
      let whole : le_value (take (length bytes) bytes) ≡ bn_value bn =
        ap le_value (take-all bytes (length bytes) (omega arith)) ∙ spelled in
      let le = span_le (length buf) (tm - 1) (omega (arith, lt)) in
      let high : span (tm - 1) ≤ bn_value bn = elim top [
        | inl z ↦ absurd (omega (arith, z, lt))
        | inr t ↦ omega (arith, t, whole)
      ] in
      (refl, all_buf, inr (refl, refl, omega (arith, le, high)))

empty_value : (a : List ℕ) → length a ≡ 0 → value a ≡ 0
empty_value [] e = refl
empty_value (d ∷ ds) e = absurd (omega (arith, e))

zero-Export :
    (bn : Bn) (buf : Bytes) (auto : Bool)
    → 0 < length buf
    → All IsByte buf
    → bn_value bn ≡ 0
    → Export bn buf (
        if auto
        then (ok, (0 ∷ drop 1 buf, some 1))
        else (ok, (replicate (length buf) 0, some (length buf))))
zero-Export bn [] auto pos all e = elim pos [ ]
zero-Export bn (b ∷ bs) true pos (hb, all) e =
    (refl, (omega arith, all), inl (refl, (1, refl, omega arith, omega arith, sym e)))
zero-Export bn (b ∷ bs) false pos all e =
    let n = suc (length bs) in
    let len = length-replicate {A = ℕ} n 0 in
    (
      len,
      zeros-IsByte n,
      inl (
        refl,
        (
          n,
          refl,
          omega arith,
          omega arith,
          ap be_value (take-all (replicate n 0) n (omega (arith, len)))
              ∙ sym (ap be_value (append-nil (replicate n 0)))
              ∙ zeros-be_value n []
              ∙ sym e,
        ),
      ),
    )

positive : (bn : Bn) → IsNormal bn → 0 < bn.digits → 0 < bn_value bn
positive bn ((hd, hc, all), top) pos =
    let whole = top_value bn.num bn.digits pos (omega arith) in
    let some_capacity = capacity_positive (bn.digits - 1) in
    elim top [ inl z ↦ absurd (omega arith) | inr t ↦ grind arith ]

-- For a well-formed object and a buffer of at least one byte, exporting stores a size, and that many
-- bytes of the buffer spell the number, the highest first. It refuses only a number that has no room
-- in the buffer, which then stays as it was.
pub bn_export_be_bin-Export :
    (bn : Bn) (auto : Bool) (buf : Bytes)
    → IsNormal bn
    → All IsByte buf
    → 0 < length buf
    → Export bn buf (bn_export_be_bin bn auto buf)
unfolding bn_export_be_bin bn_digits_export_be_bin
bn_export_be_bin-Export bn auto buf ((hd, hc, all), top) all_buf pos =
    let a = take bn.digits bn.num in
    let bytes = array_bytes a in
    let spelled : le_value bytes ≡ bn_value bn =
      array_bytes-value a (take-IsDigit bn.digits bn.num all) in
    let some_room : (length buf == 0) ≡ false = ground arith in
    elim (Bool-cases (length a == 0)) [
      | inl z ↦
          rw (some_room, z) (zero-Export bn buf auto pos all_buf (empty_value a (ground arith)))
      | inr nz ↦
          let some_value =
            positive bn ((hd, hc, all), top)
              (ground (arith, length-take_le bn.digits bn.num (omega arith))) in
          elim (Bool-cases (ltb (length buf) (significant bytes (length bytes)))) [
            | inl short ↦
                rw (some_room, nz, short)
                  (refused-Export bn buf all_buf bytes (array_bytes-IsByte a) spelled some_value pos
                    _ (ground arith))
            | inr fits ↦ elim (Bool-cases auto) [
              | inl on ↦
                  rw (some_room, nz, fits, on)
                    (auto-Export bn buf all_buf bytes (array_bytes-IsByte a) spelled some_value pos
                      (ground arith))
              | inr off ↦
                  rw (some_room, nz, fits, off)
                    (padded-Export bn buf all_buf bytes (array_bytes-IsByte a) spelled some_value
                      pos (ground arith))
            ]
          ]
    ]
