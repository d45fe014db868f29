-- ===== src/Crc32/Steps.antt =====
-- Steps of the register from a table: one lookup takes 4 or 8 of them, for tables that hold them.
use liblcb.Base.{
  ℕ, zero, suc, ◌+◌, ◌*◌, ◌/◌, ◌%◌, ◌^◌, ◌≤◌, ◌<◌, ◌≡◌, sym, ap, ◌∙◌, arith, List, some, get_elem?,
  lt→ltb,
}
use Prim.Native.Nat.{bit_xor}
use native.Mathlib.Nat.{pow-suc, one-le-pow}
use liblcb.Base.Xor.{bit_xor-add, bit_xor_bound, bit_xor_parts, bit_xor-zero, bit_xor_comm}
use liblcb.Crc32.Register.{times, normal_bit, reflect_bit}
use liblcb.Crc32.Linear.{
  times-Linear, normal_bit-Bounded, normal_bit-Linear, reflect_bit-Bounded, reflect_bit-Linear,
}
use liblcb.Crc32.Update.{shl32, normal4_step, normal8_step, reflect4_step, reflect8_step}

-- The entry `i` is what `k` steps make of `i` where it goes out first.
abbrev pub NormalTable : ℕ → ℕ → List ℕ → Type 0
NormalTable poly k table =
    (i : ℕ) → i < 2 ^ k → get_elem? table i ≡ some (times k (normal_bit poly) (i * 2 ^ 32 / 2 ^ k))

abbrev pub ReflectTable : ℕ → ℕ → List ℕ → Type 0
ReflectTable poly k table =
    (i : ℕ) → i < 2 ^ k → get_elem? table i ≡ some (times k (reflect_bit poly) i)

module _ (poly : ℕ) (fits : poly < 2 ^ 32) where
  -- Nothing goes out at the top of a small number.
  normal_small : (k x : ℕ) → x * 2 ^ k < 2 ^ 32 → times k (normal_bit poly) x ≡ x * 2 ^ k
  unfolding normal_bit
  normal_small zero x lt = omega arith
  normal_small (suc k) x lt =
      let low : 1 ≤ 2 ^ k = one-le-pow k 2 (omega arith) in
      let eq : x * 2 ^ suc k ≡ x * 2 * 2 ^ k =
        omega (arith, pow-suc 2 k, ap (λ (t : ℕ). x * t) (pow-suc 2 k)) in
      let half : x < 2 ^ 31 = grind arith in
      rw (lt→ltb x (2 ^ 31) half) (normal_small k (x * 2) (omega (arith, eq)) ∙ sym eq)

  -- Nothing goes out at the bottom of a multiple.
  reflect_high : (k x : ℕ) → times k (reflect_bit poly) (x * 2 ^ k) ≡ x
  unfolding reflect_bit
  reflect_high zero x = omega arith
  reflect_high (suc k) x =
      let eq : x * 2 ^ suc k ≡ x * 2 ^ k * 2 =
        omega (arith, pow-suc 2 k, ap (λ (t : ℕ). x * t) (pow-suc 2 k)) in
      let even : x * 2 ^ suc k % 2 ≡ 0 = omega (arith, eq) in
      let half : x * 2 ^ suc k / 2 ≡ x * 2 ^ k = omega (arith, eq) in
      rw (even, half) (reflect_high k x)

  -- Several steps at once: shift, and let the part that goes out in through the table.
  normal_several :
      (k m h l : ℕ)
      → 2 ^ m * 2 ^ k ≡ 2 ^ 32
      → h < 2 ^ k
      → l < 2 ^ m
      → times k (normal_bit poly) (h * 2 ^ m + l)
        ≡ bit_xor (l * 2 ^ k) (times k (normal_bit poly) (h * 2 ^ m))
  normal_several k m h l e hh hl =
      let top : h * 2 ^ m < 2 ^ 32 = grind arith in
      let low : l * 2 ^ k < 2 ^ 32 = grind arith in
      let small : l < 2 ^ 32 = grind arith in
      sym (ap (times k (normal_bit poly)) (bit_xor-add m h l hl))
      ∙ times-Linear (normal_bit poly) (normal_bit-Bounded poly fits) (normal_bit-Linear poly) k
          (h * 2 ^ m) l top small
      ∙ bit_xor_comm _ _
      ∙ ap (λ x. bit_xor x (times k (normal_bit poly) (h * 2 ^ m))) (normal_small k l low)

  reflect_several :
      (k h l : ℕ)
      → h * 2 ^ k + l < 2 ^ 32
      → l < 2 ^ k
      → times k (reflect_bit poly) (h * 2 ^ k + l) ≡ bit_xor h (times k (reflect_bit poly) l)
  reflect_several k h l bound hl =
      sym (ap (times k (reflect_bit poly)) (bit_xor-add k h l hl))
      ∙ times-Linear (reflect_bit poly) (reflect_bit-Bounded poly fits) (reflect_bit-Linear poly) k
          (h * 2 ^ k) l (omega arith) (omega arith)
      ∙ ap (λ x. bit_xor x (times k (reflect_bit poly) l)) (reflect_high k h)

  pub normal4_step-times :
      (table : List ℕ) (crc : ℕ)
      → NormalTable poly 4 table
      → crc < 2 ^ 32
      → normal4_step table crc ≡ some (times 4 (normal_bit poly) crc)
  unfolding normal4_step
  normal4_step-times table crc holds lt =
      let entry = holds (crc / 2 ^ 28) (omega arith) in
      let several =
        normal_several 4 28 (crc / 2 ^ 28) (crc % 2 ^ 28) (omega arith) (omega arith)
          (omega arith) in
      let parts : crc / 2 ^ 28 * 2 ^ 28 + crc % 2 ^ 28 ≡ crc = omega arith in
      let place : crc / 2 ^ 28 * 2 ^ 32 / 2 ^ 4 ≡ crc / 2 ^ 28 * 2 ^ 28 = omega arith in
      let shifted : shl32 crc 4 ≡ crc % 2 ^ 28 * 2 ^ 4 = omega arith in
      let whole = rw (parts) at several in rw (entry, place, shifted) (ap some (sym whole))

  pub normal8_step-times :
      (table : List ℕ) (crc byte : ℕ)
      → NormalTable poly 8 table
      → crc < 2 ^ 32
      → byte < 256
      → normal8_step table crc byte ≡ some (times 8 (normal_bit poly) (bit_xor crc (byte * 2 ^ 24)))
  unfolding normal8_step
  normal8_step-times table crc byte holds lt hb =
      let h = bit_xor (crc / 2 ^ 24) byte in
      let below : h < 2 ^ 8 = bit_xor_bound 8 (crc / 2 ^ 24) byte (omega arith) (omega arith) in
      let entry = holds h below in
      let several = normal_several 8 24 h (crc % 2 ^ 24) (omega arith) below (omega arith) in
      let parts : bit_xor crc (byte * 2 ^ 24) ≡ h * 2 ^ 24 + crc % 2 ^ 24 = omega (
        arith,
        bit_xor_parts 24 crc (byte * 2 ^ 24) (crc / 2 ^ 24) (crc % 2 ^ 24) byte 0 (omega arith)
            (omega arith) (omega arith) (omega arith),
        bit_xor-zero (crc % 2 ^ 24),
      ) in
      let place : h * 2 ^ 32 / 2 ^ 8 ≡ h * 2 ^ 24 = omega arith in
      let shifted : shl32 crc 8 ≡ crc % 2 ^ 24 * 2 ^ 8 = omega arith in
      rw (entry, place, shifted, parts) (ap some (sym several))

  pub reflect4_step-times :
      (table : List ℕ) (crc : ℕ)
      → ReflectTable poly 4 table
      → crc < 2 ^ 32
      → reflect4_step table crc ≡ some (times 4 (reflect_bit poly) crc)
  unfolding reflect4_step
  reflect4_step-times table crc holds lt =
      let entry = holds (crc % 2 ^ 4) (omega arith) in
      let several = reflect_several 4 (crc / 2 ^ 4) (crc % 2 ^ 4) (omega arith) (omega arith) in
      let parts : crc / 2 ^ 4 * 2 ^ 4 + crc % 2 ^ 4 ≡ crc = omega arith in
      let whole = rw (parts) at several in rw (entry) (ap some (sym whole))

  pub reflect8_step-times :
      (table : List ℕ) (crc byte : ℕ)
      → ReflectTable poly 8 table
      → crc < 2 ^ 32
      → byte < 256
      → reflect8_step table crc byte ≡ some (times 8 (reflect_bit poly) (bit_xor crc byte))
  unfolding reflect8_step
  reflect8_step-times table crc byte holds lt hb =
      let l = bit_xor (crc % 2 ^ 8) byte in
      let below : l < 2 ^ 8 = bit_xor_bound 8 (crc % 2 ^ 8) byte (omega arith) (omega arith) in
      let entry = holds l below in
      let parts : bit_xor crc byte ≡ crc / 2 ^ 8 * 2 ^ 8 + l = omega (
        arith,
        bit_xor_parts 8 crc byte (crc / 2 ^ 8) (crc % 2 ^ 8) 0 byte (omega arith) (omega arith)
            (omega arith) (omega arith),
        bit_xor-zero (crc / 2 ^ 8),
      ) in
      let several = reflect_several 8 (crc / 2 ^ 8) l (omega arith) below in
      let index : bit_xor byte crc % 2 ^ 8 ≡ l =
        omega (arith, bit_xor_comm byte crc, parts, below) in
      rw (index, entry, parts) (ap some (sym several))
