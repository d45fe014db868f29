-- ===== src/Crc32/Loops.antt =====
-- The loops of include/math/crc32.h run the register, for tables that hold the register's steps.
use liblcb.Base.{
  ℕ, ◌*◌, ◌^◌, ◌<◌, ◌≡◌, refl, arith, List, [], ◌∷◌, some, Bytes, All, IsByte, length, ltb, if_rule,
}
use Prim.Native.Nat.{bit_xor}
use liblcb.Base.Xor.{bit_xor_bound}
use liblcb.Crc32.Register.{
  times, normal_byte, reflect_byte, normal_bit, reflect_bit, normal_register, reflect_register,
}
use liblcb.Crc32.Linear.{times-Bounded, normal_bit-Bounded, reflect_bit-Bounded}
use liblcb.Crc32.Update.{
  shl32, crc32_normal4, crc32_normal8, crc32_normal, crc32_reflect4, crc32_reflect8, crc32_reflect,
  crc32_small_tbl_limit,
}
use liblcb.Crc32.Steps.{
  NormalTable, ReflectTable, normal4_step-times, normal8_step-times, reflect4_step-times,
  reflect8_step-times,
}

module _ (poly : ℕ) (fits : poly < 2 ^ 32) where
  module _ (table : List ℕ) where
    crc32_normal4-register :
        (crc : ℕ) (buf : Bytes)
        → NormalTable poly 4 table
        → crc < 2 ^ 32
        → All IsByte buf
        → crc32_normal4 table crc buf ≡ some (normal_register poly crc buf)
    unfolding crc32_normal4 normal_byte
    crc32_normal4-register crc [] holds lt bytes = refl
    crc32_normal4-register crc (byte ∷ buf) holds lt (b, bytes) =
        let x = bit_xor crc (byte * 2 ^ 24) in
        let small : x < 2 ^ 32 = bit_xor_bound 32 crc (byte * 2 ^ 24) lt (omega arith) in
        let bounded = times-Bounded (normal_bit poly) (normal_bit-Bounded poly fits) in
        let shifted : shl32 byte 24 ≡ byte * 2 ^ 24 = omega arith in
        rw
          (
            crc32_normal4,
            shifted,
            normal4_step-times poly fits table x holds small,
            normal4_step-times poly fits table (times 4 (normal_bit poly) x) holds
                (bounded 4 x small),
          )
          (crc32_normal4-register (times 8 (normal_bit poly) x) buf holds (bounded 8 x small) bytes)

    crc32_normal8-register :
        (crc : ℕ) (buf : Bytes)
        → NormalTable poly 8 table
        → crc < 2 ^ 32
        → All IsByte buf
        → crc32_normal8 table crc buf ≡ some (normal_register poly crc buf)
    unfolding crc32_normal8 normal_byte
    crc32_normal8-register crc [] holds lt bytes = refl
    crc32_normal8-register crc (byte ∷ buf) holds lt (b, bytes) =
        let x = bit_xor crc (byte * 2 ^ 24) in
        let small : x < 2 ^ 32 = bit_xor_bound 32 crc (byte * 2 ^ 24) lt (omega arith) in
        let bounded = times-Bounded (normal_bit poly) (normal_bit-Bounded poly fits) 8 x small in
        rw (normal8_step-times poly fits table crc byte holds lt b)
          (crc32_normal8-register (times 8 (normal_bit poly) x) buf holds bounded bytes)

    crc32_reflect4-register :
        (crc : ℕ) (buf : Bytes)
        → ReflectTable poly 4 table
        → crc < 2 ^ 32
        → All IsByte buf
        → crc32_reflect4 table crc buf ≡ some (reflect_register poly crc buf)
    unfolding crc32_reflect4 reflect_byte
    crc32_reflect4-register crc [] holds lt bytes = refl
    crc32_reflect4-register crc (byte ∷ buf) holds lt (b, bytes) =
        let x = bit_xor crc byte in
        let small : x < 2 ^ 32 = bit_xor_bound 32 crc byte lt (omega arith) in
        let bounded = times-Bounded (reflect_bit poly) (reflect_bit-Bounded poly fits) in
        rw
          (
            crc32_reflect4,
            reflect4_step-times poly fits table x holds small,
            reflect4_step-times poly fits table (times 4 (reflect_bit poly) x) holds
                (bounded 4 x small),
          )
          (crc32_reflect4-register (times 8 (reflect_bit poly) x) buf holds (bounded 8 x small)
            bytes)

    crc32_reflect8-register :
        (crc : ℕ) (buf : Bytes)
        → ReflectTable poly 8 table
        → crc < 2 ^ 32
        → All IsByte buf
        → crc32_reflect8 table crc buf ≡ some (reflect_register poly crc buf)
    unfolding crc32_reflect8 reflect_byte
    crc32_reflect8-register crc [] holds lt bytes = refl
    crc32_reflect8-register crc (byte ∷ buf) holds lt (b, bytes) =
        let x = bit_xor crc byte in
        let small : x < 2 ^ 32 = bit_xor_bound 32 crc byte lt (omega arith) in
        let bounded = times-Bounded (reflect_bit poly) (reflect_bit-Bounded poly fits) 8 x small in
        rw (reflect8_step-times poly fits table crc byte holds lt b)
          (crc32_reflect8-register (times 8 (reflect_bit poly) x) buf holds bounded bytes)

  -- Either loop may be taken.
  pub crc32_normal-register :
      (table : List ℕ) (crc : ℕ) (buf : Bytes)
      → NormalTable poly 4 table
      → NormalTable poly 8 table
      → crc < 2 ^ 32
      → All IsByte buf
      → crc32_normal table crc buf ≡ some (normal_register poly crc buf)
  unfolding crc32_normal
  crc32_normal-register table crc buf holds4 holds8 lt bytes =
      if_rule (λ r. r ≡ some (normal_register poly crc buf))
        (ltb (length buf) crc32_small_tbl_limit) (crc32_normal4 table crc buf)
        (crc32_normal8 table crc buf) (crc32_normal4-register table crc buf holds4 lt bytes)
        (crc32_normal8-register table crc buf holds8 lt bytes)

  pub crc32_reflect-register :
      (table256 table16 : List ℕ) (crc : ℕ) (buf : Bytes)
      → ReflectTable poly 8 table256
      → ReflectTable poly 4 table16
      → crc < 2 ^ 32
      → All IsByte buf
      → crc32_reflect table256 (some table16) crc buf ≡ some (reflect_register poly crc buf)
  unfolding crc32_reflect
  crc32_reflect-register table256 table16 crc buf holds8 holds4 lt bytes =
      if_rule (λ r. r ≡ some (reflect_register poly crc buf))
        (ltb (length buf) crc32_small_tbl_limit) (crc32_reflect4 table16 crc buf)
        (crc32_reflect8 table256 crc buf) (crc32_reflect4-register table16 crc buf holds4 lt bytes)
        (crc32_reflect8-register table256 crc buf holds8 lt bytes)
