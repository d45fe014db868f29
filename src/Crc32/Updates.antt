-- ===== src/Crc32/Updates.antt =====
-- Each standard's update in include/math/crc32.h runs its register, whichever loop and table it
-- takes, and can be cut anywhere.
use liblcb.Base.{
  ℕ, ◌*◌, ◌^◌, ◌<◌, ◌≡◌, refl, ap, arith, [], ◌∷◌, ◌++◌, Option, some, ◌>>=◌, Bytes, All, IsByte,
  All-append,
}
use Prim.Native.Nat.{bit_xor}
use liblcb.Base.Xor.{bit_xor_bound}
use liblcb.Crc32.Register.{
  register, normal_byte, reflect_byte, normal_bit, reflect_bit, normal_register, reflect_register,
}
use liblcb.Crc32.Linear.{times-Bounded, normal_bit-Bounded, reflect_bit-Bounded}
use liblcb.Crc32.Loops.{crc32_normal-register, crc32_reflect-register}
use liblcb.Crc32.Standards.{
  bzip2_4, bzip2_8, aixm_4, aixm_8, iso_4, iso_8, iscsi_4, iscsi_8, base91_4, base91_8,
}
use liblcb.Crc32.Tables.{
  crc32_tbl256_04c11db7, crc32_tbl256_814141ab, crc32_tbl16_edb88320, crc32_tbl256_edb88320,
  crc32_tbl16_1edc6f41, crc32_tbl256_1edc6f41, crc32_tbl16_a833982b, crc32_tbl256_a833982b,
}
use liblcb.Crc32.Update.{
  not32, not_result, crc32a_update, crc32cksum_update, crc32mpeg2_update, crc32b_update,
  crc32jamcrc_update, crc32c_update, crc32d_update, crc32q_update,
}

module _ (crc : ℕ) (bytes : Bytes) (lt : crc < 2 ^ 32) (ok : All IsByte bytes) where
  pub crc32a_update-register :
      crc32a_update crc bytes ≡ some (not32 (normal_register 0x04c1_1db7 (not32 crc) bytes))
  unfolding crc32a_update
  crc32a_update-register = ap not_result (
      crc32_normal-register 0x04c1_1db7 (omega arith) crc32_tbl256_04c11db7 (not32 crc) bytes
        bzip2_4 bzip2_8 (omega arith) ok)

  pub crc32cksum_update-register :
      crc32cksum_update crc bytes ≡ some (not32 (normal_register 0x04c1_1db7 (not32 crc) bytes))
  unfolding crc32cksum_update
  crc32cksum_update-register = ap not_result (
      crc32_normal-register 0x04c1_1db7 (omega arith) crc32_tbl256_04c11db7 (not32 crc) bytes
        bzip2_4 bzip2_8 (omega arith) ok)

  pub crc32mpeg2_update-register :
      crc32mpeg2_update crc bytes ≡ some (normal_register 0x04c1_1db7 crc bytes)
  unfolding crc32mpeg2_update
  crc32mpeg2_update-register =
      crc32_normal-register 0x04c1_1db7 (omega arith) crc32_tbl256_04c11db7 crc bytes bzip2_4
        bzip2_8 lt ok

  pub crc32b_update-register :
      crc32b_update crc bytes ≡ some (not32 (reflect_register 0xedb8_8320 (not32 crc) bytes))
  unfolding crc32b_update
  crc32b_update-register = ap not_result (
      crc32_reflect-register 0xedb8_8320 (omega arith) crc32_tbl256_edb88320 crc32_tbl16_edb88320
        (not32 crc) bytes iso_8 iso_4 (omega arith) ok)

  pub crc32jamcrc_update-register :
      crc32jamcrc_update crc bytes ≡ some (reflect_register 0xedb8_8320 crc bytes)
  unfolding crc32jamcrc_update
  crc32jamcrc_update-register =
      crc32_reflect-register 0xedb8_8320 (omega arith) crc32_tbl256_edb88320 crc32_tbl16_edb88320
        crc bytes iso_8 iso_4 lt ok

  pub crc32c_update-register :
      crc32c_update crc bytes ≡ some (not32 (reflect_register 0x82f6_3b78 (not32 crc) bytes))
  unfolding crc32c_update
  crc32c_update-register = ap not_result (
      crc32_reflect-register 0x82f6_3b78 (omega arith) crc32_tbl256_1edc6f41 crc32_tbl16_1edc6f41
        (not32 crc) bytes iscsi_8 iscsi_4 (omega arith) ok)

  pub crc32d_update-register :
      crc32d_update crc bytes ≡ some (not32 (reflect_register 0xd419_cc15 (not32 crc) bytes))
  unfolding crc32d_update
  crc32d_update-register = ap not_result (
      crc32_reflect-register 0xd419_cc15 (omega arith) crc32_tbl256_a833982b crc32_tbl16_a833982b
        (not32 crc) bytes base91_8 base91_4 (omega arith) ok)

  pub crc32q_update-register :
      crc32q_update crc bytes ≡ some (normal_register 0x8141_41ab crc bytes)
  unfolding crc32q_update
  crc32q_update-register =
      crc32_normal-register 0x8141_41ab (omega arith) crc32_tbl256_814141ab crc bytes aixm_4 aixm_8
        lt ok

-- For a 32-bit register and any bytes, each update gives what the bitwise register of its polynomial
-- gives, with the inversions of its standard: no read is outside a table, and the short loop with
-- its 16 entries and the long one with 256 agree.
pub crc32_update-register :
    (crc : ℕ) (bytes : Bytes)
    → crc < 2 ^ 32
    → All IsByte bytes
    → (crc32a_update crc bytes ≡ some (not32 (normal_register 0x04c1_1db7 (not32 crc) bytes)))
      × (crc32cksum_update crc bytes ≡ some (not32 (normal_register 0x04c1_1db7 (not32 crc) bytes)))
      × (crc32mpeg2_update crc bytes ≡ some (normal_register 0x04c1_1db7 crc bytes))
      × (crc32b_update crc bytes ≡ some (not32 (reflect_register 0xedb8_8320 (not32 crc) bytes)))
      × (crc32jamcrc_update crc bytes ≡ some (reflect_register 0xedb8_8320 crc bytes))
      × (crc32c_update crc bytes ≡ some (not32 (reflect_register 0x82f6_3b78 (not32 crc) bytes)))
      × (crc32d_update crc bytes ≡ some (not32 (reflect_register 0xd419_cc15 (not32 crc) bytes)))
      × (crc32q_update crc bytes ≡ some (normal_register 0x8141_41ab crc bytes))
crc32_update-register crc bytes lt ok = (
  crc32a_update-register crc bytes lt ok,
  crc32cksum_update-register crc bytes lt ok,
  crc32mpeg2_update-register crc bytes lt ok,
  crc32b_update-register crc bytes lt ok,
  crc32jamcrc_update-register crc bytes lt ok,
  crc32c_update-register crc bytes lt ok,
  crc32d_update-register crc bytes lt ok,
  crc32q_update-register crc bytes lt ok,
)

module _ (step : ℕ → ℕ → ℕ) where
  pub register-append :
      (crc : ℕ) (xs ys : Bytes)
      → register step crc (xs ++ ys) ≡ register step (register step crc xs) ys
  register-append crc [] ys = refl
  register-append crc (x ∷ xs) ys = register-append (step crc x) xs ys

  -- A step that keeps to 32 bits.
  module _ (bounded : (crc byte : ℕ) → crc < 2 ^ 32 → IsByte byte → step crc byte < 2 ^ 32) where
    pub register_bound :
        (crc : ℕ) (xs : Bytes) → crc < 2 ^ 32 → All IsByte xs → register step crc xs < 2 ^ 32
    register_bound crc [] lt ok = lt
    register_bound crc (x ∷ xs) lt (b, ok) = register_bound (step crc x) xs (bounded crc x lt b) ok

    -- An update that runs the register, or runs it between two inversions.
    cut :
        (update : ℕ → Bytes → Option ℕ) (crc : ℕ) (xs ys : Bytes)
        → ((c : ℕ) (b : Bytes) → c < 2 ^ 32 → All IsByte b → update c b ≡ some (register step c b))
        → crc < 2 ^ 32
        → All IsByte xs
        → All IsByte ys
        → update crc (xs ++ ys) ≡ update crc xs >>= (λ c. update c ys)
    cut update crc xs ys runs lt hx hy =
        rw
          (
            runs crc (xs ++ ys) lt (All-append IsByte xs ys hx hy),
            runs crc xs lt hx,
            runs (register step crc xs) ys (register_bound crc xs lt hx) hy,
          )
          (ap some (register-append crc xs ys))

    cut_inverted :
        (update : ℕ → Bytes → Option ℕ) (crc : ℕ) (xs ys : Bytes)
        → ((c : ℕ) (b : Bytes)
            → c < 2 ^ 32
            → All IsByte b
            → update c b ≡ some (not32 (register step (not32 c) b)))
        → crc < 2 ^ 32
        → All IsByte xs
        → All IsByte ys
        → update crc (xs ++ ys) ≡ update crc xs >>= (λ c. update c ys)
    cut_inverted update crc xs ys runs lt hx hy =
        let r = register step (not32 crc) xs in
        let bound : r < 2 ^ 32 = register_bound (not32 crc) xs (omega arith) hx in
        let back : not32 (not32 r) ≡ r = omega arith in
        rw
          (
            runs crc (xs ++ ys) lt (All-append IsByte xs ys hx hy),
            runs crc xs lt hx,
            runs (not32 r) ys (omega arith) hy,
            back,
          )
          (ap (λ c. some (not32 c)) (register-append (not32 crc) xs ys))

module _ (poly : ℕ) (fits : poly < 2 ^ 32) where
  pub normal_byte_bound :
      (crc byte : ℕ) → crc < 2 ^ 32 → IsByte byte → normal_byte poly crc byte < 2 ^ 32
  unfolding normal_byte
  normal_byte_bound crc byte lt b =
      times-Bounded (normal_bit poly) (normal_bit-Bounded poly fits) 8 (bit_xor crc (byte * 2 ^ 24))
        (bit_xor_bound 32 crc (byte * 2 ^ 24) lt (omega arith))

  pub reflect_byte_bound :
      (crc byte : ℕ) → crc < 2 ^ 32 → IsByte byte → reflect_byte poly crc byte < 2 ^ 32
  unfolding reflect_byte
  reflect_byte_bound crc byte lt b =
      times-Bounded (reflect_bit poly) (reflect_bit-Bounded poly fits) 8 (bit_xor crc byte)
        (bit_xor_bound 32 crc byte lt (omega arith))

-- For each standard, a message may be handed over in parts: the update of a 32-bit value with the
-- first part, then with the second, is the update with both at once, also where the lengths of the
-- parts and of the whole pick different loops.
crc32_update-append :
    (crc : ℕ) (xs ys : Bytes)
    → crc < 2 ^ 32
    → All IsByte xs
    → All IsByte ys
    → (crc32a_update crc (xs ++ ys) ≡ crc32a_update crc xs >>= (λ c. crc32a_update c ys))
      × (crc32cksum_update crc (xs ++ ys)
          ≡ crc32cksum_update crc xs >>= (λ c. crc32cksum_update c ys))
      × (crc32mpeg2_update crc (xs ++ ys)
          ≡ crc32mpeg2_update crc xs >>= (λ c. crc32mpeg2_update c ys))
      × (crc32b_update crc (xs ++ ys) ≡ crc32b_update crc xs >>= (λ c. crc32b_update c ys))
      × (crc32jamcrc_update crc (xs ++ ys)
          ≡ crc32jamcrc_update crc xs >>= (λ c. crc32jamcrc_update c ys))
      × (crc32c_update crc (xs ++ ys) ≡ crc32c_update crc xs >>= (λ c. crc32c_update c ys))
      × (crc32d_update crc (xs ++ ys) ≡ crc32d_update crc xs >>= (λ c. crc32d_update c ys))
      × (crc32q_update crc (xs ++ ys) ≡ crc32q_update crc xs >>= (λ c. crc32q_update c ys))
crc32_update-append crc xs ys lt hx hy = (
  cut_inverted (normal_byte 0x04c1_1db7) (normal_byte_bound 0x04c1_1db7 (omega arith)) crc32a_update
      crc xs ys crc32a_update-register lt hx hy,
  cut_inverted (normal_byte 0x04c1_1db7) (normal_byte_bound 0x04c1_1db7 (omega arith))
      crc32cksum_update crc xs ys crc32cksum_update-register lt hx hy,
  cut (normal_byte 0x04c1_1db7) (normal_byte_bound 0x04c1_1db7 (omega arith)) crc32mpeg2_update crc
      xs ys crc32mpeg2_update-register lt hx hy,
  cut_inverted (reflect_byte 0xedb8_8320) (reflect_byte_bound 0xedb8_8320 (omega arith))
      crc32b_update crc xs ys crc32b_update-register lt hx hy,
  cut (reflect_byte 0xedb8_8320) (reflect_byte_bound 0xedb8_8320 (omega arith)) crc32jamcrc_update
      crc xs ys crc32jamcrc_update-register lt hx hy,
  cut_inverted (reflect_byte 0x82f6_3b78) (reflect_byte_bound 0x82f6_3b78 (omega arith))
      crc32c_update crc xs ys crc32c_update-register lt hx hy,
  cut_inverted (reflect_byte 0xd419_cc15) (reflect_byte_bound 0xd419_cc15 (omega arith))
      crc32d_update crc xs ys crc32d_update-register lt hx hy,
  cut (normal_byte 0x8141_41ab) (normal_byte_bound 0x8141_41ab (omega arith)) crc32q_update crc xs
      ys crc32q_update-register lt hx hy,
)
