-- ===== src/Crc32/Register.antt =====
-- The definition of a CRC that include/math/crc32.h refers to (http://ross.net/crc): a register of
-- 32 bits that takes the message bit by bit, independent of the tables.
use liblcb.Base.{ℕ, zero, suc, ◌*◌, ◌/◌, ◌%◌, ◌^◌, [], ◌∷◌, Bytes, ltb, ◌==◌, if◌then◌else◌}
use Prim.Native.Nat.{bit_xor}

abbrev pub times : ℕ → (ℕ → ℕ) → ℕ → ℕ
times zero f x = x
times (suc n) f x = times n f (f x)

-- One bit out at the top: if it was set, the polynomial is subtracted.
unfoldable pub normal_bit : ℕ → ℕ → ℕ
normal_bit poly crc = if ltb crc (2 ^ 31) then crc * 2 else bit_xor (crc * 2 % 2 ^ 32) poly

-- One bit out at the bottom.
unfoldable pub reflect_bit : ℕ → ℕ → ℕ
reflect_bit poly crc = if crc % 2 == 0 then crc / 2 else bit_xor (crc / 2) poly

-- Eight bits, from the top of the byte and from its bottom.
unfoldable pub normal_byte : ℕ → ℕ → ℕ → ℕ
normal_byte poly crc byte = times 8 (normal_bit poly) (bit_xor crc (byte * 2 ^ 24))

unfoldable pub reflect_byte : ℕ → ℕ → ℕ → ℕ
reflect_byte poly crc byte = times 8 (reflect_bit poly) (bit_xor crc byte)

abbrev pub register : (ℕ → ℕ → ℕ) → ℕ → Bytes → ℕ
register step crc [] = crc
register step crc (byte ∷ buf) = register step (step crc byte) buf

abbrev pub normal_register : ℕ → ℕ → Bytes → ℕ
normal_register poly crc bytes = register (normal_byte poly) crc bytes

abbrev pub reflect_register : ℕ → ℕ → Bytes → ℕ
reflect_register poly crc bytes = register (reflect_byte poly) crc bytes
