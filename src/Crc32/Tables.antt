-- ===== src/Crc32/Tables.antt =====
-- The lookup tables of include/math/crc32.h.
mod Normal
mod Reflect
unfoldable pub use Normal.{crc32_tbl256_04c11db7, crc32_tbl256_814141ab}
unfoldable pub use Reflect.{
  crc32_tbl16_edb88320, crc32_tbl256_edb88320, crc32_tbl16_1edc6f41, crc32_tbl256_1edc6f41,
}
unfoldable pub use Reflect.{crc32_tbl16_a833982b, crc32_tbl256_a833982b}
