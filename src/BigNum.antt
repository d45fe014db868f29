-- ===== src/BigNum.antt =====
-- Big numbers, include/math/big_num.h, with 64-bit digits.
pub mod Value
pub mod Digits
pub mod Add
pub mod Sub
pub mod Mult
pub mod Number
pub mod Bytes
mod Tests
