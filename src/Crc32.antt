-- ===== src/Crc32.antt =====
-- CRC-32, include/math/crc32.h: the tables, the byte loops, and the functions of each standard.
pub mod Tables
pub mod Update
pub mod Register
pub mod Linear
pub mod Steps
pub mod Loops
pub mod Standards
pub mod Updates
pub mod Detect
pub mod Changed
mod Tests
