-- ===== src/Ini.antt =====
-- src/utils/ini.c: INI files in memory.
pub mod Line
pub mod Text
pub mod Find
pub mod Set
mod Tests
