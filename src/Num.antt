-- ===== src/Num.antt =====
-- Numbers and their texts: include/utils/num2str.h (`Format`), include/utils/str2num.h (`Parse`)
-- and include/utils/strh2num.h (`Hex`).
pub mod Decimal
pub mod Format
pub mod Parse
pub mod Hex
mod Tests
