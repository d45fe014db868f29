-- ===== src/Crc32/Standards.antt =====
-- The tables of include/math/crc32.h hold the steps of their registers, checked entry by entry.
use liblcb.Base.{
  ℕ, suc, ◌*◌, ◌/◌, ◌<◌, ◌^◌, ◌≡◌, refl, ap, arith, Bool, true, List, get_elem?, Option, some, none,
}
use liblcb.Base.Bits.{tables_agree, tables_agree-eq}
use liblcb.Crc32.Register.{times, normal_bit, reflect_bit}
use liblcb.Crc32.Steps.{NormalTable, ReflectTable}
use liblcb.Crc32.Tables.{
  crc32_tbl256_04c11db7, crc32_tbl256_814141ab, crc32_tbl16_edb88320, crc32_tbl256_edb88320,
  crc32_tbl16_1edc6f41, crc32_tbl256_1edc6f41, crc32_tbl16_a833982b, crc32_tbl256_a833982b,
}

-- An entry as a number, 0 for none.
abbrev code : Option ℕ → ℕ
code none = 0
code (some x) = suc x

code-some : (o : Option ℕ) (x : ℕ) → code o ≡ suc x → o ≡ some x
code-some none x e = absurd (omega (arith, e))
code-some (some y) x e = ap some (omega (arith, e))

abbrev entries_agree : List ℕ → (ℕ → ℕ) → ℕ → Bool
entries_agree table f bound = tables_agree (λ i. code (get_elem? table i)) (λ i. suc (f i)) bound

entries_agree-eq :
    (table : List ℕ) (f : ℕ → ℕ) (bound i : ℕ)
    → entries_agree table f bound ≡ true
    → i < bound
    → get_elem? table i ≡ some (f i)
entries_agree-eq table f bound i ok below =
    code-some (get_elem? table i) (f i)
      (tables_agree-eq (λ i. code (get_elem? table i)) (λ i. suc (f i)) bound i below ok)

normal_table :
    (poly k : ℕ) (table : List ℕ)
    → entries_agree table (λ i. times k (normal_bit poly) (i * 2 ^ 32 / 2 ^ k)) (2 ^ k) ≡ true
    → NormalTable poly k table
normal_table poly k table ok i below =
    entries_agree-eq table (λ i. times k (normal_bit poly) (i * 2 ^ 32 / 2 ^ k)) (2 ^ k) i ok below

reflect_table :
    (poly k : ℕ) (table : List ℕ)
    → entries_agree table (times k (reflect_bit poly)) (2 ^ k) ≡ true
    → ReflectTable poly k table
reflect_table poly k table ok i below =
    entries_agree-eq table (times k (reflect_bit poly)) (2 ^ k) i ok below

pub bzip2_4 : NormalTable 0x04c1_1db7 4 crc32_tbl256_04c11db7
unfolding tables_agree normal_bit crc32_tbl256_04c11db7
bzip2_4 = normal_table 0x04c1_1db7 4 crc32_tbl256_04c11db7 refl

pub bzip2_8 : NormalTable 0x04c1_1db7 8 crc32_tbl256_04c11db7
unfolding tables_agree normal_bit crc32_tbl256_04c11db7
bzip2_8 = normal_table 0x04c1_1db7 8 crc32_tbl256_04c11db7 refl

pub aixm_4 : NormalTable 0x8141_41ab 4 crc32_tbl256_814141ab
unfolding tables_agree normal_bit crc32_tbl256_814141ab
aixm_4 = normal_table 0x8141_41ab 4 crc32_tbl256_814141ab refl

pub aixm_8 : NormalTable 0x8141_41ab 8 crc32_tbl256_814141ab
unfolding tables_agree normal_bit crc32_tbl256_814141ab
aixm_8 = normal_table 0x8141_41ab 8 crc32_tbl256_814141ab refl

pub iso_4 : ReflectTable 0xedb8_8320 4 crc32_tbl16_edb88320
unfolding tables_agree reflect_bit crc32_tbl16_edb88320
iso_4 = reflect_table 0xedb8_8320 4 crc32_tbl16_edb88320 refl

pub iso_8 : ReflectTable 0xedb8_8320 8 crc32_tbl256_edb88320
unfolding tables_agree reflect_bit crc32_tbl256_edb88320
iso_8 = reflect_table 0xedb8_8320 8 crc32_tbl256_edb88320 refl

pub iscsi_4 : ReflectTable 0x82f6_3b78 4 crc32_tbl16_1edc6f41
unfolding tables_agree reflect_bit crc32_tbl16_1edc6f41
iscsi_4 = reflect_table 0x82f6_3b78 4 crc32_tbl16_1edc6f41 refl

pub iscsi_8 : ReflectTable 0x82f6_3b78 8 crc32_tbl256_1edc6f41
unfolding tables_agree reflect_bit crc32_tbl256_1edc6f41
iscsi_8 = reflect_table 0x82f6_3b78 8 crc32_tbl256_1edc6f41 refl

pub base91_4 : ReflectTable 0xd419_cc15 4 crc32_tbl16_a833982b
unfolding tables_agree reflect_bit crc32_tbl16_a833982b
base91_4 = reflect_table 0xd419_cc15 4 crc32_tbl16_a833982b refl

pub base91_8 : ReflectTable 0xd419_cc15 8 crc32_tbl256_a833982b
unfolding tables_agree reflect_bit crc32_tbl256_a833982b
base91_8 = reflect_table 0xd419_cc15 8 crc32_tbl256_a833982b refl
