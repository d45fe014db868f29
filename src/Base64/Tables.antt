-- ===== src/Base64/Tables.antt =====
-- The tables and the bit fields, in arithmetic.
use liblcb.Base.{ℕ, ◌+◌, ◌*◌, ◌/◌, ◌%◌, ◌<◌, ◌≡◌, ◌≢◌, refl, ap, arith, bit_and}
use liblcb.Base.Bits.{tables_agree, tables_agree-eq, bit_or-add}
use liblcb.Base64.{base64_tbl_coding, base64_tbl_decoding, symbol, value}
use liblcb.Base64.{index_2, index_3, index_4, byte_1, byte_2, byte_3}

-- Decoding a symbol gives its index.
pub value-symbol : (i : ℕ) → i < 64 → value (symbol i) ≡ i
unfolding tables_agree value symbol base64_tbl_coding base64_tbl_decoding
value-symbol i h = tables_agree-eq (λ i. value (symbol i)) (λ i. i) 64 i h refl

-- No symbol is the padding.
pub symbol-ne-pad : (i : ℕ) → i < 64 → symbol i ≢ b'='
unfolding tables_agree value symbol base64_tbl_coding base64_tbl_decoding
symbol-ne-pad i lt e = omega (arith, value-symbol i lt, ap value e)

pub mask_30 : (a : ℕ) → a < 256 → bit_and (a * 16) 0x30 ≡ a % 4 * 16
unfolding tables_agree
mask_30 i h = tables_agree-eq (λ a. bit_and (a * 16) 0x30) (λ a. a % 4 * 16) 256 i h refl

pub mask_3c : (b : ℕ) → b < 256 → bit_and (b * 4) 0x3c ≡ b % 16 * 4
unfolding tables_agree
mask_3c i h = tables_agree-eq (λ b. bit_and (b * 4) 0x3c) (λ b. b % 16 * 4) 256 i h refl

mask_0f : (b : ℕ) → b < 256 → bit_and (b / 16) 0x0f ≡ b / 16
unfolding tables_agree
mask_0f i h = tables_agree-eq (λ b. bit_and (b / 16) 0x0f) (λ b. b / 16) 256 i h refl

mask_03 : (c : ℕ) → c < 256 → bit_and (c / 64) 0x03 ≡ c / 64
unfolding tables_agree
mask_03 i h = tables_agree-eq (λ c. bit_and (c / 64) 0x03) (λ c. c / 64) 256 i h refl

pub index_2-eq : (a b : ℕ) → a < 256 → b < 256 → index_2 a b ≡ a % 4 * 16 + b / 16
index_2-eq a b ha hb = rw (mask_30 a ha, mask_0f b hb) (bit_or-add 4 (a % 4) (b / 16) (omega arith))

pub index_3-eq : (b c : ℕ) → b < 256 → c < 256 → index_3 b c ≡ b % 16 * 4 + c / 64
index_3-eq b c hb hc =
    rw (mask_3c b hb, mask_03 c hc) (bit_or-add 2 (b % 16) (c / 64) (omega arith))

pub index_4-eq : (c : ℕ) → c < 256 → index_4 c ≡ c % 64
unfolding tables_agree
index_4-eq i h = tables_agree-eq index_4 (λ c. c % 64) 256 i h refl

module _ (i j : ℕ) (hi : i < 64) (hj : j < 64) where
  pub byte_1-symbol : byte_1 (symbol i) (symbol j) ≡ (i * 4 + j / 16) % 256
  byte_1-symbol =
      rw (value-symbol i hi, value-symbol j hj, bit_or-add 2 i (j / 16) (omega arith)) refl

  pub byte_2-symbol : byte_2 (symbol i) (symbol j) ≡ (i * 16 + j / 4) % 256
  byte_2-symbol =
      rw (value-symbol i hi, value-symbol j hj, bit_or-add 4 i (j / 4) (omega arith)) refl

  pub byte_3-symbol : byte_3 (symbol i) (symbol j) ≡ (i * 64 + j) % 256
  byte_3-symbol = rw (value-symbol i hi, value-symbol j hj, bit_or-add 6 i j hj) refl
