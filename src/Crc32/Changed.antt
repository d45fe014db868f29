-- ===== src/Crc32/Changed.antt =====
-- One changed byte changes the value of every standard of include/math/crc32.h.
use liblcb.Base.{
  ℕ, ◌^◌, ◌<◌, ◌≡◌, ◌≢◌, refl, sym, ap, ◌∙◌, arith, [], ◌∷◌, ◌++◌, Option, some, none, Bytes, All,
  IsByte, All-append,
}
use liblcb.Crc32.Register.{register, normal_byte, reflect_byte}
use liblcb.Crc32.Detect.{normal_byte_crc, normal_byte_byte, reflect_byte_crc, reflect_byte_byte}
use liblcb.Crc32.Updates.{
  register-append, register_bound, normal_byte_bound, reflect_byte_bound, crc32a_update-register,
  crc32cksum_update-register, crc32mpeg2_update-register, crc32b_update-register,
  crc32jamcrc_update-register, crc32c_update-register, crc32d_update-register,
  crc32q_update-register,
}
use liblcb.Crc32.Update.{
  not32, crc32a_update, crc32cksum_update, crc32mpeg2_update, crc32b_update, crc32jamcrc_update,
  crc32c_update, crc32d_update, crc32q_update,
}

some_inj : {a b : ℕ} → some a ≡ some b → a ≡ b
some_inj {a} e = ap (λ o. elim o [ none ↦ a | some x ↦ x ]) e

-- A step that keeps to 32 bits and from whose value both its arguments can be told apart.
module _ (step : ℕ → ℕ → ℕ)
    (bounded : (crc byte : ℕ) → crc < 2 ^ 32 → IsByte byte → step crc byte < 2 ^ 32)
    (from_crc : (c d byte : ℕ)
      → c < 2 ^ 32
      → d < 2 ^ 32
      → byte < 256
      → step c byte ≡ step d byte
      → c ≡ d)
    (from_byte : (c x y : ℕ) → c < 2 ^ 32 → x < 256 → y < 256 → step c x ≡ step c y → x ≡ y) where
  register_crc :
      (c d : ℕ) (xs : Bytes)
      → c < 2 ^ 32
      → d < 2 ^ 32
      → All IsByte xs
      → register step c xs ≡ register step d xs
      → c ≡ d
  register_crc c d [] hc hd ok e = e
  register_crc c d (x ∷ xs) hc hd (b, ok) e =
      from_crc c d x hc hd b
        (register_crc (step c x) (step d x) xs (bounded c x hc b) (bounded d x hd b) ok e)

  register_byte :
      (c : ℕ) (xs ys : Bytes) (x y : ℕ)
      → c < 2 ^ 32
      → All IsByte xs
      → All IsByte ys
      → x < 256
      → y < 256
      → register step c (xs ++ x ∷ ys) ≡ register step c (xs ++ y ∷ ys)
      → x ≡ y
  register_byte c xs ys x y hc hxs hys hx hy e =
      let r = register step c xs in
      let hr : r < 2 ^ 32 = register_bound step bounded c xs hc hxs in
      from_byte r x y hr hx hy (
        register_crc (step r x) (step r y) ys (bounded r x hr hx) (bounded r y hr hy) hys
          (sym (register-append step c xs (x ∷ ys)) ∙ e ∙ register-append step c xs (y ∷ ys)))

  module _ (c : ℕ) (xs ys : Bytes) (x y : ℕ) (hc : c < 2 ^ 32) (hxs : All IsByte xs)
      (hys : All IsByte ys) (hx : x < 256) (hy : y < 256) (ne : x ≢ y)
      (update : ℕ → Bytes → Option ℕ) where
    told :
        ((c : ℕ) (b : Bytes) → c < 2 ^ 32 → All IsByte b → update c b ≡ some (register step c b))
        → update c (xs ++ x ∷ ys) ≢ update c (xs ++ y ∷ ys)
    told runs e = ne (
        register_byte c xs ys x y hc hxs hys hx hy (
          some_inj (
            sym (runs c (xs ++ x ∷ ys) hc (All-append IsByte xs (x ∷ ys) hxs (hx, hys)))
            ∙ e
            ∙ runs c (xs ++ y ∷ ys) hc (All-append IsByte xs (y ∷ ys) hxs (hy, hys)))))

    told_inverted :
        ((c : ℕ) (b : Bytes)
          → c < 2 ^ 32
          → All IsByte b
          → update c b ≡ some (not32 (register step (not32 c) b)))
        → update c (xs ++ x ∷ ys) ≢ update c (xs ++ y ∷ ys)
    told_inverted runs e =
        let hx' = All-append IsByte xs (x ∷ ys) hxs (hx, hys) in
        let hy' = All-append IsByte xs (y ∷ ys) hxs (hy, hys) in
        let same =
          some_inj (sym (runs c (xs ++ x ∷ ys) hc hx') ∙ e ∙ runs c (xs ++ y ∷ ys) hc hy') in
        let bx = register_bound step bounded (not32 c) (xs ++ x ∷ ys) (omega arith) hx' in
        let by' = register_bound step bounded (not32 c) (xs ++ y ∷ ys) (omega arith) hy' in
        ne (
          register_byte (not32 c) xs ys x y (omega arith) hxs hys hx hy
            (omega (arith, same, bx, by')))

-- For each standard, two messages that differ in exactly one byte, after any bytes `xs` and before
-- any bytes `ys`, give different values from the same 32-bit start: no error in a single byte goes
-- unnoticed, however long the message.
pub crc32_update_changed :
    (crc : ℕ) (xs ys : Bytes) (x y : ℕ)
    → crc < 2 ^ 32
    → All IsByte xs
    → All IsByte ys
    → x < 256
    → y < 256
    → x ≢ y
    → (crc32a_update crc (xs ++ x ∷ ys) ≢ crc32a_update crc (xs ++ y ∷ ys))
      × (crc32cksum_update crc (xs ++ x ∷ ys) ≢ crc32cksum_update crc (xs ++ y ∷ ys))
      × (crc32mpeg2_update crc (xs ++ x ∷ ys) ≢ crc32mpeg2_update crc (xs ++ y ∷ ys))
      × (crc32b_update crc (xs ++ x ∷ ys) ≢ crc32b_update crc (xs ++ y ∷ ys))
      × (crc32jamcrc_update crc (xs ++ x ∷ ys) ≢ crc32jamcrc_update crc (xs ++ y ∷ ys))
      × (crc32c_update crc (xs ++ x ∷ ys) ≢ crc32c_update crc (xs ++ y ∷ ys))
      × (crc32d_update crc (xs ++ x ∷ ys) ≢ crc32d_update crc (xs ++ y ∷ ys))
      × (crc32q_update crc (xs ++ x ∷ ys) ≢ crc32q_update crc (xs ++ y ∷ ys))
crc32_update_changed crc xs ys x y hc hxs hys hx hy ne = (
  told_inverted (normal_byte 0x04c1_1db7) (normal_byte_bound 0x04c1_1db7 (omega arith))
      (normal_byte_crc 0x04c1_1db7 (omega arith) refl)
      (normal_byte_byte 0x04c1_1db7 (omega arith) refl) crc xs ys x y hc hxs hys hx hy ne
      crc32a_update crc32a_update-register,
  told_inverted (normal_byte 0x04c1_1db7) (normal_byte_bound 0x04c1_1db7 (omega arith))
      (normal_byte_crc 0x04c1_1db7 (omega arith) refl)
      (normal_byte_byte 0x04c1_1db7 (omega arith) refl) crc xs ys x y hc hxs hys hx hy ne
      crc32cksum_update crc32cksum_update-register,
  told (normal_byte 0x04c1_1db7) (normal_byte_bound 0x04c1_1db7 (omega arith))
      (normal_byte_crc 0x04c1_1db7 (omega arith) refl)
      (normal_byte_byte 0x04c1_1db7 (omega arith) refl) crc xs ys x y hc hxs hys hx hy ne
      crc32mpeg2_update crc32mpeg2_update-register,
  told_inverted (reflect_byte 0xedb8_8320) (reflect_byte_bound 0xedb8_8320 (omega arith))
      (reflect_byte_crc 0xedb8_8320 (omega arith) (omega arith))
      (reflect_byte_byte 0xedb8_8320 (omega arith) (omega arith)) crc xs ys x y hc hxs hys hx hy ne
      crc32b_update crc32b_update-register,
  told (reflect_byte 0xedb8_8320) (reflect_byte_bound 0xedb8_8320 (omega arith))
      (reflect_byte_crc 0xedb8_8320 (omega arith) (omega arith))
      (reflect_byte_byte 0xedb8_8320 (omega arith) (omega arith)) crc xs ys x y hc hxs hys hx hy ne
      crc32jamcrc_update crc32jamcrc_update-register,
  told_inverted (reflect_byte 0x82f6_3b78) (reflect_byte_bound 0x82f6_3b78 (omega arith))
      (reflect_byte_crc 0x82f6_3b78 (omega arith) (omega arith))
      (reflect_byte_byte 0x82f6_3b78 (omega arith) (omega arith)) crc xs ys x y hc hxs hys hx hy ne
      crc32c_update crc32c_update-register,
  told_inverted (reflect_byte 0xd419_cc15) (reflect_byte_bound 0xd419_cc15 (omega arith))
      (reflect_byte_crc 0xd419_cc15 (omega arith) (omega arith))
      (reflect_byte_byte 0xd419_cc15 (omega arith) (omega arith)) crc xs ys x y hc hxs hys hx hy ne
      crc32d_update crc32d_update-register,
  told (normal_byte 0x8141_41ab) (normal_byte_bound 0x8141_41ab (omega arith))
      (normal_byte_crc 0x8141_41ab (omega arith) refl)
      (normal_byte_byte 0x8141_41ab (omega arith) refl) crc xs ys x y hc hxs hys hx hy ne
      crc32q_update crc32q_update-register,
)
