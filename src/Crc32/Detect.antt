-- ===== src/Crc32/Detect.antt =====
-- The register of include/math/crc32.h forgets nothing: from what a byte makes of it, the value
-- before the byte and the byte can be told.
use liblcb.Base.{ℕ, zero, suc, ◌-◌, ◌*◌, ◌/◌, ◌%◌, ◌^◌, ◌≤◌, ◌<◌, ◌≡◌, ◌≢◌, sym, ◌∙◌, arith}
use Prim.Native.Nat.{bit_xor}
use liblcb.Base.Xor.{
  bit_xor_bound, bit_xor_cancel, bit_xor_comm, bit_xor_parity, bit_xor_parts, bit_xor-zero,
}
use liblcb.Crc32.Register.{times, normal_byte, reflect_byte, normal_bit, reflect_bit}
use liblcb.Crc32.Linear.{
  Bounded, feed, normal_bit-feed, reflect_bit-feed, normal_bit-Bounded, reflect_bit-Bounded,
}

abbrev Injective : (ℕ → ℕ) → Type 0
Injective f = (x y : ℕ) → x < 2 ^ 32 → y < 2 ^ 32 → f x ≡ f y → x ≡ y

times-Injective : (f : ℕ → ℕ) → Bounded f → Injective f → (n : ℕ) → Injective (times n f)
times-Injective f bounded inj zero x y hx hy e = e
times-Injective f bounded inj (suc n) x y hx hy e =
    inj x y hx hy (times-Injective f bounded inj n (f x) (f y) (bounded x hx) (bounded y hy) e)

-- The value shows whether the polynomial went in.
fed :
    (poly a b p q : ℕ)
    → p < 2
    → q < 2
    → (bit_xor a poly ≢ b)
    → (bit_xor b poly ≢ a)
    → bit_xor a (feed p poly) ≡ bit_xor b (feed q poly)
    → (p ≡ q) × (a ≡ b)
unfolding feed
fed poly a b zero zero hp hq na nb e = (omega arith, bit_xor_cancel a b 0 e)
fed poly a b zero (suc zero) hp hq na nb e = absurd (nb (sym e ∙ bit_xor-zero a))
fed poly a b (suc zero) zero hp hq na nb e = absurd (na (e ∙ bit_xor-zero b))
fed poly a b (suc zero) (suc zero) hp hq na nb e = (omega arith, bit_xor_cancel a b poly e)
fed poly a b (suc (suc p)) q hp hq na nb e = absurd (omega arith)
fed poly a b p (suc (suc q)) hp hq na nb e = absurd (omega arith)

module _ (poly : ℕ) (fits : poly < 2 ^ 32) where
  odd_differs : poly % 2 ≡ 1 → (a b : ℕ) → bit_xor (a * 2 % 2 ^ 32) poly ≢ b * 2 % 2 ^ 32
  odd_differs odd a b e = omega (arith, bit_xor_parity (a * 2 % 2 ^ 32) poly, e)

  normal_bit-Injective : poly % 2 ≡ 1 → Injective (normal_bit poly)
  normal_bit-Injective odd x y hx hy e =
      let (out, rest) =
        fed poly (x * 2 % 2 ^ 32) (y * 2 % 2 ^ 32) (x / 2 ^ 31) (y / 2 ^ 31) (omega arith)
          (omega arith) (odd_differs odd x y) (odd_differs odd y x)
          (sym (normal_bit-feed poly x hx) ∙ e ∙ normal_bit-feed poly y hy) in
      omega (arith, out, rest)

  high_differs : 2 ^ 31 ≤ poly → (a b : ℕ) → a < 2 ^ 32 → b < 2 ^ 32 → bit_xor (a / 2) poly ≢ b / 2
  high_differs high a b ha hb e = omega (
    arith,
    bit_xor_parts 31 (a / 2) poly 0 (a / 2) 1 (poly - 2 ^ 31) (omega arith) (omega arith)
        (omega arith) (omega arith),
    bit_xor_parity 0 1,
    e,
  )

  reflect_bit-Injective : 2 ^ 31 ≤ poly → Injective (reflect_bit poly)
  reflect_bit-Injective high x y hx hy e =
      let (out, rest) =
        fed poly (x / 2) (y / 2) (x % 2) (y % 2) (omega arith) (omega arith)
          (high_differs high x y hx hy) (high_differs high y x hy hx)
          (sym (reflect_bit-feed poly x) ∙ e ∙ reflect_bit-feed poly y) in
      omega (arith, out, rest)

  pub normal_byte_crc :
      poly % 2 ≡ 1
      → (c d byte : ℕ) → c < 2 ^ 32
      → d < 2 ^ 32
      → byte < 256
      → normal_byte poly c byte ≡ normal_byte poly d byte
      → c ≡ d
  unfolding normal_byte
  normal_byte_crc odd c d byte hc hd hb e = bit_xor_cancel c d (byte * 2 ^ 24) (
      times-Injective (normal_bit poly) (normal_bit-Bounded poly fits) (normal_bit-Injective odd) 8
        (bit_xor c (byte * 2 ^ 24)) (bit_xor d (byte * 2 ^ 24))
        (bit_xor_bound 32 c (byte * 2 ^ 24) hc (omega arith))
        (bit_xor_bound 32 d (byte * 2 ^ 24) hd (omega arith)) e)

  pub normal_byte_byte :
      poly % 2 ≡ 1
      → (c x y : ℕ) → c < 2 ^ 32
      → x < 256
      → y < 256
      → normal_byte poly c x ≡ normal_byte poly c y
      → x ≡ y
  unfolding normal_byte
  normal_byte_byte odd c x y hc hx hy e =
      let same =
        times-Injective (normal_bit poly) (normal_bit-Bounded poly fits) (normal_bit-Injective odd)
          8 (bit_xor c (x * 2 ^ 24)) (bit_xor c (y * 2 ^ 24))
          (bit_xor_bound 32 c (x * 2 ^ 24) hc (omega arith))
          (bit_xor_bound 32 c (y * 2 ^ 24) hc (omega arith)) e in
      let shifted =
        bit_xor_cancel (x * 2 ^ 24) (y * 2 ^ 24) c
          (bit_xor_comm (x * 2 ^ 24) c ∙ same ∙ bit_xor_comm c (y * 2 ^ 24)) in
      omega (arith, shifted)

  pub reflect_byte_crc :
      2 ^ 31 ≤ poly
      → (c d byte : ℕ) → c < 2 ^ 32
      → d < 2 ^ 32
      → byte < 256
      → reflect_byte poly c byte ≡ reflect_byte poly d byte
      → c ≡ d
  unfolding reflect_byte
  reflect_byte_crc high c d byte hc hd hb e = bit_xor_cancel c d byte (
      times-Injective (reflect_bit poly) (reflect_bit-Bounded poly fits)
        (reflect_bit-Injective high) 8 (bit_xor c byte) (bit_xor d byte)
        (bit_xor_bound 32 c byte hc (omega arith)) (bit_xor_bound 32 d byte hd (omega arith)) e)

  pub reflect_byte_byte :
      2 ^ 31 ≤ poly
      → (c x y : ℕ) → c < 2 ^ 32
      → x < 256
      → y < 256
      → reflect_byte poly c x ≡ reflect_byte poly c y
      → x ≡ y
  unfolding reflect_byte
  reflect_byte_byte high c x y hc hx hy e =
      let same =
        times-Injective (reflect_bit poly) (reflect_bit-Bounded poly fits)
          (reflect_bit-Injective high) 8 (bit_xor c x) (bit_xor c y)
          (bit_xor_bound 32 c x hc (omega arith)) (bit_xor_bound 32 c y hc (omega arith)) e in
      bit_xor_cancel x y c (bit_xor_comm x c ∙ same ∙ bit_xor_comm c y)
