-- ===== src/Crc32/Linear.antt =====
-- A step of the register is linear for exclusive or, so several steps are a shift and a table.
use liblcb.Base.{
  lt→ltb, le→ltb, ℕ, zero, suc, ◌+◌, ◌*◌, ◌/◌, ◌%◌, ◌^◌, ◌<◌, ◌≡◌, refl, sym, ap, ◌∙◌, arith,
}
use Prim.Native.Nat.{bit_xor}
use liblcb.Base.Xor.{
  zero-bit_xor, bit_xor-zero, bit_xor_bound, bit_xor_swap, bit_xor_self, bit_xor_parity,
  bit_xor_parts, bit_xor_shift, bit_xor_step,
}
use liblcb.Crc32.Register.{times, normal_bit, reflect_bit}

abbrev pub Bounded : (ℕ → ℕ) → Type 0
Bounded f = (x : ℕ) → x < 2 ^ 32 → f x < 2 ^ 32

abbrev pub Linear : (ℕ → ℕ) → Type 0
Linear f = (x y : ℕ) → x < 2 ^ 32 → y < 2 ^ 32 → f (bit_xor x y) ≡ bit_xor (f x) (f y)

module _ (f : ℕ → ℕ) (bounded : Bounded f) where
  pub times-Bounded : (n : ℕ) → Bounded (times n f)
  times-Bounded zero x lt = lt
  times-Bounded (suc n) x lt = times-Bounded n (f x) (bounded x lt)

  pub times-Linear : Linear f → (n : ℕ) → Linear (times n f)
  times-Linear linear zero x y hx hy = refl
  times-Linear linear (suc n) x y hx hy =
      ap (times n f) (linear x y hx hy)
      ∙ times-Linear linear n (f x) (f y) (bounded x hx) (bounded y hy)

-- The polynomial comes in where one of the two bits out is set, not where both are.
unfoldable pub feed : ℕ → ℕ → ℕ
feed zero poly = 0
feed (suc out) poly = poly

feed-bit_xor :
    (poly p q : ℕ) → p < 2 → q < 2 → bit_xor (feed p poly) (feed q poly) ≡ feed ((p + q) % 2) poly
unfolding feed
feed-bit_xor poly zero zero hp hq = zero-bit_xor 0
feed-bit_xor poly zero (suc zero) hp hq = zero-bit_xor poly
feed-bit_xor poly (suc zero) zero hp hq = bit_xor-zero poly
feed-bit_xor poly (suc zero) (suc zero) hp hq = bit_xor_self poly
feed-bit_xor poly (suc (suc p)) q hp hq = absurd (omega arith)
feed-bit_xor poly p (suc (suc q)) hp hq = absurd (omega arith)

feed_bound : (poly p : ℕ) → poly < 2 ^ 32 → feed p poly < 2 ^ 32
unfolding feed
feed_bound poly zero lt = omega arith
feed_bound poly (suc p) lt = lt

normal_bit_out :
    (poly x out : ℕ)
    → x / 2 ^ 31 ≡ out
    → x < 2 ^ 32
    → normal_bit poly x ≡ bit_xor (x * 2 % 2 ^ 32) (feed out poly)
unfolding normal_bit feed
normal_bit_out poly x zero e lt =
    rw (lt→ltb x (2 ^ 31) (omega arith), bit_xor-zero (x * 2 % 2 ^ 32)) (omega arith)
normal_bit_out poly x (suc zero) e lt = rw (le→ltb x (2 ^ 31) (omega arith)) refl
normal_bit_out poly x (suc (suc out)) e lt = absurd (omega arith)

pub normal_bit-feed :
    (poly x : ℕ)
    → x < 2 ^ 32
    → normal_bit poly x ≡ bit_xor (x * 2 % 2 ^ 32) (feed (x / 2 ^ 31) poly)
normal_bit-feed poly x lt = normal_bit_out poly x (x / 2 ^ 31) refl lt

reflect_bit_out :
    (poly x out : ℕ) → x % 2 ≡ out → reflect_bit poly x ≡ bit_xor (x / 2) (feed out poly)
unfolding reflect_bit feed
reflect_bit_out poly x zero e = rw (e, bit_xor-zero (x / 2)) refl
reflect_bit_out poly x (suc zero) e = rw (e) refl
reflect_bit_out poly x (suc (suc out)) e = absurd (omega arith)

pub reflect_bit-feed : (poly x : ℕ) → reflect_bit poly x ≡ bit_xor (x / 2) (feed (x % 2) poly)
reflect_bit-feed poly x = reflect_bit_out poly x (x % 2) refl

module _ (poly : ℕ) (fits : poly < 2 ^ 32) where
  pub normal_bit-Bounded : Bounded (normal_bit poly)
  normal_bit-Bounded x lt = rw (normal_bit-feed poly x lt) (
      bit_xor_bound 32 (x * 2 % 2 ^ 32) (feed (x / 2 ^ 31) poly) (omega arith)
        (feed_bound poly (x / 2 ^ 31) fits))

  pub reflect_bit-Bounded : Bounded (reflect_bit poly)
  reflect_bit-Bounded x lt =
      rw (reflect_bit-feed poly x)
        (bit_xor_bound 32 (x / 2) (feed (x % 2) poly) (omega arith) (feed_bound poly (x % 2) fits))

shl-bit_xor :
    (x y : ℕ)
    → x < 2 ^ 32
    → y < 2 ^ 32
    → (bit_xor x y / 2 ^ 31 ≡ (x / 2 ^ 31 + y / 2 ^ 31) % 2)
      × (bit_xor x y * 2 % 2 ^ 32 ≡ bit_xor (x * 2 % 2 ^ 32) (y * 2 % 2 ^ 32))
shl-bit_xor x y hx hy =
    let whole =
      bit_xor_parts 31 x y (x / 2 ^ 31) (x % 2 ^ 31) (y / 2 ^ 31) (y % 2 ^ 31) (omega arith)
        (omega arith) (omega arith) (omega arith) in
    let low = bit_xor_bound 31 (x % 2 ^ 31) (y % 2 ^ 31) (omega arith) (omega arith) in
    let top = bit_xor_bound 1 (x / 2 ^ 31) (y / 2 ^ 31) (omega arith) (omega arith) in
    let bit = bit_xor_parity (x / 2 ^ 31) (y / 2 ^ 31) in
    let double = bit_xor_shift 1 (x % 2 ^ 31) (y % 2 ^ 31) in
    let ex : x % 2 ^ 31 * 2 ^ 1 ≡ x * 2 % 2 ^ 32 = omega arith in
    let ey : y % 2 ^ 31 * 2 ^ 1 ≡ y * 2 % 2 ^ 32 = omega arith in
    let shifted = rw (ex, ey) at double in
    (omega (arith, whole, low, top, bit), omega (arith, whole, low, shifted))

shr-bit_xor :
    (x y : ℕ)
    → (bit_xor x y % 2 ≡ (x % 2 + y % 2) % 2) × (bit_xor x y / 2 ≡ bit_xor (x / 2) (y / 2))
shr-bit_xor x y = let whole = bit_xor_step x y in (omega (arith, whole), omega (arith, whole))

-- Both steps, with the bit that goes out and the rest.
step-Linear :
    (poly p q r a b c : ℕ)
    → p < 2
    → q < 2
    → r ≡ (p + q) % 2
    → c ≡ bit_xor a b
    → bit_xor c (feed r poly) ≡ bit_xor (bit_xor a (feed p poly)) (bit_xor b (feed q poly))
step-Linear poly p q r a b c hp hq er ec =
    rw (er, ec)
      (sym (
        bit_xor_swap a (feed p poly) b (feed q poly)
        ∙ ap (bit_xor (bit_xor a b)) (feed-bit_xor poly p q hp hq)))

module _ (poly : ℕ) where
  pub normal_bit-Linear : Linear (normal_bit poly)
  normal_bit-Linear x y hx hy =
      let (out, rest) = shl-bit_xor x y hx hy in
      rw
        (
          normal_bit-feed poly x hx,
          normal_bit-feed poly y hy,
          normal_bit-feed poly (bit_xor x y) (bit_xor_bound 32 x y hx hy),
        )
        (step-Linear poly _ _ _ _ _ _ (omega arith) (omega arith) out rest)

  pub reflect_bit-Linear : Linear (reflect_bit poly)
  reflect_bit-Linear x y hx hy =
      let (out, rest) = shr-bit_xor x y in
      rw (reflect_bit-feed poly x, reflect_bit-feed poly y, reflect_bit-feed poly (bit_xor x y))
        (step-Linear poly _ _ _ _ _ _ (omega arith) (omega arith) out rest)
