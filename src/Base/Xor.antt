-- ===== src/Base/Xor.antt =====
-- Exclusive or at every width: its laws, and how it meets shifts.
use Prim.Native.Nat.{
  ℕ, zero, suc, ◌+◌, ◌*◌, ◌/◌, ◌%◌, ◌^◌, ◌≤◌, ◌<◌, bit_xor, differ, digits, bit_xor-bitwise,
}
use mathlib.Core.Path.{◌≡◌, refl, sym, ap, ◌∙◌}
use native.Mathlib.Omega.{arith}
use native.Mathlib.Nat.{pow-suc, one-le-pow}

abbrev xor_digits : ℕ → ℕ → ℕ → ℕ
xor_digits n a b = digits (λ b. b) differ n a b

xor_digits-fuel : (n m a b : ℕ) → a ≤ n → a ≤ m → xor_digits n a b ≡ xor_digits m a b
xor_digits-fuel zero zero a b p q = refl
xor_digits-fuel zero (suc m) zero b p q = refl
xor_digits-fuel zero (suc m) (suc a) b p q = absurd (omega arith)
xor_digits-fuel (suc n) zero zero b p q = refl
xor_digits-fuel (suc n) zero (suc a) b p q = absurd (omega arith)
xor_digits-fuel (suc n) (suc m) zero b p q = refl
xor_digits-fuel (suc n) (suc m) (suc a) b p q =
    omega (arith, xor_digits-fuel n m (suc a / 2) (b / 2) (omega arith) (omega arith))

differ-sum : (a b : ℕ) → a < 2 → b < 2 → differ a b ≡ (a + b) % 2
differ-sum zero b p q = omega arith
differ-sum (suc zero) zero p q = refl
differ-sum (suc zero) (suc zero) p q = refl
differ-sum (suc zero) (suc (suc b)) p q = absurd (omega arith)
differ-sum (suc (suc a)) b p q = absurd (omega arith)

pub zero-bit_xor : (b : ℕ) → bit_xor 0 b ≡ b
zero-bit_xor b = bit_xor-bitwise 0 b

pub bit_xor_step : (a b : ℕ) → bit_xor a b ≡ bit_xor (a / 2) (b / 2) * 2 + (a % 2 + b % 2) % 2
bit_xor_step zero b = omega (arith, zero-bit_xor b, zero-bit_xor (b / 2))
bit_xor_step (suc a) b = omega (
  arith,
  bit_xor-bitwise (suc a) b,
  bit_xor-bitwise (suc a / 2) (b / 2),
  xor_digits-fuel a (suc a / 2) (suc a / 2) (b / 2) (omega arith) (omega arith),
  differ-sum (suc a % 2) (b % 2) (omega arith) (omega arith),
)

-- `(q << k | r) ^ (s << k | t)` is taken in the two fields apart.
pub bit_xor_fields :
    (k q r s t : ℕ)
    → r < 2 ^ k
    → t < 2 ^ k
    → bit_xor (q * 2 ^ k + r) (s * 2 ^ k + t) ≡ bit_xor q s * 2 ^ k + bit_xor r t
bit_xor_fields zero q zero s zero p p' = ground (arith, zero-bit_xor 0)
bit_xor_fields zero q (suc r) s t p p' = absurd (omega arith)
bit_xor_fields zero q r s (suc t) p p' = absurd (omega arith)
bit_xor_fields (suc k) q r s t p p' =
    let eq : (m : ℕ) → m * 2 ^ suc k ≡ 2 * (m * 2 ^ k) =
      λ m. omega (arith, ap (λ (t : ℕ). m * t) (pow-suc 2 k)) in
    ground (
      arith,
      bit_xor_step (q * 2 ^ suc k + r) (s * 2 ^ suc k + t),
      bit_xor_step r t,
      eq q,
      eq s,
      eq (bit_xor q s),
      pow-suc 2 k,
      bit_xor_fields k q (r / 2) s (t / 2) (omega (arith, pow-suc 2 k))
          (omega (arith, pow-suc 2 k)),
    )

pub bit_xor_bound : (k r t : ℕ) → r < 2 ^ k → t < 2 ^ k → bit_xor r t < 2 ^ k
bit_xor_bound zero zero zero p p' = omega (arith, zero-bit_xor 0)
bit_xor_bound zero (suc r) t p p' = absurd (omega arith)
bit_xor_bound zero r (suc t) p p' = absurd (omega arith)
bit_xor_bound (suc k) r t p p' = omega (
  arith,
  bit_xor_step r t,
  pow-suc 2 k,
  bit_xor_bound k (r / 2) (t / 2) (omega (arith, pow-suc 2 k)) (omega (arith, pow-suc 2 k)),
)

comm_fuel : (n a b : ℕ) → a ≤ n → b ≤ n → bit_xor a b ≡ bit_xor b a
comm_fuel zero zero zero p q = refl
comm_fuel zero (suc a) b p q = absurd (omega arith)
comm_fuel zero a (suc b) p q = absurd (omega arith)
comm_fuel (suc n) a b p q = omega (
  arith,
  bit_xor_step a b,
  bit_xor_step b a,
  comm_fuel n (a / 2) (b / 2) (omega arith) (omega arith),
)

pub bit_xor_comm : (a b : ℕ) → bit_xor a b ≡ bit_xor b a
bit_xor_comm a b = comm_fuel (a + b) a b (omega arith) (omega arith)

pub bit_xor-zero : (a : ℕ) → bit_xor a 0 ≡ a
bit_xor-zero a = bit_xor_comm a 0 ∙ zero-bit_xor a

halves : (a b : ℕ) → bit_xor a b / 2 ≡ bit_xor (a / 2) (b / 2)
halves a b = omega (arith, bit_xor_step a b)

pub bit_xor_parity : (a b : ℕ) → bit_xor a b % 2 ≡ (a % 2 + b % 2) % 2
bit_xor_parity a b = omega (arith, bit_xor_step a b)

assoc_fuel :
    (n a b c : ℕ) → a ≤ n → b ≤ n → c ≤ n → bit_xor (bit_xor a b) c ≡ bit_xor a (bit_xor b c)
assoc_fuel zero zero zero zero p q r = refl
assoc_fuel zero (suc a) b c p q r = absurd (omega arith)
assoc_fuel zero a (suc b) c p q r = absurd (omega arith)
assoc_fuel zero a b (suc c) p q r = absurd (omega arith)
assoc_fuel (suc n) a b c p q r =
    let left =
      bit_xor_step (bit_xor a b) c
      ∙ ap (λ x. bit_xor x (c / 2) * 2 + (bit_xor a b % 2 + c % 2) % 2) (halves a b) in
    let right =
      bit_xor_step a (bit_xor b c)
      ∙ ap (λ x. bit_xor (a / 2) x * 2 + (a % 2 + bit_xor b c % 2) % 2) (halves b c) in
    let ih = assoc_fuel n (a / 2) (b / 2) (c / 2) (omega arith) (omega arith) (omega arith) in
    omega (arith, left, right, ih, bit_xor_parity a b, bit_xor_parity b c)

pub bit_xor_assoc : (a b c : ℕ) → bit_xor (bit_xor a b) c ≡ bit_xor a (bit_xor b c)
bit_xor_assoc a b c = assoc_fuel (a + b + c) a b c (omega arith) (omega arith) (omega arith)

self_fuel : (n a : ℕ) → a ≤ n → bit_xor a a ≡ 0
self_fuel zero zero p = refl
self_fuel zero (suc a) p = absurd (omega arith)
self_fuel (suc n) a p = omega (arith, bit_xor_step a a, self_fuel n (a / 2) (omega arith))

pub bit_xor_self : (a : ℕ) → bit_xor a a ≡ 0
bit_xor_self a = self_fuel a a (omega arith)

pub bit_xor_cancel : (a b c : ℕ) → bit_xor a c ≡ bit_xor b c → a ≡ b
bit_xor_cancel a b c e =
    let back : (x : ℕ) → bit_xor (bit_xor x c) c ≡ x =
      λ x. bit_xor_assoc x c c ∙ ap (bit_xor x) (bit_xor_self c) ∙ bit_xor-zero x in
    sym (back a) ∙ ap (λ x. bit_xor x c) e ∙ back b

-- `(a ^ p) ^ (b ^ q)` is `(a ^ b) ^ (p ^ q)`.
pub bit_xor_swap :
    (a p b q : ℕ) → bit_xor (bit_xor a p) (bit_xor b q) ≡ bit_xor (bit_xor a b) (bit_xor p q)
bit_xor_swap a p b q =
    let inner =
      sym (bit_xor_assoc p b q) ∙ ap (λ x. bit_xor x q) (bit_xor_comm p b) ∙ bit_xor_assoc b p q in
    bit_xor_assoc a p (bit_xor b q) ∙ ap (bit_xor a) inner ∙ sym (bit_xor_assoc a b (bit_xor p q))

-- The same with the two numbers given by equations.
pub bit_xor_parts :
    (k x y q r s t : ℕ)
    → x ≡ q * 2 ^ k + r
    → y ≡ s * 2 ^ k + t
    → r < 2 ^ k
    → t < 2 ^ k
    → bit_xor x y ≡ bit_xor q s * 2 ^ k + bit_xor r t
bit_xor_parts k x y q r s t ex ey p p' = rw (ex, ey) (bit_xor_fields k q r s t p p')

pub bit_xor_shift : (k x y : ℕ) → bit_xor (x * 2 ^ k) (y * 2 ^ k) ≡ bit_xor x y * 2 ^ k
bit_xor_shift k x y =
    let low : 0 < 2 ^ k = one-le-pow k 2 (omega arith) in
    omega (
      arith,
      bit_xor_parts k (x * 2 ^ k) (y * 2 ^ k) x 0 y 0 (omega arith) (omega arith) low low,
      zero-bit_xor 0,
    )

-- `(q << k) ^ r` is a sum if `r` fits in `k` bits.
pub bit_xor-add : (k q r : ℕ) → r < 2 ^ k → bit_xor (q * 2 ^ k) r ≡ q * 2 ^ k + r
bit_xor-add k q r lt = omega (
  arith,
  bit_xor_parts k (q * 2 ^ k) r q 0 0 r (omega arith) (omega arith) (one-le-pow k 2 (omega arith))
      lt,
  zero-bit_xor r,
  ap (λ x. x * 2 ^ k) (bit_xor-zero q),
)
