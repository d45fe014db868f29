-- ===== src/Base/Bits.antt =====
-- The bit operations: on a byte value by value, and `|` of disjoint fields at every width.
use Prim.Native.Nat.{
  ℕ, zero, suc, ◌+◌, ◌*◌, ◌/◌, ◌^◌, ◌≤◌, ◌<◌, bit_or, max, digits, bit_or-bitwise,
}
use mathlib.Core.Path.{◌≡◌, refl, ap, ◌∙◌}
use mathlib.Core.Bool.{Bool, true, ◌&&◌}
use native.Mathlib.Omega.{arith}
use native.Mathlib.Nat.{pow-suc}
use liblcb.Base.Tests.{◌==◌}

-- Do `f` and `g` agree on each of the numbers below the bound?
module _ (f g : ℕ → ℕ) where
  unfoldable pub tables_agree : ℕ → Bool
  tables_agree zero = true
  tables_agree (suc top) = tables_agree top && f top == g top

  pub tables_agree-eq : (bound i : ℕ) → i < bound → tables_agree bound ≡ true → f i ≡ g i
  unfolding tables_agree
  tables_agree-eq zero i below ok = elim below [ ]
  tables_agree-eq (suc top) i below ok = ground (arith, tables_agree-eq top i)

-- The digit recursion behind `|`: a multiple of 2 ^ k does not meet what is below 2 ^ k.
or_digits : (n a k q r : ℕ) → a ≡ q * 2 ^ k → a ≤ n → r < 2 ^ k → digits (λ b. b) max n a r ≡ a + r
or_digits zero zero k q r e h lt = omega arith
or_digits zero (suc a) k q r e h lt = absurd (omega arith)
or_digits (suc n) zero k q r e h lt = omega arith
or_digits (suc n) (suc a) zero q r e h lt = omega (
  arith,
  or_digits n (suc a / 2) zero (suc a / 2) (r / 2) (omega arith) (omega arith) (omega arith),
)
or_digits (suc n) (suc a) (suc k) q r e h lt =
    let e' : suc a ≡ 2 * (q * 2 ^ k) = e ∙ omega (arith, ap (λ (t : ℕ). q * t) (pow-suc 2 k)) in
    omega (
      arith,
      or_digits n (suc a / 2) k q (r / 2) (omega (arith, e')) (omega arith)
          (omega (arith, pow-suc 2 k)),
      e',
      pow-suc 2 k,
    )

-- `(q << k) | r` is a sum if `r` fits in `k` bits.
pub bit_or-add : (k q r : ℕ) → r < 2 ^ k → bit_or (q * 2 ^ k) r ≡ q * 2 ^ k + r
bit_or-add k q r lt =
    simp bit_or-bitwise (or_digits (q * 2 ^ k) (q * 2 ^ k) k q r refl (omega arith) lt)
