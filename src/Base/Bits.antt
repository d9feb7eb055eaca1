-- ===== src/Base/Bits.antt =====
-- `&` with a mask of low bits is a remainder, at every width.
use Prim.Native.Nat.{
  ℕ, zero, suc, ◌+◌, ◌-◌, ◌*◌, ◌/◌, ◌%◌, ◌^◌, ◌≤◌, min, bit_and, digits, bit_and-bitwise,
}
use mathlib.Core.Path.{◌≡◌, ap, ◌∙◌}
use native.Mathlib.Nat.{
  pow-suc, pow-succ', one-le-pow, div-add-mod', div-div-eq-div-mul, zero-mod, mod-one,
}
use native.Mathlib.Omega.{arith}

halve_mod : (a p : ℕ) → a % (2 * p) ≡ a / 2 % p * 2 + a % 2
halve_mod a p = omega (
  arith,
  div-add-mod' a (2 * p),
  div-add-mod' (a / 2) p,
  div-div-eq-div-mul a 2 p,
  ap (λ (t : ℕ). t * (2 * p)) (div-div-eq-div-mul a 2 p),
)

mask_half : (k : ℕ) → (2 ^ suc k - 1) / 2 ≡ 2 ^ k - 1
mask_half k = omega (arith, pow-suc 2 k, one-le-pow k 2 (omega arith))

mask_odd : (k : ℕ) → (2 ^ suc k - 1) % 2 ≡ 1
mask_odd k = omega (arith, pow-suc 2 k, one-le-pow k 2 (omega arith))

-- The digits of `a` under a mask of `k` ones, while the count of digits to go suffices.
mask_digits : (n a k : ℕ) → a ≤ n → digits (λ b. zero) min n a (2 ^ k - 1) ≡ a % 2 ^ k
mask_digits zero zero k h = omega (arith, zero-mod (2 ^ k))
mask_digits zero (suc a) k h = elim h [ ]
mask_digits (suc n) zero k h = omega (arith, zero-mod (2 ^ k))
mask_digits (suc n) (suc a) zero h =
    omega (arith, mask_digits n (suc a / 2) zero (omega arith), mod-one (suc a / 2))
mask_digits (suc n) (suc a) (suc k) h =
    rw (mask_half k, mask_odd k, mask_digits n (suc a / 2) k (omega arith))
      (omega (arith, halve_mod (suc a) (2 ^ k), ap (λ (t : ℕ). suc a % t) (pow-succ' 2 k)))

pub bit_and_low : (k a : ℕ) → bit_and a (2 ^ k - 1) ≡ a % 2 ^ k
bit_and_low k a = bit_and-bitwise a (2 ^ k - 1) ∙ mask_digits a a k (omega arith)
