-- ===== src/Base/Bits.antt =====
-- `|` and `^` on native numbers: `|` of fields that do not overlap is a sum, and `^` stays in
-- range. Both go by the binary digits, with fuel.
use Prim.Native.Nat.{
  ℕ, zero, suc, ◌+◌, ◌*◌, ◌/◌, ◌%◌, ◌^◌, ◌≤◌, ◌<◌, min, max, bit_and, bit_or, bit_xor, digits,
  differ, bit_and-bitwise, bit_or-bitwise, bit_xor-bitwise,
}
use mathlib.Core.Path.{◌≡◌, refl, sym, ap, subst, ◌∙◌}
use native.Mathlib.Nat.{pow-suc}
use native.Mathlib.Omega.{arith}

or_digits : (n k a q r : ℕ) → a ≤ n → a ≡ q * 2 ^ k → r < 2 ^ k → digits (λ b. b) max n a r ≡ a + r
or_digits zero k zero q r h e p = omega arith
or_digits zero k (suc a) q r h e p = absurd (omega arith)
or_digits (suc n) k zero q r h e p = omega arith
or_digits (suc n) zero (suc a) q r h e p = omega (
  arith,
  or_digits n zero (suc a / 2) (suc a / 2) (r / 2) (omega arith) (omega arith) (omega arith),
)
or_digits (suc n) (suc k) (suc a) q r h e p =
    let wide : q * 2 ^ suc k ≡ 2 * (q * 2 ^ k) =
      omega (arith, ap (λ (t : ℕ). q * t) (pow-suc 2 k)) in
    omega (
      arith,
      wide,
      pow-suc 2 k,
      or_digits n k (suc a / 2) q (r / 2) (omega arith) (omega arith) (omega (arith, pow-suc 2 k)),
    )

-- `(q << k) | r` is a sum if `r` has at most `k` bits.
pub bit_or-add : (k q r : ℕ) → r < 2 ^ k → bit_or (q * 2 ^ k) r ≡ q * 2 ^ k + r
bit_or-add k q r p =
    bit_or-bitwise (q * 2 ^ k) r ∙ or_digits (q * 2 ^ k) k (q * 2 ^ k) q r (omega arith) refl p

differ-le-max : (a b : ℕ) → differ a b ≤ max a b
differ-le-max zero b = omega arith
differ-le-max (suc a) zero = omega arith
differ-le-max (suc a) (suc b) = omega (arith, differ-le-max a b)

xor_digits : (n k a b : ℕ) → a < 2 ^ k → b < 2 ^ k → digits (λ b. b) differ n a b < 2 ^ k
xor_digits zero k a b h p = p
xor_digits (suc n) k zero b h p = p
xor_digits (suc n) zero (suc a) b h p = absurd (omega arith)
xor_digits (suc n) (suc k) (suc a) b h p = omega (
  arith,
  pow-suc 2 k,
  differ-le-max (suc a % 2) (b % 2),
  xor_digits n k (suc a / 2) (b / 2) (omega (arith, pow-suc 2 k)) (omega (arith, pow-suc 2 k)),
)

pub bit_xor-lt : (k a b : ℕ) → a < 2 ^ k → b < 2 ^ k → bit_xor a b < 2 ^ k
bit_xor-lt k a b h p =
    subst (λ (x : ℕ). x < 2 ^ k) (sym (bit_xor-bitwise a b)) (xor_digits a k a b h p)

and_digits : (n k a b : ℕ) → b < 2 ^ k → digits (λ b. zero) min n a b < 2 ^ k
and_digits zero k a b h = omega arith
and_digits (suc n) k zero b h = omega arith
and_digits (suc n) zero (suc a) b h =
    omega (arith, and_digits n zero (suc a / 2) (b / 2) (omega arith))
and_digits (suc n) (suc k) (suc a) b h =
    omega (arith, pow-suc 2 k, and_digits n k (suc a / 2) (b / 2) (omega (arith, pow-suc 2 k)))

pub bit_and-lt : (k a b : ℕ) → b < 2 ^ k → bit_and a b < 2 ^ k
bit_and-lt k a b h = subst (λ (x : ℕ). x < 2 ^ k) (sym (bit_and-bitwise a b)) (and_digits a k a b h)
