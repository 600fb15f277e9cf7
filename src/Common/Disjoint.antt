-- ===== src/Common/Disjoint.antt =====
-- `|` of two numbers that share no binary digit is their sum.
use Prim.Native.Nat.{
  ℕ, zero, suc, ◌+◌, ◌*◌, ◌/◌, ◌%◌, ◌^◌, ◌≤◌, ◌<◌, max, bit_or, digits, bit_or-bitwise,
}
use mathlib.Core.Path.{◌≡◌, refl, ap}
use native.Mathlib.Nat.{pow-suc}
use native.Mathlib.Omega.{arith}

abbrev or_digits : ℕ → ℕ → ℕ → ℕ
or_digits fuel a b = digits (λ b. b) max fuel a b

-- Fuel that is enough gives one result.
enough : (m n a b : ℕ) → a ≤ m → a ≤ n → or_digits m a b ≡ or_digits n a b
enough zero zero a b h k = refl
enough (suc m) (suc n) zero b h k = refl
enough zero (suc n) zero b h k = refl
enough (suc m) zero zero b h k = refl
enough zero n (suc a) b h k = absurd (omega arith)
enough (suc m) zero (suc a) b h k = absurd (omega arith)
enough (suc m) (suc n) (suc a) b h k =
    let halves = enough m n (suc a / 2) (b / 2) (omega arith) (omega arith) in
    ap (λ t. t * 2 + max (suc a % 2) (b % 2)) halves

or_nothing : (b : ℕ) → bit_or 0 b ≡ b
or_nothing b = bit_or-bitwise 0 b

lowest_digit : (a b : ℕ) → bit_or a b ≡ bit_or (a / 2) (b / 2) * 2 + max (a % 2) (b % 2)
lowest_digit zero b = omega (arith, or_nothing b, or_nothing (b / 2))
lowest_digit (suc a) b = omega (
  arith,
  bit_or-bitwise (suc a) b,
  bit_or-bitwise (suc a / 2) (b / 2),
  enough a (suc a / 2) (suc a / 2) (b / 2) (omega arith) (omega arith),
)

nothing_or : (n a : ℕ) → a ≤ n → bit_or a 0 ≡ a
nothing_or n zero h = refl
nothing_or zero (suc a) h = absurd (omega arith)
nothing_or (suc n) (suc a) h =
    omega (arith, lowest_digit (suc a) 0, nothing_or n (suc a / 2) (omega arith))

doubled : (b s : ℕ) → b * 2 ^ suc s ≡ b * 2 ^ s * 2
doubled b s = omega (arith, ap (λ (t : ℕ). b * t) (pow-suc 2 s))

half_of : (b s : ℕ) → b * 2 ^ suc s / 2 ≡ b * 2 ^ s
half_of b s = omega (arith, doubled b s)

-- The digits below place `s`, and those from it on.
pub bit_or_low_high : (s a b : ℕ) → a < 2 ^ s → bit_or a (b * 2 ^ s) ≡ a + b * 2 ^ s
bit_or_low_high zero zero b h = omega (arith, or_nothing (b * 2 ^ 0))
bit_or_low_high zero (suc a) b h = absurd (omega arith)
bit_or_low_high (suc s) a b h = omega (
  arith,
  lowest_digit a (b * 2 ^ suc s),
  doubled b s,
  ap (λ t. bit_or (a / 2) t) (half_of b s),
  bit_or_low_high s (a / 2) b (omega (arith, pow-suc 2 s)),
)

pub bit_or_high_low : (s a b : ℕ) → a < 2 ^ s → bit_or (b * 2 ^ s) a ≡ b * 2 ^ s + a
bit_or_high_low zero zero b h = omega (arith, nothing_or (b * 2 ^ 0) (b * 2 ^ 0) (omega arith))
bit_or_high_low zero (suc a) b h = absurd (omega arith)
bit_or_high_low (suc s) a b h = omega (
  arith,
  lowest_digit (b * 2 ^ suc s) a,
  doubled b s,
  ap (λ t. bit_or t (a / 2)) (half_of b s),
  bit_or_high_low s (a / 2) b (omega (arith, pow-suc 2 s)),
)
