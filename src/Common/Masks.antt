-- ===== src/Common/Masks.antt =====
-- Masks on one byte as arithmetic; each is a table of 256 entries, checked by evaluation.
use Prim.Native.Nat.{ℕ, zero, suc, ◌*◌, ◌/◌, ◌%◌, ◌<◌, bit_and}
use mathlib.Core.Path.{◌≡◌, refl}
use mathlib.Core.Bool.{Bool, true, ◌&&◌}
use native.Mathlib.Omega.{arith}
use aabox.Common.Tests.{◌==◌, ==_iff}

same_below : ℕ → (ℕ → ℕ) → (ℕ → ℕ) → Bool
same_below zero f g = true
same_below (suc n) f g = f n == g n && same_below n f g

same_below→eq : (n : ℕ) (f g : ℕ → ℕ) (x : ℕ) → same_below n f g ≡ true → x < n → f x ≡ g x
unfolding same_below
same_below→eq zero f g x h lt = absurd (omega arith)
same_below→eq (suc n) f g x h lt = ground (arith, ==_iff (f n) (g n), same_below→eq n f g x)

pub bit_and_low_seven : (b : ℕ) → b < 256 → bit_and b 0x7f ≡ b % 128
unfolding same_below
bit_and_low_seven b h = same_below→eq 256 (λ x. bit_and x 0x7f) (λ x. x % 128) b refl h

pub bit_and_top : (b : ℕ) → b < 256 → bit_and b 0x80 ≡ b / 128 * 128
unfolding same_below
bit_and_top b h = same_below→eq 256 (λ x. bit_and x 0x80) (λ x. x / 128 * 128) b refl h
