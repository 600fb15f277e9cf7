-- ===== src/Dex/Adler.antt =====
-- `adler32` against the sums that define it.
use aabox.Common.{
  ℕ, suc, ◌+◌, ◌*◌, ◌%◌, ◌^◌, ◌<◌, ◌≡◌, ap, ◌∙◌, [], ◌∷◌, length, All, Bytes, IsByte, bit_or, arith,
}
use aabox.Common.Disjoint.{bit_or_high_low}
use aabox.Dex.{u32, mod_adler, adler32_loop, adler32}
use native.Mathlib.Nat.{div-add-mod}

abbrev pub sum : Bytes → ℕ
sum [] = 0
sum (x ∷ xs) = x + sum xs

-- Each byte as often as there are bytes from it on.
abbrev pub weighted_sum : Bytes → ℕ
weighted_sum [] = 0
weighted_sum (x ∷ xs) = suc (length xs) * x + weighted_sum xs

-- One round, with the products by the number of bytes left written out.
round_mod :
    (n a b x w : ℕ)
    → ((b + (a + x) % mod_adler) % mod_adler + n * ((a + x) % mod_adler) + w) % mod_adler
      ≡ (b + suc n * a + (suc n * x + w)) % mod_adler
round_mod n a b x w = omega (arith, ap (λ (t : ℕ). n * t) (div-add-mod (a + x) mod_adler))

no_wrap : (a x : ℕ) → a < mod_adler → x < mod_adler → u32 (a + x) % mod_adler ≡ (a + x) % mod_adler
no_wrap a x h k = omega arith

pub pair_eq : {a b c d : ℕ} → a ≡ c → b ≡ d → ◌≡◌ {A = ℕ × ℕ} (a, b) (c, d)
pair_eq p q = λ i. (p i, q i)

adler32_loop-eq :
    (a b : ℕ) (buf : Bytes)
    → a < mod_adler
    → b < mod_adler
    → All IsByte buf
    → adler32_loop a b buf
      ≡ ((a + sum buf) % mod_adler, (b + length buf * a + weighted_sum buf) % mod_adler)
unfolding adler32_loop
adler32_loop-eq a b [] h k bytes = pair_eq (omega arith) (omega arith)
adler32_loop-eq a b (x ∷ xs) h k bytes =
    let a' : ℕ = (a + x) % mod_adler in
    let b' : ℕ = (b + a') % mod_adler in
    rw (no_wrap a x h (omega arith), no_wrap b a' k (omega arith))
      (adler32_loop-eq a' b' xs (omega arith) (omega arith) bytes.1
        ∙ pair_eq (omega arith) (round_mod (length xs) a b x (weighted_sum xs)))

-- On bytes, the checksum is that of the definition: the low half is one more than their sum and
-- the high half the sum of all values of the low half, each modulo 65521, and no addition on the
-- way leaves 32 bits.
pub adler32-eq :
    (buf : Bytes)
    → All IsByte buf
    → adler32 buf ≡ (length buf + weighted_sum buf) % mod_adler * 2 ^ 16 + (1 + sum buf) % mod_adler
unfolding adler32
adler32-eq buf bytes = rw (adler32_loop-eq 1 0 buf (omega arith) (omega arith) bytes) (
    ap (λ (t : ℕ). bit_or t ((1 + sum buf) % mod_adler)) high
    ∙ bit_or_high_low 16 ((1 + sum buf) % mod_adler) high_half (omega arith))
  where
    high_half : ℕ
    high_half = (length buf + weighted_sum buf) % mod_adler

    high : u32 ((0 + length buf * 1 + weighted_sum buf) % mod_adler * 2 ^ 16) ≡ high_half * 2 ^ 16
    high = omega arith
