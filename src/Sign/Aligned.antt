-- ===== src/Sign/Aligned.antt =====
-- The signing block as a whole: its size, and what stands at its ends.
use aabox.Common.{
  ℕ, ◌+◌, ◌-◌, ◌%◌, ◌≤◌, ◌≡◌, Bool-cases, inl, inr, List, [], ◌∷◌, ◌++◌, ◌==◌, ==_iff, length,
  length-append, length-replicate, drop, drop_left, append_assoc, Bytes, le64, arith, refl, sym, ap,
  ◌∙◌, false,
}
use aabox.Sign.Block.{
  page, apk_sig_block_magic, blocks_size, encode_blocks, padding_for, padding_pair,
  build_signing_block,
}

length-encode_blocks : (pairs : List (ℕ × Bytes)) → length (encode_blocks pairs) ≡ blocks_size pairs
unfolding encode_blocks blocks_size
length-encode_blocks [] = refl
length-encode_blocks ((id, v) ∷ pairs) =
    omega (arith, length-append v (encode_blocks pairs), length-encode_blocks pairs)

pub padding_for-aligned : (total : ℕ) → (total + padding_for total) % page ≡ 0
unfolding padding_for
padding_for-aligned total = ground arith

-- The padding is empty or has room for the head of a pair.
pub padding_for-head : (total : ℕ) → (padding_for total == 0) ≡ false → 12 ≤ padding_for total
unfolding padding_for
padding_for-head total h = ground arith

length-padding_pair : (total : ℕ) → length (padding_pair (padding_for total)) ≡ padding_for total
unfolding padding_pair
length-padding_pair total = elim (Bool-cases (padding_for total == 0)) [
  | inl none ↦ rw none (sym ((==_iff (padding_for total) 0).0 none))
  | inr some ↦ rw some (
      omega (
        arith,
        length-replicate {A = ℕ} (padding_for total - 8 - 4) 0,
        padding_for-head total some,
      ))
]

regroup : (a b c d : Bytes) → a ++ (b ++ (c ++ d)) ≡ (a ++ (b ++ c)) ++ d
regroup a b c d = rw (append_assoc a (b ++ c) d, append_assoc b c d) refl

-- Whatever pairs it holds, the length of the signing block is a multiple of 4096, and its last
-- sixteen bytes are the magic.
pub build_signing_block-aligned :
    (pairs : List (ℕ × Bytes))
    → (length (build_signing_block pairs) % page ≡ 0)
      × (drop (length (build_signing_block pairs) - 16) (build_signing_block pairs)
          ≡ apk_sig_block_magic)
unfolding build_signing_block
build_signing_block-aligned pairs =
    let total = 8 + 8 + 16 + blocks_size pairs in
    let padding = padding_for total in
    let size = le64 (total + padding - 8) in
    let body = encode_blocks pairs ++ (padding_pair padding ++ size) in
    let whole : build_signing_block pairs ≡ (size ++ body) ++ apk_sig_block_magic =
      ap (λ t. size ++ t)
        (regroup (encode_blocks pairs) (padding_pair padding) size apk_sig_block_magic) in
    let body_length : length body ≡ blocks_size pairs + (padding + 8) = omega (
      arith,
      length-append (encode_blocks pairs) (padding_pair padding ++ size),
      length-append (padding_pair padding) size,
      length-encode_blocks pairs,
      length-padding_pair total,
    ) in
    let same : length (build_signing_block pairs) ≡ total + padding =
      ap length whole ∙ (omega (arith, length-append (size ++ body) apk_sig_block_magic)) in
    let before : length (build_signing_block pairs) - 16 ≡ length (size ++ body) = omega arith in
    (
      ap (λ n. n % page) same ∙ padding_for-aligned total,
      ap (λ n. drop n (build_signing_block pairs)) before
          ∙ (ap (drop (length (size ++ body))) whole
              ∙ drop_left (size ++ body) apk_sig_block_magic),
    )
