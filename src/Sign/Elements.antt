-- ===== src/Sign/Elements.antt =====
-- Reading back the length-prefixed sequences.
use aabox.Common.{
  ℕ, zero, suc, ◌+◌, ◌/◌, ◌%◌, ◌^◌, ◌<◌, ◌≡◌, List, [], ◌∷◌, Option, none, some, ltb, ltb_of_le,
  ◌==◌, ==_iff, if◌then◌else◌, length, take, drop, length-append, take_left, drop_left, All, Bytes,
  from_le32, arith, refl,
}
use mathlib.Core.Option.{map}
use aabox.Sign.Prefixed.{len_u32, encode_lp_elements, encode_lp_int_lp_bytes_pairs}

-- How the format reads a sequence: a length, as many bytes, and what follows; `none` where the
-- input is cut. The fuel is a bound on the number of elements.
unfoldable pub decode_lp_elements : ℕ → Bytes → Option (List Bytes)
decode_lp_elements zero b = none
decode_lp_elements (suc fuel) [] = some []
decode_lp_elements (suc fuel) (b0 ∷ b1 ∷ b2 ∷ b3 ∷ rest) =
    let n = from_le32 b0 b1 b2 b3 in
    let elements = decode_lp_elements fuel (drop n rest) in
    if ltb (length rest) n then none else map (λ es. take n rest ∷ es) elements
decode_lp_elements (suc fuel) _ = none

-- The same for pairs: each is an element that holds an identifier and one element.
unfoldable pub decode_lp_pairs : ℕ → Bytes → Option (List (ℕ × Bytes))
decode_lp_pairs zero b = none
decode_lp_pairs (suc fuel) [] = some []
decode_lp_pairs (suc fuel) (a0 ∷ a1 ∷ a2 ∷ a3 ∷ i0 ∷ i1 ∷ i2 ∷ i3 ∷ b0 ∷ b1 ∷ b2 ∷ b3 ∷ rest) =
    let n = from_le32 b0 b1 b2 b3 in
    let pairs = decode_lp_pairs fuel (drop n rest) in
    if ltb (length rest) n
    then none
    else if from_le32 a0 a1 a2 a3 == 8 + n
    then map (λ ps. (from_le32 i0 i1 i2 i3, take n rest) ∷ ps) pairs
    else none
decode_lp_pairs (suc fuel) _ = none

pub from_le32-le32 :
    (n : ℕ)
    → n < 2 ^ 32
    → from_le32 (n % 256) (n / 256 % 256) (n / 65536 % 256) (n / 65536 / 256 % 256) ≡ n
from_le32-le32 n h = omega arith

len_fits : (e : Bytes) → length e < 2 ^ 32 → len_u32 e ≡ length e
len_fits e h = omega arith

-- Elements of less than 2 ^ 32 bytes each are read back from their length-prefixed sequence.
pub decode_lp_elements-encode_lp_elements :
    (elements : List Bytes)
    → All (λ e. length e < 2 ^ 32) elements
    → decode_lp_elements (suc (length elements)) (encode_lp_elements elements) ≡ some elements
unfolding decode_lp_elements encode_lp_elements
decode_lp_elements-encode_lp_elements [] h = refl
decode_lp_elements-encode_lp_elements (e ∷ elements) (fits, all) =
    rw (len_fits e fits, from_le32-le32 (length e) fits, length-append, take_left, drop_left)
      (rw (
        ltb_of_le (length e + length (encode_lp_elements elements)) (length e) (omega arith),
        decode_lp_elements-encode_lp_elements elements all,
      ))

-- Pairs of an identifier below 2 ^ 32 and of bytes, with the length plus 8 below 2 ^ 32, are read
-- back from their length-prefixed sequence.
pub decode_lp_pairs-encode :
    (pairs : List (ℕ × Bytes))
    → All (λ p. (p.0 < 2 ^ 32) × (8 + length p.1 < 2 ^ 32)) pairs
    → decode_lp_pairs (suc (length pairs)) (encode_lp_int_lp_bytes_pairs pairs) ≡ some pairs
unfolding decode_lp_pairs encode_lp_int_lp_bytes_pairs
decode_lp_pairs-encode [] h = refl
decode_lp_pairs-encode ((id, b) ∷ pairs) ((id_fits, fits), all) =
    let n = length b in
    let outer : (8 + n) % 2 ^ 32 ≡ 8 + n = omega arith in
    rw
      (
        len_fits b (omega arith),
        outer,
        from_le32-le32 n (omega arith),
        from_le32-le32 id id_fits,
        from_le32-le32 (8 + n) fits,
        length-append,
        take_left,
        drop_left,
      )
      (rw (
        ltb_of_le (n + length (encode_lp_int_lp_bytes_pairs pairs)) n (omega arith),
        (==_iff (8 + n) (8 + n)).1 refl,
        decode_lp_pairs-encode pairs all,
      ))
