-- ===== src/Sign/Prefixed.antt =====
-- Sequences of length-prefixed elements.
use aabox.Common.{ℕ, ◌+◌, ◌^◌, ◌%◌, List, [], ◌∷◌, ◌++◌, length, Bytes, le32}

-- `len() as u32`
abbrev pub len_u32 : Bytes → ℕ
len_u32 b = length b % 2 ^ 32

unfoldable pub encode_lp_elements : List Bytes → Bytes
encode_lp_elements [] = []
encode_lp_elements (e ∷ elements) = le32 (len_u32 e) ++ (e ++ encode_lp_elements elements)

unfoldable pub encode_lp_int_lp_bytes_pairs : List (ℕ × Bytes) → Bytes
encode_lp_int_lp_bytes_pairs [] = []
encode_lp_int_lp_bytes_pairs ((id, b) ∷ pairs) =
    le32 ((8 + len_u32 b) % 2 ^ 32)
    ++ (le32 id ++ (le32 (len_u32 b) ++ (b ++ encode_lp_int_lp_bytes_pairs pairs)))
