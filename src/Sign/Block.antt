-- ===== src/Sign/Block.antt =====
-- The APK Signing Block.
use aabox.Common.{
  ℕ, ◌+◌, ◌-◌, ◌%◌, List, [], ◌∷◌, ◌++◌, ltb, ◌==◌, if◌then◌else◌, length, replicate, Bytes, le32,
  le64, ascii,
}

-- `ANDROID_COMMON_PAGE_ALIGNMENT_BYTES`
abbrev pub page : ℕ
page = 4096

abbrev pub verity_padding_block_id : ℕ
verity_padding_block_id = 0x42726577

abbrev pub apk_sig_block_magic : Bytes
apk_sig_block_magic = ascii "APK Sig Block 42"

unfoldable pub blocks_size : List (ℕ × Bytes) → ℕ
blocks_size [] = 0
blocks_size ((id, v) ∷ pairs) = (8 + 4 + length v) + blocks_size pairs

unfoldable pub encode_blocks : List (ℕ × Bytes) → Bytes
encode_blocks [] = []
encode_blocks ((id, v) ∷ pairs) = le64 (4 + length v) ++ (le32 id ++ (v ++ encode_blocks pairs))

-- The bytes that fill the block up to a page; 0 where it is one.
unfoldable pub padding_for : ℕ → ℕ
padding_for total =
    if total % page == 0
    then 0
    else if ltb (page - total % page) 12
    then page - total % page + page
    else page - total % page

-- The padding pair, where there is one.
unfoldable pub padding_pair : ℕ → Bytes
padding_pair padding =
    if padding == 0
    then []
    else le64 (padding - 8) ++ (le32 verity_padding_block_id ++ replicate (padding - 8 - 4) 0)

unfoldable pub build_signing_block : List (ℕ × Bytes) → Bytes
unfolding blocks_size encode_blocks padding_for padding_pair
build_signing_block pairs =
    let header_footer = 8 + 8 + 16 in
    let padding = padding_for (header_footer + blocks_size pairs) in
    let outer_size_excl = le64 (header_footer + blocks_size pairs + padding - 8) in
    outer_size_excl
    ++ (encode_blocks pairs ++ (padding_pair padding ++ (outer_size_excl ++ apk_sig_block_magic)))
