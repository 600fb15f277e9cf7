-- ===== src/Sign.antt =====
-- The APK Signature Scheme v2, crates/aabox-resigner/src/sign.rs: the layout of the archive.
pub mod Prefixed
pub mod Block
pub mod Apk
pub mod Layout
pub mod Elements
pub mod Aligned
pub mod Plain
pub mod Reread
pub mod Whole
pub mod Pem
pub mod Base64
mod Tests
use aabox.Common.{
  ℕ, zero, suc, ◌+◌, ◌-◌, ◌&&◌, Bool, min, Option, none, some, Result, ok, err, ◌∷◌, [], ltb, ◌==◌,
  if◌then◌else◌, length, get_or, take, drop, Bytes, from_le16, from_le32, bytes_eq,
}

pub data SignError : Type 0 where
  eocd_not_found : SignError
  past_eocd : ℕ → ℕ → SignError
  rsa : SignError

pub record ZipLayout : Type 0 where
  pub cd_offset : ℕ
  pub cd_size : ℕ
  pub eocd_offset : ℕ

-- `from_le_bytes` of the bytes at an offset.
abbrev pub u16_le_at : Bytes → ℕ → ℕ
u16_le_at b i = from_le16 (get_or b i 0) (get_or b (i + 1) 0)

abbrev pub u32_le_at : Bytes → ℕ → ℕ
u32_le_at b i =
    from_le32 (get_or b i 0) (get_or b (i + 1) 0) (get_or b (i + 2) 0) (get_or b (i + 3) 0)

-- The signature at the offset, and a comment that ends with the file.
unfoldable pub is_eocd : Bytes → ℕ → Bool
is_eocd apk i =
    bytes_eq (take 4 (drop i apk)) (0x50 ∷ 0x4b ∷ 0x05 ∷ 0x06 ∷ [])
    && i + 22 + u16_le_at apk (i + 20) == length apk

-- The offsets `start` to `start + n - 1`, from the last one down.
unfoldable pub find_eocd : ℕ → ℕ → Bytes → Option ℕ
unfolding is_eocd
find_eocd zero start apk = none
find_eocd (suc n) start apk =
    let rest = find_eocd n start apk in if is_eocd apk (start + n) then some (start + n) else rest

abbrev pub layout_at : Bytes → Option ℕ → Result SignError ZipLayout
layout_at apk none = err eocd_not_found
layout_at apk (some eocd_offset) = ok (record {
  cd_offset = u32_le_at apk (eocd_offset + 16);
  cd_size = u32_le_at apk (eocd_offset + 12);
  eocd_offset = eocd_offset;
})

unfoldable pub locate_zip_layout : Bytes → Result SignError ZipLayout
unfolding find_eocd
locate_zip_layout apk =
    let max_back = min (length apk) (22 + 65535) in
    let scan_start = length apk - max_back in
    layout_at apk (find_eocd (length apk - 21 - scan_start) scan_start apk)
