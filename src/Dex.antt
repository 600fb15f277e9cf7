-- ===== src/Dex.antt =====
-- The DEX patcher of crates/aabox-resigner/src/dex.rs: reading numbers from the file, the header
-- and the checksum. `u32` arithmetic wraps, as in the release build; `usize` has 64 bits.
pub mod Opcodes
pub mod Insns
pub mod Tables
pub mod Patch
pub mod Leb
pub mod Adler
pub mod Walks
pub mod Rewrite
pub mod Format
pub mod Rewritten
pub mod Sample
pub mod Sizes
pub mod Checksums
mod Tests
use aabox.Common.{
  ℕ, zero, suc, ◌+◌, ◌*◌, ◌%◌, ◌^◌, bit_and, bit_or, Result, ok, err, ◌>>=◌, List, [], ◌∷◌, ltb,
  ◌==◌, not, if◌then◌else◌, length, get_or, take, drop, Bytes, from_le16, from_le32,
}

-- The reasons for which the patcher gives up; the number is the offset, or the size shown.
pub data DexError : Type 0 where
  out_of_bounds uleb128_truncated uleb128_overflow dex_too_short bad_endian : ℕ → DexError
  bad_magic type_idx_out_of_range insns_size_overflow insns_out_of_bounds : DexError

abbrev pub u32 : ℕ → ℕ
u32 n = n % 2 ^ 32

unfoldable pub read_u16 : Bytes → ℕ → Result DexError ℕ
read_u16 buf off =
    if ltb (length buf) (off + 2)
    then err (out_of_bounds off)
    else ok (from_le16 (get_or buf off 0) (get_or buf (off + 1) 0))

unfoldable pub read_u32 : Bytes → ℕ → Result DexError ℕ
read_u32 buf off =
    if ltb (length buf) (off + 4)
    then err (out_of_bounds off)
    else ok (
        from_le32 (get_or buf off 0) (get_or buf (off + 1) 0) (get_or buf (off + 2) 0)
          (get_or buf (off + 3) 0))

-- The rounds that are left, the position, the shift and the bits so far. `<<` on a `u32` drops the
-- bits above the word.
unfoldable pub uleb128_loop : ℕ → Bytes → ℕ → ℕ → ℕ → ℕ → Result DexError (ℕ × ℕ)
uleb128_loop zero buf off p shift result = err (uleb128_overflow off)
uleb128_loop (suc rounds) buf off p shift result =
    let byte = get_or buf p 0 in
    let result' = bit_or result (u32 (bit_and byte 0x7f * 2 ^ shift)) in
    let rest = uleb128_loop rounds buf off (p + 1) (shift + 7) result' in
    if not (ltb p (length buf))
    then err (uleb128_truncated off)
    else if bit_and byte 0x80 == 0
    then ok (p + 1, result')
    else rest

-- The offset behind the number, and the number.
unfoldable pub read_uleb128 : Bytes → ℕ → Result DexError (ℕ × ℕ)
read_uleb128 buf off = uleb128_loop 5 buf off off 0 0

abbrev pub mod_adler : ℕ
mod_adler = 65521

unfoldable pub adler32_loop : ℕ → ℕ → Bytes → ℕ × ℕ
adler32_loop a b [] = (a, b)
adler32_loop a b (byte ∷ buf) =
    let a' = u32 (a + byte) % mod_adler in adler32_loop a' (u32 (b + a') % mod_adler) buf

unfoldable pub adler32 : Bytes → ℕ
unfolding adler32_loop
adler32 buf = let (a, b) = adler32_loop 1 0 buf in bit_or (u32 (b * 2 ^ 16)) a
