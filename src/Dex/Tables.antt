-- ===== src/Dex/Tables.antt =====
-- The header and the look-ups in the tables of strings, types and fields.
use aabox.Common.{
  ℕ, zero, suc, ◌+◌, ◌*◌, Bool, false, ◌&&◌, not, Option, none, some, Result, ok, err, ◌>>=◌, ltb,
  ◌==◌, if◌then◌else◌, length, get_elem?, take, drop, Bytes, ascii, bytes_eq,
}
use aabox.Dex.{
  DexError, dex_too_short, bad_magic, bad_endian, type_idx_out_of_range, u32, read_u16, read_u32,
  read_uleb128,
}

pub record DexHeader : Type 0 where
  pub string_ids_size : ℕ
  pub string_ids_off : ℕ
  pub type_ids_size : ℕ
  pub type_ids_off : ℕ
  pub field_ids_size : ℕ
  pub field_ids_off : ℕ
  pub class_defs_size : ℕ
  pub class_defs_off : ℕ

abbrev pub endian_constant : ℕ
endian_constant = 0x12345678

unfoldable pub parse_header : Bytes → Result DexError DexHeader
parse_header dex = do
  endian ←
      (if ltb (length dex) 0x70
        then err (dex_too_short (length dex))
        else if not (bytes_eq (take 4 dex) (ascii "dex\n"))
        then err bad_magic
        else read_u32 dex 0x28)
  string_ids_size ←
      (if not (endian == endian_constant) then err (bad_endian endian) else read_u32 dex 0x38)
  string_ids_off ← read_u32 dex 0x3c
  type_ids_size ← read_u32 dex 0x40
  type_ids_off ← read_u32 dex 0x44
  field_ids_size ← read_u32 dex 0x50
  field_ids_off ← read_u32 dex 0x54
  class_defs_size ← read_u32 dex 0x60
  class_defs_off ← read_u32 dex 0x64
  ok (record {
    string_ids_size = string_ids_size;
    string_ids_off = string_ids_off;
    type_ids_size = type_ids_size;
    type_ids_off = type_ids_off;
    field_ids_size = field_ids_size;
    field_ids_off = field_ids_off;
    class_defs_size = class_defs_size;
    class_defs_off = class_defs_off;
  })

abbrev is_zero : Option ℕ → Bool
is_zero none = false
is_zero (some b) = b == 0

-- The needle stands at the offset, and a 0 behind it.
unfoldable pub string_at : Bytes → ℕ → Bytes → Bool
string_at dex start needle =
    bytes_eq (take (length needle) (drop start dex)) needle
    && is_zero (get_elem? dex (start + length needle))

-- The entries that are left, and the index of the next one.
unfoldable pub find_string_loop : ℕ → ℕ → Bytes → DexHeader → Bytes → Result DexError (Option ℕ)
unfolding string_at
find_string_loop zero i dex h needle = ok none
find_string_loop (suc n) i dex h needle =
    let rest = find_string_loop n (i + 1) dex h needle in
    do
      data_off ← read_u32 dex (u32 (h.string_ids_off + u32 (i * 4)))
      (str_start, utf16_size) ← read_uleb128 dex data_off
      if ltb (length dex) (str_start + length needle)
          then rest
          else if string_at dex str_start needle
          then ok (some i)
          else rest

unfoldable pub find_string_idx : Bytes → DexHeader → Bytes → Result DexError (Option ℕ)
unfolding find_string_loop
find_string_idx dex h needle = find_string_loop h.string_ids_size 0 dex h needle

unfoldable pub find_type_loop : ℕ → ℕ → Bytes → DexHeader → ℕ → Result DexError (Option ℕ)
find_type_loop zero i dex h descriptor = ok none
find_type_loop (suc n) i dex h descriptor =
    let rest = find_type_loop n (i + 1) dex h descriptor in
    do
      s ← read_u32 dex (u32 (h.type_ids_off + u32 (i * 4)))
      if s == descriptor then ok (some i) else rest

unfoldable pub find_type_idx : Bytes → DexHeader → ℕ → Result DexError (Option ℕ)
unfolding find_type_loop
find_type_idx dex h descriptor = find_type_loop h.type_ids_size 0 dex h descriptor

unfoldable pub find_field_loop : ℕ → ℕ → Bytes → DexHeader → ℕ → ℕ → ℕ → Result DexError (Option ℕ)
find_field_loop zero i dex h class_type name type = ok none
find_field_loop (suc n) i dex h class_type name type =
    let rest = find_field_loop n (i + 1) dex h class_type name type in
    do
      let entry = u32 (h.field_ids_off + u32 (i * 8))
      class_idx ← read_u16 dex entry
      t_idx ← read_u16 dex (entry + 2)
      n_idx ← read_u32 dex (entry + 4)
      if class_idx == class_type && t_idx == type && n_idx == name then ok (some i) else rest

unfoldable pub find_field_idx : Bytes → DexHeader → ℕ → ℕ → ℕ → Result DexError (Option ℕ)
unfolding find_field_loop
find_field_idx dex h class_type name type =
    if ltb 0xffff class_type
    then err type_idx_out_of_range
    else if ltb 0xffff type
    then err type_idx_out_of_range
    else find_field_loop h.field_ids_size 0 dex h class_type name type
