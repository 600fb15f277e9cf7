-- ===== src/Dex/Sample.antt =====
-- A small DEX file for examples.
use aabox.Common.{◌≡◌, refl, ok, [], ◌∷◌, replicate, Bytes}
use aabox.Dex.{read_uleb128, uleb128_loop, read_u16, read_u32}
use aabox.Dex.Opcodes.{units_of, opcode_length_code_units}
use aabox.Dex.Insns.{
  DexPatchResult, action, action_at, payload_units, const_16, rewrite_loop, rewrite_sget_in_insns,
}
use aabox.Dex.Tables.{
  parse_header, string_at, find_string_loop, find_string_idx, find_type_loop, find_type_idx,
  find_field_loop, find_field_idx,
}
use aabox.Dex.Patch.{
  copy_at, on_insns, skip_fields, read_method, walk_methods, read_class, walk_one_class_data,
  walk_classes, walk_code_items, locate_field, recompute_header_checksums, finish_patch, patch_dex,
}

abbrev pub one_patch : DexPatchResult
one_patch = record { patches = 1; bytes_rewritten = 4 }

-- A file with one class, one method, and one read of `Build$VERSION.SDK_INT` in it.
abbrev pub small_dex : Bytes
small_dex =
    100 ∷ 101 ∷ 120 ∷ 10 ∷ 48 ∷ 51 ∷ 53 ∷ 0 ∷ 0 ∷ 0 ∷ 0 ∷ 0 ∷ 0 ∷ 0 ∷ 0 ∷ 0 ∷ 0 ∷ 0 ∷ 0 ∷ 0 ∷ 0 ∷ 0
    ∷ 0 ∷ 0 ∷ 0 ∷ 0 ∷ 0 ∷ 0 ∷ 0 ∷ 0 ∷ 0 ∷ 0 ∷ 242 ∷ 0 ∷ 0 ∷ 0 ∷ 112 ∷ 0 ∷ 0 ∷ 0 ∷ 120 ∷ 86 ∷ 52 ∷ 18
    ∷ 0 ∷ 0 ∷ 0 ∷ 0 ∷ 0 ∷ 0 ∷ 0 ∷ 0 ∷ 0 ∷ 0 ∷ 0 ∷ 0 ∷ 3 ∷ 0 ∷ 0 ∷ 0 ∷ 112 ∷ 0 ∷ 0 ∷ 0 ∷ 2 ∷ 0 ∷ 0
    ∷ 0 ∷ 124 ∷ 0 ∷ 0 ∷ 0 ∷ 0 ∷ 0 ∷ 0 ∷ 0 ∷ 0 ∷ 0 ∷ 0 ∷ 0 ∷ 1 ∷ 0 ∷ 0 ∷ 0 ∷ 132 ∷ 0 ∷ 0 ∷ 0 ∷ 0 ∷ 0
    ∷ 0 ∷ 0 ∷ 0 ∷ 0 ∷ 0 ∷ 0 ∷ 1 ∷ 0 ∷ 0 ∷ 0 ∷ 140 ∷ 0 ∷ 0 ∷ 0 ∷ 0 ∷ 0 ∷ 0 ∷ 0 ∷ 0 ∷ 0 ∷ 0 ∷ 0 ∷ 172
    ∷ 0 ∷ 0 ∷ 0 ∷ 175 ∷ 0 ∷ 0 ∷ 0 ∷ 203 ∷ 0 ∷ 0 ∷ 0 ∷ 0 ∷ 0 ∷ 0 ∷ 0 ∷ 1 ∷ 0 ∷ 0 ∷ 0 ∷ 1 ∷ 0 ∷ 0 ∷ 0
    ∷ 2 ∷ 0 ∷ 0 ∷ 0 ∷ 1 ∷ 0 ∷ 0 ∷ 0 ∷ 0 ∷ 0 ∷ 0 ∷ 0 ∷ 0 ∷ 0 ∷ 0 ∷ 0 ∷ 0 ∷ 0 ∷ 0 ∷ 0 ∷ 0 ∷ 0 ∷ 0 ∷ 0
    ∷ 0 ∷ 0 ∷ 0 ∷ 0 ∷ 212 ∷ 0 ∷ 0 ∷ 0 ∷ 0 ∷ 0 ∷ 0 ∷ 0 ∷ 1 ∷ 73 ∷ 0 ∷ 26 ∷ 76 ∷ 97 ∷ 110 ∷ 100 ∷ 114
    ∷ 111 ∷ 105 ∷ 100 ∷ 47 ∷ 111 ∷ 115 ∷ 47 ∷ 66 ∷ 117 ∷ 105 ∷ 108 ∷ 100 ∷ 36 ∷ 86 ∷ 69 ∷ 82 ∷ 83
    ∷ 73 ∷ 79 ∷ 78 ∷ 59 ∷ 0 ∷ 7 ∷ 83 ∷ 68 ∷ 75 ∷ 95 ∷ 73 ∷ 78 ∷ 84 ∷ 0 ∷ 0 ∷ 0 ∷ 1 ∷ 0 ∷ 0 ∷ 1 ∷ 220
    ∷ 1 ∷ 1 ∷ 0 ∷ 0 ∷ 0 ∷ 0 ∷ 0 ∷ 0 ∷ 0 ∷ 0 ∷ 0 ∷ 0 ∷ 0 ∷ 3 ∷ 0 ∷ 0 ∷ 0 ∷ 96 ∷ 0 ∷ 0 ∷ 0 ∷ 15 ∷ 0
    ∷ []

-- A digest of twenty bytes.
abbrev pub zeros : Bytes → Bytes
zeros b = replicate 20 0

abbrev pub patched_dex : Bytes
patched_dex = (patch_dex zeros small_dex).1

pub patch_small : patch_dex zeros small_dex ≡ (ok one_patch, patched_dex)
unfolding patch_dex parse_header locate_field find_string_idx find_string_loop string_at
    find_type_idx find_type_loop find_field_idx find_field_loop walk_code_items walk_classes
    walk_one_class_data read_class skip_fields walk_methods read_method on_insns copy_at
    finish_patch recompute_header_checksums rewrite_sget_in_insns rewrite_loop action action_at
    payload_units const_16 units_of opcode_length_code_units read_uleb128 uleb128_loop read_u16
    read_u32
patch_small = refl
