-- ===== src/Dex/Patch.antt =====
-- The walk over the code items and the patch of a whole file. SHA-1 comes from the crate `ring`, and
-- is a parameter.
use aabox.Common.{
  ℕ, zero, suc, ◌+◌, ◌*◌, ◌^◌, true, false, Option, none, some, Result, ok, err, ◌>>=◌, ◌++◌, ltb,
  leb, ◌==◌, if◌then◌else◌, length, take, drop, Bytes, ascii, le32,
}
use aabox.Dex.{
  DexError, insns_size_overflow, insns_out_of_bounds, dex_too_short, u32, read_u32, read_uleb128,
  adler32,
}
use aabox.Dex.Insns.{DexPatchResult, rewrite_sget_in_insns}
use aabox.Dex.Tables.{DexHeader, parse_header, find_string_idx, find_type_idx, find_field_idx}

-- What the walk changes: the file, and the counts.
abbrev pub Work : Type 0
Work = Bytes × DexPatchResult

abbrev pub no_patches : DexPatchResult
no_patches = record { patches = 0; bytes_rewritten = 0 }

-- `dex[off..off + bytes.len()].copy_from_slice(bytes)`
unfoldable pub copy_at : ℕ → Bytes → Bytes → Bytes
copy_at off bytes dex = take off dex ++ (bytes ++ drop (off + length bytes) dex)

abbrev pub or_unchanged : Work → Option Work → Work
or_unchanged w none = w
or_unchanged w (some w') = w'

-- `on_insns(&mut dex[start..end])` with the closure of `patch_dex`. The rewriting always ends.
unfoldable pub on_insns : ℕ → ℕ → ℕ → Work → Work
unfolding copy_at
on_insns target start size (dex, out) =
    let insns = take size (drop start dex) in
    let (insns', out') = or_unchanged (insns, out) (rewrite_sget_in_insns insns target out) in
    (copy_at start insns' dex, out')

-- The two numbers of each field that is stepped over.
unfoldable pub skip_fields : ℕ → Bytes → ℕ → Result DexError ℕ
skip_fields zero dex p = ok p
skip_fields (suc n) dex p = do
  (p, diff) ← read_uleb128 dex p
  (p, access) ← read_uleb128 dex p
  skip_fields n dex p

-- One method: the offset behind it, and where its instructions stand, if it has code.
unfoldable pub read_method : Bytes → ℕ → Result DexError (ℕ × Option (ℕ × ℕ))
read_method dex p = do
  (p, idx) ← read_uleb128 dex p
  (p, access) ← read_uleb128 dex p
  (p, code_off) ← read_uleb128 dex p
  if code_off == 0 then ok (p, none) else (do
    insns_size ← read_u32 dex (code_off + 12)
    if leb (2 ^ 64) (code_off + 16 + insns_size * 2)
        then err insns_size_overflow
        else if ltb (length dex) (code_off + 16 + insns_size * 2)
        then err insns_out_of_bounds
        else ok (p, some (code_off + 16, insns_size * 2)))

-- The changes that were made before an error stay.
unfoldable pub walk_methods : ℕ → ℕ → ℕ → ℕ → Work → Result DexError ℕ × Work
walk_methods zero target p walked w = (ok walked, w)
walk_methods (suc n) target p walked w = elim (read_method w.0 p) [
  | err e ↦ (err e, w)
  | ok (q, none) ↦ walk_methods n target q walked w
  | ok (q, some (start, size)) ↦ walk_methods n target q (walked + 1) (on_insns target start size w)
]

-- The numbers at the front of a class: where its methods start, and how many they are.
unfoldable pub read_class : Bytes → ℕ → Result DexError (ℕ × ℕ)
unfolding skip_fields
read_class dex p = do
  (p, static_fields_size) ← read_uleb128 dex p
  (p, instance_fields_size) ← read_uleb128 dex p
  (p, direct_methods_size) ← read_uleb128 dex p
  (p, virtual_methods_size) ← read_uleb128 dex p
  p ← skip_fields (u32 (static_fields_size + instance_fields_size)) dex p
  ok (p, u32 (direct_methods_size + virtual_methods_size))

unfoldable pub walk_one_class_data : ℕ → ℕ → Work → Result DexError ℕ × Work
walk_one_class_data target class_data_off w = elim (read_class w.0 class_data_off) [
  | err e ↦ (err e, w)
  | ok (p, total_methods) ↦ walk_methods total_methods target p 0 w
]

-- A class that cannot be read is left out, and the walk goes on.
unfoldable pub walk_classes : ℕ → ℕ → DexHeader → ℕ → Work → Work
walk_classes zero i h target w = w
walk_classes (suc n) i h target w =
    elim (read_u32 w.0 (u32 (h.class_defs_off + u32 (i * 32)) + 24)) [
      | err e ↦ walk_classes n (i + 1) h target w
      | ok class_data_off ↦ elim (class_data_off == 0) [
        | true ↦ walk_classes n (i + 1) h target w
        | false ↦ walk_classes n (i + 1) h target (walk_one_class_data target class_data_off w).1
      ]
    ]

unfoldable pub walk_code_items : DexHeader → ℕ → Work → Work
unfolding walk_classes
walk_code_items h target w = walk_classes h.class_defs_size 0 h target w

-- Go on with what a look-up found.
abbrev pub when_found :
    Result DexError (Option ℕ) → (ℕ → Result DexError (Option ℕ)) → Result DexError (Option ℕ)
when_found (ok (some i)) f = f i
when_found (ok none) f = ok none
when_found (err e) f = err e

-- The index of `Build$VERSION.SDK_INT`.
unfoldable pub locate_field : Bytes → DexHeader → Result DexError (Option ℕ)
locate_field dex h = when_found (find_string_idx dex h (ascii "SDK_INT")) λ sdk_int_str.
    when_found (find_string_idx dex h (ascii "I")) λ i_str.
      when_found (find_string_idx dex h (ascii "Landroid/os/Build$VERSION;")) λ build_ver_str.
        when_found (find_type_idx dex h i_str) λ i_type.
          when_found (find_type_idx dex h build_ver_str)
            λ build_ver_type. find_field_idx dex h build_ver_type sdk_int_str i_type

module _ (sha1 : Bytes → Bytes) where
  unfoldable pub recompute_header_checksums : Bytes → Result DexError Bytes
  unfolding copy_at
  recompute_header_checksums dex =
      let signed = copy_at 12 (sha1 (drop 32 dex)) dex in
      if ltb (length dex) 32
      then err (dex_too_short (length dex))
      else ok (copy_at 8 (le32 (adler32 (drop 12 signed))) signed)

  -- With the patches made: the header is brought up to date, if there are any.
  unfoldable pub finish_patch : Work → Result DexError DexPatchResult × Bytes
  unfolding recompute_header_checksums
  finish_patch (dex, result) =
      if ltb 0 result.patches
      then elim (recompute_header_checksums dex) [
        | err e ↦ (err e, dex)
        | ok dex' ↦ (ok result, dex')
      ]
      else (ok result, dex)

  -- The result, and the file as it is left.
  unfoldable pub patch_dex : Bytes → Result DexError DexPatchResult × Bytes
  patch_dex dex = elim (parse_header dex) [
    | err e ↦ (err e, dex)
    | ok h ↦ elim (locate_field dex h) [
      | err e ↦ (err e, dex)
      | ok none ↦ (ok no_patches, dex)
      | ok (some field_idx) ↦ finish_patch (walk_code_items h field_idx (dex, no_patches))
    ]
  ]
