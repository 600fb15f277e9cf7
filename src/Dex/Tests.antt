-- ===== src/Dex/Tests.antt =====
-- Examples of DEX files and their parts.
use aabox.Common.{
  ◌+◌, ◌*◌, ◌%◌, ◌^◌, ◌<◌, ◌≡◌, ◌⊎◌, refl, some, ok, err, [], ◌∷◌, ◌++◌, length, Bytes, arith,
}
use aabox.Dex.{dex_too_short, uleb128_loop, read_uleb128, mod_adler, adler32}
use aabox.Dex.Leb.{uleb128, read_uleb128-uleb128}
use aabox.Dex.Adler.{sum, weighted_sum, adler32-eq}
use aabox.Dex.Opcodes.{units_of, opcode_length_code_units}
use aabox.Dex.Insns.{
  action, action_at, payload_units, const_16, rewrite_loop, rewrite_sget_in_insns,
}
use aabox.Dex.Rewrite.{rewrite_sget_in_insns_again}
use aabox.Dex.Rewritten.{Rewritten}
use aabox.Dex.Sample.{one_patch, small_dex, zeros, patched_dex, patch_small}
use aabox.Dex.Tables.{parse_header}
use aabox.Dex.Patch.{no_patches, patch_dex}
use aabox.Dex.Checksums.{IsSealed, patch_dex_ok, patch_dex_err}

read_uleb128-uleb128_example :
    read_uleb128 (7 ∷ 7 ∷ [] ++ (uleb128 4 624485 ++ (9 ∷ []))) 2
    ≡ ok (2 + length (uleb128 4 624485), 624485)
read_uleb128-uleb128_example = read_uleb128-uleb128 (7 ∷ 7 ∷ []) (9 ∷ []) 624485 (omega arith)

read_two : read_uleb128 (0xe5 ∷ 0x8e ∷ 0x26 ∷ 9 ∷ []) 0 ≡ ok (3, 624485)
unfolding read_uleb128 uleb128_loop
read_two = refl

adler32-eq_example :
    adler32 (0x57 ∷ 0x69 ∷ 0x6b ∷ [])
    ≡ (3 + weighted_sum (0x57 ∷ 0x69 ∷ 0x6b ∷ [])) % mod_adler * 2 ^ 16
      + (1 + sum (0x57 ∷ 0x69 ∷ 0x6b ∷ [])) % mod_adler
adler32-eq_example =
    adler32-eq (0x57 ∷ 0x69 ∷ 0x6b ∷ []) (omega arith, (omega arith, (omega arith, tt)))

-- `sget v2, field@5` and `return v2`.
abbrev two_insns : Bytes
two_insns = 0x60 ∷ 2 ∷ 5 ∷ 0 ∷ 0x0f ∷ 2 ∷ []

abbrev patched_insns : Bytes
patched_insns = 0x13 ∷ 2 ∷ 35 ∷ 0 ∷ 0x0f ∷ 2 ∷ []

rewrite_two : rewrite_sget_in_insns two_insns 5 no_patches ≡ some (patched_insns, one_patch)
unfolding rewrite_sget_in_insns rewrite_loop action action_at payload_units const_16 units_of
    opcode_length_code_units
rewrite_two = refl

rewrite_sget_in_insns_again_example :
    rewrite_sget_in_insns patched_insns 5 no_patches ≡ some (patched_insns, no_patches)
rewrite_sget_in_insns_again_example =
    rewrite_sget_in_insns_again 5 two_insns patched_insns no_patches (one_patch) no_patches
      rewrite_two

patch_dex_ok_example :
    (length patched_dex ≡ length small_dex)
    × (one_patch.bytes_rewritten ≡ 4 * one_patch.patches)
    × (((one_patch.patches ≡ 0) × (patched_dex ≡ small_dex))
        ⊎ ((0 < one_patch.patches) × IsSealed zeros patched_dex))
patch_dex_ok_example = patch_dex_ok zeros (λ b. refl) small_dex patched_dex one_patch patch_small

abbrev cut_dex : Bytes
cut_dex = 100 ∷ []

patch_cut : patch_dex zeros cut_dex ≡ (err (dex_too_short 1), cut_dex)
unfolding patch_dex parse_header
patch_cut = refl

patch_dex_err_example : cut_dex ≡ cut_dex
patch_dex_err_example = patch_dex_err zeros (λ b. refl) cut_dex cut_dex (dex_too_short 1) patch_cut
