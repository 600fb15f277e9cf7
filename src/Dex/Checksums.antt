-- ===== src/Dex/Checksums.antt =====
-- The outcome of `patch_dex`: what is kept, and the header of a file that was patched.
use aabox.Common.{
  ℕ, ◌+◌, ◌*◌, ◌≤◌, ◌<◌, ◌≡◌, ◌⊎◌, inl, inr, refl, sym, ap, ◌∙◌, subst, Bool-cases, none, some,
  Result, Result-cases, ok, err, ◌++◌, ltb, ltb→lt, ltb→le, ltb_of_le, length, take, drop,
  length-take, take_left, drop_left, drop-drop, Bytes, le32, arith,
}
use aabox.Dex.{DexError, adler32}
use aabox.Dex.Insns.{DexPatchResult}
use aabox.Dex.Tables.{DexHeader, parse_header}
use aabox.Dex.Patch.{Work, no_patches, copy_at, locate_field, finish_patch, patch_dex}
use aabox.Dex.Sizes.{Progress, length-copy_at, walk_code_items-Progress}

module _ (off : ℕ) (bytes dex : Bytes) (h : off ≤ length dex) where
  front_length : length (take off dex) ≡ off
  front_length = omega (arith, length-take off dex)

  drop-copy_at : drop off (copy_at off bytes dex) ≡ bytes ++ drop (off + length bytes) dex
  unfolding copy_at
  drop-copy_at =
      ap (λ n. drop n (copy_at off bytes dex)) (sym front_length)
      ∙ drop_left (take off dex) (bytes ++ drop (off + length bytes) dex)

  -- The bytes stand where they were copied to.
  copy_at_here : take (length bytes) (drop off (copy_at off bytes dex)) ≡ bytes
  copy_at_here = rw drop-copy_at (take_left bytes (drop (off + length bytes) dex))

  -- What stands behind them is as before.
  copy_at_behind : drop (off + length bytes) (copy_at off bytes dex) ≡ drop (off + length bytes) dex
  copy_at_behind =
      drop-drop off (length bytes) (copy_at off bytes dex)
      ∙ rw drop-copy_at (drop_left bytes (drop (off + length bytes) dex))

-- The header of a file is in order: the checksum and the signature are those of what follows them.
pub record IsSealed (sha1 : Bytes → Bytes) (dex : Bytes) : Type 0 where
  pub checksum : take 4 (drop 8 dex) ≡ le32 (adler32 (drop 12 dex))
  pub signature : take 20 (drop 12 dex) ≡ sha1 (drop 32 dex)

parse_header-length : (dex : Bytes) {h : DexHeader} → parse_header dex ≡ ok h → 0x70 ≤ length dex
unfolding parse_header
parse_header-length dex e = elim (Bool-cases (ltb (length dex) 0x70)) [
  | inl small ↦ absurd (cc (rw small at e))
  | inr large ↦ ltb→le (length dex) 0x70 large
]

module _ (sha1 : Bytes → Bytes) (sha1_size : (b : Bytes) → length (sha1 b) ≡ 20) where
  recomputed : Bytes → Bytes
  recomputed dex =
      let signed = copy_at 12 (sha1 (drop 32 dex)) dex in
      copy_at 8 (le32 (adler32 (drop 12 signed))) signed

  recomputed-IsSealed : (dex : Bytes) → 32 ≤ length dex → IsSealed sha1 (recomputed dex)
  unfolding recomputed
  recomputed-IsSealed dex h =
      let signed = copy_at 12 (sha1 (drop 32 dex)) dex in
      let sum = le32 (adler32 (drop 12 signed)) in
      let same : length signed ≡ length dex =
        length-copy_at 12 (sha1 (drop 32 dex)) dex (omega (arith, sha1_size (drop 32 dex))) in
      let behind : drop 12 (copy_at 8 sum signed) ≡ drop 12 signed =
        copy_at_behind 8 sum signed (omega arith) in
      let behind' : drop 32 signed ≡ drop 32 dex =
        subst (λ n. drop (12 + n) signed ≡ drop (12 + n) dex) (sha1_size (drop 32 dex))
          (copy_at_behind 12 (sha1 (drop 32 dex)) dex (omega arith)) in
      let here : take 20 (drop 12 signed) ≡ sha1 (drop 32 dex) =
        subst (λ n. take n (drop 12 signed) ≡ sha1 (drop 32 dex)) (sha1_size (drop 32 dex))
          (copy_at_here 12 (sha1 (drop 32 dex)) dex (omega arith)) in
      let data' : drop 32 (copy_at 8 sum signed) ≡ drop 32 dex =
        drop-drop 12 20 (copy_at 8 sum signed)
        ∙ ap (drop 20) behind
        ∙ sym (drop-drop 12 20 signed)
        ∙ behind' in
      record {
        checksum = rw behind (copy_at_here 8 sum signed (omega arith));
        signature = rw (behind, data') here;
      }

  length-recomputed : (dex : Bytes) → 32 ≤ length dex → length (recomputed dex) ≡ length dex
  unfolding recomputed
  length-recomputed dex h =
      let signed = copy_at 12 (sha1 (drop 32 dex)) dex in
      let same : length signed ≡ length dex =
        length-copy_at 12 (sha1 (drop 32 dex)) dex (omega (arith, sha1_size (drop 32 dex))) in
      length-copy_at 8 (le32 (adler32 (drop 12 signed))) signed (omega arith) ∙ same

  -- The result and the file that `patch_dex` leaves, against the file that it was given.
  record IsPatched (dex : Bytes) (result : DexPatchResult) (dex' : Bytes) : Type 0 where
    pub same_length : length dex' ≡ length dex
    pub four_each : result.bytes_rewritten ≡ 4 * result.patches
    pub unpatched : result.patches ≡ 0 → dex' ≡ dex
    pub sealed : 0 < result.patches → IsSealed sha1 dex'

  abbrev Outcome : Bytes → Result DexError DexPatchResult × Bytes → Type 0
  Outcome dex (ok result, dex') = IsPatched dex result dex'
  Outcome dex (err e, dex') = dex' ≡ dex

  no_patches-Outcome : (dex : Bytes) → Outcome dex (ok no_patches, dex)
  no_patches-Outcome dex = record {
    same_length = refl;
    four_each = refl;
    unpatched = λ e. refl;
    sealed = λ h. absurd (omega arith);
  }

  finish_patch-Outcome :
      (dex : Bytes) (w : Work)
      → 32 ≤ length dex
      → Progress (dex, no_patches) w
      → Outcome dex (finish_patch sha1 w)
  unfolding finish_patch recomputed
  finish_patch-Outcome dex (dex', result) h p = elim (Bool-cases (ltb 0 result.patches)) [
    | inl some_made ↦
        rw (some_made, ltb_of_le (length dex') 32 (omega (arith, p.same_length)))
          (record {
            same_length = length-recomputed dex' (omega (arith, p.same_length)) ∙ p.same_length;
            four_each = omega (arith, p.four_each);
            unpatched = λ e. absurd (omega (arith, ltb→lt 0 result.patches some_made));
            sealed = λ m. recomputed-IsSealed dex' (omega (arith, p.same_length));
          })
    | inr none_made ↦ rw none_made (record {
      same_length = p.same_length;
      four_each = omega (arith, p.four_each);
      unpatched = p.unpatched;
      sealed = λ m. absurd (omega (arith, ltb→le 0 result.patches none_made));
    })
  ]

  patch_dex-Outcome : (dex : Bytes) → Outcome dex (patch_dex sha1 dex)
  unfolding patch_dex
  patch_dex-Outcome dex = elim (Result-cases (parse_header dex)) [
    | inr (e, r) ↦ rw (r, patch_dex) refl
    | inl (h, r) ↦ elim (Result-cases (locate_field dex h)) [
      | inr (e, f) ↦ rw (r, patch_dex) (rw (f, patch_dex) refl)
      | inl (none, f) ↦ rw (r, patch_dex) (rw (f, patch_dex) (no_patches-Outcome dex))
      | inl (some field, f) ↦
          rw (r, patch_dex)
            (rw (f, patch_dex)
              (finish_patch-Outcome dex _ (omega (arith, parse_header-length dex r))
                (walk_code_items-Progress h field (dex, no_patches))))
    ]
  ]

  -- With a digest of 20 bytes, a patch that succeeds keeps the length of the file and counts four
  -- bytes for each patch; either it counts no patch and leaves the file as it is, or it leaves a
  -- file whose header holds the Adler-32 checksum and the digest of what follows them.
  pub patch_dex_ok :
      (dex dex' : Bytes) (result : DexPatchResult)
      → patch_dex sha1 dex ≡ (ok result, dex')
      → (length dex' ≡ length dex)
        × (result.bytes_rewritten ≡ 4 * result.patches)
        × (((result.patches ≡ 0) × (dex' ≡ dex)) ⊎ ((0 < result.patches) × IsSealed sha1 dex'))
  patch_dex_ok dex dex' result h =
      let p : IsPatched dex result dex' = subst (Outcome dex) h (patch_dex-Outcome dex) in
      (
        p.same_length,
        p.four_each,
        elim (Bool-cases (ltb 0 result.patches)) [
          | inl some_made ↦ let m = ltb→lt 0 result.patches some_made in inr (m, p.sealed m)
          | inr none_made ↦
              let z : result.patches ≡ 0 = omega (arith, ltb→le 0 result.patches none_made) in
              inl (z, p.unpatched z)
        ],
      )

  -- With a digest of 20 bytes, a patch that fails leaves the file as it is.
  pub patch_dex_err :
      (dex dex' : Bytes) (e : DexError) → patch_dex sha1 dex ≡ (err e, dex') → dex' ≡ dex
  patch_dex_err dex dex' e h = subst (Outcome dex) h (patch_dex-Outcome dex)
