-- ===== src/Apk/Entries.antt =====
-- What the repacked archive is made of.
use aabox.Common.{
  ℕ, ◌+◌, ◌^◌, ◌<◌, true, false, Option, some, ok, List, [], ◌∷◌, ◌++◌, append_assoc, append-nil,
  ltb, Bytes, Bool, Bool-cases, inl, inr, ascii, ◌&&◌, if◌then◌else◌, ◌≡◌, refl, ap, ◌∙◌, arith,
  ◌-◌, length,
}
use aabox.Dex.Insns.{DexPatchResult}
use aabox.Dex.Patch.{patch_dex}
use aabox.Apk.{
  is_signing_artefact, is_classes_dex, Entry, Written, write_entry, Zip, PatchStats, count_file,
  CompressionMethod, stored, deflated, other_method, starts_with, ends_with, use_method,
  repack_entry, repack_loop, repack_and_patch,
}
use aabox.Apk.Names.{
  IsDexName, IsDexName-is_classes_dex, is_classes_dex-IsDexName, of_signature,
  is_signing_artefact-of_signature,
}

-- The entry for the contents of a name: deflated where it was, without alignment, and stored where it
-- was not, at a page for a native library and at four bytes for all else.
abbrev pub deflated_entry : Bytes → Bytes → Written
deflated_entry name contents = record {
  written_name = name;
  method = deflated;
  alignment = 1;
  large_file = ltb (2 ^ 32 - 1) (length contents);
  written_data = contents;
}

abbrev pub stored_entry : Bytes → Bytes → Written
stored_entry name contents = record {
  written_name = name;
  method = stored;
  alignment = if starts_with (ascii "lib/") name && ends_with (ascii ".so") name then 4096 else 4;
  large_file = ltb (2 ^ 32 - 1) (length contents);
  written_data = contents;
}

unfoldable pub entry_of : Bytes → CompressionMethod → Bytes → Written
entry_of name deflated contents = deflated_entry name contents
entry_of name stored contents = stored_entry name contents
entry_of name (other_method n) contents = stored_entry name contents

write_entry-entry_of :
    (name : Bytes) (method : CompressionMethod) (contents : Bytes)
    → write_entry name contents method ≡ entry_of name method contents
unfolding write_entry entry_of use_method
write_entry-entry_of name deflated contents = refl
write_entry-entry_of name stored contents = refl
write_entry-entry_of name (other_method n) contents = refl

-- The entries written for those of an archive, in order, with the numbers of patches and of files
-- patched: a file of a signature is left out, a DEX file is patched, and all else is copied.
pub data Repacked (sha1 : Bytes → Bytes) : List (Option Entry) → List Written → ℕ → ℕ → Type 0 where
  at_end : Repacked sha1 [] [] 0 0
  left_out :
      {e : Entry} {es : List (Option Entry)} {ws : List Written} {n k : ℕ}
      → of_signature e.name ≡ true
      → Repacked sha1 es ws n k
      → Repacked sha1 (some e ∷ es) ws n k
  copied :
      {e : Entry} {es : List (Option Entry)} {ws : List Written} {n k : ℕ} (contents : Bytes)
      → of_signature e.name ≡ false
      → ¬ (IsDexName e.name)
      → e.contents ≡ some contents
      → Repacked sha1 es ws n k
      → Repacked sha1 (some e ∷ es) (entry_of e.name e.compression contents ∷ ws) n k
  same_dex :
      {e : Entry} {es : List (Option Entry)} {ws : List Written} {n k : ℕ}
      (contents contents' : Bytes) (r : DexPatchResult)
      → of_signature e.name ≡ false
      → IsDexName e.name
      → e.contents ≡ some contents
      → patch_dex sha1 contents ≡ (ok r, contents')
      → r.patches ≡ 0
      → Repacked sha1 es ws n k
      → Repacked sha1 (some e ∷ es) (entry_of e.name e.compression contents' ∷ ws) n k
  changed_dex :
      {e : Entry} {es : List (Option Entry)} {ws : List Written} {n k : ℕ}
      (contents contents' : Bytes) (r : DexPatchResult)
      → of_signature e.name ≡ false
      → IsDexName e.name
      → e.contents ≡ some contents
      → patch_dex sha1 contents ≡ (ok r, contents')
      → 0 < r.patches
      → Repacked sha1 es ws n k
      → Repacked sha1
          (some e ∷ es)
          (entry_of e.name e.compression contents' ∷ ws)
          (r.patches + n)
          (1 + k)

artefact_test : (name : Bytes) (b : Bool) → of_signature name ≡ b → is_signing_artefact name ≡ b
artefact_test name b h = is_signing_artefact-of_signature name ∙ h

no_dex_test : (name : Bytes) → ¬ (IsDexName name) → is_classes_dex name ≡ false
no_dex_test name other = elim (Bool-cases (is_classes_dex name)) [
  | inl e ↦ absurd (other (is_classes_dex-IsDexName name e))
  | inr e ↦ e
]

module _ (zip : Zip) (sha1 : Bytes → Bytes) where
  abbrev more_patches : PatchStats → ℕ → ℕ → PatchStats
  more_patches s n k = record {
    sdk_int_patches = s.sdk_int_patches + n;
    dex_files_patched = s.dex_files_patched + k;
  }

  count_none : (r : DexPatchResult) (s : PatchStats) → r.patches ≡ 0 → count_file r s ≡ s
  count_none r s h =
      let none_made : ltb 0 r.patches ≡ false = ground (arith, h) in rw none_made refl

  count_some :
      (r : DexPatchResult) (s : PatchStats)
      → 0 < r.patches
      → count_file r s ≡ more_patches s r.patches 1
  count_some r s h = let some_made : ltb 0 r.patches ≡ true = ground (arith, h) in rw some_made refl

  nothing_more : (s : PatchStats) → s ≡ more_patches s 0 0
  nothing_more s = more s.sdk_int_patches s.dex_files_patched
    where
      more :
          (a b : ℕ)
          → ◌≡◌ {A = PatchStats}
              (record { sdk_int_patches = a; dex_files_patched = b })
              (record { sdk_int_patches = a + 0; dex_files_patched = b + 0 })
      more a b =
          let a0 : a + 0 ≡ a = omega arith in let b0 : b + 0 ≡ b = omega arith in rw (a0, b0) refl

  twice_more :
      (s : PatchStats) (r n k : ℕ)
      → more_patches (more_patches s r 1) n k ≡ more_patches s (r + n) (1 + k)
  twice_more s r n k =
      let a : (s.sdk_int_patches + r) + n ≡ s.sdk_int_patches + (r + n) = omega arith in
      let b : (s.dex_files_patched + 1) + k ≡ s.dex_files_patched + (1 + k) = omega arith in
      λ i. record { sdk_int_patches = a i; dex_files_patched = b i }

  module _ (takes_all : (ws : List Written) (w : Written) → zip.takes ws w ≡ true) where
    -- One entry more, and the rest.
    one_more :
        (es : List (Option Entry)) (ws new : List Written) (w : Written) (s s' : PatchStats)
        → repack_loop zip sha1 es (ws ++ (w ∷ []), s) ≡ ok ((ws ++ (w ∷ [])) ++ new, s')
        → repack_loop zip sha1 es (ws ++ (w ∷ []), s) ≡ ok (ws ++ (w ∷ new), s')
    one_more es ws new w s s' h = h ∙ ap (λ t. ok (t, s')) (append_assoc ws (w ∷ []) new)

    repack_loop-Repacked :
        {es : List (Option Entry)} {new : List Written} {n k : ℕ} (ws : List Written)
        (s : PatchStats)
        → Repacked sha1 es new n k
        → repack_loop zip sha1 es (ws, s) ≡ ok (ws ++ new, more_patches s n k)
    unfolding repack_loop repack_entry
    repack_loop-Repacked ws s at_end = rw (append-nil ws) (ap (λ t. ok (ws, t)) (nothing_more s))
    repack_loop-Repacked ws s (left_out {e = e} a r) =
        rw (artefact_test e.name true a) (repack_loop-Repacked ws s r)
    repack_loop-Repacked ws s (copied {e = e} {es = es} {ws = new} contents a d c r) =
        let w = entry_of e.name e.compression contents in
        simp
          (
            artefact_test e.name false a,
            no_dex_test e.name d,
            c,
            write_entry-entry_of e.name e.compression contents,
            takes_all ws w,
          )
          (one_more es ws new w s _ (repack_loop-Repacked (ws ++ (w ∷ [])) s r))
    repack_loop-Repacked ws s
          (same_dex {e = e} {es = es} {ws = new} contents contents' x a d c q z r) =
        let w = entry_of e.name e.compression contents' in
        simp
          (
            artefact_test e.name false a,
            IsDexName-is_classes_dex e.name d,
            c,
            q,
            write_entry-entry_of e.name e.compression contents',
            takes_all ws w,
            count_none x s z,
          )
          (one_more es ws new w s _ (repack_loop-Repacked (ws ++ (w ∷ [])) s r))
    repack_loop-Repacked ws s
          (changed_dex {e = e} {es = es} {ws = new} {n = n} {k = k} contents contents' x a d c q z
            r) =
        let w = entry_of e.name e.compression contents' in
        let later =
          one_more es ws new w (more_patches s x.patches 1) _
            (repack_loop-Repacked (ws ++ (w ∷ [])) (more_patches s x.patches 1) r) in
        simp
          (
            artefact_test e.name false a,
            IsDexName-is_classes_dex e.name d,
            c,
            q,
            write_entry-entry_of e.name e.compression contents',
            takes_all ws w,
            count_some x s z,
          )
          (later ∙ ap (λ t. ok (ws ++ (w ∷ new), t)) (twice_more s x.patches n k))

    -- When every entry of an archive can be read and the writer takes all of them, the archive
    -- that is written has these entries in order: a file of a signature below META-INF is left
    -- out, a file named `classes`, digits and `.dex` is replaced by its patch, and all else keeps
    -- its contents; each keeps its name, deflated where it was and stored otherwise, with the
    -- alignment 4096 for a stored native library and 4 for other stored files. The statistics are
    -- the sum of the patches and the number of files with one at least.
    pub repack_and_patch-Repacked :
        {es : List (Option Entry)} {new : List Written} {n k : ℕ} (apk_bytes out : Bytes)
        → zip.entries apk_bytes ≡ some es
        → zip.finish new ≡ some out
        → Repacked sha1 es new n k
        → repack_and_patch zip sha1 apk_bytes
          ≡ ok (out, record { sdk_int_patches = n; dex_files_patched = k })
    unfolding repack_and_patch
    repack_and_patch-Repacked {n = n} {k = k} apk_bytes out e f r =
        let all =
          repack_loop-Repacked [] (record { sdk_int_patches = 0; dex_files_patched = 0 }) r in
        let n0 : 0 + n ≡ n = omega arith in
        let k0 : 0 + k ≡ k = omega arith in rw (e, all, f, n0, k0) refl
