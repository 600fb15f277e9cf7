-- ===== src/Apk.antt =====
-- The repacking of an archive, crates/aabox-resigner/src/apk.rs, and the choice of files to process
-- in crates/aabox-resigner/src/watcher.rs. The crate `zip` is a parameter.
pub mod Names
pub mod Entries
pub mod Process
pub mod Handled
mod Tests
use aabox.Common.{
  ℕ, suc, ◌+◌, ◌-◌, ◌%◌, ◌^◌, ◌<◌, ◌&&◌, ◌||◌, not, Bool, true, false, Option, none, some, Result,
  ok, err, List, [], ◌∷◌, ◌++◌, length, take, drop, map, ltb, leb, ◌==◌, if◌then◌else◌, Bytes,
  ascii, bytes_eq,
}
use aabox.Dex.{DexError}
use aabox.Dex.Insns.{DexPatchResult}
use aabox.Dex.Patch.{patch_dex}

abbrev pub starts_with : Bytes → Bytes → Bool
starts_with prefix name = bytes_eq (take (length prefix) name) prefix

abbrev pub ends_with : Bytes → Bytes → Bool
ends_with suffix name =
    leb (length suffix) (length name) && bytes_eq (drop (length name - length suffix) name) suffix

-- `to_ascii_uppercase` and `to_ascii_lowercase`, on the bytes of a name.
abbrev pub upper_byte : ℕ → ℕ
upper_byte c = if leb b'a' c && leb c b'z' then c - 32 else c

abbrev pub lower_byte : ℕ → ℕ
lower_byte c = if leb b'A' c && leb c b'Z' then c + 32 else c

abbrev pub slashes : Bytes → ℕ
slashes [] = 0
slashes (c ∷ cs) = if c == b'/' then suc (slashes cs) else slashes cs

abbrev pub has_signing_name : Bytes → Bool
has_signing_name upper =
    ends_with (ascii "/MANIFEST.MF") upper
    || ends_with (ascii "/CERT.SF") upper
    || ends_with (ascii "/CERT.RSA") upper
    || ends_with (ascii "/CERT.DSA") upper
    || ends_with (ascii "/CERT.EC") upper
    || (slashes upper == 1
        && (ends_with (ascii ".SF") upper
            || ends_with (ascii ".RSA") upper
            || ends_with (ascii ".DSA") upper
            || ends_with (ascii ".EC") upper
            || bytes_eq upper (ascii "META-INF/MANIFEST.MF")))

unfoldable pub is_signing_artefact : Bytes → Bool
is_signing_artefact name =
    let upper = map upper_byte name in
    if not (starts_with (ascii "META-INF/") upper) then false else has_signing_name upper

abbrev pub all_digits : Bytes → Bool
all_digits [] = true
all_digits (c ∷ cs) = (leb b'0' c && leb c b'9') && all_digits cs

unfoldable pub is_classes_dex : Bytes → Bool
is_classes_dex name =
    if not (starts_with (ascii "classes") name) || not (ends_with (ascii ".dex") name)
    then false
    else all_digits (take (length name - 4 - 7) (drop 7 name))

pub data CompressionMethod : Type 0 where
  stored deflated : CompressionMethod
  other_method : ℕ → CompressionMethod

-- An entry as the archive gives it; `contents` is `none` where it cannot be read.
pub record Entry : Type 0 where
  pub name : Bytes
  pub compression : CompressionMethod
  pub contents : Option Bytes

-- What is given to the writer for one entry.
pub record Written : Type 0 where
  pub written_name : Bytes
  pub method : CompressionMethod
  pub alignment : ℕ
  pub large_file : Bool
  pub written_data : Bytes

pub data ApkError : Type 0 where
  not_a_zip unreadable_entry refused_by_writer not_finished : ApkError
  dex : DexError → ApkError

-- The crate `zip`: the entries of an archive in stored order, `none` where it is no
-- archive, and an entry `none` where `by_index` fails; whether the
-- writer takes an entry behind those that it has; and the archive of the entries.
pub record Zip : Type 0 where
  pub entries : Bytes → Option (List (Option Entry))
  pub takes : List Written → Written → Bool
  pub finish : List Written → Option Bytes

unfoldable pub use_method : CompressionMethod → CompressionMethod
use_method deflated = deflated
use_method _ = stored

abbrev pub alignment_of : Bytes → CompressionMethod → ℕ
alignment_of name stored =
    if starts_with (ascii "lib/") name && ends_with (ascii ".so") name then 4096 else 4
alignment_of name _ = 1

-- `write_entry`
unfoldable pub write_entry : Bytes → Bytes → CompressionMethod → Written
unfolding use_method
write_entry name contents original_method = record {
  written_name = name;
  method = use_method original_method;
  alignment = alignment_of name (use_method original_method);
  large_file = ltb (2 ^ 32 - 1) (length contents);
  written_data = contents;
}

pub record PatchStats : Type 0 where
  pub sdk_int_patches : ℕ
  pub dex_files_patched : ℕ

abbrev pub count_file : DexPatchResult → PatchStats → PatchStats
count_file r stats =
    if ltb 0 r.patches
    then record {
      sdk_int_patches = stats.sdk_int_patches + r.patches;
      dex_files_patched = stats.dex_files_patched + 1;
    }
    else stats

module _ (zip : Zip) (sha1 : Bytes → Bytes) where
  open zip use {entries, takes, finish}

  abbrev pub Progress : Type 0
  Progress = List Written × PatchStats

  abbrev pub added : Written → Progress → Result ApkError Progress
  added w (ws, stats) = if takes ws w then ok (ws ++ (w ∷ []), stats) else err refused_by_writer

  abbrev pub patched :
      Bytes
      → CompressionMethod
      → Progress
      → Result DexError DexPatchResult × Bytes
      → Result ApkError Progress
  patched name method (ws, stats) (err e, contents) = err (dex e)
  patched name method (ws, stats) (ok r, contents) =
      added (write_entry name contents method) (ws, count_file r stats)

  abbrev pub repack_contents :
      Bytes → CompressionMethod → Option Bytes → Progress → Result ApkError Progress
  repack_contents name method none p = err unreadable_entry
  repack_contents name method (some contents) p =
      if is_classes_dex name
      then patched name method p (patch_dex sha1 contents)
      else added (write_entry name contents method) p

  unfoldable pub repack_entry : Option Entry → Progress → Result ApkError Progress
  unfolding is_signing_artefact is_classes_dex write_entry
  repack_entry none p = err unreadable_entry
  repack_entry (some e) p =
      if is_signing_artefact e.name then ok p else repack_contents e.name e.compression e.contents p

  abbrev pub go_on :
      (Progress → Result ApkError Progress) → Result ApkError Progress → Result ApkError Progress
  go_on go (ok p) = go p
  go_on go (err e) = err e

  unfoldable pub repack_loop : List (Option Entry) → Progress → Result ApkError Progress
  unfolding repack_entry
  repack_loop [] p = ok p
  repack_loop (e ∷ es) p = go_on (repack_loop es) (repack_entry e p)

  abbrev finished : Option Bytes → PatchStats → Result ApkError (Bytes × PatchStats)
  finished none stats = err not_finished
  finished (some out) stats = ok (out, stats)

  abbrev of_progress : Result ApkError Progress → Result ApkError (Bytes × PatchStats)
  of_progress (err e) = err e
  of_progress (ok (ws, stats)) = finished (finish ws) stats

  abbrev of_entries : Option (List (Option Entry)) → Result ApkError (Bytes × PatchStats)
  of_entries none = err not_a_zip
  of_entries (some es) =
      of_progress (repack_loop es ([], record { sdk_int_patches = 0; dex_files_patched = 0 }))

  unfoldable pub repack_and_patch : Bytes → Result ApkError (Bytes × PatchStats)
  unfolding repack_loop
  repack_and_patch apk_bytes = of_entries (entries apk_bytes)

unfoldable pub is_carcar_apk_filename : Bytes → Bool
is_carcar_apk_filename name =
    let lower = map lower_byte name in
    starts_with (ascii "carcar") lower
    && (ends_with (ascii ".apk") lower && not (ends_with (ascii ".aabox-patched.apk") lower))
