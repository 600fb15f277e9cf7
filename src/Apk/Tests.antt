-- ===== src/Apk/Tests.antt =====
-- Examples of a small archive.
use aabox.Common.{
  ◌≡◌, refl, true, some, List, [], ◌∷◌, ◌++◌, ok, Bytes, ascii, concat, map, Option, ℕ, ap, get_or,
  arith,
}
use aabox.Sign.Apk.{Signer}
use aabox.Apk.{Zip, Entry, Written, stored, deflated, other_method, repack_and_patch}
use aabox.Dex.Sample.{one_patch, small_dex, zeros, patched_dex, patch_small}
use aabox.Apk.Names.{IsDexName, of_signature}
use aabox.Apk.Entries.{
  Repacked, at_end, left_out, copied, changed_dex, entry_of, repack_and_patch-Repacked,
}
use aabox.Apk.Process.{Host, handle_one}
use aabox.Apk.Handled.{Handled, handle_one-Handled}

abbrev manifest_entry : Entry
manifest_entry = record {
  name = ascii "META-INF/MANIFEST.MF";
  compression = deflated;
  contents = some (1 ∷ []);
}

abbrev library_entry : Entry
library_entry = record {
  name = ascii "lib/a.so";
  compression = stored;
  contents = some (2 ∷ 3 ∷ []);
}

abbrev old_entry : Entry
old_entry = record { name = ascii "res/x"; compression = other_method 12; contents = some (4 ∷ []) }

abbrev code_entry : Entry
code_entry = record {
  name = ascii "classes2.dex";
  compression = deflated;
  contents = some small_dex;
}

abbrev entries_read : List (Option Entry)
entries_read = some manifest_entry ∷ some library_entry ∷ some code_entry ∷ some old_entry ∷ []

-- The archive of entries is their data, one after the other.
abbrev zip : Zip
zip = record {
  entries = λ b. some entries_read;
  takes = λ ws w. true;
  finish = λ ws. some (concat (map (λ (w : Written). w.written_data) ws));
}

code-IsDexName : IsDexName code_entry.name
code-IsDexName = record { digits = ascii "2"; are_digits = ground arith; spelled = refl }

library_is_no_dex : ¬ (IsDexName library_entry.name)
library_is_no_dex d =
    let first : ◌≡◌ {A = ℕ} 108 99 = ap (λ n. get_or n 0 0) d.spelled in absurd (omega arith)

old_is_no_dex : ¬ (IsDexName old_entry.name)
old_is_no_dex d =
    let first : ◌≡◌ {A = ℕ} 114 99 = ap (λ n. get_or n 0 0) d.spelled in absurd (omega arith)

abbrev entries_written : List Written
entries_written =
    entry_of (ascii "lib/a.so") stored (2 ∷ 3 ∷ [])
    ∷ entry_of (ascii "classes2.dex") deflated patched_dex
    ∷ entry_of (ascii "res/x") (other_method 12) (4 ∷ [])
    ∷ []

small-Repacked : Repacked zeros entries_read entries_written 1 1
unfolding of_signature
small-Repacked = left_out refl (
    copied (2 ∷ 3 ∷ []) refl library_is_no_dex refl (
      changed_dex small_dex patched_dex one_patch refl code-IsDexName refl patch_small (omega arith)
        (copied (4 ∷ []) refl old_is_no_dex refl at_end)))

abbrev small_archive : Bytes
small_archive = 2 ∷ 3 ∷ (patched_dex ++ (4 ∷ []))

finish_small : zip.finish entries_written ≡ some small_archive
unfolding entry_of
finish_small = refl

repack_and_patch-Repacked_example :
    repack_and_patch zip zeros (9 ∷ [])
    ≡ ok (small_archive, record { sdk_int_patches = 1; dex_files_patched = 1 })
repack_and_patch-Repacked_example =
    repack_and_patch-Repacked zip zeros (λ ws w. refl) (9 ∷ []) small_archive refl finish_small
      small-Repacked

abbrev key : Signer
key = record {
  cert_der = 1 ∷ [];
  public_key_spki_der = 2 ∷ [];
  sign_pkcs1_sha256 = λ b. ok (3 ∷ []);
}

-- A disk with one file.
abbrev host : Host Bytes
host = record {
  signer = λ f. some key;
  size = λ p f. some 2000000;
  read_file = λ p f. some f;
  write_file = λ p b f. (true, b);
  patched_path = λ p. p ++ ascii ".out";
  install = λ p f. (true, f);
  remove_file = λ p f. [];
}

handle_one-Handled_example :
    Handled host zip zeros zeros
      (ascii "a.apk")
      (9 ∷ [])
      (handle_one host zip zeros zeros (ascii "a.apk") (9 ∷ []))
handle_one-Handled_example = handle_one-Handled host zip zeros zeros (ascii "a.apk") (9 ∷ [])
