-- ===== src/Apk/Process.antt =====
-- From a file to the signed archive, `process_apk` of crates/aabox-resigner/src/lib.rs, and what the
-- watcher does with a file, `handle_one` of crates/aabox-resigner/src/watcher.rs. The file system and
-- the package manager are parameters.
use aabox.Common.{
  ℕ, ◌*◌, ◌≡◌, refl, Bool, true, false, Option, none, some, Result, ok, err, length, ltb,
  if◌then◌else◌, Bytes,
}
use aabox.Sign.{SignError}
use aabox.Sign.Apk.{Signer, sign_apk_v2}
use aabox.Apk.{ApkError, Zip, PatchStats, repack_and_patch}

pub data ProcessError : Type 0 where
  no_signer unreadable unwritable too_small not_installed : ProcessError
  apk : ApkError → ProcessError
  sign : SignError → ProcessError

pub record ProcessReport : Type 0 where
  pub input_bytes : ℕ
  pub output_bytes : ℕ
  pub sdk_int_patches : ℕ
  pub dex_files_patched : ℕ

-- The steps of the watcher are over the state `F` of the files; `install` is `pm install`.
pub record Host (F : Type 0) : Type 0 where
  pub signer : F → Option Signer
  pub size : Bytes → F → Option ℕ
  pub read_file : Bytes → F → Option Bytes
  pub write_file : Bytes → Bytes → F → Bool × F
  pub patched_path : Bytes → Bytes
  pub install : Bytes → F → Bool × F
  pub remove_file : Bytes → F → F

module _ {F : Type 0} (host : Host F) (zip : Zip) (sha1 sha256 : Bytes → Bytes) where
  open host use {signer, size, read_file, write_file, patched_path, install, remove_file}

  abbrev pub Outcome : Type 0
  Outcome = Result ProcessError ProcessReport × F

  abbrev pub report : Bytes → Bytes → PatchStats → ProcessReport
  report apk_bytes signed stats = record {
    input_bytes = length apk_bytes;
    output_bytes = length signed;
    sdk_int_patches = stats.sdk_int_patches;
    dex_files_patched = stats.dex_files_patched;
  }

  abbrev pub after_write : ProcessReport → Bool × F → Outcome
  after_write r (true, f) = (ok r, f)
  after_write r (false, f) = (err unwritable, f)

  abbrev pub after_sign : Bytes → Bytes → PatchStats → Result SignError Bytes → F → Outcome
  after_sign output apk_bytes stats (err e) f = (err (sign e), f)
  after_sign output apk_bytes stats (ok signed) f =
      after_write (report apk_bytes signed stats) (write_file output signed f)

  abbrev pub after_repack :
      Bytes → Bytes → Signer → Result ApkError (Bytes × PatchStats) → F → Outcome
  after_repack output apk_bytes key (err e) f = (err (apk e), f)
  after_repack output apk_bytes key (ok (repacked, stats)) f =
      after_sign output apk_bytes stats (sign_apk_v2 sha256 repacked key) f

  abbrev pub after_read : Bytes → Signer → Option Bytes → F → Outcome
  after_read output key none f = (err unreadable, f)
  after_read output key (some apk_bytes) f =
      after_repack output apk_bytes key (repack_and_patch zip sha1 apk_bytes) f

  abbrev pub after_load : Bytes → Bytes → Option Signer → F → Outcome
  after_load input output none f = (err no_signer, f)
  after_load input output (some key) f = after_read output key (read_file input f) f

  unfoldable pub process_apk : Bytes → Bytes → F → Outcome
  process_apk input output f = after_load input output (signer f) f

  abbrev pub after_install : Bytes → Bool × F → Result ProcessError (Unit {0}) × F
  after_install patched (true, f) = (ok tt, remove_file patched f)
  after_install patched (false, f) = (err not_installed, f)

  abbrev pub after_process : Bytes → Outcome → Result ProcessError (Unit {0}) × F
  after_process patched (err e, f) = (err e, f)
  after_process patched (ok r, f) = after_install patched (install patched f)

  abbrev pub after_size : Bytes → Option ℕ → F → Result ProcessError (Unit {0}) × F
  after_size input none f = (err unreadable, f)
  after_size input (some n) f =
      if ltb n (1024 * 1024)
      then (err too_small, f)
      else after_process (patched_path input) (process_apk input (patched_path input) f)

  unfoldable pub handle_one : Bytes → F → Result ProcessError (Unit {0}) × F
  unfolding process_apk
  handle_one input f = after_size input (size input f) f

  -- Why a file is refused before anything is written.
  pub data Refused (input : Bytes) (f : F) : ProcessError → Type 0 where
    key_missing : signer f ≡ none → Refused input f no_signer
    not_read : read_file input f ≡ none → Refused input f unreadable
    not_repacked :
        (apk_bytes : Bytes) (e : ApkError)
        → read_file input f ≡ some apk_bytes
        → repack_and_patch zip sha1 apk_bytes ≡ err e
        → Refused input f (apk e)
    not_signed :
        (apk_bytes repacked : Bytes) (key : Signer) (stats : PatchStats) (e : SignError)
        → signer f ≡ some key
        → read_file input f ≡ some apk_bytes
        → repack_and_patch zip sha1 apk_bytes ≡ ok (repacked, stats)
        → sign_apk_v2 sha256 repacked key ≡ err e
        → Refused input f (sign e)

  -- Either the files are as they were, or the signature of the patched archive of the input, by the
  -- key that was loaded, was given to the file system to write.
  pub data Wrote (input output : Bytes) (f : F) : Outcome → Type 0 where
    unchanged : (e : ProcessError) → Refused input f e → Wrote input output f (err e, f)
    tried :
        (signed repacked apk_bytes : Bytes) (key : Signer) (stats : PatchStats)
        → signer f ≡ some key
        → read_file input f ≡ some apk_bytes
        → repack_and_patch zip sha1 apk_bytes ≡ ok (repacked, stats)
        → sign_apk_v2 sha256 repacked key ≡ ok signed
        → Wrote input output f
            (after_write (report apk_bytes signed stats) (write_file output signed f))

  module _ (input output : Bytes) (f : F) (key : Signer) (loaded : signer f ≡ some key) where
    module _ (apk_bytes : Bytes) (read : read_file input f ≡ some apk_bytes) where
      sign-Wrote :
          (repacked : Bytes) (stats : PatchStats) (r : Result SignError Bytes)
          → repack_and_patch zip sha1 apk_bytes ≡ ok (repacked, stats)
          → sign_apk_v2 sha256 repacked key ≡ r
          → Wrote input output f (after_sign output apk_bytes stats r f)
      sign-Wrote repacked stats (err e) h k =
          unchanged (sign e) (not_signed apk_bytes repacked key stats e loaded read h k)
      sign-Wrote repacked stats (ok signed) h k =
          tried signed repacked apk_bytes key stats loaded read h k

      repack-Wrote :
          (r : Result ApkError (Bytes × PatchStats))
          → repack_and_patch zip sha1 apk_bytes ≡ r
          → Wrote input output f (after_repack output apk_bytes key r f)
      repack-Wrote (err e) h = unchanged (apk e) (not_repacked apk_bytes e read h)
      repack-Wrote (ok (repacked, stats)) h =
          sign-Wrote repacked stats (sign_apk_v2 sha256 repacked key) h refl

    read-Wrote :
        (o : Option Bytes)
        → read_file input f ≡ o
        → Wrote input output f (after_read output key o f)
    read-Wrote none e = unchanged unreadable (not_read e)
    read-Wrote (some apk_bytes) e =
        repack-Wrote apk_bytes e (repack_and_patch zip sha1 apk_bytes) refl

  load-Wrote :
      (input output : Bytes) (f : F) (o : Option Signer)
      → signer f ≡ o
      → Wrote input output f (after_load input output o f)
  load-Wrote input output f none e = unchanged no_signer (key_missing e)
  load-Wrote input output f (some key) e = read-Wrote input output f key e (read_file input f) refl

  pub process_apk-Wrote :
      (input output : Bytes) (f : F) → Wrote input output f (process_apk input output f)
  unfolding process_apk
  process_apk-Wrote input output f = load-Wrote input output f (signer f) refl
