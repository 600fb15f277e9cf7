-- ===== src/Apk/Handled.antt =====
-- What the watcher does with a file, `handle_one` of crates/aabox-resigner/src/watcher.rs.
use aabox.Common.{
  ℕ, ◌*◌, ◌≤◌, Bool, true, false, Bool-cases, inl, inr, Option, none, some, Result, ok, err, Bytes,
  ltb, ltb→le, ltb→lt, ◌<◌, ◌≡◌, refl,
}
use aabox.Sign.Apk.{Signer, sign_apk_v2}
use aabox.Apk.{Zip, PatchStats, repack_and_patch}
use aabox.Apk.Process.{
  ProcessError, unreadable, unwritable, too_small, not_installed, ProcessReport, Host, Outcome,
  report, after_write, process_apk, after_install, after_process, after_size, handle_one, Wrote,
  unchanged, tried, process_apk-Wrote, Refused,
}

module _ {F : Type 0} (host : Host F) (zip : Zip) (sha1 sha256 : Bytes → Bytes) where
  open host use {signer, read_file, size, write_file, patched_path, install, remove_file}

  -- What is written is the signature, by the key that was loaded, of the patch of the input.
  pub record IsPatched (input : Bytes) (f : F) (signed : Bytes) : Type 0 where
    pub apk_bytes : Bytes
    pub repacked : Bytes
    pub key : Signer
    pub stats : PatchStats
    pub is_loaded : signer f ≡ some key
    pub is_read : read_file input f ≡ some apk_bytes
    pub is_repacked : repack_and_patch zip sha1 apk_bytes ≡ ok (repacked, stats)
    pub is_signed : sign_apk_v2 sha256 repacked key ≡ ok signed

  -- What became of a file: it was refused for a reason, a write that failed, an installation that failed, or an
  -- installation of a file that was big enough, behind which the patched archive is removed.
  pub data Handled (input : Bytes) (f : F) : Result ProcessError (Unit {0}) × F → Type 0 where
    no_size : size input f ≡ none → Handled input f (err unreadable, f)
    small : (n : ℕ) → size input f ≡ some n → n < 1024 * 1024 → Handled input f (err too_small, f)
    untouched :
        (e : ProcessError) → Refused host zip sha1 sha256 input f e → Handled input f (err e, f)
    unwritten :
        (signed : Bytes) (f' : F)
        → IsPatched input f signed
        → write_file (patched_path input) signed f ≡ (false, f')
        → Handled input f (err unwritable, f')
    uninstalled :
        (signed : Bytes) (f' f'' : F)
        → IsPatched input f signed
        → write_file (patched_path input) signed f ≡ (true, f')
        → install (patched_path input) f' ≡ (false, f'')
        → Handled input f (err not_installed, f'')
    installed :
        (n : ℕ) (signed : Bytes) (f' f'' : F)
        → size input f ≡ some n
        → 1024 * 1024 ≤ n
        → IsPatched input f signed
        → write_file (patched_path input) signed f ≡ (true, f')
        → install (patched_path input) f' ≡ (true, f'')
        → Handled input f (ok tt, remove_file (patched_path input) f'')

  module _ (input : Bytes) (f : F) (n : ℕ) (found : size input f ≡ some n)
      (big : 1024 * 1024 ≤ n) where
    install-Handled :
        (signed : Bytes) (f' : F) (w : Bool × F)
        → IsPatched input f signed
        → write_file (patched_path input) signed f ≡ (true, f')
        → install (patched_path input) f' ≡ w
        → Handled input f (after_install host zip sha1 sha256 (patched_path input) w)
    install-Handled signed f' (true, f'') p e e' = installed n signed f' f'' found big p e e'
    install-Handled signed f' (false, f'') p e e' = uninstalled signed f' f'' p e e'

    write-Handled :
        (r : ProcessReport) (signed : Bytes) (w : Bool × F)
        → IsPatched input f signed
        → write_file (patched_path input) signed f ≡ w
        → Handled input f (
            after_process host zip sha1 sha256
              (patched_path input)
              (after_write host zip sha1 sha256 r w))
    write-Handled r signed (false, f') p e = unwritten signed f' p e
    write-Handled r signed (true, f') p e =
        install-Handled signed f' (install (patched_path input) f') p e refl

    Wrote-Handled :
        (o : Outcome host zip sha1 sha256)
        → Wrote host zip sha1 sha256 input (patched_path input) f o
        → Handled input f (after_process host zip sha1 sha256 (patched_path input) o)
    Wrote-Handled o (unchanged e r) = untouched e r
    Wrote-Handled o (tried signed repacked apk_bytes key stats l r h k) =
        write-Handled (report host zip sha1 sha256 apk_bytes signed stats) signed
          (write_file (patched_path input) signed f)
          (record {
            apk_bytes = apk_bytes;
            repacked = repacked;
            key = key;
            stats = stats;
            is_loaded = l;
            is_read = r;
            is_repacked = h;
            is_signed = k;
          })
          refl

  size-Handled :
      (input : Bytes) (f : F) (o : Option ℕ)
      → size input f ≡ o
      → Handled input f (after_size host zip sha1 sha256 input o f)
  size-Handled input f none h = no_size h
  size-Handled input f (some n) h = elim (Bool-cases (ltb n (1024 * 1024))) [
    | inl e ↦ rw e (small n h (ltb→lt n (1024 * 1024) e))
    | inr e ↦ rw e (
        Wrote-Handled input f n h (ltb→le n (1024 * 1024) e)
          (process_apk host zip sha1 sha256 input (patched_path input) f)
          (process_apk-Wrote host zip sha1 sha256 input (patched_path input) f))
  ]

  -- What the watcher does with a file is one of these: its size is not known, or below one MiB; or
  -- it cannot be read, repacked or signed, or no key is loaded, which the error names; and then
  -- all files are as they were. Or the writing of an archive fails, or its installation; or a file
  -- of one MiB at least was patched, signed, written and installed, and only then is the archive
  -- removed. Every archive that is written, to the path of the patched file, is the signature, by
  -- the key that was loaded, of the patch of the bytes read from that file.
  pub handle_one-Handled :
      (input : Bytes) (f : F) → Handled input f (handle_one host zip sha1 sha256 input f)
  unfolding handle_one
  handle_one-Handled input f = size-Handled input f (size input f) refl
