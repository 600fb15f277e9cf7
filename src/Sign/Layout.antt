-- ===== src/Sign/Layout.antt =====
-- What `locate_zip_layout` finds.
use aabox.Common.{
  ℕ, zero, suc, ◌+◌, ◌-◌, ◌≤◌, ◌<◌, ◌≡◌, true, false, Bool-cases, inl, inr, min, Option, none, some,
  Result, ok, err, ◌++◌, ltb, ltb→lt, ltb→le, length, length-append, Bytes, arith, subst, refl,
}
use aabox.Sign.{
  SignError, eocd_not_found, ZipLayout, is_eocd, find_eocd, layout_at, locate_zip_layout, u32_le_at,
}

-- The outcome of a scan of the offsets `start` to `start + n - 1`.
data Scan (apk : Bytes) (start n : ℕ) : Option ℕ → Type 0 where
  hit :
      (i : ℕ)
      → start ≤ i
      → i < start + n
      → is_eocd apk i ≡ true
      → ((j : ℕ) → i < j → j < start + n → is_eocd apk j ≡ false)
      → Scan apk start n (some i)
  miss : ((j : ℕ) → start ≤ j → j < start + n → is_eocd apk j ≡ false) → Scan apk start n none

-- A test that fails at the last offset and before it, fails up to it.
up_to :
    (apk : Bytes) (m j : ℕ)
    → is_eocd apk m ≡ false
    → (j < m → is_eocd apk j ≡ false)
    → j < suc m
    → is_eocd apk j ≡ false
up_to apk m j bad before h = elim (Bool-cases (ltb j m)) [
  | inl below ↦ before (ltb→lt j m below)
  | inr last ↦ subst (λ i. is_eocd apk i ≡ false) (omega (arith, ltb→le j m last)) bad
]

extend :
    (apk : Bytes) (start n : ℕ) {o : Option ℕ}
    → is_eocd apk (start + n) ≡ false
    → Scan apk start n o
    → Scan apk start (suc n) o
extend apk start n bad (hit i h k e after) =
    hit i h (omega arith) e (λ j a b. up_to apk (start + n) j bad (after j a) (omega arith))
extend apk start n bad (miss before) =
    miss (λ j a b. up_to apk (start + n) j bad (before j a) (omega arith))

find_eocd-Scan : (n start : ℕ) (apk : Bytes) → Scan apk start n (find_eocd n start apk)
unfolding find_eocd
find_eocd-Scan zero start apk = miss (λ j a b. absurd (omega arith))
find_eocd-Scan (suc n) start apk = elim (Bool-cases (is_eocd apk (start + n))) [
  | inl good ↦
      rw good (hit (start + n) (omega arith) (omega arith) good (λ j a b. absurd (omega arith)))
  | inr bad ↦ rw bad (extend apk start n bad (find_eocd-Scan n start apk))
]

-- What is found in an archive: the last end-of-directory record among the offsets that leave room
-- for one and a comment of 65535 bytes at most, with the fields that it holds; or none is there.
pub data Located (apk : Bytes) : Result SignError ZipLayout → Type 0 where
  found :
      (i : ℕ)
      → i + 22 ≤ length apk
      → is_eocd apk i ≡ true
      → ((j : ℕ) → i < j → j + 22 ≤ length apk → is_eocd apk j ≡ false)
      → Located apk (
          ok (record {
            cd_offset = u32_le_at apk (i + 16);
            cd_size = u32_le_at apk (i + 12);
            eocd_offset = i;
          }))
  missing :
      ((j : ℕ) → length apk ≤ j + (22 + 65535) → j + 22 ≤ length apk → is_eocd apk j ≡ false)
      → Located apk (err eocd_not_found)

located :
    (apk : Bytes) (start n : ℕ) {o : Option ℕ}
    → start ≡ length apk - min (length apk) (22 + 65535)
    → n ≡ length apk - 21 - start
    → Scan apk start n o
    → Located apk (layout_at apk o)
located apk start n hs hn (hit i h k e after) =
    found i (omega arith) e (λ j a b. after j a (omega arith))
located apk start n hs hn (miss before) = missing (λ j a b. before j (omega arith) (omega arith))

-- For any bytes, `locate_zip_layout` gives the last offset with an end-of-directory signature and
-- a comment that ends with the file, with the size and the offset of the directory read from
-- there, or it fails when none of the last 65557 offsets is one.
pub locate_zip_layout-Located : (apk : Bytes) → Located apk (locate_zip_layout apk)
unfolding locate_zip_layout
locate_zip_layout-Located apk =
    let start = length apk - min (length apk) (22 + 65535) in
    let n = length apk - 21 - start in located apk start n refl refl (find_eocd-Scan n start apk)

-- An archive that ends with a record without a comment is read there.
pub locate_zip_layout-plain :
    (front eocd : Bytes)
    → length eocd ≡ 22
    → is_eocd (front ++ eocd) (length front) ≡ true
    → locate_zip_layout (front ++ eocd) ≡ layout_at (front ++ eocd) (some (length front))
unfolding locate_zip_layout find_eocd
locate_zip_layout-plain front eocd h e =
    let total : length (front ++ eocd) ≡ length front + 22 =
      omega (arith, length-append front eocd) in
    let start = length (front ++ eocd) - min (length (front ++ eocd)) (22 + 65535) in
    let n : length (front ++ eocd) - 21 - start ≡ suc (length front - start) = omega arith in
    let here : start + (length front - start) ≡ length front = omega arith in rw (n, here, e) refl
