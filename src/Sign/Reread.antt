-- ===== src/Sign/Reread.antt =====
-- Reading the numbers of a record that has been patched.
use aabox.Common.{
  ℕ, ◌+◌, ◌%◌, ◌^◌, ◌≤◌, ◌<◌, ◌≡◌, ◌++◌, length, get_or, drop, Bytes, arith, refl, ap, ◌∙◌, subst,
  true, Result, ok,
}
use aabox.Sign.{SignError, ZipLayout, is_eocd, locate_zip_layout, u32_le_at}
use aabox.Sign.Block.{page}
use aabox.Sign.Apk.{pad_size, with_cd_offset}
use aabox.Sign.Plain.{
  IsPlain, get_or-drop, get_or-append_right, IsPlain-is_eocd, with_cd_offset_head,
  with_cd_offset_at, with_cd_offset-IsPlain,
}
use aabox.Sign.Layout.{Located, found, missing, locate_zip_layout-plain}
use aabox.Sign.Elements.{from_le32-le32}

pub pad_size-aligned : (len : ℕ) → (len + pad_size len) % page ≡ 0
unfolding pad_size
pad_size-aligned len = ground arith

u32_right : (front e : Bytes) (k : ℕ) → u32_le_at (front ++ e) (length front + k) ≡ u32_le_at e k
u32_right front e k =
    let at : (j : ℕ) → get_or (front ++ e) (length front + k + j) 0 ≡ get_or e (k + j) 0 = λ j.
      let shifted : length front + k + j ≡ length front + (k + j) = omega arith in
      ap (λ i. get_or (front ++ e) i 0) shifted ∙ get_or-append_right front e (k + j) in
    rw (get_or-append_right front e k, at 1, at 2, at 3) refl

pub u32_drop : (off k : ℕ) (apk : Bytes) → u32_le_at (drop off apk) k ≡ u32_le_at apk (off + k)
u32_drop off k apk =
    let at : (j : ℕ) → get_or apk (off + k + j) 0 ≡ get_or (drop off apk) (k + j) 0 = λ j.
      let shifted : off + k + j ≡ off + (k + j) = omega arith in
      ap (λ i. get_or apk i 0) shifted ∙ get_or-drop off (k + j) apk in
    rw (get_or-drop off k apk, at 1, at 2, at 3) refl

u32_patched : (o : ℕ) (e : Bytes) → IsPlain e → o < 2 ^ 32 → u32_le_at (with_cd_offset o e) 16 ≡ o
u32_patched o e p h =
    let kept : o % 2 ^ 32 ≡ o = omega arith in
    rw
      (
        with_cd_offset_at o e p 0,
        with_cd_offset_at o e p 1,
        with_cd_offset_at o e p 2,
        with_cd_offset_at o e p 3,
      )
      (from_le32-le32 (o % 2 ^ 32) (omega arith) ∙ kept)

u32_kept : (o : ℕ) (e : Bytes) → IsPlain e → u32_le_at (with_cd_offset o e) 12 ≡ u32_le_at e 12
u32_kept o e p =
    rw
      (
        with_cd_offset_head o e p 12 (omega arith),
        with_cd_offset_head o e p 13 (omega arith),
        with_cd_offset_head o e p 14 (omega arith),
        with_cd_offset_head o e p 15 (omega arith),
      )
      refl

-- A record behind anything is read with the offset that was put into it.
pub locate_patched :
    (front e : Bytes) (o : ℕ)
    → IsPlain e
    → o < 2 ^ 32
    → locate_zip_layout (front ++ with_cd_offset o e)
      ≡ ok (record { cd_offset = o; cd_size = u32_le_at e 12; eocd_offset = length front })
locate_patched front e o p h =
    let patched = with_cd_offset o e in
    let q = with_cd_offset-IsPlain o e p in
    locate_zip_layout-plain front patched q.size (IsPlain-is_eocd front patched q)
    ∙ rw
        (
          u32_right front patched 16 ∙ u32_patched o e p h,
          u32_right front patched 12 ∙ u32_kept o e p,
        )
        refl

pub layout_of :
    {apk : Bytes} {r : Result SignError ZipLayout} (l : ZipLayout)
    → Located apk r
    → r ≡ ok l
    → (is_eocd apk l.eocd_offset ≡ true)
      × (l.cd_size ≡ u32_le_at apk (l.eocd_offset + 12))
      × (l.eocd_offset + 22 ≤ length apk)
layout_of {apk = apk} l (found i room e after) h =
    let same : record {
      cd_offset = u32_le_at apk (i + 16);
      cd_size = u32_le_at apk (i + 12);
      eocd_offset = i;
    }
        ≡ l =
      cc h in
    subst
      (λ k.
        (is_eocd apk k.eocd_offset ≡ true)
        × (k.cd_size ≡ u32_le_at apk (k.eocd_offset + 12))
        × (k.eocd_offset + 22 ≤ length apk))
      same (e, refl, room)
layout_of l (missing none_there) h = absurd (cc h)
