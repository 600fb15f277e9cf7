-- ===== src/Sign/Whole.antt =====
-- The signed archive as its reader finds it.
use aabox.Common.{
  ℕ, ◌+◌, ◌-◌, ◌%◌, ◌^◌, ◌≤◌, ◌<◌, ◌≡◌, Bool-cases, inl, inr, [], ◌∷◌, ◌++◌, ltb, ltb→le, length,
  length-append, length-take, length-drop, length-replicate, take, drop, drop_left, take_left,
  take-append_le, drop-append_le, drop-drop, take_all, append_assoc, replicate, Bytes, arith, refl,
  sym, ap, ◌∙◌, subst, true, ok, bind-eq-ok,
}
use aabox.Sign.{ZipLayout, is_eocd, locate_zip_layout, u32_le_at}
use aabox.Sign.Block.{page, build_signing_block, apk_sig_block_magic}
use aabox.Sign.Apk.{
  Signer, pad_size, with_cd_offset, assemble, build_v2_block_body, compute_chunked_sha256,
  sign_apk_v2, apk_signature_scheme_v2_block_id,
}
use aabox.Sign.Plain.{IsPlain, is_eocd-IsPlain}
use aabox.Sign.Layout.{locate_zip_layout-Located}
use aabox.Sign.Aligned.{build_signing_block-aligned}
use aabox.Sign.Reread.{pad_size-aligned, u32_drop, locate_patched, layout_of}

-- How a reader finds the parts of a signed archive, given the layout of the unsigned one.
pub record IsIntact (apk : Bytes) (old : ZipLayout) (out : Bytes) (new : ZipLayout) : Type 0 where
  pub located : locate_zip_layout out ≡ ok new
  pub aligned : new.cd_offset % page ≡ 0
  pub entries : take old.cd_offset out ≡ take old.cd_offset apk
  pub magic : take 16 (drop (new.cd_offset - 16) out) ≡ apk_sig_block_magic
  pub directory :
      take new.cd_size (drop new.cd_offset out) ≡ take old.cd_size (drop old.cd_offset apk)
  pub cd_size : new.cd_size ≡ old.cd_size
  pub adjacent : new.eocd_offset ≡ new.cd_offset + new.cd_size

module _ (apk block eocd : Bytes) (old : ZipLayout) where
  end_of : Bytes → ℕ
  end_of padded = length padded + length block

  central : Bytes
  central = take old.cd_size (drop old.cd_offset apk)

  joined : Bytes → Bytes
  joined padded = padded ++ (block ++ (central ++ with_cd_offset (end_of padded) eocd))

  new_layout : Bytes → ZipLayout
  new_layout padded = record {
    cd_offset = end_of padded;
    cd_size = old.cd_size;
    eocd_offset = end_of padded + old.cd_size;
  }

  joined_front :
      (padded : Bytes)
      → joined padded ≡ (padded ++ (block ++ central)) ++ with_cd_offset (end_of padded) eocd
  unfolding joined
  joined_front padded =
      rw
        (
          append_assoc padded (block ++ central) (with_cd_offset (end_of padded) eocd),
          append_assoc block central (with_cd_offset (end_of padded) eocd),
        )
        refl

  joined_behind :
      (padded : Bytes)
      → drop (length padded) (joined padded)
        ≡ block ++ (central ++ with_cd_offset (end_of padded) eocd)
  unfolding joined
  joined_behind padded =
      drop_left padded (block ++ (central ++ with_cd_offset (end_of padded) eocd))

  joined-central :
      (padded : Bytes)
      → drop (end_of padded) (joined padded) ≡ central ++ with_cd_offset (end_of padded) eocd
  unfolding end_of
  joined-central padded =
      drop-drop (length padded) (length block) (joined padded)
      ∙ (ap (drop (length block)) (joined_behind padded)
          ∙ drop_left block (central ++ with_cd_offset (end_of padded) eocd))

  -- The sixteen bytes before the central directory are the last of the block.
  joined_magic :
      (padded : Bytes)
      → drop (length block - 16) block ≡ apk_sig_block_magic
      → take 16 (drop (end_of padded - 16) (joined padded)) ≡ apk_sig_block_magic
  unfolding end_of
  joined_magic padded e =
      let tail = central ++ with_cd_offset (end_of padded) eocd in
      let sixteen : length (drop (length block - 16) block) ≡ 16 = ap length e in
      let room : 16 ≤ length block = omega (arith, length-drop (length block - 16) block) in
      let before : length padded + length block - 16 ≡ length padded + (length block - 16) =
        omega arith in
      ap (λ n. take 16 (drop n (joined padded))) before
      ∙ (ap (take 16) (drop-drop (length padded) (length block - 16) (joined padded))
          ∙ (ap (λ b. take 16 (drop (length block - 16) b)) (joined_behind padded)
              ∙ (ap (take 16) (drop-append_le (length block - 16) block tail (omega arith))
                  ∙ (ap (λ b. take 16 (b ++ tail)) e ∙ take_left apk_sig_block_magic tail))))

  joined-IsIntact :
      (padded : Bytes)
      → IsPlain eocd
      → old.cd_size ≡ u32_le_at eocd 12
      → length central ≡ old.cd_size
      → length padded % page ≡ 0
      → length block % page ≡ 0
      → drop (length block - 16) block ≡ apk_sig_block_magic
      → old.cd_offset ≤ length padded
      → take old.cd_offset padded ≡ take old.cd_offset apk
      → end_of padded < 2 ^ 32
      → IsIntact apk old (joined padded) (new_layout padded)
  unfolding end_of new_layout joined central
  joined-IsIntact padded p size full hp hb magic inside same small =
      let front = padded ++ (block ++ central) in
      let front_length : length front ≡ end_of padded + old.cd_size =
        omega (arith, length-append padded (block ++ central), length-append block central) in
      record {
        located =
            ap locate_zip_layout (joined_front padded)
            ∙ (locate_patched front eocd (end_of padded) p small
                ∙ rw (sym size, front_length) refl);
        aligned = omega arith;
        entries =
            take-append_le old.cd_offset padded
              (block ++ (central ++ with_cd_offset (end_of padded) eocd)) inside
            ∙ same;
        magic = joined_magic padded magic;
        directory =
            ap (take old.cd_size) (joined-central padded)
            ∙ subst (λ n. take n (central ++ with_cd_offset (end_of padded) eocd) ≡ central) full
                (take_left central (with_cd_offset (end_of padded) eocd));
        cd_size = refl;
        adjacent = refl;
      }

module _ (sha256 : Bytes → Bytes) (apk : Bytes) (signer : Signer) (old : ZipLayout)
    {out : Bytes} where
  assembled :
      is_eocd apk old.eocd_offset ≡ true
      → old.cd_size ≡ u32_le_at apk (old.eocd_offset + 12)
      → old.eocd_offset + 22 ≡ length apk
      → old.cd_offset + old.cd_size ≤ old.eocd_offset
      → length out < 2 ^ 32
      → assemble sha256 signer
          (take old.cd_offset apk)
          (take old.cd_size (drop old.cd_offset apk))
          (drop old.eocd_offset apk)
        ≡ ok out
      → (new : ZipLayout) × IsIntact apk old out new
  unfolding assemble joined central end_of
  assembled is size ends room small h =
      let before_cd = take old.cd_offset apk in
      let padded = before_cd ++ replicate (pad_size (length before_cd)) 0 in
      let eocd = drop old.eocd_offset apk in
      let digest =
        compute_chunked_sha256 sha256 padded (central apk [] [] old)
          (with_cd_offset (length padded) eocd) in
      let step = bind-eq-ok (build_v2_block_body signer digest) _ h in
      let pairs = (apk_signature_scheme_v2_block_id, step.0) ∷ [] in
      let block = build_signing_block pairs in
      let same : joined apk block eocd old padded ≡ out = cc (step.2) in
      let p = is_eocd-IsPlain apk old.eocd_offset is ends in
      let before_length : length before_cd ≡ old.cd_offset =
        omega (arith, length-take old.cd_offset apk) in
      let padded_length : length padded ≡ length before_cd + pad_size (length before_cd) = omega (
        arith,
        length-append before_cd (replicate (pad_size (length before_cd)) 0),
        length-replicate {A = ℕ} (pad_size (length before_cd)) 0,
      ) in
      let total : length out
          ≡ length padded
            + (length block
                + length (
                    central apk block eocd old
                    ++ with_cd_offset (length padded + length block) eocd)) =
        ap length (sym same)
        ∙ omega (
          arith,
          length-append padded (
              block
              ++ (central apk block eocd old
                  ++ with_cd_offset (length padded + length block) eocd)),
          length-append block
              (central apk block eocd old ++ with_cd_offset (length padded + length block) eocd),
        ) in
      let (block_pages, block_magic) = build_signing_block-aligned pairs in
      let kept : take old.cd_offset padded ≡ take old.cd_offset apk =
        take-append_le old.cd_offset before_cd (replicate (pad_size (length before_cd)) 0)
          (omega arith)
        ∙ take_all old.cd_offset before_cd (omega arith) in
      (
        new_layout apk block eocd old padded,
        subst (λ o. IsIntact apk old o (new_layout apk block eocd old padded)) same
            (joined-IsIntact apk block eocd old padded p
              (size ∙ sym (u32_drop old.eocd_offset 12 apk))
              (omega (
                arith,
                length-take old.cd_size (drop old.cd_offset apk),
                length-drop old.cd_offset apk,
              ))
              (ap (λ n. n % page) padded_length ∙ pad_size-aligned (length before_cd)) block_pages
              block_magic (omega arith) kept (omega arith)),
      )

  -- When an archive whose end-of-directory record has no comment is located and signed, and the
  -- result has less than 2 ^ 32 bytes, then the result is located as well: its central directory
  -- starts at a page boundary, holds the same bytes as before and ends where the record starts,
  -- the entries before it are unchanged, and the sixteen bytes in front of it are the magic of the
  -- signing block.
  pub sign_apk_v2-IsIntact :
      locate_zip_layout apk ≡ ok old
      → old.eocd_offset + 22 ≡ length apk
      → sign_apk_v2 sha256 apk signer ≡ ok out
      → length out < 2 ^ 32
      → (new : ZipLayout) × IsIntact apk old out new
  unfolding sign_apk_v2
  sign_apk_v2-IsIntact at ends h small =
      let (is, size, room) = layout_of old (locate_zip_layout-Located apk) at in
      elim (Bool-cases (ltb old.eocd_offset (old.cd_offset + old.cd_size))) [
        | inl past ↦ absurd (cc (rw (at, past) at h))
        | inr within ↦
            assembled is size ends (ltb→le old.eocd_offset (old.cd_offset + old.cd_size) within)
              small (rw (at, within) at h)
      ]
