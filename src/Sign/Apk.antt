-- ===== src/Sign/Apk.antt =====
-- The content digest, the signer block and the signed archive. SHA-256 and RSA come from the crate
-- `ring`: the first is a parameter, the second a field of the signer.
use aabox.Common.{
  ℕ, zero, suc, ◌+◌, ◌-◌, ◌/◌, ◌%◌, ◌^◌, min, [], ◌∷◌, ◌++◌, Result, ok, err, ◌>>=◌, ltb, ◌==◌, not,
  if◌then◌else◌, length, take, drop, replicate, Bytes, le32,
}
use aabox.Sign.{SignError, past_eocd, locate_zip_layout}
use aabox.Sign.Prefixed.{encode_lp_elements, encode_lp_int_lp_bytes_pairs}
use aabox.Sign.Block.{page, build_signing_block}

abbrev pub sig_alg_rsa_pkcs1_v1_5_sha256 : ℕ
sig_alg_rsa_pkcs1_v1_5_sha256 = 0x0103

abbrev pub apk_signature_scheme_v2_block_id : ℕ
apk_signature_scheme_v2_block_id = 0x7109871a

-- `CONTENT_DIGESTED_CHUNK_MAX_SIZE_BYTES`
abbrev pub chunk_max : ℕ
chunk_max = 1048576

-- `sign_pkcs1_sha256` is the call of `ring`.
pub record Signer : Type 0 where
  pub sign_pkcs1_sha256 : Bytes → Result SignError Bytes
  pub cert_der : Bytes
  pub public_key_spki_der : Bytes

unfoldable pub chunk_count : ℕ → ℕ
chunk_count len = if len == 0 then 0 else (len + chunk_max - 1) / chunk_max

module _ (sha256 : Bytes → Bytes) where
  -- The digests of the chunks of a region; `region` is what stands from `off` on. Each round takes a
  -- byte at least, so the length of the region is enough fuel.
  unfoldable pub digest_chunks : ℕ → Bytes → Bytes
  digest_chunks zero region = []
  digest_chunks (suc fuel) region =
      let n = min chunk_max (length region) in
      let digest = sha256 (0xa5 ∷ (le32 (n % 2 ^ 32) ++ take n region)) in
      let rest = digest_chunks fuel (drop n region) in
      if ltb 0 (length region) then digest ++ rest else []

  abbrev pub digest_region : Bytes → Bytes
  digest_region region = digest_chunks (length region) region

  unfoldable pub compute_chunked_sha256 : Bytes → Bytes → Bytes → Bytes
  unfolding chunk_count digest_chunks
  compute_chunked_sha256 before_cd central_dir eocd_modified =
      let num_chunks =
        chunk_count (length before_cd)
        + chunk_count (length central_dir)
        + chunk_count (length eocd_modified) in
      sha256 (
        0x5a
        ∷ (le32 (num_chunks % 2 ^ 32)
            ++ (digest_region before_cd
                ++ (digest_region central_dir ++ digest_region eocd_modified))))

-- The part of the signer block that is signed.
unfoldable pub signed_data : Signer → Bytes → Bytes
signed_data signer content_digest = encode_lp_elements (
    encode_lp_int_lp_bytes_pairs ((sig_alg_rsa_pkcs1_v1_5_sha256, content_digest) ∷ [])
    ∷ encode_lp_elements (signer.cert_der ∷ [])
    ∷ []
    ∷ []
    ∷ [])

unfoldable pub build_v2_block_body : Signer → Bytes → Result SignError Bytes
unfolding signed_data
build_v2_block_body signer content_digest = do
  signature ← signer.sign_pkcs1_sha256 (signed_data signer content_digest)
  let signatures_seq =
      encode_lp_int_lp_bytes_pairs ((sig_alg_rsa_pkcs1_v1_5_sha256, signature) ∷ [])
  let signer_block =
      encode_lp_elements
        (signed_data signer content_digest ∷ signatures_seq ∷ signer.public_key_spki_der ∷ [])
  ok (encode_lp_elements (encode_lp_elements (signer_block ∷ []) ∷ []))

-- Zeros up to the next page.
unfoldable pub pad_size : ℕ → ℕ
pad_size len = if not (len % page == 0) then page - len % page else 0

-- `eocd[16..20].copy_from_slice(&offset.to_le_bytes())`
unfoldable pub with_cd_offset : ℕ → Bytes → Bytes
with_cd_offset offset eocd = take 16 eocd ++ (le32 (offset % 2 ^ 32) ++ drop 20 eocd)

module _ (sha256 : Bytes → Bytes) where
  -- The signed archive from the parts of the unsigned one.
  unfoldable pub assemble : Signer → Bytes → Bytes → Bytes → Result SignError Bytes
  unfolding pad_size with_cd_offset
  assemble signer before_cd central_dir eocd = do
    let before_cd_padded = before_cd ++ replicate (pad_size (length before_cd)) 0
    let eocd_for_digest = with_cd_offset (length before_cd_padded) eocd
    let content_digest = compute_chunked_sha256 sha256 before_cd_padded central_dir eocd_for_digest
    v2_block_body ← build_v2_block_body signer content_digest
    let signing_block = build_signing_block ((apk_signature_scheme_v2_block_id, v2_block_body) ∷ [])
    let final_cd_offset = length before_cd_padded + length signing_block
    ok (before_cd_padded ++ (signing_block ++ (central_dir ++ with_cd_offset final_cd_offset eocd)))

  unfoldable pub sign_apk_v2 : Bytes → Signer → Result SignError Bytes
  unfolding assemble
  sign_apk_v2 apk signer = do
    layout ← locate_zip_layout apk
    let cd_end = layout.cd_offset + layout.cd_size
    if ltb layout.eocd_offset cd_end
        then err (past_eocd cd_end layout.eocd_offset)
        else assemble signer (take layout.cd_offset apk)
            (take layout.cd_size (drop layout.cd_offset apk)) (drop layout.eocd_offset apk)
