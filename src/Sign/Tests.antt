-- ===== src/Sign/Tests.antt =====
-- Examples of an archive and of the parts of its signature.
use aabox.Common.{ℕ, ◌≡◌, refl, Result, ok, err, List, [], ◌∷◌, length, Bytes, arith}
use aabox.Sign.{SignError, ZipLayout, is_eocd, find_eocd, locate_zip_layout}
use aabox.Sign.Prefixed.{encode_lp_elements, encode_lp_int_lp_bytes_pairs}
use aabox.Sign.Layout.{Located, locate_zip_layout-Located}
use aabox.Sign.Block.{blocks_size, encode_blocks, padding_for, padding_pair, build_signing_block}
use aabox.Sign.Apk.{
  Signer, compute_chunked_sha256, signed_data, build_v2_block_body, pad_size, with_cd_offset,
  assemble, sign_apk_v2,
}
use aabox.Sign.Pem.{base64_decode}
use aabox.Sign.Base64.{base64_encode, base64_decode-base64_encode}
use aabox.Sign.Whole.{IsIntact, sign_apk_v2-IsIntact}

abbrev elements : List Bytes
elements = (1 ∷ 2 ∷ []) ∷ [] ∷ (3 ∷ []) ∷ []

abbrev digests : List (ℕ × Bytes)
digests = (0x0103, 7 ∷ 8 ∷ []) ∷ []

-- Two bytes of entries, three of a central directory, and the record at the end.
abbrev small_apk : Bytes
small_apk =
    65 ∷ 66 ∷ 67 ∷ 68 ∷ 69 ∷ 0x50 ∷ 0x4b ∷ 5 ∷ 6 ∷ 0 ∷ 0 ∷ 0 ∷ 0 ∷ 1 ∷ 0 ∷ 1 ∷ 0 ∷ 3 ∷ 0 ∷ 0 ∷ 0 ∷ 2
    ∷ 0 ∷ 0 ∷ 0 ∷ 0 ∷ 0 ∷ []

abbrev small_layout : ZipLayout
small_layout = record { cd_offset = 2; cd_size = 3; eocd_offset = 5 }

locate_small : locate_zip_layout small_apk ≡ ok small_layout
unfolding locate_zip_layout find_eocd is_eocd
locate_small = refl

locate_zip_layout-Located_example : Located small_apk (locate_zip_layout small_apk)
locate_zip_layout-Located_example = locate_zip_layout-Located small_apk

abbrev signer : Signer
signer = record {
  sign_pkcs1_sha256 = λ b. ok (0x55 ∷ []);
  cert_der = 0x30 ∷ [];
  public_key_spki_der = 0x31 ∷ [];
}

abbrev digest : Bytes → Bytes
digest b = 0xd1 ∷ []

abbrev bytes_of : Result SignError Bytes → Bytes
bytes_of (ok b) = b
bytes_of (err e) = []

abbrev signed_apk : Bytes
signed_apk = bytes_of (sign_apk_v2 digest small_apk signer)

signed_small : sign_apk_v2 digest small_apk signer ≡ ok signed_apk
unfolding sign_apk_v2 locate_zip_layout find_eocd is_eocd assemble build_v2_block_body
signed_small = refl

signed_length : length signed_apk ≡ 8217
unfolding sign_apk_v2 locate_zip_layout find_eocd is_eocd assemble build_v2_block_body
    compute_chunked_sha256 signed_data pad_size with_cd_offset build_signing_block blocks_size
    encode_blocks padding_for padding_pair encode_lp_elements encode_lp_int_lp_bytes_pairs
signed_length = refl

sign_apk_v2-IsIntact_example : (new : ZipLayout) × IsIntact small_apk small_layout signed_apk new
sign_apk_v2-IsIntact_example =
    sign_apk_v2-IsIntact digest small_apk signer small_layout locate_small refl signed_small
      (omega (arith, signed_length))

base64_decode-base64_encode_example :
    base64_decode (base64_encode (77 ∷ 97 ∷ 250 ∷ 0 ∷ [])) ≡ ok (77 ∷ 97 ∷ 250 ∷ 0 ∷ [])
base64_decode-base64_encode_example =
    base64_decode-base64_encode (77 ∷ 97 ∷ 250 ∷ 0 ∷ [])
      (omega arith, (omega arith, (omega arith, (omega arith, tt))))
