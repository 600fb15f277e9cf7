-- ===== src/Sign/Pem.antt =====
-- Certificates in PEM form, `looks_like_pem`, `pem_to_der` and `base64_decode` of
-- crates/aabox-resigner/src/sign.rs. A text is the list of its code points; `from_utf8` is a parameter.
use aabox.Common.{
  ℕ, ◌+◌, ◌-◌, ◌*◌, ◌/◌, ◌%◌, ◌^◌, bit_or, ◌&&◌, ◌||◌, Bool, true, false, Option, none, some,
  Result, ok, err, List, [], ◌∷◌, ◌++◌, length, take, leb, ◌==◌, if◌then◌else◌, Bytes, ascii,
  bytes_eq,
}
use aabox.Effect.{Error, decode, rejected}

-- `char::is_whitespace`
unfoldable pub is_whitespace : ℕ → Bool
is_whitespace c =
    (leb 9 c && leb c 13)
    || c == 32
    || c == 0x85
    || c == 0xa0
    || c == 0x1680
    || (leb 0x2000 c && leb c 0x200a)
    || c == 0x2028
    || c == 0x2029
    || c == 0x202f
    || c == 0x205f
    || c == 0x3000

abbrev between : ℕ → ℕ → ℕ → Bool
between a b c = leb a c && leb c b

unfoldable pub base64_value : ℕ → Option ℕ
base64_value c =
    if between b'A' b'Z' c
    then some (c - b'A')
    else if between b'a' b'z' c
    then some (c - b'a' + 26)
    else if between b'0' b'9' c
    then some (c - b'0' + 52)
    else if c == b'+'
    then some 62
    else if c == b'/'
    then some 63
    else none

-- `(buf << 6) | v` on 32 bits.
unfoldable pub shifted_in : ℕ → ℕ → ℕ
shifted_in buf v = bit_or (buf * 64 % 2 ^ 32) v

abbrev pub with_byte : ℕ → Result Error Bytes → Result Error Bytes
with_byte b (ok out) = ok (b ∷ out)
with_byte b (err e) = err e

abbrev pub after_value : (ℕ → ℕ → Result Error Bytes) → ℕ → ℕ → ℕ → Option ℕ → Result Error Bytes
after_value go c buf bits none = err (rejected c)
after_value go c buf bits (some v) =
    let more = go (shifted_in buf v) in
    if leb 8 (bits + 6)
    then with_byte (shifted_in buf v / 2 ^ (bits + 6 - 8) % 256) (more (bits + 6 - 8))
    else more (bits + 6)

-- The bytes of the characters that are left, with the bits that were not given out.
unfoldable pub base64_loop : List ℕ → ℕ → ℕ → Result Error Bytes
unfolding is_whitespace base64_value shifted_in
base64_loop [] buf bits = ok []
base64_loop (c ∷ cs) buf bits =
    let go = base64_loop cs in
    if is_whitespace c
    then go buf bits
    else if c == b'='
    then ok []
    else after_value go c buf bits (base64_value c)

unfoldable pub base64_decode : List ℕ → Result Error Bytes
unfolding base64_loop
base64_decode input = base64_loop input 0 0

-- `str::lines`, for a text with a line feed behind each line but perhaps the last.
abbrev pub first_line : ℕ → List (List ℕ) → List (List ℕ)
first_line c [] = (c ∷ []) ∷ []
first_line c (l ∷ ls) = (c ∷ l) ∷ ls

unfoldable pub split_lines : List ℕ → List (List ℕ)
split_lines [] = []
split_lines (c ∷ cs) = let more = split_lines cs in if c == 10 then [] ∷ more else first_line c more

abbrev pub trim_start : List ℕ → List ℕ
trim_start [] = []
trim_start (c ∷ cs) = if is_whitespace c then trim_start cs else c ∷ cs

abbrev pub keep : ℕ → List ℕ → List ℕ
keep c [] = if is_whitespace c then [] else c ∷ []
keep c (d ∷ ds) = c ∷ d ∷ ds

abbrev pub trim_end : List ℕ → List ℕ
trim_end [] = []
trim_end (c ∷ cs) = keep c (trim_end cs)

-- A `\r` before the line feed is whitespace, which `trim` takes away as well.
unfoldable pub trim : List ℕ → List ℕ
unfolding is_whitespace
trim cs = trim_end (trim_start cs)

abbrev pub starts_with : List ℕ → List ℕ → Bool
starts_with prefix cs = bytes_eq (take (length prefix) cs) prefix

-- The body between the BEGIN and the END line.
unfoldable pub pem_body : List (List ℕ) → Bool → List ℕ
unfolding trim
pem_body [] in_body = []
pem_body (line ∷ lines) in_body =
    let trimmed = trim line in
    let opened = pem_body lines true in
    let same = pem_body lines in_body in
    if starts_with (ascii "-----BEGIN ") trimmed
    then opened
    else if starts_with (ascii "-----END ") trimmed
    then []
    else if in_body
    then trimmed ++ same
    else same

-- `windows(11).any(...)`
unfoldable pub looks_like_pem : Bytes → Bool
looks_like_pem [] = false
looks_like_pem (b ∷ bs) = bytes_eq (take 11 (b ∷ bs)) (ascii "-----BEGIN ") || looks_like_pem bs

unfoldable pub body_to_der : List ℕ → Result Error Bytes
unfolding base64_decode
body_to_der b64 = if length b64 == 0 then err (rejected 0) else base64_decode b64

abbrev of_text : Option (List ℕ) → Result Error Bytes
of_text none = err (decode 0)
of_text (some text) = body_to_der (pem_body (split_lines text) false)

unfoldable pub pem_to_der : (Bytes → Option (List ℕ)) → Bytes → Result Error Bytes
unfolding split_lines pem_body body_to_der
pem_to_der from_utf8 pem_bytes = of_text (from_utf8 pem_bytes)

-- The certificate as DER, whichever form it came in.
unfoldable pub cert_to_der : (Bytes → Option (List ℕ)) → Bytes → Result Error Bytes
unfolding looks_like_pem pem_to_der
cert_to_der from_utf8 cert_bytes =
    if looks_like_pem cert_bytes then pem_to_der from_utf8 cert_bytes else ok cert_bytes
