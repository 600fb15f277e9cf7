-- ===== src/Sign/Base64.antt =====
-- Base64 is read back.
use aabox.Common.{
  ℕ, ◌+◌, ◌-◌, ◌*◌, ◌/◌, ◌%◌, ◌^◌, ◌<◌, false, some, Result, ok, List, [], ◌∷◌, All, IsByte, ltb,
  leb, ◌==◌, if◌then◌else◌, Bytes, ◌≡◌, refl, arith,
}
use aabox.Common.Disjoint.{bit_or_high_low}
use aabox.Effect.{Error}
use aabox.Sign.Pem.{is_whitespace, base64_value, shifted_in, with_byte, base64_loop, base64_decode}

-- The character of a value.
abbrev pub base64_digit : ℕ → ℕ
base64_digit v =
    if ltb v 26
    then v + b'A'
    else if ltb v 52
    then v - 26 + b'a'
    else if ltb v 62
    then v - 52 + b'0'
    else if v == 62
    then b'+'
    else b'/'

-- The usual encoding, with `=` where the last group is short.
unfoldable pub base64_encode : Bytes → List ℕ
base64_encode [] = []
base64_encode (a ∷ []) = base64_digit (a / 4) ∷ base64_digit (a % 4 * 16) ∷ b'=' ∷ b'=' ∷ []
base64_encode (a ∷ b ∷ []) =
    base64_digit (a / 4)
    ∷ base64_digit (a % 4 * 16 + b / 16)
    ∷ base64_digit (b % 16 * 4)
    ∷ b'='
    ∷ []
base64_encode (a ∷ b ∷ c ∷ bs) =
    base64_digit (a / 4)
    ∷ base64_digit (a % 4 * 16 + b / 16)
    ∷ base64_digit (b % 16 * 4 + c / 64)
    ∷ base64_digit (c % 64)
    ∷ base64_encode bs

shifted_in_lem : (buf v : ℕ) → v < 64 → shifted_in buf v ≡ buf % 67108864 * 64 + v
unfolding shifted_in
shifted_in_lem buf v h =
    let high : buf * 64 % 2 ^ 32 ≡ buf % 67108864 * 2 ^ 6 = omega arith in
    rw high (bit_or_high_low 6 v (buf % 67108864) (omega arith))

base64_value_digit : (v : ℕ) → v < 64 → base64_value (base64_digit v) ≡ some v
unfolding base64_value
base64_value_digit v h = ground arith

digit_plain :
    (v : ℕ) → v < 64 → (is_whitespace (base64_digit v) ≡ false) × ((base64_digit v == b'=') ≡ false)
unfolding is_whitespace
digit_plain v h = ground arith

-- The state of the decoder after one digit.
abbrev next_buf : ℕ → ℕ → ℕ
next_buf buf v = buf % 67108864 * 64 + v

digit_step :
    (v : ℕ) (cs : List ℕ) (buf bits : ℕ)
    → v < 64
    → base64_loop (base64_digit v ∷ cs) buf bits ≡ (
        if leb 8 (bits + 6)
        then with_byte
            (next_buf buf v / 2 ^ (bits + 6 - 8) % 256)
            (base64_loop cs (next_buf buf v) (bits + 6 - 8))
        else base64_loop cs (next_buf buf v) (bits + 6))
unfolding base64_loop
digit_step v cs buf bits h =
    let (plain, no_pad) = digit_plain v h in
    rw (plain, no_pad, base64_value_digit v h, shifted_in_lem buf v h) refl

abbrev with_bytes : Bytes → Result Error Bytes → Result Error Bytes
with_bytes [] r = r
with_bytes (b ∷ bs) r = with_byte b (with_bytes bs r)

group_step :
    (a b c buf : ℕ) (cs : List ℕ)
    → a < 256
    → b < 256
    → c < 256
    → (buf' : ℕ) × (base64_loop
          (base64_digit (a / 4)
            ∷ base64_digit (a % 4 * 16 + b / 16)
            ∷ base64_digit (b % 16 * 4 + c / 64)
            ∷ base64_digit (c % 64)
            ∷ cs)
          buf
          0
        ≡ with_byte a (with_byte b (with_byte c (base64_loop cs buf' 0))))
group_step a b c buf cs ha hb hc =
    let v1 = a / 4 in
    let v2 = a % 4 * 16 + b / 16 in
    let v3 = b % 16 * 4 + c / 64 in
    let v4 = c % 64 in
    let b1 = next_buf buf v1 in
    let b2 = next_buf b1 v2 in
    let b3 = next_buf b2 v3 in
    let b4 = next_buf b3 v4 in
    let first : b2 / 16 % 256 ≡ a = omega arith in
    let second : b3 / 4 % 256 ≡ b = omega arith in
    let third : b4 / 1 % 256 ≡ c = omega arith in
    (
      b4,
      rw
          (
            digit_step v1 (base64_digit v2 ∷ base64_digit v3 ∷ base64_digit v4 ∷ cs) buf 0
                (omega arith),
            digit_step v2 (base64_digit v3 ∷ base64_digit v4 ∷ cs) b1 6 (omega arith),
            first,
            digit_step v3 (base64_digit v4 ∷ cs) b2 4 (omega arith),
            second,
            digit_step v4 cs b3 2 (omega arith),
            third,
          )
          refl,
    )

pad_step : (cs : List ℕ) (buf bits : ℕ) → base64_loop (b'=' ∷ cs) buf bits ≡ ok []
unfolding base64_loop is_whitespace
pad_step cs buf bits = refl

loop-base64_encode :
    (bs : Bytes) (buf : ℕ) → All IsByte bs → base64_loop (base64_encode bs) buf 0 ≡ ok bs
unfolding base64_encode
loop-base64_encode [] buf h = unfold base64_loop in refl
loop-base64_encode (a ∷ []) buf (ha, h) =
    let b1 = next_buf buf (a / 4) in
    let b2 = next_buf b1 (a % 4 * 16) in
    let first : b2 / 16 % 256 ≡ a = omega arith in
    rw
      (
        digit_step (a / 4) (base64_digit (a % 4 * 16) ∷ b'=' ∷ b'=' ∷ []) buf 0 (omega arith),
        digit_step (a % 4 * 16) (b'=' ∷ b'=' ∷ []) b1 6 (omega arith),
        first,
        pad_step (b'=' ∷ []) b2 4,
      )
      refl
loop-base64_encode (a ∷ b ∷ []) buf (ha, (hb, h)) =
    let b1 = next_buf buf (a / 4) in
    let v2 = a % 4 * 16 + b / 16 in
    let b2 = next_buf b1 v2 in
    let v3 = b % 16 * 4 in
    let b3 = next_buf b2 v3 in
    let first : b2 / 16 % 256 ≡ a = omega arith in
    let second : b3 / 4 % 256 ≡ b = omega arith in
    rw
      (
        digit_step (a / 4) (base64_digit v2 ∷ base64_digit v3 ∷ b'=' ∷ []) buf 0 (omega arith),
        digit_step v2 (base64_digit v3 ∷ b'=' ∷ []) b1 6 (omega arith),
        first,
        digit_step v3 (b'=' ∷ []) b2 4 (omega arith),
        second,
        pad_step [] b3 2,
      )
      refl
loop-base64_encode (a ∷ b ∷ c ∷ bs) buf (ha, (hb, (hc, h))) =
    let (buf', group) = group_step a b c buf (base64_encode bs) ha hb hc in
    rw (group, loop-base64_encode bs buf' h) refl

-- Bytes that are written in base64 with padding are read back.
pub base64_decode-base64_encode :
    (bs : Bytes) → All IsByte bs → base64_decode (base64_encode bs) ≡ ok bs
unfolding base64_decode
base64_decode-base64_encode bs h = loop-base64_encode bs 0 h
