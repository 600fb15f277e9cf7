-- ===== src/Framing/Truncated.antt =====
-- The encoding of a payload of any length.
use aabox.Common.{
  ℕ, ◌%◌, ◌^◌, ◌≡◌, refl, sym, ap, ◌∙◌, false, none, some, [], ◌++◌, append_assoc, length,
  length-take, take, drop, take-append-drop, Bytes, arith,
}
use aabox.Framing.{
  FrameType, middle, first, last, bulk, Frame, is_first, flags_of, encode_total, encode, parse,
}
use aabox.Framing.Bits.{from_flags-flags_of, flags_of_control, flags_of_encrypted}
use aabox.Framing.RoundTrip.{parse_short, from_be16-be16}

-- What the length field of a frame says.
abbrev pub announced : Frame → ℕ
announced f = length f.payload % 2 ^ 16

encode_total-none : (t : FrameType) → encode_total t none ≡ []
unfolding encode_total
encode_total-none middle = refl
encode_total-none first = refl
encode_total-none last = refl
encode_total-none bulk = refl

-- Of a frame that is not FIRST and has no total length, on any channel, those of video too, and
-- with a payload of any length, the encoding followed by any bytes is read as the same frame with
-- only as many bytes of the payload as the length modulo 2 ^ 16, and the rest of the payload is
-- left in front of these bytes.
pub parse-encode_truncated :
    (f : Frame) (rest : Bytes)
    → is_first f.frame_type ≡ false
    → f.total_length ≡ none
    → parse (encode f ++ rest) ≡ (
      some (record f { payload = take (announced f) f.payload }),
      drop (announced f) f.payload ++ rest,
    )
unfolding encode
parse-encode_truncated f rest hf ht =
    let he : encode_total f.frame_type f.total_length ≡ [] =
      ap (encode_total f.frame_type) ht ∙ encode_total-none f.frame_type in
    let front = take (announced f) f.payload in
    let back = drop (announced f) f.payload in
    let split : f.payload ++ rest ≡ front ++ (back ++ rest) =
      ap (λ b. b ++ rest) (sym (take-append-drop (announced f) f.payload))
      ∙ append_assoc front back rest in
    let size : length front ≡ announced f = omega (arith, length-take (announced f) f.payload) in
    rw (he, split)
      (parse_short f.channel_id (flags_of f) _ _ front (back ++ rest) f.frame_type
          (from_flags-flags_of f) hf (from_be16-be16 (announced f) (omega arith) ∙ sym size)
        ∙ rw (flags_of_control, flags_of_encrypted, ht) refl)
