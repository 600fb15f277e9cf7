-- ===== src/Framing/Tests.antt =====
-- Examples of frames on the wire.
use aabox.Common.{
  replicate, take, drop, ◌≡◌, refl, true, false, none, some, [], ◌∷◌, ◌++◌, Bytes, arith,
}
use aabox.Framing.{bulk, first, Frame, flags_of, bits, encode, encode_total, from_flags, parse}
use aabox.Framing.RoundTrip.{IsWire, parse-encode}
use aabox.Framing.Truncated.{announced, parse-encode_truncated}
use aabox.Framing.Stream.{parse-append, parse_partial}

abbrev fragment : Frame
fragment = record {
  channel_id = 3;
  frame_type = first;
  control = false;
  encrypted = true;
  total_length = some 70000;
  payload = 0x11 ∷ 0x22 ∷ 0x33 ∷ [];
}

abbrev fragment_bytes : Bytes
fragment_bytes = 3 ∷ 9 ∷ 0 ∷ 3 ∷ 0 ∷ 1 ∷ 0x11 ∷ 0x70 ∷ 0x11 ∷ 0x22 ∷ 0x33 ∷ []

fragment-IsWire : IsWire fragment
fragment-IsWire = record {
  channel_fits = omega arith;
  payload_fits = omega arith;
  total_fits = omega arith;
}

encode-fragment : encode fragment ≡ fragment_bytes
unfolding encode encode_total flags_of bits
encode-fragment = refl

parse-fragment : parse (fragment_bytes ++ (7 ∷ [])) ≡ (some fragment, 7 ∷ [])
unfolding parse from_flags
parse-fragment = refl

parse-encode_example : parse (encode fragment ++ (7 ∷ [])) ≡ (some fragment, 7 ∷ [])
parse-encode_example = parse-encode fragment (7 ∷ []) fragment-IsWire

parse-append_example : parse (fragment_bytes ++ (7 ∷ []) ++ (8 ∷ [])) ≡ (some fragment, 7 ∷ 8 ∷ [])
parse-append_example = parse-append (fragment_bytes ++ (7 ∷ [])) (8 ∷ []) parse-fragment

parse_partial_example : parse (3 ∷ 9 ∷ 0 ∷ 3 ∷ 0 ∷ []) ≡ (none, 3 ∷ 9 ∷ 0 ∷ 3 ∷ 0 ∷ [])
parse_partial_example =
    parse_partial fragment (3 ∷ 9 ∷ 0 ∷ 3 ∷ 0 ∷ []) 1 (0x11 ∷ 0x70 ∷ 0x11 ∷ 0x22 ∷ 0x33 ∷ [])
      fragment-IsWire encode-fragment

-- A payload that is one byte too long for the length field.
abbrev long_frame : Frame
long_frame = record {
  channel_id = 4;
  frame_type = bulk;
  control = false;
  encrypted = true;
  total_length = none;
  payload = replicate 65537 0x41;
}

parse-encode_truncated_example : parse (encode long_frame ++ []) ≡ (
  some (record long_frame { payload = take (announced long_frame) long_frame.payload }),
  drop (announced long_frame) long_frame.payload ++ [],
)
parse-encode_truncated_example = parse-encode_truncated long_frame [] refl refl
