-- ===== src/Control/Tests.antt =====
-- Examples over a stream in memory.
use aabox.Common.{◌≡◌, refl, true, false, none, ok, err, [], ◌∷◌, ◌++◌, take, drop, Bytes, arith}
use aabox.Effect.{no_total_length, wrong_channel, Transport}
use aabox.Framing.{bulk, Frame, bulk_control, encode, flags_of, bits, encode_total, from_flags}
use aabox.Framing.RoundTrip.{IsWire}
use aabox.Control.{
  protocol_major, protocol_minor, version_request_frame, version_response_frame, check_request,
  read_frame, version_handshake_initiator, version_handshake_responder, ssl_handshake_frame,
}
use aabox.Control.Read.{
  header_of, Refusal, cut_first, read_frame-encode, read_frame_split, read_frame-Refusal,
}
use aabox.Control.Version.{request, version_handshake_completes}

-- What is still to be read, and what was written.
abbrev Memory : Type 0
Memory = Bytes × Bytes

abbrev memory : Transport Memory
memory = record {
  read = λ cap w. (ok (take cap w.0), (drop cap w.0, w.1));
  read_exact = λ n w. (ok (take n w.0), (drop n w.0, w.1));
  write_all = λ b w. (ok tt, (w.0, w.1 ++ b));
}

-- A stream whose reads deliver six bytes at most.
abbrev trickle : Transport Memory
trickle = record {
  read = λ cap w. (ok (take 6 w.0), (drop 6 w.0, w.1));
  read_exact = λ n w. (ok (take n w.0), (drop n w.0, w.1));
  write_all = λ b w. (ok tt, (w.0, w.1 ++ b));
}

abbrev sample : Frame
sample = record {
  channel_id = 3;
  frame_type = bulk;
  control = false;
  encrypted = true;
  total_length = none;
  payload = 0x11 ∷ 0x22 ∷ 0x33 ∷ [];
}

sample-IsWire : IsWire sample
sample-IsWire = record { channel_fits = omega arith; payload_fits = omega arith; total_fits = tt }

abbrev sample_bytes : Bytes
sample_bytes = 3 ∷ 11 ∷ 0 ∷ 3 ∷ 0x11 ∷ 0x22 ∷ 0x33 ∷ []

read_sample :
    memory.read 4096 (sample_bytes ++ (9 ∷ []), []) ≡ (ok (encode sample ++ (9 ∷ [])), ([], []))
unfolding encode encode_total flags_of bits
read_sample = refl

read_frame-encode_example : read_frame memory (sample_bytes ++ (9 ∷ []), []) ≡ (ok sample, ([], []))
read_frame-encode_example =
    read_frame-encode memory sample (9 ∷ []) (sample_bytes ++ (9 ∷ []), []) ([], []) sample-IsWire
      read_sample

read_front :
    trickle.read 4096 (sample_bytes, [])
    ≡ (ok (header_of sample ++ (0x11 ∷ 0x22 ∷ [])), (0x33 ∷ [], []))
unfolding encode_total flags_of bits
read_front = refl

read_frame_split_example : read_frame trickle (sample_bytes, []) ≡ (ok sample, ([], []))
read_frame_split_example =
    read_frame_split trickle sample (0x11 ∷ 0x22 ∷ []) (0x33 ∷ []) (sample_bytes, [])
      (0x33 ∷ [], []) ([], []) sample-IsWire refl (omega arith) read_front refl

short_first : Refusal (3 ∷ 9 ∷ 0 ∷ 1 ∷ []) (no_total_length 4)
unfolding from_flags
short_first = cut_first (omega arith) (omega arith) refl

read_frame-Refusal_example :
    read_frame memory (3 ∷ 9 ∷ 0 ∷ 1 ∷ [], []) ≡ (err (no_total_length 4), ([], []))
read_frame-Refusal_example =
    read_frame-Refusal memory (3 ∷ 9 ∷ 0 ∷ 1 ∷ [], []) ([], []) (3 ∷ 9 ∷ 0 ∷ 1 ∷ [])
      (no_total_length 4) short_first refl

abbrev request_bytes : Bytes
request_bytes = 0 ∷ 3 ∷ 0 ∷ 6 ∷ 0 ∷ 1 ∷ 0 ∷ 1 ∷ 0 ∷ 7 ∷ []

abbrev response_bytes : Bytes
response_bytes = 0 ∷ 3 ∷ 0 ∷ 6 ∷ 0 ∷ 2 ∷ 0 ∷ 1 ∷ 0 ∷ 7 ∷ []

read_request : memory.read 4096 (request_bytes, []) ≡ (ok (encode (request 1 7 [])), ([], []))
unfolding encode encode_total flags_of bits bulk_control
read_request = refl

write_response :
    memory.write_all (encode version_response_frame) ([], []) ≡ (ok tt, ([], response_bytes))
unfolding encode encode_total flags_of bits bulk_control version_response_frame
write_response = refl

refused : check_request sample ≡ err (wrong_channel 3)
unfolding check_request
refused = refl

read_plain_sample : memory.read 4096 (sample_bytes, []) ≡ (ok (encode sample), ([], []))
unfolding encode encode_total flags_of bits
read_plain_sample = refl

write_request :
    memory.write_all (encode version_request_frame) (response_bytes, [])
    ≡ (ok tt, (response_bytes, request_bytes))
unfolding encode encode_total flags_of bits bulk_control version_request_frame
write_request = refl

read_request_frame :
    memory.read 4096 (request_bytes, []) ≡ (ok (encode version_request_frame), ([], []))
unfolding encode encode_total flags_of bits bulk_control version_request_frame
read_request_frame = refl

read_response_frame :
    memory.read 4096 (response_bytes, request_bytes)
    ≡ (ok (encode version_response_frame), ([], request_bytes))
unfolding encode encode_total flags_of bits bulk_control version_response_frame
read_response_frame = refl

version_handshake_completes_example :
    (version_handshake_initiator memory (response_bytes, [])
      ≡ (ok (protocol_major, protocol_minor, 0), ([], request_bytes)))
    × (version_handshake_responder memory (request_bytes, [])
        ≡ (ok (protocol_major, protocol_minor), ([], response_bytes)))
version_handshake_completes_example =
    version_handshake_completes memory memory (response_bytes, []) (response_bytes, request_bytes)
      ([], request_bytes) (request_bytes, []) ([], []) ([], response_bytes) write_request
      read_request_frame write_response read_response_frame

read_ssl :
    memory.read 4096 (0 ∷ 3 ∷ 0 ∷ 4 ∷ 0 ∷ 3 ∷ 0x16 ∷ 0x03 ∷ [], [])
    ≡ (ok (encode (ssl_handshake_frame (0x16 ∷ 0x03 ∷ [])) ++ []), ([], []))
unfolding encode encode_total flags_of bits bulk_control ssl_handshake_frame
read_ssl = refl
