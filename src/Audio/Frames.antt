-- ===== src/Audio/Frames.antt =====
-- Audio frames on the wire.
use aabox.Common.{ℕ, ◌^◌, ◌<◌, true, ok, ◌++◌, length, ltb_of_le, Bytes, be64, ◌≡◌, refl, arith}
use aabox.Ids.{ChannelId}
use aabox.Audio.{AudioFrame, be64_of, decode_inbound, encode_outbound_frame}

pub be64_of-be64 : (n : ℕ) (rest : Bytes) → n < 2 ^ 64 → be64_of (be64 n ++ rest) ≡ n
be64_of-be64 n rest h = omega arith

pub decode_inbound-encode_outbound_frame :
    (cid : ChannelId) (frame : AudioFrame)
    → frame.timestamp_us < 2 ^ 64
    → decode_inbound (encode_outbound_frame cid frame).payload true ≡ ok frame
unfolding decode_inbound encode_outbound_frame
decode_inbound-encode_outbound_frame cid frame h =
    rw
      (
        be64_of-be64 frame.timestamp_us frame.pcm h,
        ltb_of_le (length (be64 frame.timestamp_us ++ frame.pcm)) 8 (omega arith),
      )
      refl
