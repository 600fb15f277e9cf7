-- ===== src/Control.antt =====
-- Frames on a stream and the plaintext handshakes, crates/aabox-aapd/src/control.rs.
pub mod Read
pub mod Version
mod Tests
use aabox.Common.{
  ℕ, ◌+◌, ◌-◌, bit_and, not, ◌≡◌, Option, none, some, Result, ok, err, ◌∷◌, ◌++◌, ltb, ◌==◌,
  if◌then◌else◌, length, get_or, take, drop, Bytes, be16, from_be16, from_be32,
}
use aabox.Effect.{
  Error, io, end_of_file, too_short, wrong_channel, unexpected_message, no_total_length, Eff, ◌>>=◌,
  ◌>>◌, return, fail, lift, Transport,
}
use aabox.Framing.{FrameType, middle, first, last, bulk, is_first, Frame, encode, bulk_control}
use aabox.Ids.{
  channel_code, control, message_code, version_request, version_response, ssl_handshake,
}

abbrev pub protocol_major : ℕ
protocol_major = 1

abbrev pub protocol_minor : ℕ
protocol_minor = 7

-- `u16::from_be_bytes([payload[i], payload[i + 1]])`
abbrev pub u16_at : Bytes → ℕ → ℕ
u16_at payload i = from_be16 (get_or payload i 0) (get_or payload (i + 1) 0)

-- The type in the flags, as `read_frame` reads it.
unfoldable pub read_type : ℕ → FrameType
read_type flags =
    let kind = bit_and flags 0x03 in
    if kind == 0x03
    then bulk
    else if kind == 0x01
    then first
    else if kind == 0x02
    then last
    else middle

unfoldable pub frame_of : ℕ → ℕ → Option ℕ → Bytes → Frame
unfolding read_type
frame_of channel_id flags total_length payload = record {
  channel_id = channel_id;
  frame_type = read_type flags;
  control = not (bit_and flags 0x04 == 0);
  encrypted = not (bit_and flags 0x08 == 0);
  total_length = total_length;
  payload = payload;
}

module _ {S : Type 0} (stream : Transport S) where
  open stream use {read, read_exact, write_all}

  unfoldable pub write_frame : Frame → Eff S (Unit {0})
  write_frame frame = write_all (encode frame)

  -- The payload: what stands in the first chunk behind the header, and the rest read from the
  -- stream. What the chunk holds behind the payload is not kept.
  unfoldable pub read_payload : Bytes → ℕ → Eff S Bytes
  read_payload available payload_len =
      let from_buf = take payload_len available in
      if ltb (length from_buf) payload_len
      then (read_exact (payload_len - length from_buf) >>= λ remainder.
          return (from_buf ++ remainder))
      else return from_buf

  -- The header, from the chunk of the first read.
  unfoldable pub read_header : Bytes → Eff S Frame
  unfolding read_payload
  read_header buf =
      let n = length buf in
      let channel_id = get_or buf 0 0 in
      let flags = get_or buf 1 0 in
      let payload_len = u16_at buf 2 in
      let total = from_be32 (get_or buf 4 0) (get_or buf 5 0) (get_or buf 6 0) (get_or buf 7 0) in
      if is_first (read_type flags)
      then (if ltb n 8
          then fail (no_total_length n)
          else (read_payload (drop 8 buf) payload_len >>= λ payload.
              return (frame_of channel_id flags (some total) payload)))
      else (read_payload (drop 4 buf) payload_len >>= λ payload.
          return (frame_of channel_id flags none payload))

  unfoldable pub read_frame : Eff S Frame
  unfolding read_header
  read_frame = do
    buf ← read 4096
    if length buf == 0
        then fail end_of_file
        else if ltb (length buf) 4
        then fail (too_short (length buf))
        else read_header buf

-- `major` and `minor`, of 16 bits each.
abbrev version_body : Bytes
version_body = be16 protocol_major ++ be16 protocol_minor

unfoldable pub version_request_frame : Frame
unfolding bulk_control
version_request_frame =
    bulk_control (channel_code control) (message_code version_request) version_body

unfoldable pub version_response_frame : Frame
unfolding bulk_control
version_response_frame =
    bulk_control (channel_code control) (message_code version_response) version_body

-- The checks of the initiator on the answer; the status is left out by some head units.
unfoldable pub check_response : Frame → Result Error (ℕ × ℕ × ℕ)
check_response resp =
    if not (resp.channel_id == channel_code control)
    then err (wrong_channel resp.channel_id)
    else if ltb (length resp.payload) 6
    then err (too_short (length resp.payload))
    else if not (u16_at resp.payload 0 == message_code version_response)
    then err (unexpected_message (u16_at resp.payload 0))
    else ok (
      u16_at resp.payload 2,
      u16_at resp.payload 4,
      if ltb (length resp.payload) 8 then 0 else u16_at resp.payload 6,
    )

-- The checks of the responder on the request.
unfoldable pub check_request : Frame → Result Error (ℕ × ℕ)
check_request req =
    if not (req.channel_id == channel_code control)
    then err (wrong_channel req.channel_id)
    else if ltb (length req.payload) 6
    then err (too_short (length req.payload))
    else if not (u16_at req.payload 0 == message_code version_request)
    then err (unexpected_message (u16_at req.payload 0))
    else ok (u16_at req.payload 2, u16_at req.payload 4)

module _ {S : Type 0} (stream : Transport S) where
  unfoldable pub version_handshake_initiator : Eff S (ℕ × ℕ × ℕ)
  unfolding check_response
  version_handshake_initiator = do
    write_frame stream version_request_frame
    resp ← read_frame stream
    lift (check_response resp)

  unfoldable pub version_handshake_responder : Eff S (ℕ × ℕ)
  unfolding check_request
  version_handshake_responder = do
    req ← read_frame stream
    peer ← lift (check_request req)
    write_frame stream version_response_frame
    return peer

unfoldable pub ssl_handshake_frame : Bytes → Frame
unfolding bulk_control
ssl_handshake_frame body = bulk_control (channel_code control) (message_code ssl_handshake) body

unfoldable pub ssl_handshake_body : Frame → Result Error Bytes
ssl_handshake_body frame =
    if not (frame.channel_id == channel_code control)
    then err (wrong_channel frame.channel_id)
    else if ltb (length frame.payload) 2
    then err (too_short (length frame.payload))
    else if not (u16_at frame.payload 0 == message_code ssl_handshake)
    then err (unexpected_message (u16_at frame.payload 0))
    else ok (drop 2 frame.payload)
