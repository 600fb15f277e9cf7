-- ===== src/Framing.antt =====
-- AAP frames, crates/aabox-aapd/src/framing.rs: the header, `encode` and `parse`.
pub mod Bits
pub mod RoundTrip
pub mod Stream
pub mod Truncated
mod Tests
use aabox.Common.{
  ℕ, ◌+◌, ◌%◌, ◌^◌, bit_and, bit_or, Bool, true, false, not, Option, none, some, List, [], ◌∷◌,
  ◌++◌, ltb, ◌==◌, if◌then◌else◌, length, get_or, take, drop, Bytes, be16, be32, from_be16,
  from_be32,
}

abbrev pub flag_first : ℕ
flag_first = 1

abbrev pub flag_last : ℕ
flag_last = 2

abbrev pub flag_bulk : ℕ
flag_bulk = 3

abbrev pub flag_control : ℕ
flag_control = 4

abbrev pub flag_encrypted : ℕ
flag_encrypted = 8

pub data FrameType : Type 0 where
  middle first last bulk : FrameType

unfoldable pub from_flags : ℕ → FrameType
from_flags flags =
    let kind = bit_and flags flag_bulk in
    if kind == flag_bulk
    then bulk
    else if kind == flag_first
    then first
    else if kind == flag_last
    then last
    else middle

unfoldable pub bits : FrameType → ℕ
bits middle = 0
bits first = flag_first
bits last = flag_last
bits bulk = flag_bulk

pub record Frame : Type 0 where
  pub channel_id : ℕ
  pub frame_type : FrameType
  pub control : Bool
  pub encrypted : Bool
  pub total_length : Option ℕ
  pub payload : Bytes

-- `frame_type.bits() | CONTROL? | ENCRYPTED?`
unfoldable pub flags_of : Frame → ℕ
unfolding bits
flags_of f =
    bit_or (bit_or (bits f.frame_type) (if f.control then flag_control else 0))
      (if f.encrypted then flag_encrypted else 0)

-- The four bytes of the total length, of a FIRST frame that has one.
unfoldable pub encode_total : FrameType → Option ℕ → Bytes
encode_total first (some total) = be32 total
encode_total first none = []
encode_total _ total = []

unfoldable pub encode : Frame → Bytes
encode f =
    f.channel_id ∷ flags_of f ∷ be16 (length f.payload % 2 ^ 16)
    ++ (encode_total f.frame_type f.total_length ++ f.payload)

abbrev pub is_first : FrameType → Bool
is_first first = true
is_first _ = false

-- `Ok(None)` is `none`: the caller reads more and tries again. The second part is what is left in
-- the buffer. `parse` has no error path.
unfoldable pub parse : Bytes → Option Frame × Bytes
parse buf =
    let flags = get_or buf 1 0 in
    let payload_len = from_be16 (get_or buf 2 0) (get_or buf 3 0) in
    let frame_type = from_flags flags in
    let header_len = if is_first frame_type then 8 else 4 in
    let total_length =
      if is_first frame_type
      then some (from_be32 (get_or buf 4 0) (get_or buf 5 0) (get_or buf 6 0) (get_or buf 7 0))
      else none in
    let body = drop header_len buf in
    let frame : Frame = record {
      channel_id = get_or buf 0 0;
      frame_type = frame_type;
      control = not (bit_and flags flag_control == 0);
      encrypted = not (bit_and flags flag_encrypted == 0);
      total_length = total_length;
      payload = take payload_len body;
    } in
    if ltb (length buf) 4
    then (none, buf)
    else if ltb (length buf) (header_len + payload_len)
    then (none, buf)
    else (some frame, drop payload_len body)

-- A BULK frame on the plain path: the message id and the body, with no CONTROL bit.
unfoldable pub bulk_control : ℕ → ℕ → Bytes → Frame
bulk_control channel_id message_id body = record {
  channel_id = channel_id;
  frame_type = bulk;
  control = false;
  encrypted = false;
  total_length = none;
  payload = be16 message_id ++ body;
}
