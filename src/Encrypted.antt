-- ===== src/Encrypted.antt =====
-- Payloads through the TLS connection, crates/aabox-aapd/src/encrypted.rs, and the frames that carry
-- a message, `build_encrypted_frame` and `send_encrypted` of crates/aabox-aapd/src/control_channel.rs.
pub mod Drain
pub mod Carried
pub mod Send
pub mod Receive
mod Tests
use aabox.Common.{
  ℕ, zero, suc, ◌+◌, ◌-◌, ◌%◌, ◌^◌, min, not, ◌&&◌, ◌||◌, Bool, true, false, Option, none, some,
  Result, ok, err, [], ◌∷◌, ◌++◌, ltb, leb, ◌==◌, if◌then◌else◌, length, take, drop, Bytes, be16,
}
use aabox.Effect.{Error, tls, no_fuel, Eff, ◌>>=◌, ◌>>◌, return, fail, Transport}
use aabox.Framing.{FrameType, middle, first, last, bulk, Frame}
use aabox.Ids.{message_code, channel_open_request, channel_open_response}
use aabox.Control.{write_frame}

-- The result of one read of plaintext.
pub data Reading : Type 0 where
  plaintext : Bytes → Reading
  would_block : Reading
  failed : ℕ → Reading

-- The connection of the crate `rustls`. `tls_write_records` returns what one call wrote, none at the
-- end; `tls_read_records` the number of bytes that it took from the input.
pub record Side (C : Type 0) : Type 0 where
  pub tls_writer_write_all : Bytes → Eff C (Unit {0})
  pub tls_reader_read : (cap : ℕ) → C → Reading × C
  pub tls_write_records : Eff C Bytes
  pub tls_read_records : Bytes → Eff C ℕ
  pub tls_process_new_packets : Eff C (Unit {0})

module _ {C : Type 0} (conn : Side C) where
  open conn use {
    tls_writer_write_all, tls_reader_read, tls_write_records, tls_read_records,
    tls_process_new_packets,
  }

  unfoldable pub drain : ℕ → Eff C Bytes
  drain zero = fail no_fuel
  drain (suc fuel) =
      let rest = drain fuel in
      tls_write_records >>= λ written.
      if length written == 0 then return [] else (rest >>= λ more. return (written ++ more))

  unfoldable pub encrypt_payload : ℕ → Bytes → Eff C Bytes
  unfolding drain
  encrypt_payload fuel payload = tls_writer_write_all payload >> drain fuel

  -- The records are fed until the input is used up.
  unfoldable pub feed : ℕ → Bytes → Eff C (Unit {0})
  feed zero input c = fail no_fuel c
  feed (suc fuel) input c =
      if length input == 0
      then (ok tt, c)
      else (tls_read_records input >>= λ n. feed fuel (drop n input)) c

  unfoldable pub collected : (Bytes → Eff C Bytes) → Bytes → Reading × C → Result Error Bytes × C
  collected go out (plaintext read, c) =
      if length read == 0 then (ok out, c) else go (out ++ read) c
  collected go out (would_block, c) = (ok out, c)
  collected go out (failed e, c) = (err (tls e), c)

  unfoldable pub collect : ℕ → Bytes → Eff C Bytes
  unfolding collected
  collect zero out c = fail no_fuel c
  collect (suc fuel) out c = collected (collect fuel) out (tls_reader_read 4096 c)

  unfoldable pub decrypt_payload : ℕ → Bytes → Eff C Bytes
  unfolding feed collect
  decrypt_payload fuel ciphertext =
      feed fuel ciphertext >> (tls_process_new_packets >> collect fuel [])

pub record OutboundMessage : Type 0 where
  pub channel : ℕ
  pub message_id : ℕ
  pub payload : Bytes

abbrev pub max_fragment_plaintext : ℕ
max_fragment_plaintext = 0x1f00

module _ {S C : Type 0} where
  abbrev pub on_stream : {A : Type 0} → Eff S A → Eff (S × C) A
  on_stream m (s, c) = ((m s).0, ((m s).1, c))

  abbrev pub on_conn : {A : Type 0} → Eff C A → Eff (S × C) A
  on_conn m (s, c) = ((m c).0, (s, (m c).1))

abbrev pub sealed_frame : ℕ → FrameType → Bool → Option ℕ → Bytes → Frame
sealed_frame channel t is_control total ciphertext = record {
  channel_id = channel;
  frame_type = t;
  control = is_control;
  encrypted = true;
  total_length = total;
  payload = ciphertext;
}

abbrev pub is_channel_control : ℕ → ℕ → Bool
is_channel_control channel msg_id =
    not (channel == 0)
    && (msg_id == message_code channel_open_request || msg_id == message_code channel_open_response)

unfoldable pub fragment_type : ℕ → ℕ → ℕ → FrameType
fragment_type offset chunk_end total =
    if offset == 0 then first else if chunk_end == total then last else middle

unfoldable pub fragment_total : ℕ → ℕ → Option ℕ
fragment_total offset total = if offset == 0 then some (total % 2 ^ 32) else none

-- `fuel` bounds the calls of `write_tls` for one payload.
module _ {S C : Type 0} (stream : Transport S) (conn : Side C) (fuel : ℕ) where
  unfoldable pub build_encrypted_frame : ℕ → ℕ → Bytes → Eff C Frame
  build_encrypted_frame channel msg_id payload =
      encrypt_payload conn fuel (be16 msg_id ++ payload) >>= λ ciphertext.
      return (sealed_frame channel bulk (is_channel_control channel msg_id) none ciphertext)

  -- The fragments from `offset` on, one byte at least in each round.
  unfoldable pub send_fragments : ℕ → ℕ → Bytes → ℕ → Eff (S × C) (Unit {0})
  unfolding fragment_type fragment_total
  send_fragments zero channel plain offset = fail no_fuel
  send_fragments (suc rounds) channel plain offset =
      let total_plain = length plain in
      let chunk_end = min (offset + max_fragment_plaintext) total_plain in
      let chunk = take (chunk_end - offset) (drop offset plain) in
      let rest = send_fragments rounds channel plain chunk_end in
      if ltb offset total_plain
      then (on_conn (encrypt_payload conn fuel chunk) >>= λ ciphertext.
          on_stream (
            write_frame stream (
              sealed_frame channel (fragment_type offset chunk_end total_plain) false
                (fragment_total offset total_plain) ciphertext))
          >> rest)
      else return tt

  unfoldable pub send_encrypted : OutboundMessage → Eff (S × C) (Unit {0})
  unfolding build_encrypted_frame send_fragments
  send_encrypted out =
      let plain = be16 out.message_id ++ out.payload in
      if leb (length plain) max_fragment_plaintext
      then (on_conn (build_encrypted_frame out.channel out.message_id out.payload) >>= λ frame.
          on_stream (write_frame stream frame))
      else send_fragments (suc (length plain)) out.channel plain 0
