-- ===== src/Channels.antt =====
-- The stateless handlers of crates/aabox-aapd/src/channels: input.rs, nav.rs, the fallback of
-- audio.rs, and the handler of video/mod.rs over the pipeline. The protobuf codecs are parameters.
pub mod Navigation
pub mod Pipeline
mod Tests
use aabox.Common.{
  ℕ, ◌+◌, ◌%◌, ◌^◌, ◌==◌, ◌||◌, Bool, Option, none, some, Result, ok, err, List, [], ◌∷◌, ◌++◌,
  length, if◌then◌else◌, Bytes, be16, be32,
}
use aabox.Effect.{Error, decode, Eff}
use aabox.Encrypted.{OutboundMessage}
use aabox.ControlChannel.{message}
use aabox.Ids.{channel_code, input, navigation}
use aabox.Video.{VideoPipeline, Streamer, start, stop, on_media_ack}

-- The generated messages of these channels.
pub record ChannelMessages : Type 0 where
  pub setup_status_ok : ℕ
  pub status_ok : ℕ
  pub decode_setup_request : Bytes → Option ℕ
  pub decode_start_indication : Bytes → Option (ℕ × ℕ)
  pub decode_media_ack : Bytes → Option ℕ
  pub decode_binding_request : Bytes → Option ℕ
  pub decode_input_open_request : Bytes → Option Bool
  pub encode_setup_response : ℕ → ℕ → List ℕ → Bytes
  pub encode_input_open_response : ℕ → ℕ → Bytes
  pub encode_binding_response : ℕ → Bytes
  pub encode_media_ack : ℕ → ℕ → Bytes

abbrev pub msg_setup_request : ℕ
msg_setup_request = 0x8000

abbrev pub msg_start_indication : ℕ
msg_start_indication = 0x8001

abbrev pub msg_stop_indication : ℕ
msg_stop_indication = 0x8002

abbrev pub msg_setup_response : ℕ
msg_setup_response = 0x8003

abbrev pub msg_av_media_ack_indication : ℕ
msg_av_media_ack_indication = 0x8004

abbrev pub msg_av_input_open_request : ℕ
msg_av_input_open_request = 0x8005

abbrev pub msg_av_input_open_response : ℕ
msg_av_input_open_response = 0x8006

abbrev pub msg_binding_request : ℕ
msg_binding_request = 0x8002

abbrev pub msg_binding_response : ℕ
msg_binding_response = 0x8003

abbrev pub video_max_unacked : ℕ
video_max_unacked = 10

-- A guidance step: the text as its bytes.
pub record NavInstruction : Type 0 where
  pub status_text : Bytes
  pub turn_id : ℕ
  pub distance_m : ℕ

unfoldable pub encode_instruction : NavInstruction → List OutboundMessage
encode_instruction instr =
    message (channel_code navigation) 0x8001
      (1 ∷ (be16 (length instr.status_text % 2 ^ 16) ++ instr.status_text))
    ∷ message (channel_code navigation) 0x8002 (be32 instr.turn_id)
    ∷ message (channel_code navigation) 0x8003 (be32 instr.distance_m)
    ∷ []

-- The pipeline and its tasks.
abbrev pub Tasks : Type 0
Tasks = VideoPipeline × List Streamer

module _ (m : ChannelMessages) where
  open m use {
    setup_status_ok, status_ok, decode_setup_request, decode_start_indication, decode_media_ack,
    decode_binding_request, encode_setup_response, encode_input_open_response,
    encode_binding_response,
  }

  on_setup : ℕ → Option ℕ → Result Error (List OutboundMessage)
  on_setup channel none = err (decode 0)
  on_setup channel (some config_index) = ok (
      message channel msg_setup_response
        (encode_setup_response setup_status_ok video_max_unacked (config_index ∷ []))
      ∷ [])

  on_start_indication : Option (ℕ × ℕ) → Eff Tasks (List OutboundMessage)
  on_start_indication none w = (err (decode 0), w)
  on_start_indication (some (session, config)) (p, ts) =
      (ok [], ((start session p).0, (start session p).1 ∷ ts))

  on_ack_indication : Option ℕ → Eff Tasks (List OutboundMessage)
  on_ack_indication none w = (ok [], w)
  on_ack_indication (some value) (p, ts) = (ok [], (on_media_ack p, ts))

  -- `video::handle`
  unfoldable pub video_handle : ℕ → ℕ → Bytes → Eff Tasks (List OutboundMessage)
  unfolding on_setup on_start_indication on_ack_indication
  video_handle channel msg_id payload w =
      if msg_id == msg_setup_request
      then (on_setup channel (decode_setup_request payload), w)
      else if msg_id == msg_start_indication
      then on_start_indication (decode_start_indication payload) w
      else if msg_id == msg_stop_indication
      then (ok [], (stop w.1 w.0, w.1))
      else if msg_id == msg_av_media_ack_indication
      then on_ack_indication (decode_media_ack payload) w
      else (ok [], w)

  on_binding : Option ℕ → Result Error (List OutboundMessage)
  on_binding none = err (decode 0)
  on_binding (some n) =
      ok
        (message (channel_code input) msg_binding_response (encode_binding_response status_ok) ∷ [])

  -- `input::handle`; an input event is only logged.
  unfoldable pub input_handle : ℕ → Bytes → Result Error (List OutboundMessage)
  unfolding on_binding
  input_handle msg_id payload =
      if msg_id == msg_binding_request then on_binding (decode_binding_request payload) else ok []

  on_audio_setup : ℕ → Option ℕ → Result Error (List OutboundMessage)
  on_audio_setup channel none = err (decode 0)
  on_audio_setup channel (some config_index) =
      ok (
        message channel msg_setup_response (encode_setup_response setup_status_ok 10 (0 ∷ [])) ∷ [])

  -- `audio::handle`, the fallback without state.
  unfoldable pub audio_handle : ℕ → ℕ → Bytes → Result Error (List OutboundMessage)
  unfolding on_audio_setup
  audio_handle channel msg_id payload =
      if msg_id == msg_setup_request
      then on_audio_setup channel (decode_setup_request payload)
      else if msg_id == msg_av_input_open_request
      then ok (message channel msg_av_input_open_response (encode_input_open_response 0 0) ∷ [])
      else ok []
