-- ===== src/ControlChannel.antt =====
-- The service discovery and the control messages, crates/aabox-aapd/src/control_channel.rs. The
-- protobuf messages and their codecs are generated and stand for parameters.
pub mod Opens
pub mod Replies
mod Tests
use aabox.Common.{
  ℕ, zero, suc, ◌+◌, ◌%◌, ◌^◌, ◌==◌, Bool, true, false, Option, none, some, Result, ok, err, List,
  [], ◌∷◌, ◌++◌, length, if◌then◌else◌, Bytes,
}
use aabox.Effect.{Error, decode}
use aabox.Encrypted.{OutboundMessage}
use aabox.Ids.{
  channel_code, control, ControlMessageId, message_code, message_of, no_message, version_request,
  version_response, ssl_handshake, auth_complete, service_discovery_request,
  service_discovery_response, channel_open_request, channel_open_response, ping_request,
  ping_response, navigation_focus_request, navigation_focus_response, shutdown_request,
  shutdown_response, voice_session_request, audio_focus_request, audio_focus_response,
}

-- The generated messages: what is read of them, `none` where decoding fails, and how the replies
-- are encoded. `encode_varint` is that of the crate `prost`.
pub record Messages : Type 1 where
  pub ChannelDescriptor : Type 0
  pub AvChannel : Type 0
  pub channel_id : ChannelDescriptor → ℕ
  pub has_sensor_channel : ChannelDescriptor → Bool
  pub av_channel : ChannelDescriptor → Option AvChannel
  pub has_input_channel : ChannelDescriptor → Bool
  pub has_av_input_channel : ChannelDescriptor → Bool
  pub has_bluetooth_channel : ChannelDescriptor → Bool
  pub has_navigation_channel : ChannelDescriptor → Bool
  pub has_vendor_extension_channel : ChannelDescriptor → Bool
  pub no_video_configs : AvChannel → Bool
  pub stream_type : AvChannel → ℕ
  pub audio_type : AvChannel → ℕ
  pub stream_type_video : ℕ
  pub status_ok : ℕ
  pub audio_focus_gain : ℕ
  pub decode_service_discovery_response : Bytes → Option (List ChannelDescriptor)
  pub decode_channel_open_response : Bytes → Option ℕ
  pub decode_ping_request : Bytes → Option ℕ
  pub decode_audio_focus_request : Bytes → Option ℕ
  pub decode_channel_open_request : Bytes → Option ℕ
  pub encode_ping_response : ℕ → Bytes
  pub encode_audio_focus_response : ℕ → Bytes
  pub encode_navigation_focus_response : ℕ → Bytes
  pub encode_channel_open_response : ℕ → Bytes
  pub encode_shutdown_response : Bytes
  pub encode_varint : ℕ → Bytes

-- The names that `classify_channel` gives.
pub data Kind : Type 0 where
  sensor video audio_speech audio_system audio_media audio_alarm audio_unknown : Kind
  input av_input bluetooth navigation vendor_ext unknown : Kind

abbrev pub message : ℕ → ℕ → Bytes → OutboundMessage
message channel message_id payload = record {
  channel = channel;
  message_id = message_id;
  payload = payload;
}

unfoldable pub audio_kind : ℕ → Kind
audio_kind audio_type =
    if audio_type == 1
    then audio_speech
    else if audio_type == 2
    then audio_system
    else if audio_type == 3
    then audio_media
    else if audio_type == 4
    then audio_alarm
    else audio_unknown

unfoldable pub should_open : Kind → Bool
should_open vendor_ext = false
should_open unknown = false
should_open _ = true

-- `channel_id as u8`
abbrev pub channel_byte : ℕ → ℕ
channel_byte channel_id = channel_id % 2 ^ 8

abbrev scan_codes : Bytes
scan_codes =
    0x03 ∷ 0x04 ∷ 0x05 ∷ 0x06 ∷ 0x13 ∷ 0x14 ∷ 0x15 ∷ 0x16 ∷ 0x17 ∷ 0x54 ∷ 0x55 ∷ 0x57 ∷ 0x58 ∷ []

abbrev audio_setup : ℕ → Option OutboundMessage
audio_setup channel_id = some (message (channel_byte channel_id) 0x8000 (0x08 ∷ 0x01 ∷ []))

unfoldable pub setup_message_for : ℕ → Kind → Option OutboundMessage
setup_message_for channel_id audio_media = audio_setup channel_id
setup_message_for channel_id audio_speech = audio_setup channel_id
setup_message_for channel_id audio_system = audio_setup channel_id
setup_message_for channel_id audio_alarm = audio_setup channel_id
setup_message_for channel_id audio_unknown = audio_setup channel_id
setup_message_for channel_id av_input =
    some (message (channel_byte channel_id) 0x8005 (0x08 ∷ 0x00 ∷ []))
setup_message_for channel_id video =
    some (message (channel_byte channel_id) 0x8000 (0x08 ∷ 0x03 ∷ []))
setup_message_for channel_id sensor =
    some (message (channel_byte channel_id) 0x8001 (0x08 ∷ 0x0d ∷ 0x10 ∷ 0x00 ∷ []))
setup_message_for channel_id input =
    some (message (channel_byte channel_id) 0x8002 (0x0a ∷ length scan_codes ∷ scan_codes))
setup_message_for channel_id _ = none

abbrev pub with_setup : Option OutboundMessage → List OutboundMessage → List OutboundMessage
with_setup none outs = outs
with_setup (some setup) outs = setup ∷ outs

abbrev pub reply : ControlMessageId → Bytes → Result Error (List OutboundMessage)
reply id body = ok (message (channel_code control) (message_code id) body ∷ [])

-- An error where the body was not decoded.
abbrev pub decoded :
    Option ℕ → (ℕ → Result Error (List OutboundMessage)) → Result Error (List OutboundMessage)
decoded none k = err (decode 0)
decoded (some v) k = k v

module _ (m : Messages) where
  open m use {
    ChannelDescriptor, AvChannel, channel_id, has_sensor_channel, av_channel, has_input_channel,
    has_av_input_channel, has_bluetooth_channel, has_navigation_channel,
    has_vendor_extension_channel, no_video_configs, stream_type, audio_type, stream_type_video,
    status_ok, audio_focus_gain, decode_service_discovery_response, decode_channel_open_response,
    decode_ping_request, decode_audio_focus_request, decode_channel_open_request,
    encode_ping_response, encode_audio_focus_response, encode_navigation_focus_response,
    encode_channel_open_response, encode_shutdown_response, encode_varint,
  }

  unfoldable pub classify_without_av : ChannelDescriptor → Kind
  classify_without_av ch =
      if has_input_channel ch
      then input
      else if has_av_input_channel ch
      then av_input
      else if has_bluetooth_channel ch
      then bluetooth
      else if has_navigation_channel ch
      then navigation
      else if has_vendor_extension_channel ch
      then vendor_ext
      else unknown

  unfoldable pub classify_av : ChannelDescriptor → Option AvChannel → Kind
  unfolding classify_without_av audio_kind
  classify_av ch none = classify_without_av ch
  classify_av ch (some av) =
      if no_video_configs av
      then if stream_type av == stream_type_video then video else audio_kind (audio_type av)
      else video

  unfoldable pub classify_channel : ChannelDescriptor → Kind
  unfolding classify_av
  classify_channel ch = if has_sensor_channel ch then sensor else classify_av ch (av_channel ch)

  unfoldable pub open_request : ChannelDescriptor → OutboundMessage
  open_request ch =
      message (channel_byte (channel_id ch)) (message_code channel_open_request)
        (0x08 ∷ 0x00 ∷ 0x10 ∷ encode_varint (channel_id ch))

  -- The loop over the channels of the head unit.
  unfoldable pub open_channels : List ChannelDescriptor → List OutboundMessage
  unfolding classify_channel should_open open_request setup_message_for
  open_channels [] = []
  open_channels (ch ∷ channels) =
      let rest = open_channels channels in
      if should_open (classify_channel ch)
      then open_request ch
        ∷ with_setup (setup_message_for (channel_id ch) (classify_channel ch)) rest
      else rest

  unfoldable pub on_service_discovery : Option (List ChannelDescriptor) → List OutboundMessage
  unfolding open_channels
  on_service_discovery none = []
  on_service_discovery (some channels) =
      message (channel_code control) 0x0017 (0x08 ∷ 0x64 ∷ [])
      ∷ message (channel_code control) 0x0018 (0x08 ∷ 0x00 ∷ [])
      ∷ open_channels channels

  unfoldable pub on_control : ControlMessageId → Bytes → Result Error (List OutboundMessage)
  unfolding on_service_discovery
  on_control service_discovery_response body =
      ok (on_service_discovery (decode_service_discovery_response body))
  on_control channel_open_response body = decoded (decode_channel_open_response body) (λ _. ok [])
  on_control ping_request body =
      decoded (decode_ping_request body)
        (λ timestamp. reply ping_response (encode_ping_response timestamp))
  on_control audio_focus_request body =
      decoded (decode_audio_focus_request body)
        (λ _. reply audio_focus_response (encode_audio_focus_response audio_focus_gain))
  on_control navigation_focus_request body =
      reply navigation_focus_response (encode_navigation_focus_response 1)
  on_control channel_open_request body =
      decoded (decode_channel_open_request body)
        (λ _. reply channel_open_response (encode_channel_open_response status_ok))
  on_control shutdown_request body = reply shutdown_response encode_shutdown_response
  on_control _ body = ok []

  unfoldable pub dispatch_control : ℕ → Bytes → Result Error (List OutboundMessage)
  unfolding on_control
  dispatch_control msg_id body = known (message_of msg_id)
    where
      known : Result ℕ ControlMessageId → Result Error (List OutboundMessage)
      known (ok id) = on_control id body
      known (err raw) = ok []
