-- ===== src/ControlChannel/Tests.antt =====
-- Examples with small messages.
use aabox.Common.{ℕ, ◌≡◌, true, false, Option, none, some, [], ◌∷◌, Bytes, ltb}
use aabox.ControlChannel.{Messages, on_service_discovery}
use aabox.ControlChannel.Opens.{requested, projected, on_service_discovery-requested}

abbrev first_byte : Bytes → Option ℕ
first_byte [] = none
first_byte (b ∷ bs) = some b

-- A channel is its number: 1 has sensors, 2 input, and no other has anything.
abbrev messages : Messages
messages = record {
  ChannelDescriptor = ℕ;
  AvChannel = ℕ;
  channel_id = λ n. n;
  has_sensor_channel = λ n. ltb n 2;
  av_channel = λ n. none;
  has_input_channel = λ n. ltb n 3;
  has_av_input_channel = λ n. false;
  has_bluetooth_channel = λ n. false;
  has_navigation_channel = λ n. false;
  has_vendor_extension_channel = λ n. false;
  no_video_configs = λ n. true;
  stream_type = λ n. n;
  audio_type = λ n. n;
  stream_type_video = 3;
  status_ok = 0;
  audio_focus_gain = 1;
  decode_service_discovery_response = λ b. some b;
  decode_channel_open_response = first_byte;
  decode_ping_request = first_byte;
  decode_audio_focus_request = first_byte;
  decode_channel_open_request = first_byte;
  encode_ping_response = λ n. n ∷ [];
  encode_audio_focus_response = λ n. n ∷ [];
  encode_navigation_focus_response = λ n. n ∷ [];
  encode_channel_open_response = λ n. n ∷ [];
  encode_shutdown_response = [];
  encode_varint = λ n. n ∷ [];
}

on_service_discovery-requested_example :
    requested (on_service_discovery messages (some (1 ∷ 2 ∷ 9 ∷ [])))
    ≡ projected messages (1 ∷ 2 ∷ 9 ∷ [])
on_service_discovery-requested_example = on_service_discovery-requested messages (1 ∷ 2 ∷ 9 ∷ [])

abbrev ping_id : ℕ
ping_id = 0x0b
