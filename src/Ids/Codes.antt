-- ===== src/Ids/Codes.antt =====
-- The conversions from numbers are the inverses of the conversions to them.
use aabox.Common.{ℕ, ◌≡◌, ◌↔◌, refl, ok, arith}
use aabox.Ids.{
  ChannelId, control, input, sensor, video, media_audio, speech_audio, system_audio, av_input,
  bluetooth, navigation, no_channel, channel_code, channel_of, ControlMessageId, message_code,
  message_of, no_message, version_request, version_response, ssl_handshake, auth_complete,
  service_discovery_request, service_discovery_response, channel_open_request,
  channel_open_response, ping_request, ping_response, navigation_focus_request,
  navigation_focus_response, shutdown_request, shutdown_response, voice_session_request,
  audio_focus_request, audio_focus_response,
}

pub channel_of-channel_code : (c : ChannelId) → channel_of (channel_code c) ≡ ok c
unfolding channel_of
channel_of-channel_code control = refl
channel_of-channel_code input = refl
channel_of-channel_code sensor = refl
channel_of-channel_code video = refl
channel_of-channel_code media_audio = refl
channel_of-channel_code speech_audio = refl
channel_of-channel_code system_audio = refl
channel_of-channel_code av_input = refl
channel_of-channel_code bluetooth = refl
channel_of-channel_code navigation = refl
channel_of-channel_code no_channel = refl

channel_code-channel_of : (v : ℕ) (c : ChannelId) → channel_of v ≡ ok c → channel_code c ≡ v
unfolding channel_of
channel_code-channel_of v c h = ground arith

-- A byte is taken for a channel exactly when it is the number of that channel.
pub channel_of_iff : (v : ℕ) (c : ChannelId) → (channel_of v ≡ ok c) ↔ (v ≡ channel_code c)
channel_of_iff v c =
    (λ h. rw (channel_code-channel_of v c h), λ h. rw h (channel_of-channel_code c))

pub message_of-message_code : (m : ControlMessageId) → message_of (message_code m) ≡ ok m
unfolding message_of
message_of-message_code no_message = refl
message_of-message_code version_request = refl
message_of-message_code version_response = refl
message_of-message_code ssl_handshake = refl
message_of-message_code auth_complete = refl
message_of-message_code service_discovery_request = refl
message_of-message_code service_discovery_response = refl
message_of-message_code channel_open_request = refl
message_of-message_code channel_open_response = refl
message_of-message_code ping_request = refl
message_of-message_code ping_response = refl
message_of-message_code navigation_focus_request = refl
message_of-message_code navigation_focus_response = refl
message_of-message_code shutdown_request = refl
message_of-message_code shutdown_response = refl
message_of-message_code voice_session_request = refl
message_of-message_code audio_focus_request = refl
message_of-message_code audio_focus_response = refl

message_code-message_of : (v : ℕ) (m : ControlMessageId) → message_of v ≡ ok m → message_code m ≡ v
unfolding message_of
message_code-message_of v m h = ground arith

-- A 16-bit number is taken for a control message exactly when it is the number of that message.
pub message_of_iff : (v : ℕ) (m : ControlMessageId) → (message_of v ≡ ok m) ↔ (v ≡ message_code m)
message_of_iff v m =
    (λ h. rw (message_code-message_of v m h), λ h. rw h (message_of-message_code m))
