-- ===== src/Ids.antt =====
-- Channel and control-message identifiers, crates/aabox-common/src/channel_id.rs.
pub mod Codes
use aabox.Common.{ℕ, ◌==◌, if◌then◌else◌, Result, ok, err}

-- `None = 255` is `no_channel`.
pub data ChannelId : Type 0 where
  control input sensor video media_audio speech_audio system_audio : ChannelId
  av_input bluetooth navigation no_channel : ChannelId

-- `channel as u8`
abbrev pub channel_code : ChannelId → ℕ
channel_code control = 0
channel_code input = 1
channel_code sensor = 2
channel_code video = 3
channel_code media_audio = 4
channel_code speech_audio = 5
channel_code system_audio = 6
channel_code av_input = 7
channel_code bluetooth = 8
channel_code navigation = 9
channel_code no_channel = 255

-- `ChannelId::try_from`; the error is the byte itself.
unfoldable pub channel_of : ℕ → Result ℕ ChannelId
channel_of value =
    if value == 0
    then ok control
    else if value == 1
    then ok input
    else if value == 2
    then ok sensor
    else if value == 3
    then ok video
    else if value == 4
    then ok media_audio
    else if value == 5
    then ok speech_audio
    else if value == 6
    then ok system_audio
    else if value == 7
    then ok av_input
    else if value == 8
    then ok bluetooth
    else if value == 9
    then ok navigation
    else if value == 255
    then ok no_channel
    else err value

-- `None = 0` is `no_message`.
pub data ControlMessageId : Type 0 where
  no_message version_request version_response ssl_handshake auth_complete : ControlMessageId
  service_discovery_request service_discovery_response : ControlMessageId
  channel_open_request channel_open_response ping_request ping_response : ControlMessageId
  navigation_focus_request navigation_focus_response : ControlMessageId
  shutdown_request shutdown_response voice_session_request : ControlMessageId
  audio_focus_request audio_focus_response : ControlMessageId

-- `id as u16`
abbrev pub message_code : ControlMessageId → ℕ
message_code no_message = 0x0000
message_code version_request = 0x0001
message_code version_response = 0x0002
message_code ssl_handshake = 0x0003
message_code auth_complete = 0x0004
message_code service_discovery_request = 0x0005
message_code service_discovery_response = 0x0006
message_code channel_open_request = 0x0007
message_code channel_open_response = 0x0008
message_code ping_request = 0x000b
message_code ping_response = 0x000c
message_code navigation_focus_request = 0x000d
message_code navigation_focus_response = 0x000e
message_code shutdown_request = 0x000f
message_code shutdown_response = 0x0010
message_code voice_session_request = 0x0011
message_code audio_focus_request = 0x0012
message_code audio_focus_response = 0x0013

-- `ControlMessageId::try_from`
unfoldable pub message_of : ℕ → Result ℕ ControlMessageId
message_of v =
    if v == 0x0000
    then ok no_message
    else if v == 0x0001
    then ok version_request
    else if v == 0x0002
    then ok version_response
    else if v == 0x0003
    then ok ssl_handshake
    else if v == 0x0004
    then ok auth_complete
    else if v == 0x0005
    then ok service_discovery_request
    else if v == 0x0006
    then ok service_discovery_response
    else if v == 0x0007
    then ok channel_open_request
    else if v == 0x0008
    then ok channel_open_response
    else if v == 0x000b
    then ok ping_request
    else if v == 0x000c
    then ok ping_response
    else if v == 0x000d
    then ok navigation_focus_request
    else if v == 0x000e
    then ok navigation_focus_response
    else if v == 0x000f
    then ok shutdown_request
    else if v == 0x0010
    then ok shutdown_response
    else if v == 0x0011
    then ok voice_session_request
    else if v == 0x0012
    then ok audio_focus_request
    else if v == 0x0013
    then ok audio_focus_response
    else err v
