-- ===== src/ControlChannel/Replies.antt =====
-- What is sent in reply to a control message.
use aabox.Common.{ℕ, ◌≡◌, ◌≢◌, none, some, Result, ok, err, List, [], ◌∷◌, Bytes, All}
use aabox.Effect.{Error, decode}
use aabox.Encrypted.{OutboundMessage}
use aabox.ControlChannel.{Messages, message}

-- The numbers of the messages that are looked at: ServiceDiscoveryResponse, ChannelOpenRequest and
-- ChannelOpenResponse, PingRequest, NavigationFocusRequest, ShutdownRequest and AudioFocusRequest.
abbrev pub looked_at : List ℕ
looked_at = 0x06 ∷ 0x07 ∷ 0x08 ∷ 0x0b ∷ 0x0d ∷ 0x0f ∷ 0x12 ∷ []

module _ (m : Messages) where
  open m use {
    status_ok, audio_focus_gain, decode_channel_open_response, decode_ping_request,
    decode_audio_focus_request, decode_channel_open_request, encode_ping_response,
    encode_audio_focus_response, encode_navigation_focus_response, encode_channel_open_response,
    encode_shutdown_response,
  }

  -- One message on the Control channel.
  abbrev only : ℕ → Bytes → Result Error (List OutboundMessage)
  only id body = ok (message 0 id body ∷ [])

  -- The outcome of the message with a number and a body. It is an error exactly where a body that
  -- has to be decoded is not.
  pub data Answered (body : Bytes) : ℕ → Result Error (List OutboundMessage) → Type 0 where
    pong :
        (timestamp : ℕ)
        → decode_ping_request body ≡ some timestamp
        → Answered body 0x0b (only 0x0c (encode_ping_response timestamp))
    ping_undecoded : decode_ping_request body ≡ none → Answered body 0x0b (err (decode 0))
    audio_focus :
        (kind : ℕ)
        → decode_audio_focus_request body ≡ some kind
        → Answered body 0x12 (only 0x13 (encode_audio_focus_response audio_focus_gain))
    audio_focus_undecoded :
        decode_audio_focus_request body ≡ none → Answered body 0x12 (err (decode 0))
    channel_opened :
        (channel : ℕ)
        → decode_channel_open_request body ≡ some channel
        → Answered body 0x07 (only 0x08 (encode_channel_open_response status_ok))
    channel_undecoded :
        decode_channel_open_request body ≡ none → Answered body 0x07 (err (decode 0))
    open_confirmed :
        (status : ℕ) → decode_channel_open_response body ≡ some status → Answered body 0x08 (ok [])
    confirmation_undecoded :
        decode_channel_open_response body ≡ none → Answered body 0x08 (err (decode 0))
    native_navigation : Answered body 0x0d (only 0x0e (encode_navigation_focus_response 1))
    shut_down : Answered body 0x0f (only 0x10 encode_shutdown_response)
    silent : (id : ℕ) → All (λ n. id ≢ n) looked_at → Answered body id (ok [])
