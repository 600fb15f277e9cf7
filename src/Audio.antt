-- ===== src/Audio.antt =====
-- The audio channels, crates/aabox-aapd/src/channels/audio.rs: the frames, the state of each channel
-- and the handlers of AudioChannelManager. The sinks and sources stand for the trait objects.
pub mod Manager
pub mod Ensured
pub mod Gate
pub mod Follows
pub mod Elsewhere
pub mod Delivered
pub mod Encoders
pub mod OneEncoder
pub mod Tasks
pub mod Frames
pub mod Log
pub mod Encoder
mod Tests
use aabox.Common.{
  ℕ, ◌+◌, ◌*◌, ◌/◌, Bool, true, false, Option, none, some, Result, ok, err, List, [], ◌∷◌, ◌++◌,
  length, drop, get_or, ltb, ◌==◌, if◌then◌else◌, Bytes, from_be32, be64,
}
use aabox.Effect.{Error, decode, too_short, Eff}
use aabox.Encrypted.{OutboundMessage}
use aabox.ControlChannel.{message}
use aabox.Ids.{ChannelId, channel_code, channel_of, media_audio, speech_audio, system_audio}
use aabox.Video.{msg_av_media_with_timestamp_indication}
use aabox.Channels.{
  ChannelMessages, msg_setup_request, msg_start_indication, msg_stop_indication, msg_setup_response,
  msg_av_media_ack_indication, msg_av_input_open_request, msg_av_input_open_response,
}

abbrev pub msg_av_media_indication : ℕ
msg_av_media_indication = 0x0001

-- `Output` is from the daemon to the car.
pub data AudioDirection : Type 0 where
  output input : AudioDirection

pub record AudioFormat : Type 0 where
  pub sample_rate : ℕ
  pub channels : ℕ
  pub bit_depth : ℕ

unfoldable pub bytes_per_sample : AudioFormat → ℕ
bytes_per_sample f = f.bit_depth / 8 * f.channels

pub record AudioFrame : Type 0 where
  pub timestamp_us : ℕ
  pub pcm : Bytes

abbrev audio_format : ℕ → ℕ → ℕ → AudioFormat
audio_format sample_rate channels bit_depth = record {
  sample_rate = sample_rate;
  channels = channels;
  bit_depth = bit_depth;
}

unfoldable pub default_format : ChannelId → Option AudioFormat
default_format media_audio = some (audio_format 48000 2 16)
default_format speech_audio = some (audio_format 16000 2 16)
default_format system_audio = some (audio_format 48000 2 16)
default_format _ = none

unfoldable pub direction_of : ChannelId → Option AudioDirection
direction_of media_audio = some output
direction_of speech_audio = some input
direction_of system_audio = some input
direction_of _ = none

-- `u64::from_be_bytes` of the first eight bytes.
abbrev pub be64_of : Bytes → ℕ
be64_of b =
    from_be32 (get_or b 0 0) (get_or b 1 0) (get_or b 2 0) (get_or b 3 0) * 4294967296
    + from_be32 (get_or b 4 0) (get_or b 5 0) (get_or b 6 0) (get_or b 7 0)

-- `MediaInboundDecoder::decode`
unfoldable pub decode_inbound : Bytes → Bool → Result Error AudioFrame
decode_inbound payload true =
    if ltb (length payload) 8
    then err (too_short (length payload))
    else ok (record { timestamp_us = be64_of payload; pcm = drop 8 payload })
decode_inbound payload false = ok (record { timestamp_us = 0; pcm = payload })

unfoldable pub encode_outbound_frame : ChannelId → AudioFrame → OutboundMessage
encode_outbound_frame channel frame =
    message (channel_code channel) msg_av_media_with_timestamp_indication
      (be64 frame.timestamp_us ++ frame.pcm)

-- What `AudioSink::push` does to a sink.
pub record AudioSink (Sink : Type 0) : Type 0 where
  pub push : AudioFrame → Eff Sink (Unit {0})

-- `stop_tx` is the number of the task that holds the other end.
pub record AudioChannelState (Sink : Type 0) : Type 0 where
  pub direction : AudioDirection
  pub format : AudioFormat
  pub sink : Option Sink
  pub stop_tx : Option ℕ
  pub session : ℕ
  pub decoder : Option AudioFormat
  pub started : Bool

-- The manager, with the encoder tasks that it has spawned, in order, each as its channel and its
-- source; those that were sent the stop signal; and the channels whose sink a task is to flush.
pub record AudioChannelManager (Sink Source : Type 0) : Type 0 where
  pub channels : ℕ → Option (AudioChannelState Sink)
  pub spawned : List (ChannelId × Source)
  pub signalled : List ℕ
  pub flushes : List ℕ

unfoldable pub new_manager : {Sink Source : Type 0} → AudioChannelManager Sink Source
new_manager = record { channels = λ c. none; spawned = []; signalled = []; flushes = [] }

-- `take` on the stop handle and `send(true)`.
abbrev pub signal : Option ℕ → List ℕ → List ℕ
signal none signalled = signalled
signal (some task) signalled = task ∷ signalled

module _ {Sink : Type 0} where
  abbrev pub put :
      ℕ
      → AudioChannelState Sink
      → (ℕ → Option (AudioChannelState Sink))
      → ℕ
      → Option (AudioChannelState Sink)
  put channel st chans = λ c. if c == channel then some st else chans c

  -- `or_insert`
  abbrev pub or_insert :
      ℕ
      → AudioChannelState Sink
      → Option (AudioChannelState Sink)
      → (ℕ → Option (AudioChannelState Sink))
      → ℕ
      → Option (AudioChannelState Sink)
  or_insert channel st none chans = put channel st chans
  or_insert channel st (some old) chans = chans

  abbrev pub new_state : AudioDirection → AudioFormat → AudioChannelState Sink
  new_state direction format = record {
    direction = direction;
    format = format;
    sink = none;
    stop_tx = none;
    session = 0;
    decoder = none;
    started = false;
  }

  abbrev pub armed : AudioChannelState Sink → Option AudioFormat → Option AudioFormat
  armed st none = some st.format
  armed st (some format) = some format

  abbrev pub flushed : ℕ → Option Sink → List ℕ → List ℕ
  flushed channel none flushes = flushes
  flushed channel (some sink) flushes = channel ∷ flushes

module _ {Sink Source : Type 0} where
  abbrev pub with_state :
      ℕ → AudioChannelState Sink → AudioChannelManager Sink Source → AudioChannelManager Sink Source
  with_state channel st w = record w { channels = put channel st w.channels }

  abbrev pub ensured :
      ℕ
      → Option AudioDirection
      → Option AudioFormat
      → AudioChannelManager Sink Source
      → Option (AudioChannelManager Sink Source)
  ensured channel (some direction) (some format) w = some (record w {
    channels = or_insert channel (new_state direction format) (w.channels channel) w.channels;
  })
  ensured channel (some direction) none w = none
  ensured channel none _ w = none

  abbrev pub inserted :
      ChannelId
      → Option (AudioChannelManager Sink Source)
      → Option (ChannelId × AudioChannelManager Sink Source)
  inserted cid none = none
  inserted cid (some w') = some (cid, w')

  abbrev pub ensured_known :
      ℕ
      → AudioChannelManager Sink Source
      → Result ℕ ChannelId
      → Option (ChannelId × AudioChannelManager Sink Source)
  ensured_known channel w (ok cid) =
      inserted cid (ensured channel (direction_of cid) (default_format cid) w)
  ensured_known channel w (err raw) = none

  -- The channel as well, which `handle` converts a second time.
  unfoldable pub ensure_state :
      ℕ → AudioChannelManager Sink Source → Option (ChannelId × AudioChannelManager Sink Source)
  ensure_state channel w = ensured_known channel w (channel_of channel)
