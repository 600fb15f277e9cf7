-- ===== src/Dispatch/Focus.antt =====
-- How the messages about video streaming are routed.
use aabox.Common.{
  ℕ, ◌||◌, Bool-cases, inl, inr, Option, none, some, Result, ok, List, [], ◌∷◌, Bytes, ◌≡◌, refl,
  if◌then◌else◌,
}
use aabox.Encrypted.{OutboundMessage}
use aabox.ControlChannel.{Messages}
use aabox.Ids.{ChannelId, channel_of}
use aabox.Video.{set_wire_channel, start}
use aabox.Channels.{ChannelMessages, video_handle}
use aabox.Audio.{AudioFormat, AudioSink, AudioChannelManager, ensure_state}
use aabox.Audio.Manager.{handle, on_message, ensured_message}
use aabox.Sensor.{SensorMessages, LogFiles}
use aabox.Dispatch.{
  focus_notification, start_message, is_audio, is_video, kick, dispatch, State, route,
}

module _ (m : Messages) (cm : ChannelMessages) (sm : SensorMessages) {F : Type 0} (fs : LogFiles F)
    {Sink Source : Type 0} (sinks : AudioSink Sink) (make_sink : ChannelId → AudioFormat → Sink)
    (make_source : AudioFormat → Source) where
  -- The audio manager has no answer to the notification.
  audio_silent :
      (o : Option (ChannelId × AudioChannelManager Sink Source)) (body : Bytes)
      (w : AudioChannelManager Sink Source)
      → (ensured_message cm sinks make_sink make_source focus_notification body o w).0 ≡ ok []
  unfolding on_message
  audio_silent none body w = refl
  audio_silent (some (cid, w')) body w = refl

  unfoldable pub focus_reply : Result ℕ ChannelId → ℕ → List OutboundMessage
  focus_reply cid channel = if is_audio cid || is_video cid then [] else start_message channel ∷ []

  -- On a VideoFocusNotification the pipeline is always started on the channel of the message, but
  -- a Start message is the answer only where the channel is neither that of an audio stream nor
  -- the canonical video channel; there the answer is empty.
  pub route-focus_notification :
      (channel : ℕ) (body : Bytes) (d : State m cm sm fs sinks make_sink make_source)
      → ((route m cm sm fs sinks make_sink make_source channel focus_notification body d).0
          ≡ ok (focus_reply (channel_of channel) channel))
        × ((route m cm sm fs sinks make_sink make_source channel focus_notification body d).1.videos
            ≡ (
              (start 1 (set_wire_channel channel d.videos.0)).0,
              (start 1 (set_wire_channel channel d.videos.0)).1 ∷ d.videos.1,
            ))
  unfolding route kick dispatch focus_reply handle video_handle
  route-focus_notification channel body d = elim (Bool-cases (is_audio (channel_of channel))) [
    | inl a ↦ rw a (audio_silent (ensure_state channel d.audio) body d.audio, refl)
    | inr a ↦ elim (Bool-cases (is_video (channel_of channel))) [
      | inl b ↦ rw (a, b) (refl, refl)
      | inr b ↦ rw (a, b) (refl, refl)
    ]
  ]
