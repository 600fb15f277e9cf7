-- ===== src/Dispatch.antt =====
-- The control loop, `dispatch`, `handle_frame` and the loop of `run` in
-- crates/aabox-aapd/src/control_channel.rs, over the handlers of the channels.
pub mod Run
pub mod Focus
pub mod Pipeline
pub mod Bound
mod Tests
use aabox.Common.{
  ℕ, ◌+◌, ◌&&◌, ◌||◌, Bool, true, false, Option, none, some, Result, ok, err, List, [], ◌∷◌, length,
  drop, ltb, ◌==◌, if◌then◌else◌, Bytes,
}
use aabox.Effect.{
  Error, rejected, too_short, unexpected_message, decode, Eff, ◌>>=◌, ◌>>◌, return, fail, Transport,
}
use aabox.Framing.{Frame}
use aabox.Control.{read_frame, u16_at}
use aabox.Encrypted.{Side, OutboundMessage, decrypt_payload, send_encrypted}
use aabox.ControlChannel.{Messages, message, dispatch_control}
use aabox.Ids.{
  ChannelId, channel_code, channel_of, control, input, sensor, video, media_audio, speech_audio,
  system_audio, av_input, bluetooth, navigation, no_channel, message_code, auth_complete,
  service_discovery_request, channel_open_response, audio_focus_response,
}
use aabox.Video.{new_pipeline, set_wire_channel, start, stop, on_media_ack, receive}
use aabox.Channels.{
  ChannelMessages, Tasks, NavInstruction, encode_instruction, video_handle, input_handle,
  audio_handle,
}
use aabox.Audio.{AudioFormat, AudioSink, AudioChannelManager}
use aabox.Audio.Manager.{handle}
use aabox.Sensor.{SensorMessages, LogFiles, SensorHandler, sensor_handle}

abbrev pub unexpected : ℕ
unexpected = 0x00ff

abbrev pub focus_notification : ℕ
focus_notification = 0x8008

abbrev pub start_message : ℕ → OutboundMessage
start_message channel = message channel 0x8001 (0x08 ∷ 0x01 ∷ 0x10 ∷ 0x00 ∷ [])

abbrev pub is_cross_channel_control : ℕ → Bool
is_cross_channel_control msg_id =
    msg_id == message_code channel_open_response || msg_id == unexpected

-- `matches!(chan_kind, ...)`
abbrev pub is_audio : Result ℕ ChannelId → Bool
is_audio (ok media_audio) = true
is_audio (ok speech_audio) = true
is_audio (ok system_audio) = true
is_audio (ok av_input) = true
is_audio _ = false

abbrev pub is_video : Result ℕ ChannelId → Bool
is_video (ok video) = true
is_video _ = false

-- What `handle_frame` does to the video pipeline before it routes a message.
unfoldable pub kick : ℕ → ℕ → Tasks → Tasks
kick channel msg_id (p, ts) =
    if msg_id == focus_notification
    then ((start 1 (set_wire_channel channel p)).0, (start 1 (set_wire_channel channel p)).1 ∷ ts)
    else if msg_id == 0x8004
    then (on_media_ack p, ts)
    else if msg_id == 0x8002 && channel == p.wire_channel
    then (stop ts p, ts)
    else (p, ts)

-- The state that the loop drives: the sensor handler with its files, the audio manager, and the
-- video pipeline with its tasks.
pub record Daemon (Fix F Sink Source : Type 0) : Type 0 where
  pub sensors : SensorHandler Fix × F
  pub audio : AudioChannelManager Sink Source
  pub videos : Tasks

module _ (m : Messages) (cm : ChannelMessages) (sm : SensorMessages) {F : Type 0}
    (fs : LogFiles F) where
  open sm use {PositionFix}

  abbrev of_result :
      Result Error (List OutboundMessage)
      → Eff (SensorHandler PositionFix × F) (List OutboundMessage)
  of_result r h = (r, h)

  -- The handler of a channel; the video pipeline of the pure dispatcher is a fresh one.
  unfoldable pub dispatch_channel :
      Result ℕ ChannelId
      → ℕ
      → ℕ
      → Bytes
      → Eff (SensorHandler PositionFix × F) (List OutboundMessage)
  dispatch_channel (ok control) channel msg_id body = of_result (dispatch_control m msg_id body)
  dispatch_channel (ok input) channel msg_id body = of_result (input_handle cm msg_id body)
  dispatch_channel (ok sensor) channel msg_id body = sensor_handle sm fs msg_id body
  dispatch_channel (ok video) channel msg_id body =
      of_result (video_handle cm channel msg_id body (new_pipeline, [])).0
  dispatch_channel (ok media_audio) channel msg_id body =
      of_result (audio_handle cm channel msg_id body)
  dispatch_channel (ok speech_audio) channel msg_id body =
      of_result (audio_handle cm channel msg_id body)
  dispatch_channel (ok system_audio) channel msg_id body =
      of_result (audio_handle cm channel msg_id body)
  dispatch_channel (ok av_input) channel msg_id body =
      of_result (audio_handle cm channel msg_id body)
  dispatch_channel (ok navigation) channel msg_id body = of_result (ok [])
  dispatch_channel (ok bluetooth) channel msg_id body = of_result (ok [])
  dispatch_channel (ok no_channel) channel msg_id body = of_result (ok [])
  dispatch_channel (err raw) channel msg_id body = of_result (ok [])

  unfoldable pub dispatch :
      ℕ → ℕ → Bytes → Eff (SensorHandler PositionFix × F) (List OutboundMessage)
  unfolding dispatch_channel
  dispatch channel msg_id body h =
      if msg_id == message_code channel_open_response
      then (ok [], h)
      else if msg_id == unexpected
      then (ok [], h)
      else if msg_id == 0x8003
      then (ok [], h)
      else if msg_id == focus_notification
      then (ok (start_message channel ∷ []), h)
      else if msg_id == message_code audio_focus_response && channel == channel_code control
      then (ok [], h)
      else if msg_id == 0x8002 && channel == channel_code sensor
      then (ok [], h)
      else if msg_id == 0x8006 && channel == channel_code av_input
      then (ok [], h)
      else dispatch_channel (channel_of channel) channel msg_id body h

  module _ {Sink Source : Type 0} (sinks : AudioSink Sink)
      (make_sink : ChannelId → AudioFormat → Sink) (make_source : AudioFormat → Source) where
    abbrev pub State : Type 0
    State = Daemon PositionFix F Sink Source

    abbrev on_sensors :
        Eff (SensorHandler PositionFix × F) (List OutboundMessage)
        → Eff State (List OutboundMessage)
    on_sensors f d = ((f d.sensors).0, record d { sensors = (f d.sensors).1 })

    abbrev on_audio :
        Eff (AudioChannelManager Sink Source) (List OutboundMessage)
        → Eff State (List OutboundMessage)
    on_audio f d = ((f d.audio).0, record d { audio = (f d.audio).1 })

    abbrev on_videos : Eff Tasks (List OutboundMessage) → Eff State (List OutboundMessage)
    on_videos f d = ((f d.videos).0, record d { videos = (f d.videos).1 })

    -- The replies to a message, and what the handlers leave.
    unfoldable pub route : ℕ → ℕ → Bytes → Eff State (List OutboundMessage)
    unfolding dispatch kick
    route channel msg_id body d =
        let kicked = record d { videos = kick channel msg_id d.videos } in
        if is_cross_channel_control msg_id
        then on_sensors (dispatch channel msg_id body) kicked
        else if is_audio (channel_of channel)
        then on_audio (handle cm sinks make_sink make_source channel msg_id body) kicked
        else if is_video (channel_of channel)
        then on_videos (video_handle cm channel msg_id body) kicked
        else on_sensors (dispatch channel msg_id body) kicked

    -- `fuel` is that of the loops over the TLS connection.
    module _ {S C : Type 0} (stream : Transport S) (conn : Side C) (fuel : ℕ) where
      abbrev pub World : Type 0
      World = (S × C) × State

      abbrev on_wire : {A : Type 0} → Eff (S × C) A → Eff World A
      on_wire f (w, d) = ((f w).0, ((f w).1, d))

      abbrev on_state : {A : Type 0} → Eff State A → Eff World A
      on_state f (w, d) = ((f d).0, (w, (f d).1))

      abbrev on_conn : {A : Type 0} → Eff C A → Eff World A
      on_conn f ((s, c), d) = ((f c).0, ((s, (f c).1), d))

      abbrev on_stream : {A : Type 0} → Eff S A → Eff World A
      on_stream f ((s, c), d) = ((f s).0, (((f s).1, c), d))

      -- The first failure ends the sending.
      unfoldable pub send_all : List OutboundMessage → Eff World (Unit {0})
      send_all [] = return tt
      send_all (out ∷ outs) = on_wire (send_encrypted stream conn fuel out) >> send_all outs

      unfoldable pub plaintext_of : Frame → Eff World Bytes
      plaintext_of frame =
          if frame.encrypted
          then on_conn (decrypt_payload conn fuel frame.payload)
          else return frame.payload

      unfoldable pub handle_plain : ℕ → Bytes → Eff World (Unit {0})
      unfolding route send_all
      handle_plain channel plain =
          if ltb (length plain) 2
          then fail (too_short (length plain))
          else (on_state (route channel (u16_at plain 0) (drop 2 plain)) >>= λ outs. send_all outs)

      unfoldable pub handle_frame : Frame → Eff World (Unit {0})
      unfolding plaintext_of handle_plain
      handle_frame frame = plaintext_of frame >>= λ plain. handle_plain frame.channel_id plain
