-- ===== src/Dispatch/Run.antt =====
-- The wait for AuthComplete and the rounds of the loop of `run`, crates/aabox-aapd/src/control_channel.rs.
use aabox.Common.{
  ℕ, not, Option, none, some, Result, ok, err, List, [], ◌∷◌, length, drop, ltb, ◌==◌,
  if◌then◌else◌, Bytes,
}
use aabox.Effect.{
  Error, rejected, too_short, unexpected_message, decode, Eff, ◌>>=◌, ◌>>◌, Transport,
}
use aabox.Framing.{Frame}
use aabox.Control.{read_frame, u16_at}
use aabox.Encrypted.{Side, OutboundMessage, send_encrypted}
use aabox.ControlChannel.{Messages, message}
use aabox.Ids.{
  ChannelId, channel_code, control, message_code, auth_complete, service_discovery_request,
}
use aabox.Video.{receive}
use aabox.Channels.{ChannelMessages, NavInstruction, encode_instruction}
use aabox.Audio.{AudioFormat, AudioSink}
use aabox.Sensor.{SensorMessages, LogFiles}
use aabox.Dispatch.{World, send_all, handle_frame}

-- The arm of the `select!` that a round takes: a frame of the car, or what a task has queued.
pub data Arm : Type 0 where
  inbound : Arm
  nav_instruction : NavInstruction → Arm
  audio_out : OutboundMessage → Arm
  video_out : Arm

module _ (m : Messages) (cm : ChannelMessages) (sm : SensorMessages) {F : Type 0} (fs : LogFiles F)
    {Sink Source : Type 0} (sinks : AudioSink Sink) (make_sink : ChannelId → AudioFormat → Sink)
    (make_source : AudioFormat → Source) {S C : Type 0} (stream : Transport S) (conn : Side C)
    (fuel : ℕ) where
  abbrev pub Loop : Type 0
  Loop = World m cm sm fs sinks make_sink make_source stream conn fuel

  abbrev on_the_wire : {A : Type 0} → Eff (S × C) A → Eff Loop A
  on_the_wire f (w, d) = ((f w).0, ((f w).1, d))

  check_status : ℕ → Option ℕ → Result Error (Unit {0})
  check_status ok_status none = err (decode 0)
  check_status ok_status (some status) =
      if status == ok_status then ok tt else err (rejected status)

  -- The status of an AuthComplete; `decode_auth_complete` is the generated decoder.
  unfoldable pub check_auth_complete : ℕ → (Bytes → Option ℕ) → Bytes → Result Error (Unit {0})
  unfolding check_status
  check_auth_complete ok_status decode_auth_complete payload =
      if ltb (length payload) 2
      then err (too_short (length payload))
      else if not (u16_at payload 0 == message_code auth_complete)
      then err (unexpected_message (u16_at payload 0))
      else check_status ok_status (decode_auth_complete (drop 2 payload))

  -- The steps before the loop: AuthComplete is read in the clear, and `discovery`, the encoded
  -- ServiceDiscoveryRequest, is sent.
  unfoldable pub begin : ℕ → (Bytes → Option ℕ) → Bytes → Eff (S × C) (Unit {0})
  unfolding check_auth_complete
  begin ok_status decode_auth_complete discovery =
      (λ w. ((read_frame stream w.0).0, ((read_frame stream w.0).1, w.1))) >>= λ frame.
      (λ w. (check_auth_complete ok_status decode_auth_complete frame.payload, w))
      >> send_encrypted stream conn fuel
          (message (channel_code control) (message_code service_discovery_request) discovery)

  abbrev pub frame_read : Result Error Frame × S → C → Loop → Option Loop
  frame_read (err e, s) c (w, d) = none
  frame_read (ok frame, s) c (w, d) =
      some
        (handle_frame m cm sm fs sinks make_sink make_source stream conn fuel frame ((s, c), d)).1

  abbrev pub send_first : List OutboundMessage → Loop → Option Loop
  send_first [] l = some l
  send_first (out ∷ outs) (w, d) = some (
    (send_encrypted stream conn fuel out w).1,
    record d { videos = (receive d.videos.0, d.videos.1) },
  )

  -- One round; `none` where `run` returns. A failure of the handler or of sending is logged.
  unfoldable pub loop_round : Arm → Loop → Option Loop
  loop_round inbound ((s, c), d) = frame_read (read_frame stream s) c ((s, c), d)
  loop_round (nav_instruction instr) l =
      some
        (send_all m cm sm fs sinks make_sink make_source stream conn fuel (encode_instruction instr)
          l).1
  loop_round (audio_out out) (w, d) = some ((send_encrypted stream conn fuel out w).1, d)
  loop_round video_out (w, d) = send_first d.videos.0.outbound (w, d)

  abbrev go_on : (Loop → Option Loop) → Option Loop → Option Loop
  go_on go none = none
  go_on go (some l) = go l

  -- The rounds that the arms give, until `run` returns.
  unfoldable pub run_loop : List Arm → Loop → Option Loop
  unfolding loop_round
  run_loop [] l = some l
  run_loop (arm ∷ arms) l = go_on (run_loop arms) (loop_round arm l)
