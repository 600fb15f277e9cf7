-- ===== src/Audio/Gate.antt =====
-- Which frames reach the sink of a channel.
use aabox.Common.{
  ℕ, Bool, true, false, Option, none, some, Result, ok, err, List, [], ◌∷◌, ◌++◌, ◌≡◌, refl, ◌==◌,
  if◌then◌else◌, Bytes,
}
use aabox.Effect.{Error}
use aabox.Ids.{ChannelId}
use aabox.Channels.{
  ChannelMessages, msg_setup_request, msg_start_indication, msg_stop_indication,
  msg_av_media_ack_indication, msg_av_input_open_request,
}
use aabox.Video.{msg_av_media_with_timestamp_indication}
use aabox.Audio.{
  msg_av_media_indication, AudioFormat, AudioFrame, decode_inbound, AudioSink, AudioChannelState,
  AudioChannelManager, new_manager,
}
use aabox.Audio.Manager.{handle}

-- What a message means to a channel.
pub data Event : Type 0 where
  starts stops ignored : Event
  opens : Bool → Event
  frame : AudioFrame → Event

-- Whether the gate is open, and the frames that went through since a sink was attached.
pub record Gate : Type 0 where
  pub started : Bool
  pub frames : Option (List AudioFrame)

abbrev pub attached : Option (List AudioFrame) → Option (List AudioFrame)
attached none = some []
attached (some frames) = some frames

abbrev pub through : Bool → AudioFrame → Option (List AudioFrame) → Option (List AudioFrame)
through true f (some frames) = some (frames ++ (f ∷ []))
through true f none = none
through false f frames = frames

unfoldable pub gate_step : Event → Gate → Gate
gate_step starts g = record g { started = true }
gate_step stops g = record g { started = false }
gate_step ignored g = g
gate_step (opens b) g = record { started = b; frames = attached g.frames }
gate_step (frame f) g = record g { frames = through g.started f g.frames }

abbrev pub frame_event : Result Error AudioFrame → Event
frame_event (err e) = ignored
frame_event (ok f) = frame f

abbrev pub start_event : Option (ℕ × ℕ) → Event
start_event none = ignored
start_event (some x) = starts

abbrev pub open_event : Option Bool → Event
open_event none = ignored
open_event (some b) = opens b

unfoldable pub meaning : ChannelMessages → ℕ → Bytes → Event
meaning m msg_id payload =
    if msg_id == msg_setup_request
    then ignored
    else if msg_id == msg_start_indication
    then start_event (m.decode_start_indication payload)
    else if msg_id == msg_stop_indication
    then stops
    else if msg_id == msg_av_media_ack_indication
    then ignored
    else if msg_id == msg_av_input_open_request
    then open_event (m.decode_input_open_request payload)
    else if msg_id == msg_av_media_with_timestamp_indication
    then frame_event (decode_inbound payload true)
    else if msg_id == msg_av_media_indication
    then frame_event (decode_inbound payload false)
    else ignored

abbrev pub Message : Type 0
Message = ℕ × ℕ × Bytes

-- The gate of a channel after messages, the last one first in the list.
unfoldable pub gate_after : ChannelMessages → ℕ → List Message → Gate
unfolding gate_step meaning
gate_after m ch [] = record { started = false; frames = none }
gate_after m ch ((channel, msg_id, payload) ∷ earlier) =
    let g = gate_after m ch earlier in
    if channel == ch then gate_step (meaning m msg_id payload) g else g

module _ {Sink : Type 0} where
  unfoldable pub sink_of : Option (AudioChannelState Sink) → Option Sink
  sink_of none = none
  sink_of (some st) = st.sink

  unfoldable pub started_of : Option (AudioChannelState Sink) → Bool
  started_of none = false
  started_of (some st) = st.started

module _ {Sink : Type 0} (sinks : AudioSink Sink) where
  unfoldable pub push_all : List AudioFrame → Sink → Sink
  push_all [] s = s
  push_all (f ∷ fs) s = push_all fs (sinks.push f s).1

  -- A sink after the frames that went through the gate.
  unfoldable pub fed : Option (List AudioFrame) → Sink → Option Sink
  unfolding push_all
  fed none s = none
  fed (some frames) s = some (push_all frames s)

  pub push_all-append :
      (fs : List AudioFrame) (f : AudioFrame) (s : Sink)
      → push_all (fs ++ (f ∷ [])) s ≡ (sinks.push f (push_all fs s)).1
  unfolding push_all
  push_all-append [] f s = refl
  push_all-append (x ∷ fs) f s = push_all-append fs f (sinks.push x s).1

module _ (m : ChannelMessages) {Sink Source : Type 0} (sinks : AudioSink Sink)
    (make_sink : ChannelId → AudioFormat → Sink) (make_source : AudioFormat → Source) where
  -- The manager after messages, the last one first in the list.
  unfoldable pub manager_after : List Message → AudioChannelManager Sink Source
  manager_after [] = new_manager
  manager_after ((channel, msg_id, payload) ∷ earlier) =
      (handle m sinks make_sink make_source channel msg_id payload (manager_after earlier)).1
