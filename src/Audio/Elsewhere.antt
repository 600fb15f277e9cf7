-- ===== src/Audio/Elsewhere.antt =====
-- A message leaves the state of the other channels as it is.
use aabox.Common.{
  ℕ, Bool, true, false, Bool-cases, inl, inr, Option, none, some, Result, ok, err, ◌≡◌, refl, ◌==◌,
  Bytes, arith,
}
use aabox.Effect.{Error}
use aabox.Ids.{ChannelId, channel_code}
use aabox.Channels.{ChannelMessages}
use aabox.Audio.{
  AudioDirection, output, input, AudioFormat, AudioFrame, decode_inbound, AudioSink,
  AudioChannelState,
}
use aabox.Audio.Manager.{
  Manager, on_message, on_start_indication, start_output, started_in, start_input,
  on_stop_indication, on_input_open, on_data_frame, into_sink,
}

module _ (m : ChannelMessages) {Sink Source : Type 0} (sinks : AudioSink Sink)
    (make_sink : ChannelId → AudioFormat → Sink) (make_source : AudioFormat → Source)
    (cid : ChannelId) (ch : ℕ) (other : (ch == channel_code cid) ≡ false)
    (w : Manager m sinks make_sink make_source) where
  -- The states of the other channels.
  Same : Manager m sinks make_sink make_source → Type 0
  Same w' = w'.channels ch ≡ w.channels ch

  start-Same :
      (d : AudioDirection) (st : AudioChannelState Sink) (session : ℕ)
      → Same (started_in m sinks make_sink make_source d cid st session w)
  unfolding Same start_output start_input
  start-Same output st session = rw other refl
  start-Same input st session = rw other refl

  start_indication-Same :
      (x : Option (ℕ × ℕ)) (o : Option (AudioChannelState Sink))
      → Same (on_start_indication m sinks make_sink make_source cid x o w).1
  unfolding on_start_indication
  start_indication-Same none o = unfold Same in refl
  start_indication-Same (some (session, config)) none = unfold Same in refl
  start_indication-Same (some (session, config)) (some st) = start-Same st.direction st session

  stop-Same :
      (o : Option (AudioChannelState Sink))
      → Same (on_stop_indication m sinks make_sink make_source cid o w).1
  unfolding on_stop_indication Same
  stop-Same none = refl
  stop-Same (some st) = rw other refl

  input_open-Same :
      (x : Option Bool) (o : Option (AudioChannelState Sink))
      → Same (on_input_open m sinks make_sink make_source cid x o w).1
  unfolding on_input_open Same
  input_open-Same none o = refl
  input_open-Same (some b) none = refl
  input_open-Same (some b) (some st) = rw other refl

  into_sink-Same :
      (r : Result Error AudioFrame) (st : AudioChannelState Sink) (o : Option Sink)
      → Same (into_sink m sinks make_sink make_source cid st o r w).1
  unfolding Same
  into_sink-Same r st none = refl
  into_sink-Same (err e) st (some sink) = refl
  into_sink-Same (ok x) st (some sink) = rw other refl

  data_frame-Same :
      (r : Result Error AudioFrame) (o : Option (AudioChannelState Sink))
      → Same (on_data_frame m sinks make_sink make_source cid r o w).1
  unfolding on_data_frame
  data_frame-Same r none = unfold Same in refl
  data_frame-Same r (some st) = elim (Bool-cases st.started) [
    | inl a ↦ simp a (into_sink-Same r st st.sink)
    | inr a ↦ simp a (unfold Same in refl)
  ]

  pub on_message-Same :
      (msg_id : ℕ) (payload : Bytes)
      → (on_message m sinks make_sink make_source cid msg_id payload w).1.channels ch
        ≡ w.channels ch
  unfolding on_message Same
  on_message-Same msg_id payload =
      let o = w.channels (channel_code cid) in
      let starting = start_indication-Same (m.decode_start_indication payload) o in
      let stopping = stop-Same o in
      let opening = input_open-Same (m.decode_input_open_request payload) o in
      let timed = data_frame-Same (decode_inbound payload true) o in
      let untimed = data_frame-Same (decode_inbound payload false) o in ground arith
