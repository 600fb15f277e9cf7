-- ===== src/Audio/Tasks.antt =====
-- The encoders that the handlers of the manager leave running.
use aabox.Common.{
  ℕ, ◌<◌, Bool, true, false, Bool-cases, inl, inr, Option, none, some, Result, ok, err, List, [],
  ◌∷◌, length, ◌≡◌, ◌↔◌, refl, sym, ap, ◌∙◌, ◌==◌, ==_iff, Bytes, arith,
}
use aabox.Effect.{Error}
use aabox.Ids.{
  ChannelId, channel_code, control, sensor, video, media_audio, speech_audio, system_audio,
  av_input, bluetooth, navigation, no_channel,
}
use aabox.Channels.{
  ChannelMessages, msg_setup_request, msg_start_indication, msg_stop_indication,
  msg_av_media_ack_indication, msg_av_input_open_request,
}
use aabox.Video.{msg_av_media_with_timestamp_indication}
use aabox.Audio.{
  AudioDirection, output, AudioFormat, AudioFrame, AudioSink, AudioChannelState,
  AudioChannelManager, new_manager, new_state, decode_inbound, msg_av_media_indication,
  direction_of, ensure_state,
}
use aabox.Audio.Ensured.{
  Started, as_new, as_before, Ensured, Known, not_audio, is_audio, ensure_state-Known,
}
use aabox.Audio.Gate.{Message, manager_after}
use aabox.Audio.Encoders.{elem, stop_of, none-some, some_injective}
use aabox.Audio.OneEncoder.{Shape, of_output, of_input, Inv, same_handle-Inv, spawn-Inv, stop-Inv}
use aabox.Audio.Manager.{
  Manager, handle, ensured_message, on_message, on_start_indication, start_output, started_in,
  start_input, on_stop_indication, on_input_open, opened, on_data_frame, into_sink,
}

new-Shape :
    {Sink : Type 0} (cid : ChannelId) (d : AudioDirection) (f : AudioFormat)
    → direction_of cid ≡ some d
    → Shape {Sink = Sink} (channel_code cid) (new_state d f)
unfolding direction_of
new-Shape media_audio d f h = of_output (sym (some_injective h)) refl
new-Shape speech_audio d f h = of_input (sym (some_injective h)) refl refl
new-Shape system_audio d f h = of_input (sym (some_injective h)) refl refl
new-Shape control d f h = absurd (none-some h)
new-Shape ChannelId.input d f h = absurd (none-some h)
new-Shape sensor d f h = absurd (none-some h)
new-Shape video d f h = absurd (none-some h)
new-Shape av_input d f h = absurd (none-some h)
new-Shape bluetooth d f h = absurd (none-some h)
new-Shape navigation d f h = absurd (none-some h)
new-Shape no_channel d f h = absurd (none-some h)

state-stop_of :
    {Sink : Type 0} (o : Option (AudioChannelState Sink)) (d : AudioDirection) (f : AudioFormat)
    (st : AudioChannelState Sink)
    → Started d f o st
    → st.stop_tx ≡ stop_of o
unfolding stop_of
state-stop_of o d f st (as_new e e') = rw (e, e') refl
state-stop_of o d f st (as_before e) = rw e refl

module _ {Sink Source : Type 0} where
  state-Shape :
      (w w' : AudioChannelManager Sink Source) (channel : ℕ) (cid : ChannelId) (d : AudioDirection)
      (f : AudioFormat) (st : AudioChannelState Sink)
      → channel ≡ channel_code cid
      → direction_of cid ≡ some d
      → Inv w
      → Started d f (w.channels channel) st
      → Shape channel st
  state-Shape w w' channel cid d f st code h i (as_new e e') = rw (e', code) (new-Shape cid d f h)
  state-Shape w w' channel cid d f st code h i (as_before e) = i.shape channel st e

  Ensured-Inv :
      (channel : ℕ) (cid : ChannelId) (w w' : AudioChannelManager Sink Source)
      → Ensured channel w w' cid
      → Inv w
      → Inv w'
  unfolding stop_of
  Ensured-Inv channel cid w w' e i =
      let same : stop_of (w'.channels 4) ≡ stop_of (w.channels 4) =
        elim (Bool-cases (4 == channel)) [
          | inl h ↦
              let four = (==_iff 4 channel).0 h in
              rw four (rw e.here (state-stop_of (w.channels channel) _ _ _ e.state_Started))
          | inr h ↦ ap stop_of (e.elsewhere 4 h)
        ] in
      record {
        shape = λ c st h. elim (Bool-cases (c == channel)) [
          | inl a ↦
              let there = (==_iff c channel).0 a in
              let own : e.state ≡ st =
                some_injective (sym e.here ∙ ap w'.channels (sym there) ∙ h) in
              rw (there) (
                rw⁻¹ own (
                  state-Shape w w' channel cid _ _ e.state e.code e.has_direction i
                    e.state_Started))
          | inr a ↦ i.shape c st (sym (e.elsewhere c a) ∙ h)
        ];
        running = rw (same, e.same_spawned, e.same_signalled) i.running;
      }

module _ (m : ChannelMessages) {Sink Source : Type 0} (sinks : AudioSink Sink)
    (make_sink : ChannelId → AudioFormat → Sink) (make_source : AudioFormat → Source)
    (cid : ChannelId) (w : Manager m sinks make_sink make_source) (i : Inv w) where
  start-Inv :
      (d : AudioDirection) (st : AudioChannelState Sink) (session : ℕ)
      → w.channels (channel_code cid) ≡ some st
      → st.direction ≡ d
      → Inv (started_in m sinks make_sink make_source d cid st session w)
  unfolding start_output start_input
  start-Inv output st session h d = spawn-Inv w (channel_code cid) st _ _ h d d refl i
  start-Inv AudioDirection.input st session h d =
      same_handle-Inv w (channel_code cid) st _ h refl refl i

  start_indication-Inv :
      (x : Option (ℕ × ℕ)) (st : AudioChannelState Sink)
      → w.channels (channel_code cid) ≡ some st
      → Inv (on_start_indication m sinks make_sink make_source cid x (some st) w).1
  unfolding on_start_indication
  start_indication-Inv none st h = i
  start_indication-Inv (some (session, config)) st h = start-Inv st.direction st session h refl

  opened-Inv :
      (b : Bool) (st : AudioChannelState Sink) (o : Option Sink)
      → (((opened m sinks make_sink make_source cid st b o).direction ≡ st.direction)
          × ((opened m sinks make_sink make_source cid st b o).stop_tx ≡ st.stop_tx))
  unfolding opened
  opened-Inv b st none = (refl, refl)
  opened-Inv b st (some sink) = (refl, refl)

  input_open-Inv :
      (x : Option Bool) (st : AudioChannelState Sink)
      → w.channels (channel_code cid) ≡ some st
      → Inv (on_input_open m sinks make_sink make_source cid x (some st) w).1
  unfolding on_input_open
  input_open-Inv none st h = i
  input_open-Inv (some b) st h =
      let (d, s) = opened-Inv b st st.sink in same_handle-Inv w (channel_code cid) st _ h d s i

  into_sink-Inv :
      (r : Result Error AudioFrame) (st : AudioChannelState Sink) (o : Option Sink)
      → w.channels (channel_code cid) ≡ some st
      → Inv (into_sink m sinks make_sink make_source cid st o r w).1
  into_sink-Inv r st none h = i
  into_sink-Inv (err e) st (some sink) h = i
  into_sink-Inv (ok x) st (some sink) h = same_handle-Inv w (channel_code cid) st _ h refl refl i

  data_frame-Inv :
      (r : Result Error AudioFrame) (st : AudioChannelState Sink)
      → w.channels (channel_code cid) ≡ some st
      → Inv (on_data_frame m sinks make_sink make_source cid r (some st) w).1
  unfolding on_data_frame
  data_frame-Inv r st h = elim (Bool-cases st.started) [
    | inl a ↦ simp a (into_sink-Inv r st st.sink h)
    | inr a ↦ simp a i
  ]

  message-Inv :
      (msg_id : ℕ) (payload : Bytes) (st : AudioChannelState Sink)
      → w.channels (channel_code cid) ≡ some st
      → Inv (on_message m sinks make_sink make_source cid msg_id payload w).1
  unfolding on_message on_stop_indication
  message-Inv msg_id payload st h = elim (Bool-cases (msg_id == msg_setup_request)) [
    | inl a ↦ rw a i
    | inr a ↦ elim (Bool-cases (msg_id == msg_start_indication)) [
      | inl b ↦ rw (a, b, h) (start_indication-Inv (m.decode_start_indication payload) st h)
      | inr b ↦ elim (Bool-cases (msg_id == msg_stop_indication)) [
        | inl c ↦ rw (a, b, c, h) (stop-Inv w (channel_code cid) st _ _ h refl refl i)
        | inr c ↦ elim (Bool-cases (msg_id == msg_av_media_ack_indication)) [
          | inl d ↦ rw (a, b, c, d) i
          | inr d ↦ elim (Bool-cases (msg_id == msg_av_input_open_request)) [
            | inl e ↦
                rw (a, b, c, d, e, h) (input_open-Inv (m.decode_input_open_request payload) st h)
            | inr e ↦ elim (Bool-cases (msg_id == msg_av_media_with_timestamp_indication)) [
              | inl f ↦ rw (a, b, c, d, e, f, h) (data_frame-Inv (decode_inbound payload true) st h)
              | inr f ↦ elim (Bool-cases (msg_id == msg_av_media_indication)) [
                | inl g ↦
                    rw (a, b, c, d, e, f, g, h) (data_frame-Inv (decode_inbound payload false) st h)
                | inr g ↦ rw (a, b, c, d, e, f, g) i
              ]
            ]
          ]
        ]
      ]
    ]
  ]

module _ (m : ChannelMessages) {Sink Source : Type 0} (sinks : AudioSink Sink)
    (make_sink : ChannelId → AudioFormat → Sink) (make_source : AudioFormat → Source) where
  ensured-Inv :
      (channel msg_id : ℕ) (payload : Bytes) (w : Manager m sinks make_sink make_source)
      (o : Option (ChannelId × Manager m sinks make_sink make_source))
      → Known channel w o
      → Inv w
      → Inv (ensured_message m sinks make_sink make_source msg_id payload o w).1
  ensured-Inv channel msg_id payload w none (not_audio h) i = i
  ensured-Inv channel msg_id payload w (some _) (is_audio cid w' e) i =
      message-Inv m sinks make_sink make_source cid w' (Ensured-Inv channel cid w w' e i) msg_id
        payload e.state (ap w'.channels (sym e.code) ∙ e.here)

  after-Inv : (msgs : List Message) → Inv (manager_after m sinks make_sink make_source msgs)
  unfolding manager_after new_manager handle stop_of
  after-Inv [] = record {
    shape = λ c st h. absurd (none-some h);
    running = record {
      is_held = λ k lt h. absurd (omega arith);
      not_signalled = λ k h. absurd (none-some h);
      in_range = λ k h. absurd (none-some h);
      was_spawned = λ k h. absurd (ground (arith, h));
    };
  }
  after-Inv ((channel, msg_id, payload) ∷ earlier) =
      let w = manager_after m sinks make_sink make_source earlier in
      ensured-Inv channel msg_id payload w (ensure_state channel w) (ensure_state-Known channel w)
        (after-Inv earlier)

  -- After any messages, an encoder task that was spawned has not been told to stop exactly when it
  -- is the one that the channel of media audio, the only one with output, holds the stop handle
  -- of; so at most one of them runs.
  pub spawned_encoder_runs_iff :
      (msgs : List Message) (k : ℕ)
      → k < length (manager_after m sinks make_sink make_source msgs).spawned
      → (elem k (manager_after m sinks make_sink make_source msgs).signalled ≡ false) ↔ (
          stop_of
            ((manager_after m sinks make_sink make_source msgs).channels (channel_code media_audio))
          ≡ some k)
  spawned_encoder_runs_iff msgs k lt =
      let r = (after-Inv msgs).running in (r.is_held k lt, r.not_signalled k)
