-- ===== src/Audio/Follows.antt =====
-- The manager keeps each sink as the gate of its channel says.
use aabox.Common.{
  ℕ, Bool, true, false, Bool-cases, inl, inr, Option, none, some, Result, ok, err, List, ◌≡◌, refl,
  sym, ap, ◌∙◌, ◌==◌, if◌then◌else◌, Bytes,
}
use aabox.Effect.{Error}
use aabox.Ids.{ChannelId, channel_code}
use aabox.Channels.{
  ChannelMessages, msg_setup_request, msg_start_indication, msg_stop_indication,
  msg_av_media_ack_indication, msg_av_input_open_request,
}
use aabox.Video.{msg_av_media_with_timestamp_indication}
use aabox.Audio.{
  msg_av_media_indication, AudioDirection, output, input, AudioFormat, AudioFrame, decode_inbound,
  AudioSink, AudioChannelState,
}
use aabox.Audio.Manager.{
  Manager, on_message, on_start_indication, start_output, started_in, start_input,
  on_stop_indication, on_input_open, opened, on_data_frame,
}
use aabox.Audio.Ensured.{==_refl}
use aabox.Audio.Gate.{
  starts, stops, opens, Gate, gate_step, frame_event, start_event, open_event, meaning, push_all,
  fed, push_all-append,
}

module _ (m : ChannelMessages) {Sink Source : Type 0} (sinks : AudioSink Sink)
    (make_sink : ChannelId → AudioFormat → Sink) (make_source : AudioFormat → Source)
    (cid : ChannelId) (format : AudioFormat) where
  pub record Follows (g : Gate) (st : AudioChannelState Sink) : Type 0 where
    pub same_started : st.started ≡ g.started
    pub same_sink : st.sink ≡ fed sinks g.frames (make_sink cid format)
    pub same_format : st.format ≡ format

  -- The state of the channel follows the gate.
  pub data At (g : Gate) (w : Manager m sinks make_sink make_source) : Type 0 where
    at :
        (st : AudioChannelState Sink)
        → w.channels (channel_code cid) ≡ some st
        → Follows g st
        → At g w

  here : {A : Type 0} (x y : A) → (if channel_code cid == channel_code cid then x else y) ≡ x
  here x y = rw (==_refl (channel_code cid)) refl

  start-At :
      (d : AudioDirection) (st : AudioChannelState Sink) (session : ℕ) (g : Gate)
      (w : Manager m sinks make_sink make_source)
      → Follows g st
      → At (gate_step starts g) (started_in m sinks make_sink make_source d cid st session w)
  unfolding start_output start_input gate_step
  start-At output st session g w f =
      at _ (here _ _)
        (record { same_started = refl; same_sink = f.same_sink; same_format = f.same_format })
  start-At input st session g w f =
      at _ (here _ _)
        (record { same_started = refl; same_sink = f.same_sink; same_format = f.same_format })

  data_frame-At :
      (b : Bool) (o : Option (List AudioFrame)) (r : Result Error AudioFrame)
      (st : AudioChannelState Sink) (w : Manager m sinks make_sink make_source)
      → w.channels (channel_code cid) ≡ some st
      → Follows (record { started = b; frames = o }) st
      → At
          (gate_step (frame_event r) (record { started = b; frames = o }))
          (on_data_frame m sinks make_sink make_source cid r (some st) w).1
  unfolding on_data_frame gate_step fed
  data_frame-At false o (err e) st w h f = rw f.same_started (at st h f)
  data_frame-At false o (ok x) st w h f = rw f.same_started (at st h f)
  data_frame-At true none (err e) st w h f = rw (f.same_started, f.same_sink) (at st h f)
  data_frame-At true none (ok x) st w h f = rw (f.same_started, f.same_sink) (at st h f)
  data_frame-At true (some fs) (err e) st w h f = rw (f.same_started, f.same_sink) (at st h f)
  data_frame-At true (some fs) (ok x) st w h f =
      rw (f.same_started, f.same_sink)
        (at _ (here _ _) (record {
          same_started = refl;
          same_sink = ap some (sym (push_all-append sinks fs x (make_sink cid format)));
          same_format = f.same_format;
        }))

  data-At :
      (g : Gate) (r : Result Error AudioFrame) (st : AudioChannelState Sink)
      (w : Manager m sinks make_sink make_source)
      → w.channels (channel_code cid) ≡ some st
      → Follows g st
      → At
          (gate_step (frame_event r) g)
          (on_data_frame m sinks make_sink make_source cid r (some st) w).1
  data-At g r st w h f = data_frame-At g.started g.frames r st w h f

  open-At :
      (b : Bool) (o : Option (List AudioFrame)) (st : AudioChannelState Sink) (g : Gate)
      (w : Manager m sinks make_sink make_source)
      → g.frames ≡ o
      → Follows g st
      → At
          (gate_step (opens b) g)
          (on_input_open m sinks make_sink make_source cid (some b) (some st) w).1
  unfolding on_input_open opened gate_step fed push_all
  open-At b none st g w e f =
      let no_sink : st.sink ≡ none = f.same_sink ∙ ap (λ t. fed sinks t (make_sink cid format)) e in
      rw (e, no_sink)
        (at _ (here _ _) (record {
          same_started = refl;
          same_sink = rw f.same_format refl;
          same_format = f.same_format;
        }))
  open-At b (some fs) st g w e f =
      let a_sink : st.sink ≡ some (push_all sinks fs (make_sink cid format)) =
        f.same_sink ∙ ap (λ t. fed sinks t (make_sink cid format)) e in
      rw (e, a_sink)
        (at _ (here _ _)
          (record { same_started = refl; same_sink = refl; same_format = f.same_format }))

  start_indication-At :
      (o : Option (ℕ × ℕ)) (st : AudioChannelState Sink) (g : Gate)
      (w : Manager m sinks make_sink make_source)
      → w.channels (channel_code cid) ≡ some st
      → Follows g st
      → At
          (gate_step (start_event o) g)
          (on_start_indication m sinks make_sink make_source cid o (some st) w).1
  unfolding on_start_indication gate_step
  start_indication-At none st g w h f = at st h f
  start_indication-At (some (session, config)) st g w h f = start-At st.direction st session g w f

  input_open-At :
      (o : Option Bool) (st : AudioChannelState Sink) (g : Gate)
      (w : Manager m sinks make_sink make_source)
      → w.channels (channel_code cid) ≡ some st
      → Follows g st
      → At
          (gate_step (open_event o) g)
          (on_input_open m sinks make_sink make_source cid o (some st) w).1
  unfolding on_input_open gate_step
  input_open-At none st g w h f = at st h f
  input_open-At (some b) st g w h f = open-At b g.frames st g w refl f

  stop-At :
      (st : AudioChannelState Sink) (g : Gate) (w : Manager m sinks make_sink make_source)
      → Follows g st
      → At (gate_step stops g) (on_stop_indication m sinks make_sink make_source cid (some st) w).1
  unfolding on_stop_indication gate_step
  stop-At st g w f =
      at _ (here _ _)
        (record { same_started = refl; same_sink = f.same_sink; same_format = f.same_format })

  pub message-At :
      (msg_id : ℕ) (payload : Bytes) (g : Gate) (st : AudioChannelState Sink)
      (w : Manager m sinks make_sink make_source)
      → w.channels (channel_code cid) ≡ some st
      → Follows g st
      → At
          (gate_step (meaning m msg_id payload) g)
          (on_message m sinks make_sink make_source cid msg_id payload w).1
  unfolding on_message meaning
  message-At msg_id payload g st w h f = elim (Bool-cases (msg_id == msg_setup_request)) [
    | inl a ↦ rw a (unfold gate_step in at st h f)
    | inr a ↦ elim (Bool-cases (msg_id == msg_start_indication)) [
      | inl b ↦ rw (a, b, h) (start_indication-At (m.decode_start_indication payload) st g w h f)
      | inr b ↦ elim (Bool-cases (msg_id == msg_stop_indication)) [
        | inl c ↦ rw (a, b, c, h) (stop-At st g w f)
        | inr c ↦ elim (Bool-cases (msg_id == msg_av_media_ack_indication)) [
          | inl d ↦ rw (a, b, c, d) (unfold gate_step in at st h f)
          | inr d ↦ elim (Bool-cases (msg_id == msg_av_input_open_request)) [
            | inl e ↦
                rw (a, b, c, d, e, h)
                  (input_open-At (m.decode_input_open_request payload) st g w h f)
            | inr e ↦ elim (Bool-cases (msg_id == msg_av_media_with_timestamp_indication)) [
              | inl i ↦ rw (a, b, c, d, e, i, h) (data-At g (decode_inbound payload true) st w h f)
              | inr i ↦ elim (Bool-cases (msg_id == msg_av_media_indication)) [
                | inl j ↦
                    rw (a, b, c, d, e, i, j, h) (data-At g (decode_inbound payload false) st w h f)
                | inr j ↦ rw (a, b, c, d, e, i, j) (unfold gate_step in at st h f)
              ]
            ]
          ]
        ]
      ]
    ]
  ]
