-- ===== src/Dispatch/Pipeline.antt =====
-- The video pipeline under the control loop.
use aabox.Common.{
  ℕ, ◌+◌, ◌^◌, ◌≤◌, ◌<◌, ◌&&◌, Bool-cases, inl, inr, Result, ok, err, List, [], ◌∷◌, length, ltb,
  ◌==◌, Bytes, ◌≡◌, refl, sym, subst, arith, drop,
}
use aabox.Effect.{Error, Eff, Transport, next}
use aabox.Framing.{Frame}
use aabox.Control.{u16_at}
use aabox.Encrypted.{decrypt_payload, Side, OutboundMessage, send_encrypted}
use aabox.ControlChannel.{Messages}
use aabox.Ids.{ChannelId, channel_of}
use aabox.Video.{set_wire_channel, start, stop, on_media_ack, receive, streamer_step}
use aabox.Video.Run.{Reached, Step, on_start, on_stop, on_ack, on_wire, on_receive, on_task}
use aabox.Channels.{ChannelMessages, Tasks}
use aabox.Video.Tasks.{advance-Moved}
use aabox.Channels.Pipeline.{Moves, still, one_step, moved-Reached, video_handle-Moves}
use aabox.Audio.{AudioFormat, AudioSink}
use aabox.Sensor.{SensorMessages, LogFiles}
use aabox.Dispatch.{
  is_audio, is_video, is_cross_channel_control, focus_notification, kick, State, World, route,
  send_all, plaintext_of, handle_plain, handle_frame,
}

-- A run goes on to a state, whose generation is at most `n` later.
pub record Onward (max_in_flight n : ℕ) (w w' : Tasks) : Type 0 where
  pub reaches : {k : ℕ} → Reached max_in_flight k w → Reached max_in_flight k w'
  pub generation_near : w'.0.generation ≤ w.0.generation + n

module _ (max_in_flight : ℕ) where
  pub stay : (w : Tasks) → Onward max_in_flight 0 w w
  stay w = record { reaches = λ r. r; generation_near = omega arith }

  then_on :
      {a b : ℕ} {w w' w'' : Tasks}
      → Onward max_in_flight a w w'
      → Onward max_in_flight b w' w''
      → Onward max_in_flight (a + b) w w''
  then_on f g = record {
    reaches = λ r. g.reaches (f.reaches r);
    generation_near = omega (arith, f.generation_near, g.generation_near);
  }

  pub weaken :
      {a b : ℕ} {w w' : Tasks} → a ≤ b → Onward max_in_flight a w w' → Onward max_in_flight b w w'
  weaken h f = record {
    reaches = λ r. f.reaches r;
    generation_near = omega (arith, h, f.generation_near);
  }

  step-generation :
      {n : ℕ} {w w' : Tasks} → Step max_in_flight n w w' → w'.0.generation ≤ w.0.generation + 1
  unfolding start stop on_media_ack set_wire_channel receive streamer_step
  step-generation (on_start session p ts h) = omega arith
  step-generation (on_stop p [] h) = omega arith
  step-generation (on_stop p (t ∷ ts) h) = omega arith
  step-generation (on_ack p ts) = omega arith
  step-generation (on_wire ch p ts) = omega arith
  step-generation (on_receive p ts) = omega arith
  step-generation (on_task p before after t event) =
      omega (arith, (advance-Moved max_in_flight p t t.phase event).same_generation)

  pub Moves-Onward : {w w' : Tasks} → Moves max_in_flight w w' → Onward max_in_flight 1 w w'
  Moves-Onward still = weaken (omega arith) (stay _)
  Moves-Onward (one_step s) = record {
    reaches = λ r. moved-Reached max_in_flight (one_step s) r;
    generation_near = step-generation s;
  }

  kick-Onward :
      (channel msg_id : ℕ) (w : Tasks)
      → w.0.generation + 1 < 2 ^ 64
      → Onward max_in_flight 1 w (kick channel msg_id w)
  unfolding kick set_wire_channel
  kick-Onward channel msg_id w h = elim (Bool-cases (msg_id == focus_notification)) [
    | inl a ↦ rw a (record {
      reaches = λ r.
          moved-Reached max_in_flight (one_step (on_start 1 (set_wire_channel channel w.0) w.1 h))
            (moved-Reached max_in_flight (one_step (on_wire channel w.0 w.1)) r);
      generation_near = step-generation (on_start 1 (set_wire_channel channel w.0) w.1 h);
    })
    | inr a ↦ elim (Bool-cases (msg_id == 0x8004)) [
      | inl b ↦ rw (a, b) (Moves-Onward (one_step (on_ack w.0 w.1)))
      | inr b ↦ elim (Bool-cases (msg_id == 0x8002 && channel == w.0.wire_channel)) [
        | inl c ↦ rw (a, b, c) (Moves-Onward (one_step (on_stop w.0 w.1 h)))
        | inr c ↦ rw (a, b, c) (weaken (omega arith) (stay w))
      ]
    ]
  ]

module _ (m : Messages) (cm : ChannelMessages) (sm : SensorMessages) {F : Type 0} (fs : LogFiles F)
    {Sink Source : Type 0} (sinks : AudioSink Sink) (make_sink : ChannelId → AudioFormat → Sink)
    (make_source : AudioFormat → Source) (max_in_flight : ℕ) where
  route-Onward :
      (channel msg_id : ℕ) (body : Bytes) (d : State m cm sm fs sinks make_sink make_source)
      → d.videos.0.generation + 2 < 2 ^ 64
      → Onward max_in_flight 2 d.videos
          (route m cm sm fs sinks make_sink make_source channel msg_id body d).1.videos
  unfolding route
  route-Onward channel msg_id body d h =
      let kicked = kick-Onward max_in_flight channel msg_id d.videos (omega arith) in
      let enough : Onward max_in_flight 2 d.videos (kick channel msg_id d.videos) =
        weaken max_in_flight (omega arith) kicked in
      elim (Bool-cases (is_cross_channel_control msg_id)) [
        | inl a ↦ rw a enough
        | inr a ↦ elim (Bool-cases (is_audio (channel_of channel))) [
          | inl b ↦ rw (a, b) enough
          | inr b ↦ elim (Bool-cases (is_video (channel_of channel))) [
            | inl c ↦
                let room : (kick channel msg_id d.videos).0.generation + 1 < 2 ^ 64 =
                  omega (arith, kicked.generation_near) in
                rw (a, b, c)
                  (then_on max_in_flight kicked (
                    Moves-Onward max_in_flight (
                      video_handle-Moves cm max_in_flight channel msg_id body
                        (kick channel msg_id d.videos) room)))
            | inr c ↦ rw (a, b, c) enough
          ]
        ]
      ]

  module _ {S C : Type 0} (stream : Transport S) (conn : Side C) (fuel : ℕ) where
    abbrev pub Whole : Type 0
    Whole = World m cm sm fs sinks make_sink make_source stream conn fuel

    bind_keeps :
        {A B : Type 0} (r : Result Error A) (l : Whole) (f : A → Eff Whole B)
        → ((a : A) → (f a l).1.1 ≡ l.1)
        → (next (r, l) f (λ e l'. (err e, l'))).1.1 ≡ l.1
    bind_keeps (ok a) l f h = h a
    bind_keeps (err e) l f h = refl

    -- Sending touches the stream and the connection only.
    pub send_all_keeps :
        (outs : List OutboundMessage) (l : Whole)
        → (send_all m cm sm fs sinks make_sink make_source stream conn fuel outs l).1.1 ≡ l.1
    unfolding send_all
    send_all_keeps [] l = refl
    send_all_keeps (out ∷ outs) (w, d) =
        let sent = send_encrypted stream conn fuel out w in
        bind_keeps sent.0 (sent.1, d)
          (λ _. send_all m cm sm fs sinks make_sink make_source stream conn fuel outs)
          (λ _. send_all_keeps outs (sent.1, d))

    bind-Onward :
        {A B : Type 0} (n : ℕ) (r : Result Error A) (l : Whole) (f : A → Eff Whole B)
        → ((a : A) → Onward max_in_flight n l.1.videos (f a l).1.1.videos)
        → Onward max_in_flight n l.1.videos (next (r, l) f (λ e l'. (err e, l'))).1.1.videos
    bind-Onward n (ok a) l f h = h a
    bind-Onward n (err e) l f h = weaken max_in_flight (omega arith) (stay max_in_flight l.1.videos)

    handle_plain-Onward :
        (channel : ℕ) (plain : Bytes) (l : Whole)
        → l.1.videos.0.generation + 2 < 2 ^ 64
        → Onward max_in_flight 2 l.1.videos
            (handle_plain m cm sm fs sinks make_sink make_source stream conn fuel channel plain
              l).1.1.videos
    unfolding handle_plain
    handle_plain-Onward channel plain (w, d) h = elim (Bool-cases (ltb (length plain) 2)) [
      | inl a ↦ rw a (weaken max_in_flight (omega arith) (stay max_in_flight d.videos))
      | inr a ↦
          let routed =
            route m cm sm fs sinks make_sink make_source channel (u16_at plain 0) (drop 2 plain)
              d in
          let onward = route-Onward channel (u16_at plain 0) (drop 2 plain) d h in
          let kept =
            bind_keeps routed.0 (w, routed.1)
              (λ outs. send_all m cm sm fs sinks make_sink make_source stream conn fuel outs)
              (λ outs. send_all_keeps outs (w, routed.1)) in
          rw a (
            subst
              (λ (d' : State m cm sm fs sinks make_sink make_source).
                Onward max_in_flight 2 d.videos d'.videos)
              (sym kept) onward)
    ]

    pub handle_frame-Onward :
        (frame : Frame) (l : Whole)
        → l.1.videos.0.generation + 2 < 2 ^ 64
        → Onward max_in_flight 2 l.1.videos
            (handle_frame m cm sm fs sinks make_sink make_source stream conn fuel frame
              l).1.1.videos
    unfolding handle_frame plaintext_of
    handle_frame-Onward frame ((s, c), d) h = elim (Bool-cases frame.encrypted) [
      | inl a ↦
          let plain = decrypt_payload conn fuel frame.payload c in
          simp a (
            bind-Onward 2 plain.0 ((s, plain.1), d)
              (λ b.
                handle_plain m cm sm fs sinks make_sink make_source stream conn fuel
                  frame.channel_id b)
              (λ b. handle_plain-Onward frame.channel_id b ((s, plain.1), d) h))
      | inr a ↦ simp a (handle_plain-Onward frame.channel_id frame.payload ((s, c), d) h)
    ]
