-- ===== src/Dispatch/Bound.antt =====
-- How many frames are in flight while the control loop runs.
use aabox.Common.{
  ℕ, suc, ◌+◌, ◌*◌, ◌^◌, ◌≤◌, ◌<◌, Option, none, some, Result, ok, err, List, [], ◌∷◌, ◌++◌, ◌≡◌,
  sym, subst, arith,
}
use aabox.Effect.{Error, Transport}
use aabox.Framing.{Frame}
use aabox.Control.{read_frame}
use aabox.Encrypted.{Side, OutboundMessage}
use aabox.ControlChannel.{Messages}
use aabox.Ids.{ChannelId}
use aabox.Video.{Streamer, new_pipeline, Event, streamer_step}
use aabox.Video.Run.{add_task, late, Reached, at_new, then_step, on_receive, on_task}
use aabox.Video.Backpressure.{in_flight_bound}
use aabox.Channels.{ChannelMessages, Tasks, encode_instruction}
use aabox.Video.Tasks.{advance-Moved}
use aabox.Channels.Pipeline.{one_step}
use aabox.Audio.{AudioFormat, AudioSink}
use aabox.Sensor.{SensorMessages, LogFiles}
use aabox.Dispatch.{State}
use aabox.Dispatch.Run.{
  Arm, inbound, nav_instruction, audio_out, video_out, loop_round, frame_read, send_first,
}
use aabox.Dispatch.Pipeline.{
  Onward, weaken, stay, Moves-Onward, send_all_keeps, handle_frame-Onward, Whole,
}

module _ (m : Messages) (cm : ChannelMessages) (sm : SensorMessages) {F : Type 0} (fs : LogFiles F)
    {Sink Source : Type 0} (sinks : AudioSink Sink) (make_sink : ChannelId → AudioFormat → Sink)
    (make_source : AudioFormat → Source) (max_in_flight : ℕ) {S C : Type 0} (stream : Transport S)
    (conn : Side C) (fuel : ℕ) where
  abbrev AllState : Type 0
  AllState = Whole m cm sm fs sinks make_sink make_source max_in_flight stream conn fuel

  -- A round that goes on leaves the pipeline further on in a run.
  abbrev Later : AllState → Option AllState → Type 0
  Later l none = Unit {0}
  Later l (some l') = Onward max_in_flight 2 l.1.videos l'.1.videos

  unmoved : (w : Tasks) → Onward max_in_flight 2 w w
  unmoved w = weaken max_in_flight (omega arith) (stay max_in_flight w)

  inbound-Later :
      (r : Result Error Frame × S) (s : S) (c : C)
      (d : State m cm sm fs sinks make_sink make_source)
      → d.videos.0.generation + 2 < 2 ^ 64
      → Later
          ((s, c), d)
          (frame_read m cm sm fs sinks make_sink make_source stream conn fuel r c ((s, c), d))
  inbound-Later (err e, s') s c d h = tt
  inbound-Later (ok frame, s') s c d h =
      handle_frame-Onward m cm sm fs sinks make_sink make_source max_in_flight stream conn fuel
        frame ((s', c), d) h

  video_out-Later :
      (outs : List OutboundMessage) (l : AllState)
      → Later l (send_first m cm sm fs sinks make_sink make_source stream conn fuel outs l)
  video_out-Later [] l = unmoved l.1.videos
  video_out-Later (out ∷ outs) (w, d) =
      weaken max_in_flight (omega arith)
        (Moves-Onward max_in_flight (one_step (on_receive d.videos.0 d.videos.1)))

  loop_round-Later :
      (arm : Arm) (l : AllState)
      → l.1.videos.0.generation + 2 < 2 ^ 64
      → Later l (loop_round m cm sm fs sinks make_sink make_source stream conn fuel arm l)
  unfolding loop_round
  loop_round-Later inbound ((s, c), d) h = inbound-Later (read_frame stream s) s c d h
  loop_round-Later (nav_instruction instr) l h =
      subst
        (λ (d' : State m cm sm fs sinks make_sink make_source).
          Onward max_in_flight 2 l.1.videos d'.videos)
        (sym (
          send_all_keeps m cm sm fs sinks make_sink make_source max_in_flight stream conn fuel
            (encode_instruction instr) l))
        (unmoved l.1.videos)
  loop_round-Later (audio_out out) (w, d) h = unmoved d.videos
  loop_round-Later video_out (w, d) h = video_out-Later d.videos.0.outbound (w, d)

  -- The states of the daemon that rounds of the loop and turns of the streaming tasks lead to,
  -- with the number of rounds and the frames that are counted late.
  pub data LoopRun : ℕ → ℕ → AllState → Type 0 where
    at_start : (l : AllState) → l.1.videos ≡ (new_pipeline, []) → LoopRun 0 0 l
    round :
        {k rounds : ℕ} (l l' : AllState) (arm : Arm)
        → LoopRun k rounds l
        → loop_round m cm sm fs sinks make_sink make_source stream conn fuel arm l ≡ some l'
        → LoopRun k (suc rounds) l'
    task_turn :
        {k rounds : ℕ} (l l' : AllState) (before after : List Streamer) (t : Streamer)
        (event : Event)
        → LoopRun k rounds l
        → l.1.videos.1 ≡ before ++ (t ∷ after)
        → l'.1.videos ≡ (
          (streamer_step max_in_flight l.1.videos.0 t event).0,
          before ++ add_task (streamer_step max_in_flight l.1.videos.0 t event).1 after,
        )
        → LoopRun (k + late l.1.videos.0 t t.phase) rounds l'

  record Fine (k rounds : ℕ) (l : AllState) : Type 0 where
    reached : Reached max_in_flight k l.1.videos
    near : l.1.videos.0.generation ≤ rounds * 2

  LoopRun-Fine :
      {k rounds : ℕ} {l : AllState} → LoopRun k rounds l → rounds * 2 < 2 ^ 64 → Fine k rounds l
  unfolding streamer_step new_pipeline
  LoopRun-Fine (at_start l e) h = record { reached = rw e at_new; near = rw e (omega arith) }
  LoopRun-Fine (round l l' arm r e) h =
      let fine = LoopRun-Fine r (omega (arith, h)) in
      let later = loop_round-Later arm l (omega (arith, h, fine.near)) in
      let onward : Onward max_in_flight 2 l.1.videos l'.1.videos = subst (Later l) e later in
      record {
        reached = onward.reaches fine.reached;
        near = omega (arith, onward.generation_near, fine.near);
      }
  LoopRun-Fine (task_turn {k = k} l l' before after t event r e e') h =
      let fine = LoopRun-Fine r h in
      let p = l.1.videos.0 in
      let here : Reached max_in_flight k (p, before ++ (t ∷ after)) =
        subst (λ (ts : List Streamer). Reached max_in_flight k (p, ts)) e fine.reached in
      let same = (advance-Moved max_in_flight p t t.phase event).same_generation in
      record {
        reached = rw e' (then_step here (on_task p before after t event));
        near = rw e' (omega (arith, same, fine.near));
      }

  -- In every run of the control loop from a state with a fresh video pipeline, whatever the car
  -- sends and whichever arms are taken, and with turns of the streaming tasks between the rounds,
  -- the number of video frames in flight is at most the limit plus the number of frames that tasks
  -- of an earlier generation have counted, as long as twice the number of rounds is below 2 ^ 64.
  pub loop_in_flight_bound :
      {k rounds : ℕ} {l : AllState}
      → LoopRun k rounds l
      → rounds * 2 < 2 ^ 64
      → l.1.videos.0.in_flight ≤ max_in_flight + k
  loop_in_flight_bound r h = in_flight_bound max_in_flight (LoopRun-Fine r h).reached
