-- ===== src/Video/Run.antt =====
-- Runs of the pipeline: calls of its handles and rounds of its tasks, in any order.
use aabox.Common.{ℕ, ◌+◌, ◌^◌, ◌<◌, Option, none, some, List, [], ◌∷◌, ◌++◌, ◌==◌, if◌then◌else◌}
use aabox.Video.{
  VideoPipeline, Phase, counting, Streamer, new_pipeline, set_wire_channel, start, stop,
  on_media_ack, receive, Event, streamer_step,
}

abbrev pub add_task : Option Streamer → List Streamer → List Streamer
add_task none ts = ts
add_task (some t) ts = t ∷ ts

-- 1 where a task of an earlier generation is about to count a frame.
unfoldable pub late : VideoPipeline → Streamer → Phase → ℕ
late p t counting = if p.generation == t.my_gen then 0 else 1
late p t _ = 0

-- A step between states, with the number of frames that it counts late. The generation does not
-- wrap within a run.
pub data Step (max_in_flight : ℕ)
    : ℕ → VideoPipeline × List Streamer → VideoPipeline × List Streamer → Type 0 where
  on_start :
      (session : ℕ) (p : VideoPipeline) (ts : List Streamer)
      → p.generation + 1 < 2 ^ 64
      → Step max_in_flight 0 (p, ts) ((start session p).0, (start session p).1 ∷ ts)
  on_stop :
      (p : VideoPipeline) (ts : List Streamer)
      → p.generation + 1 < 2 ^ 64
      → Step max_in_flight 0 (p, ts) (stop ts p, ts)
  on_ack :
      (p : VideoPipeline) (ts : List Streamer) → Step max_in_flight 0 (p, ts) (on_media_ack p, ts)
  on_wire :
      (ch : ℕ) (p : VideoPipeline) (ts : List Streamer)
      → Step max_in_flight 0 (p, ts) (set_wire_channel ch p, ts)
  on_receive :
      (p : VideoPipeline) (ts : List Streamer) → Step max_in_flight 0 (p, ts) (receive p, ts)
  on_task :
      (p : VideoPipeline) (before after : List Streamer) (t : Streamer) (event : Event)
      → Step max_in_flight
          (late p t t.phase)
          (p, before ++ (t ∷ after))
          (
            (streamer_step max_in_flight p t event).0,
            before ++ add_task (streamer_step max_in_flight p t event).1 after,
          )

-- The states that a run from the new pipeline reaches, with the frames counted late on the way.
pub data Reached (max_in_flight : ℕ) : ℕ → VideoPipeline × List Streamer → Type 0 where
  at_new : Reached max_in_flight 0 (new_pipeline, [])
  then_step :
      {k n : ℕ} {a b : VideoPipeline × List Streamer}
      → Reached max_in_flight k a
      → Step max_in_flight n a b
      → Reached max_in_flight (k + n) b
