-- ===== src/Video/Tests.antt =====
-- An example of a run: a start, and a task that sends a frame.
use aabox.Common.{ℕ, ◌+◌, ◌++◌, ◌≤◌, ◌≡◌, refl, inl, List, [], ◌∷◌, concat, some, Bytes, arith}
use aabox.Video.StartCodes.{short_code}
use aabox.Video.Unbroken.{
  Act, reads, gives, captured_after, held, bytes_read, concat-captured_after,
}
use aabox.Video.{
  VideoPipeline, Phase, checking, waiting, fetching, sending, counting, Streamer, new_pipeline,
  start, advance, streamer_step, media_message, turn, next_frame,
}
use aabox.Video.Run.{Reached, at_new, then_step, on_start, on_task, Step, late}
use aabox.Video.Backpressure.{in_flight_bound}

abbrev started : VideoPipeline
started = record {
  session_id = 7;
  in_flight = 0;
  generation = 1;
  wire_channel = 255;
  outbound = [];
}

abbrev unit : Bytes
unit = 0 ∷ 0 ∷ 1 ∷ 0x65 ∷ []

abbrev queued : ℕ → VideoPipeline
queued in_flight = record {
  session_id = 7;
  in_flight = in_flight;
  generation = 1;
  wire_channel = 255;
  outbound = media_message started 0 unit ∷ [];
}

abbrev task : Phase → Streamer
task phase = record { my_gen = 1; phase = phase }

start-Step : Step 1 0 (new_pipeline, []) (started, task checking ∷ [])
unfolding new_pipeline start
start-Step = on_start 7 new_pipeline [] (omega arith)

check-Step : Step 1 0 (started, task checking ∷ []) (started, task waiting ∷ [])
unfolding streamer_step advance late
check-Step = on_task started [] [] (task checking) turn

pass-Step : Step 1 0 (started, task waiting ∷ []) (started, task fetching ∷ [])
unfolding streamer_step advance late
pass-Step = on_task started [] [] (task waiting) turn

fetch-Step :
    Step 1 0
      (started, task fetching ∷ [])
      (started, task (sending (media_message started 0 unit)) ∷ [])
unfolding streamer_step advance late
fetch-Step = on_task started [] [] (task fetching) (next_frame (some (0, unit)))

send-Step :
    Step 1 0
      (started, task (sending (media_message started 0 unit)) ∷ [])
      (queued 0, task counting ∷ [])
unfolding streamer_step advance late
send-Step = on_task started [] [] (task (sending (media_message started 0 unit))) turn

count-Step : Step 1 0 (queued 0, task counting ∷ []) (queued 1, task checking ∷ [])
unfolding streamer_step advance late
count-Step = on_task (queued 0) [] [] (task counting) turn

one_frame : Reached 1 0 (queued 1, task checking ∷ [])
one_frame =
    then_step
      (then_step
        (then_step (then_step (then_step (then_step at_new start-Step) check-Step) pass-Step)
          fetch-Step)
        send-Step)
      count-Step

in_flight_bound_example : 1 ≤ 1 + 0
in_flight_bound_example = in_flight_bound 1 one_frame

-- Two reads, an access unit that is given, and a read.
abbrev first_chunk : Bytes
first_chunk = 0 ∷ 0 ∷ 1 ∷ 0x65 ∷ 7 ∷ 0 ∷ 0 ∷ []

abbrev acts : List Act
acts = reads (0 ∷ 0 ∷ 1 ∷ 0x41 ∷ []) ∷ gives ∷ reads (1 ∷ 0x41 ∷ 9 ∷ []) ∷ []

concat-captured_after_example :
    concat (captured_after 30 first_chunk acts).0 ++ held (captured_after 30 first_chunk acts).1
    ≡ bytes_read first_chunk acts
concat-captured_after_example =
    concat-captured_after 30 first_chunk acts (short_code refl refl refl (omega arith) (inl refl))
