-- ===== src/Video.antt =====
-- The video pipeline, crates/aabox-aapd/src/channels/video/pipeline.rs: the state that the handles
-- and the streaming tasks share, and the rounds of a task.
pub mod Run
pub mod Tasks
pub mod Backpressure
pub mod Capture
pub mod Choice
pub mod StartCodes
pub mod UnitCodes
pub mod Unbroken
mod Tests
use aabox.Common.{
  ℕ, zero, suc, ◌+◌, ◌-◌, ◌%◌, ◌^◌, Option, none, some, List, [], ◌∷◌, ◌++◌, ltb, ◌==◌,
  if◌then◌else◌, length, Bytes, be64,
}
use aabox.Encrypted.{OutboundMessage}
use aabox.Ids.{channel_code, no_channel}

abbrev pub msg_av_media_with_timestamp_indication : ℕ
msg_av_media_with_timestamp_indication = 0x0000

-- `mpsc::channel(64)`
abbrev pub outbound_capacity : ℕ
outbound_capacity = 64

-- The shared state; `outbound` is the queue that the control loop receives from.
pub record VideoPipeline : Type 0 where
  pub session_id : ℕ
  pub in_flight : ℕ
  pub generation : ℕ
  pub wire_channel : ℕ
  pub outbound : List OutboundMessage

-- Where a task stands: at the head of its loop, before the test of `in_flight`, in the `select!` of
-- the wait for a free slot, in `next_frame`, in `send`, and before `fetch_add`.
pub data Phase : Type 0 where
  checking waiting parked fetching : Phase
  sending : OutboundMessage → Phase
  counting : Phase

pub record Streamer : Type 0 where
  pub my_gen : ℕ
  pub phase : Phase

-- `VideoPipeline::new`
unfoldable pub new_pipeline : VideoPipeline
new_pipeline = record {
  session_id = 0;
  in_flight = 0;
  generation = 0;
  wire_channel = channel_code no_channel;
  outbound = [];
}

unfoldable pub set_wire_channel : ℕ → VideoPipeline → VideoPipeline
set_wire_channel ch p = record {
  session_id = p.session_id;
  in_flight = p.in_flight;
  generation = p.generation;
  wire_channel = ch;
  outbound = p.outbound;
}

abbrev pub next_generation : VideoPipeline → ℕ
next_generation p = (p.generation + 1) % 2 ^ 64

-- The state after `start`, and the task that it spawns.
unfoldable pub start : ℕ → VideoPipeline → VideoPipeline × Streamer
start session p = (
  record {
    session_id = session;
    in_flight = 0;
    generation = next_generation p;
    wire_channel = p.wire_channel;
    outbound = p.outbound;
  },
  record { my_gen = next_generation p; phase = checking },
)

-- `send` on the watch of the generation, which has a receiver in each task: without one it leaves the
-- value as it is.
abbrev pub sent_generation : List Streamer → VideoPipeline → ℕ
sent_generation [] p = p.generation
sent_generation (t ∷ ts) p = next_generation p

-- `stop`, with the tasks that are alive.
unfoldable pub stop : List Streamer → VideoPipeline → VideoPipeline
stop ts p = record {
  session_id = p.session_id;
  in_flight = 0;
  generation = sent_generation ts p;
  wire_channel = p.wire_channel;
  outbound = p.outbound;
}

abbrev pub with_in_flight : ℕ → VideoPipeline → VideoPipeline
with_in_flight n p = record {
  session_id = p.session_id;
  in_flight = n;
  generation = p.generation;
  wire_channel = p.wire_channel;
  outbound = p.outbound;
}

abbrev pub with_outbound : List OutboundMessage → VideoPipeline → VideoPipeline
with_outbound outs p = record {
  session_id = p.session_id;
  in_flight = p.in_flight;
  generation = p.generation;
  wire_channel = p.wire_channel;
  outbound = outs;
}

unfoldable pub on_media_ack : VideoPipeline → VideoPipeline
on_media_ack p = with_in_flight (if ltb 0 p.in_flight then p.in_flight - 1 else 0) p

-- `recv` on the queue.
unfoldable pub receive : VideoPipeline → VideoPipeline
receive p = with_outbound (rest p.outbound) p
  where
    rest : List OutboundMessage → List OutboundMessage
    rest [] = []
    rest (out ∷ outs) = outs

-- What a task waits for: its turn, a change of the generation, a frame of the source, `none` at its
-- end, or the receiver going away.
pub data Event : Type 0 where
  turn generation_changed receiver_dropped : Event
  next_frame : Option (ℕ × Bytes) → Event

abbrev pub at_phase : Streamer → Phase → Option Streamer
at_phase t next = some (record { my_gen = t.my_gen; phase = next })

-- The payload of a frame: its time in microseconds and the access unit.
unfoldable pub media_message : VideoPipeline → ℕ → Bytes → OutboundMessage
media_message p pts_us annex_b = record {
  channel = p.wire_channel;
  message_id = msg_av_media_with_timestamp_indication;
  payload = be64 pts_us ++ annex_b;
}

unfoldable pub advance :
    ℕ → VideoPipeline → Streamer → Phase → Event → VideoPipeline × Option Streamer
unfolding media_message
advance max_in_flight p t checking event =
    (p, if p.generation == t.my_gen then at_phase t waiting else none)
advance max_in_flight p t waiting event =
    (p, if ltb p.in_flight max_in_flight then at_phase t fetching else at_phase t parked)
advance max_in_flight p t parked turn = (p, at_phase t waiting)
advance max_in_flight p t parked generation_changed =
    (p, if p.generation == t.my_gen then at_phase t waiting else none)
advance max_in_flight p t parked _ = (p, at_phase t parked)
advance max_in_flight p t fetching (next_frame none) = (p, none)
advance max_in_flight p t fetching (next_frame (some (pts_us, annex_b))) =
    (p, at_phase t (sending (media_message p pts_us annex_b)))
advance max_in_flight p t fetching _ = (p, at_phase t fetching)
advance max_in_flight p t (sending out) receiver_dropped = (p, none)
advance max_in_flight p t (sending out) _ =
    if ltb (length p.outbound) outbound_capacity
    then (with_outbound (p.outbound ++ (out ∷ [])) p, at_phase t counting)
    else (p, at_phase t (sending out))
advance max_in_flight p t counting event =
    (with_in_flight ((p.in_flight + 1) % 2 ^ 32) p, at_phase t checking)

-- One round of a task.
unfoldable pub streamer_step :
    ℕ → VideoPipeline → Streamer → Event → VideoPipeline × Option Streamer
unfolding advance
streamer_step max_in_flight p t event = advance max_in_flight p t t.phase event
