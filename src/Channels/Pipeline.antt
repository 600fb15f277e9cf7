-- ===== src/Channels/Pipeline.antt =====
-- What the video handler does to the pipeline.
use aabox.Common.{
  subst, ℕ, ◌+◌, ◌^◌, ◌<◌, Bool-cases, inl, inr, Option, none, some, ◌==◌, Bytes, arith,
}
use aabox.Video.Run.{Reached, then_step, Step, on_start, on_stop, on_ack}
use aabox.Channels.{
  ChannelMessages, Tasks, on_start_indication, on_ack_indication, video_handle, msg_setup_request,
  msg_start_indication, msg_stop_indication, msg_av_media_ack_indication,
}

-- The state is left as it is, or it takes one step of a run that counts no frame.
pub data Moves (max_in_flight : ℕ) (w : Tasks) : Tasks → Type 0 where
  still : Moves max_in_flight w w
  one_step : {w' : Tasks} → Step max_in_flight 0 w w' → Moves max_in_flight w w'

pub moved-Reached :
    (max_in_flight : ℕ) {k : ℕ} {w w' : Tasks}
    → Moves max_in_flight w w'
    → Reached max_in_flight k w
    → Reached max_in_flight k w'
moved-Reached max_in_flight still r = r
moved-Reached max_in_flight {w' = w'} (one_step s) r =
    subst (λ n. Reached max_in_flight n w') (omega arith) (then_step r s)

module _ (m : ChannelMessages) (max_in_flight : ℕ) where
  open m use {decode_start_indication, decode_media_ack}

  start-Moves :
      (o : Option (ℕ × ℕ)) (w : Tasks)
      → w.0.generation + 1 < 2 ^ 64
      → Moves max_in_flight w (on_start_indication m o w).1
  unfolding on_start_indication
  start-Moves none w h = still
  start-Moves (some (session, config)) w h = one_step (on_start session w.0 w.1 h)

  ack-Moves : (o : Option ℕ) (w : Tasks) → Moves max_in_flight w (on_ack_indication m o w).1
  unfolding on_ack_indication
  ack-Moves none w = still
  ack-Moves (some value) w = one_step (on_ack w.0 w.1)

  pub video_handle-Moves :
      (channel msg_id : ℕ) (payload : Bytes) (w : Tasks)
      → w.0.generation + 1 < 2 ^ 64
      → Moves max_in_flight w (video_handle m channel msg_id payload w).1
  unfolding video_handle
  video_handle-Moves channel msg_id payload w h = elim (Bool-cases (msg_id == msg_setup_request)) [
    | inl a ↦ rw a still
    | inr a ↦ elim (Bool-cases (msg_id == msg_start_indication)) [
      | inl b ↦ rw (a, b) (start-Moves (decode_start_indication payload) w h)
      | inr b ↦ elim (Bool-cases (msg_id == msg_stop_indication)) [
        | inl c ↦ rw (a, b, c) (one_step (on_stop w.0 w.1 h))
        | inr c ↦ elim (Bool-cases (msg_id == msg_av_media_ack_indication)) [
          | inl d ↦ rw (a, b, c, d) (ack-Moves (decode_media_ack payload) w)
          | inr d ↦ rw (a, b, c, d) still
        ]
      ]
    ]
  ]

  -- When a run has reached a state of the pipeline and its tasks, and the generation is not at its
  -- last value, then a run with as many frames counted late reaches the state that the video
  -- handler leaves, whatever the channel, the message and its payload.
  pub video_handle-Reached :
      (channel msg_id : ℕ) (payload : Bytes) {k : ℕ} (w : Tasks)
      → w.0.generation + 1 < 2 ^ 64
      → Reached max_in_flight k w
      → Reached max_in_flight k (video_handle m channel msg_id payload w).1
  video_handle-Reached channel msg_id payload {k = k} w h r =
      moved-Reached max_in_flight (video_handle-Moves channel msg_id payload w h) r
