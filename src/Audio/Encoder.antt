-- ===== src/Audio/Encoder.antt =====
-- The encoder task, `run_outbound_encoder` of crates/aabox-aapd/src/channels/audio.rs, and the source
-- of a test tone. The samples of the tone are computed in floating point and stand for a parameter.
use aabox.Common.{
  ℕ, zero, suc, ◌+◌, ◌-◌, ◌/◌, ◌%◌, ◌^◌, ◌<◌, Bool, true, false, Option, none, some, Result, ok,
  err, List, [], ◌∷◌, length, replicate, ltb, leb, if◌then◌else◌, ◌≡◌, refl, ap, arith,
}
use aabox.Effect.{Error}
use aabox.Encrypted.{OutboundMessage}
use aabox.Ids.{ChannelId}
use aabox.Audio.{AudioFormat, AudioFrame, encode_outbound_frame}

-- `AudioSource::next`
pub record AudioSource (Source : Type 0) : Type 0 where
  pub next_frame : Source → Result Error (Option AudioFrame) × Source

-- What one round of the `select!` finds: the stop channel changed, with its value or `none` where
-- its sender is gone, or the source has its turn, and whether the receiver of the messages is there.
pub data Round : Type 0 where
  stop_changed : Option Bool → Round
  source_turn : Bool → Round

module _ {Source : Type 0} (sources : AudioSource Source) (cid : ChannelId) where
  abbrev pub sent :
      Bool
      → (Source → List OutboundMessage × Option Source)
      → Result Error (Option AudioFrame) × Source
      → List OutboundMessage × Option Source
  sent true go (ok (some frame), s) = (encode_outbound_frame cid frame ∷ (go s).0, (go s).1)
  sent false go (ok (some frame), s) = ([], none)
  sent receiver go (ok none, s) = ([], none)
  sent receiver go (err e, s) = ([], none)

  -- The messages of the rounds, and the source while the task is not at its end.
  unfoldable pub run_outbound_encoder : List Round → Source → List OutboundMessage × Option Source
  run_outbound_encoder [] s = ([], some s)
  run_outbound_encoder (stop_changed none ∷ rounds) s = ([], none)
  run_outbound_encoder (stop_changed (some true) ∷ rounds) s = ([], none)
  run_outbound_encoder (stop_changed (some false) ∷ rounds) s = run_outbound_encoder rounds s
  run_outbound_encoder (source_turn receiver ∷ rounds) s =
      sent receiver (run_outbound_encoder rounds) (sources.next_frame s)

-- `started`, the clock, is left to the parameter that renders a frame.
pub record TestToneSource : Type 0 where
  pub format : AudioFormat
  pub sample_idx : ℕ
  pub samples_per_frame : ℕ
  pub max_frames : ℕ
  pub frames_emitted : ℕ

abbrev at_least_one : ℕ → ℕ
at_least_one n = if ltb n 1 then 1 else n

unfoldable pub new_tone : AudioFormat → TestToneSource
new_tone format = record {
  format = format;
  sample_idx = 0;
  samples_per_frame = at_least_one (format.sample_rate / 50);
  max_frames = 2 ^ 64 - 1;
  frames_emitted = 0;
}

unfoldable pub with_limit : ℕ → TestToneSource → TestToneSource
with_limit frames s = record s { max_frames = frames }

unfoldable pub with_frame_size : ℕ → TestToneSource → TestToneSource
with_frame_size n s = record s { samples_per_frame = at_least_one n }

module _ (rendered : TestToneSource → AudioFrame) where
  abbrev emitted : TestToneSource → TestToneSource
  emitted s = record s {
    frames_emitted = (s.frames_emitted + 1) % 2 ^ 64;
    sample_idx = (s.sample_idx + s.samples_per_frame) % 2 ^ 64;
  }

  -- `render_frame` sees the source with the frame counted.
  unfoldable pub next_tone : TestToneSource → Result Error (Option AudioFrame) × TestToneSource
  next_tone s = if leb s.max_frames s.frames_emitted then (ok none, s) else (
    ok (some (rendered (record s { frames_emitted = (s.frames_emitted + 1) % 2 ^ 64 }))),
    emitted s,
  )

  unfoldable pub tone : AudioSource TestToneSource
  unfolding next_tone
  tone = record { next_frame = next_tone }

  tone_ends :
      (cid : ChannelId) (rounds left : ℕ) (s : TestToneSource)
      → left < rounds
      → s.frames_emitted + left ≡ s.max_frames
      → s.max_frames < 2 ^ 64
      → (length (run_outbound_encoder tone cid (replicate rounds (source_turn true)) s).0 ≡ left)
        × ((run_outbound_encoder tone cid (replicate rounds (source_turn true)) s).1 ≡ none)
  unfolding run_outbound_encoder tone next_tone
  tone_ends cid zero left s r h lt = absurd (omega arith)
  tone_ends cid (suc rounds) zero s r h lt =
      let over : leb s.max_frames s.frames_emitted ≡ true = ground (arith, h) in
      simp over (refl, refl)
  tone_ends cid (suc rounds) (suc left) s r h lt =
      let more : leb s.max_frames s.frames_emitted ≡ false = ground (arith, h) in
      let no_wrap : (s.frames_emitted + 1) % 2 ^ 64 ≡ s.frames_emitted + 1 = omega (arith, h, lt) in
      let later =
        tone_ends cid rounds left (emitted s) (omega arith) (omega (arith, h, no_wrap)) lt in
      simp more (ap suc later.0, later.1)

  -- When a test tone with a limit of frames below 2 ^ 64 is sent and its source has more turns
  -- than that, the encoder task comes to its end and has sent exactly that number of messages.
  pub run_outbound_encoder-with_limit :
      (cid : ChannelId) (format : AudioFormat) (frames rounds : ℕ)
      → frames < 2 ^ 64
      → frames < rounds
      → (length
            (run_outbound_encoder tone cid
              (replicate rounds (source_turn true))
              (with_limit frames (new_tone format))).0
          ≡ frames)
        × ((run_outbound_encoder tone cid
              (replicate rounds (source_turn true))
              (with_limit frames (new_tone format))).1
            ≡ none)
  unfolding with_limit new_tone
  run_outbound_encoder-with_limit cid format frames rounds lt more =
      tone_ends cid rounds frames (with_limit frames (new_tone format)) more (omega arith) lt
