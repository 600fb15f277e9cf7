-- ===== src/Audio/Tests.antt =====
-- Examples of the audio channels.
use aabox.Common.{
  ℕ, ◌<◌, true, false, none, some, ok, List, [], ◌∷◌, ◌++◌, replicate, length, Bytes, ◌≡◌, ◌↔◌,
  refl, arith,
}
use aabox.Ids.{channel_code, ChannelId, media_audio, speech_audio}
use aabox.Channels.{ChannelMessages}
use aabox.Ids.{channel_of}
use aabox.Audio.{ensure_state, new_manager, direction_of}
use aabox.Audio.Manager.{handle, on_message, on_start_indication, start_output}
use aabox.Audio.{AudioFormat, AudioFrame, AudioSink, default_format}
use aabox.Audio.Gate.{Message, gate_after, manager_after, sink_of, started_of, fed}
use aabox.Audio.Delivered.{sink_of-manager_after}
use aabox.Audio.Encoders.{elem, stop_of}
use aabox.Audio.Tasks.{spawned_encoder_runs_iff}
use aabox.Audio.Log.{Files, IsWritable, with_path, push_frames, read_log, read_log-push_frames}
use aabox.Audio.Encoder.{
  source_turn, run_outbound_encoder, TestToneSource, new_tone, with_limit, tone,
  run_outbound_encoder-with_limit,
}

abbrev messages : ChannelMessages
messages = record {
  setup_status_ok = 2;
  status_ok = 0;
  decode_setup_request = λ b. some 0;
  decode_start_indication = λ b. some (7, 0);
  decode_media_ack = λ b. none;
  decode_binding_request = λ b. none;
  decode_input_open_request = λ b. some true;
  encode_setup_response = λ status unacked configs. status ∷ unacked ∷ configs;
  encode_input_open_response = λ session value. session ∷ value ∷ [];
  encode_binding_response = λ status. status ∷ [];
  encode_media_ack = λ session value. session ∷ value ∷ [];
}

abbrev recorder : AudioSink (List AudioFrame)
recorder = record { push = λ f s. (ok tt, s ++ (f ∷ [])) }

abbrev empty_sink : ChannelId → AudioFormat → List AudioFrame
empty_sink cid format = []

abbrev source_of : AudioFormat → ℕ
source_of format = 0

-- Opened, a frame, stopped, and a frame that is dropped; the last message first.
abbrev speech : List Message
speech = (5, 1, 4 ∷ []) ∷ (5, 0x8002, []) ∷ (5, 1, 3 ∷ []) ∷ (5, 0x8005, []) ∷ []

abbrev speech_format : AudioFormat
speech_format = record { sample_rate = 16000; channels = 2; bit_depth = 16 }

speech_has_format : default_format speech_audio ≡ some speech_format
unfolding default_format
speech_has_format = refl

sink_of-manager_after_example :
    (sink_of ((manager_after messages {Source = ℕ} recorder empty_sink source_of speech).channels 5)
      ≡ fed recorder (gate_after messages 5 speech).frames [])
    × (started_of
          ((manager_after messages {Source = ℕ} recorder empty_sink source_of speech).channels 5)
        ≡ (gate_after messages 5 speech).started)
sink_of-manager_after_example =
    sink_of-manager_after messages recorder empty_sink source_of speech_audio speech_format
      speech_has_format speech

-- Started twice.
abbrev media : List Message
media = (4, 0x8001, []) ∷ (4, 0x8001, []) ∷ []

two_spawned :
    1 < length (manager_after messages {Source = ℕ} recorder empty_sink source_of media).spawned
unfolding manager_after handle ensure_state on_message on_start_indication start_output new_manager
    channel_of default_format direction_of
two_spawned = omega arith

spawned_encoder_runs_iff_example :
    (elem 1 (manager_after messages {Source = ℕ} recorder empty_sink source_of media).signalled
      ≡ false)
    ↔ (stop_of (
          (manager_after messages {Source = ℕ} recorder empty_sink source_of media).channels
            (channel_code media_audio))
        ≡ some 1)
spawned_encoder_runs_iff_example =
    spawned_encoder_runs_iff messages recorder empty_sink source_of media 1 two_spawned

-- A disk with one file, whatever its path.
abbrev disk : Files Bytes
disk = record {
  parent = λ p. none;
  create_dir_all = λ p f. (ok tt, f);
  open_truncated = λ p f. (ok tt, []);
  write_all = λ p b f. (ok tt, f ++ b);
  flush = λ p f. (ok tt, f);
}

abbrev on_disk : Bytes → Bytes → Bytes
on_disk f p = f

disk-IsWritable : IsWritable disk on_disk
disk-IsWritable = record {
  created = λ p f. refl;
  opened = λ p f. refl;
  opened_empty = λ p f. refl;
  written = λ p b f. refl;
  appended = λ p b f. refl;
}

abbrev tone_frame : AudioFrame
tone_frame = record { timestamp_us = 20000; pcm = 1 ∷ 2 ∷ [] }

read_log-push_frames_example :
    ((push_frames disk (tone_frame ∷ tone_frame ∷ []) (with_path (97 ∷ []), [])).0 ≡ ok tt)
    × (read_log 3 (
          on_disk
            (push_frames disk (tone_frame ∷ tone_frame ∷ []) (with_path (97 ∷ []), [])).1.1
            (97 ∷ []))
        ≡ some (tone_frame ∷ tone_frame ∷ []))
read_log-push_frames_example =
    read_log-push_frames disk on_disk disk-IsWritable (97 ∷ []) [] tone_frame (tone_frame ∷ [])
      ((omega arith, omega arith), ((omega arith, omega arith), tt))

abbrev silence : TestToneSource → AudioFrame
silence s = record { timestamp_us = 0; pcm = [] }

run_outbound_encoder-with_limit_example :
    (length
        (run_outbound_encoder
          (tone silence)
          media_audio
          (replicate 5 (source_turn true))
          (with_limit 3 (new_tone speech_format))).0
      ≡ 3)
    × ((run_outbound_encoder
          (tone silence)
          media_audio
          (replicate 5 (source_turn true))
          (with_limit 3 (new_tone speech_format))).1
        ≡ none)
run_outbound_encoder-with_limit_example =
    run_outbound_encoder-with_limit silence media_audio speech_format 3 5 (omega arith)
      (omega arith)
