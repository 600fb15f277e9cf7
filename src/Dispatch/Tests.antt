-- ===== src/Dispatch/Tests.antt =====
-- Examples of the control loop.
use aabox.Common.{
  ℕ, ◌+◌, ◌≤◌, ◌≡◌, refl, true, false, Option, none, some, List, [], ◌∷◌, ◌++◌, ok, Bytes, arith,
  ltb,
}
use aabox.Effect.{Transport}
use aabox.Framing.{Frame, bulk, from_flags}
use aabox.Encrypted.{Side, would_block}
use aabox.Control.{read_frame, read_type, frame_of}
use aabox.ControlChannel.{Messages}
use aabox.Ids.{ChannelId, channel_of}
use aabox.Video.{new_pipeline, set_wire_channel, start}
use aabox.Channels.{ChannelMessages}
use aabox.Audio.{AudioFormat, AudioFrame, AudioSink, new_manager}
use aabox.Sensor.{SensorMessages, LogFiles, new_handler}
use aabox.Dispatch.{State, focus_notification, route, handle_frame}
use aabox.Dispatch.Run.{inbound, loop_round, Loop}
use aabox.Dispatch.Focus.{focus_reply, route-focus_notification}
use aabox.Dispatch.Bound.{LoopRun, at_start, round, loop_in_flight_bound}

abbrev first_byte : Bytes → Option ℕ
first_byte [] = none
first_byte (b ∷ bs) = some b

-- A channel is its number: 1 has sensors, 2 input, and no other has anything.
abbrev control_messages : Messages
control_messages = record {
  ChannelDescriptor = ℕ;
  AvChannel = ℕ;
  channel_id = λ n. n;
  has_sensor_channel = λ n. ltb n 2;
  av_channel = λ n. none;
  has_input_channel = λ n. ltb n 3;
  has_av_input_channel = λ n. false;
  has_bluetooth_channel = λ n. false;
  has_navigation_channel = λ n. false;
  has_vendor_extension_channel = λ n. false;
  no_video_configs = λ n. true;
  stream_type = λ n. n;
  audio_type = λ n. n;
  stream_type_video = 3;
  status_ok = 0;
  audio_focus_gain = 1;
  decode_service_discovery_response = λ b. some b;
  decode_channel_open_response = first_byte;
  decode_ping_request = first_byte;
  decode_audio_focus_request = first_byte;
  decode_channel_open_request = first_byte;
  encode_ping_response = λ n. n ∷ [];
  encode_audio_focus_response = λ n. n ∷ [];
  encode_navigation_focus_response = λ n. n ∷ [];
  encode_channel_open_response = λ n. n ∷ [];
  encode_shutdown_response = [];
  encode_varint = λ n. n ∷ [];
}

abbrev channel_messages : ChannelMessages
channel_messages = record {
  setup_status_ok = 2;
  status_ok = 0;
  decode_setup_request = λ b. some 0;
  decode_start_indication = λ b. some (7, 0);
  decode_media_ack = λ b. none;
  decode_binding_request = λ b. none;
  decode_input_open_request = λ b. none;
  encode_setup_response = λ status unacked configs. status ∷ unacked ∷ configs;
  encode_input_open_response = λ session value. session ∷ value ∷ [];
  encode_binding_response = λ status. status ∷ [];
  encode_media_ack = λ session value. session ∷ value ∷ [];
}

-- A location is a number, and its line too.
abbrev sensor_messages : SensorMessages
sensor_messages = record {
  GpsLocation = ℕ;
  PositionFix = ℕ;
  status_ok = 0;
  decode_start_request = λ b. none;
  decode_event = λ b. some b;
  encode_start_response = λ s. s ∷ [];
  fix_of = λ l. l;
  line_of = λ l. l ∷ 10 ∷ [];
}

-- A disk with one file.
abbrev disk : LogFiles Bytes
disk = record {
  parent = λ p. none;
  create_dir_all = λ p f. (ok tt, f);
  open_append = λ p f. (ok tt, f);
  write_all = λ p b f. (ok tt, f ++ b);
  flush = λ p f. (ok tt, f);
}

abbrev recorder : AudioSink (List AudioFrame)
recorder = record { push = λ f s. (ok tt, s ++ (f ∷ [])) }

abbrev empty_sink : ChannelId → AudioFormat → List AudioFrame
empty_sink cid format = []

abbrev source_of : AudioFormat → ℕ
source_of format = 0

abbrev daemon :
    State control_messages channel_messages sensor_messages disk recorder empty_sink source_of
daemon = record {
  sensors = (new_handler (97 ∷ []), []);
  audio = new_manager;
  videos = (new_pipeline, []);
}

route-focus_notification_example :
    ((route control_messages channel_messages sensor_messages disk recorder empty_sink source_of 3
        focus_notification [] daemon).0
      ≡ ok (
          focus_reply control_messages channel_messages sensor_messages disk recorder empty_sink
            source_of
            (channel_of 3)
            3))
    × ((route control_messages channel_messages sensor_messages disk recorder empty_sink source_of 3
          focus_notification [] daemon).1.videos
        ≡ (
          (start 1 (set_wire_channel 3 new_pipeline)).0,
          (start 1 (set_wire_channel 3 new_pipeline)).1 ∷ [],
        ))
route-focus_notification_example =
    route-focus_notification control_messages channel_messages sensor_messages disk recorder
      empty_sink source_of 3 [] daemon

-- A car that sends the notification again and again, and a connection that does nothing.
abbrev car : Transport Bytes
car = record {
  read = λ cap s. (ok (3 ∷ 3 ∷ 0 ∷ 2 ∷ 0x80 ∷ 0x08 ∷ []), s);
  read_exact = λ n s. (ok [], s);
  write_all = λ b s. (ok tt, s ++ b);
}

abbrev tls : Side (Unit {0})
tls = record {
  tls_writer_write_all = λ b c. (ok tt, c);
  tls_reader_read = λ cap c. (would_block, c);
  tls_write_records = λ c. (ok [], c);
  tls_read_records = λ b c. (ok 0, c);
  tls_process_new_packets = λ c. (ok tt, c);
}

abbrev notification : Frame
notification = record {
  channel_id = 3;
  frame_type = bulk;
  control = false;
  encrypted = false;
  total_length = none;
  payload = 0x80 ∷ 0x08 ∷ [];
}

abbrev at_first :
    Loop control_messages channel_messages sensor_messages disk recorder empty_sink source_of car
      tls 5
at_first = (([], tt), daemon)

abbrev at_second :
    Loop control_messages channel_messages sensor_messages disk recorder empty_sink source_of car
      tls 5
at_second =
    (handle_frame control_messages channel_messages sensor_messages disk recorder empty_sink
      source_of car tls 5 notification at_first).1

first_round :
    loop_round control_messages channel_messages sensor_messages disk recorder empty_sink source_of
      car tls 5 inbound at_first
    ≡ some at_second
unfolding loop_round read_frame from_flags read_type frame_of
first_round = refl

one_round :
    LoopRun control_messages channel_messages sensor_messages disk recorder empty_sink source_of 1
      car tls 5 0 1 at_second
one_round = round at_first at_second inbound (at_start at_first refl) first_round

loop_in_flight_bound_example : at_second.1.videos.0.in_flight ≤ 1 + 0
loop_in_flight_bound_example =
    loop_in_flight_bound control_messages channel_messages sensor_messages disk recorder empty_sink
      source_of 1 car tls 5 one_round (omega arith)
