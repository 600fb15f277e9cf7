-- ===== src/Sensor/Tests.antt =====
-- Examples of the fixes that arrive.
use aabox.Common.{
  ℕ, ◌≡◌, refl, false, none, some, [], ◌∷◌, ◌++◌, ok, Bytes, arith, map, concat, take,
}
use aabox.Sensor.{
  SensorMessages, LogFiles, SensorHandler, sensor_handle, msg_sensor_event_indication,
}
use aabox.Sensor.Fixes.{IsWritable, open_queue, sensor_handle-event}

-- A location is a number, and its line too.
abbrev messages : SensorMessages
messages = record {
  GpsLocation = ℕ;
  PositionFix = ℕ;
  status_ok = 0;
  decode_start_request = λ b. none;
  decode_event = λ b. some b;
  encode_start_response = λ s. s ∷ [];
  fix_of = λ l. l;
  line_of = λ l. l ∷ 10 ∷ [];
}

-- A disk with one file.
abbrev disk : LogFiles Bytes
disk = record {
  parent = λ p. none;
  create_dir_all = λ p f. (ok tt, f);
  open_append = λ p f. (ok tt, f);
  write_all = λ p b f. (ok tt, f ++ b);
  flush = λ p f. (ok tt, f);
}

abbrev on_disk : Bytes → Bytes → Bytes
on_disk f p = f

disk-IsWritable : IsWritable disk on_disk
disk-IsWritable = record {
  created = λ d p f. refl;
  opened = λ p f. refl;
  opened_kept = λ p f. refl;
  written = λ p b f. refl;
  appended = λ p b f. refl;
  flushed_kept = λ p f. refl;
}

-- A queue with room for two fixes that holds one.
abbrev handler : SensorHandler ℕ
handler = record { gps_log_path = 97 ∷ []; file = false; gps_sink = some (open_queue 2 (5 ∷ [])) }

sensor_handle-event_example :
    ((sensor_handle messages disk msg_sensor_event_indication (6 ∷ 7 ∷ []) (handler, [])).0 ≡ ok [])
    × (on_disk
          (sensor_handle messages disk msg_sensor_event_indication (6 ∷ 7 ∷ []) (handler, [])).1.1
          (97 ∷ [])
        ≡ [] ++ concat (map messages.line_of (6 ∷ 7 ∷ [])))
    × ((sensor_handle messages disk msg_sensor_event_indication
          (6 ∷ 7 ∷ [])
          (handler, [])).1.0.gps_sink
        ≡ some (open_queue 2 (take 2 ((5 ∷ []) ++ map messages.fix_of (6 ∷ 7 ∷ [])))))
sensor_handle-event_example =
    sensor_handle-event messages disk on_disk disk-IsWritable (6 ∷ 7 ∷ []) (6 ∷ 7 ∷ []) handler [] 2
      (5 ∷ []) refl refl (omega arith)
