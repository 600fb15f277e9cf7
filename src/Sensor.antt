-- ===== src/Sensor.antt =====
-- The sensor channel, crates/aabox-aapd/src/channels/sensor.rs. The generated messages, the floating
-- point of a fix with the text of its line, and the file system are parameters.
pub mod Fixes
mod Tests
use aabox.Common.{
  ℕ, Bool, true, false, Option, none, some, Result, ok, err, List, [], ◌∷◌, ◌++◌, length, ltb, ◌==◌,
  if◌then◌else◌, Bytes,
}
use aabox.Effect.{Error, decode, Eff}
use aabox.Encrypted.{OutboundMessage}
use aabox.ControlChannel.{message}
use aabox.Ids.{channel_code, sensor}

abbrev pub msg_sensor_start_request : ℕ
msg_sensor_start_request = 0x8001

abbrev pub msg_sensor_start_response : ℕ
msg_sensor_start_response = 0x8002

abbrev pub msg_sensor_event_indication : ℕ
msg_sensor_event_indication = 0x8003

-- The generated messages, `PositionFix` of a location, and the line of the log.
pub record SensorMessages : Type 1 where
  pub GpsLocation : Type 0
  pub PositionFix : Type 0
  pub status_ok : ℕ
  pub decode_start_request : Bytes → Option (ℕ × ℕ)
  pub decode_event : Bytes → Option (List GpsLocation)
  pub encode_start_response : ℕ → Bytes
  pub fix_of : GpsLocation → PositionFix
  pub line_of : GpsLocation → Bytes

-- `std::fs` and `Path::parent`; a file that is open is known by its path.
pub record LogFiles (F : Type 0) : Type 0 where
  pub parent : Bytes → Option Bytes
  pub create_dir_all : Bytes → Eff F (Unit {0})
  pub open_append : Bytes → Eff F (Unit {0})
  pub write_all : Bytes → Bytes → Eff F (Unit {0})
  pub flush : Bytes → Eff F (Unit {0})

-- The bounded queue to the navigation runner.
pub record GpsSink (Fix : Type 0) : Type 0 where
  pub capacity : ℕ
  pub closed : Bool
  pub queue : List Fix

pub record SensorHandler (Fix : Type 0) : Type 0 where
  pub gps_log_path : Bytes
  pub file : Bool
  pub gps_sink : Option (GpsSink Fix)

unfoldable pub new_handler : {Fix : Type 0} → Bytes → SensorHandler Fix
new_handler path = record { gps_log_path = path; file = false; gps_sink = none }

unfoldable pub with_gps_log_path : {Fix : Type 0} → Bytes → SensorHandler Fix → SensorHandler Fix
with_gps_log_path path h = record h { gps_log_path = path }

unfoldable pub with_gps_sink : {Fix : Type 0} → GpsSink Fix → SensorHandler Fix → SensorHandler Fix
with_gps_sink sink h = record h { gps_sink = some sink }

-- `try_send`; a fix is dropped where the queue is full or closed.
unfoldable pub try_send : {Fix : Type 0} → Fix → GpsSink Fix → GpsSink Fix
try_send fix s =
    if s.closed
    then s
    else if ltb (length s.queue) s.capacity
    then record s { queue = s.queue ++ (fix ∷ []) }
    else s

unfoldable pub forward : {Fix : Type 0} → Fix → Option (GpsSink Fix) → Option (GpsSink Fix)
unfolding try_send
forward fix none = none
forward fix (some sink) = some (try_send fix sink)

module _ (m : SensorMessages) {F : Type 0} (fs : LogFiles F) where
  open m use {
    GpsLocation, PositionFix, status_ok, decode_start_request, decode_event, encode_start_response,
    fix_of, line_of,
  }
  open fs use {parent, create_dir_all, open_append, write_all, flush}

  -- What happens to the parent directory is not looked at.
  unfoldable pub make_parent : Option Bytes → F → F
  make_parent none f = f
  make_parent (some dir) f = (create_dir_all dir f).1

  abbrev flushed : Bytes → Result Error (Unit {0}) × F → F
  flushed path (ok _, f) = (flush path f).1
  flushed path (err e, f) = f

  -- The line, where the log is open.
  abbrev write_line : Bytes → Bytes → Result Error (Unit {0}) × F → Bool × F
  write_line path line (err e, f) = (false, f)
  write_line path line (ok _, f) = (true, flushed path (write_all path line f))

  -- Whether the log is open after the line, and the files.
  unfoldable pub append_line : Bytes → Bytes → Bool → F → Bool × F
  unfolding make_parent
  append_line path line true f = write_line path line (ok tt, f)
  append_line path line false f =
      write_line path line (open_append path (make_parent (parent path) f))

  unfoldable pub append_gps :
      GpsLocation → SensorHandler PositionFix × F → SensorHandler PositionFix × F
  unfolding append_line
  append_gps loc (h, f) =
      let written = append_line h.gps_log_path (line_of loc) h.file f in
      (record h { gps_sink = forward (fix_of loc) h.gps_sink; file = written.0 }, written.1)

  unfoldable pub append_all :
      List GpsLocation → SensorHandler PositionFix × F → SensorHandler PositionFix × F
  unfolding append_gps
  append_all [] w = w
  append_all (loc ∷ locs) w = append_all locs (append_gps loc w)

  unfoldable pub on_start_request : Option (ℕ × ℕ) → Result Error (List OutboundMessage)
  on_start_request none = err (decode 0)
  on_start_request (some (sensor_type, refresh_interval)) = ok (
      message (channel_code sensor) msg_sensor_start_response (encode_start_response status_ok)
      ∷ [])

  unfoldable pub on_event :
      Option (List GpsLocation) → Eff (SensorHandler PositionFix × F) (List OutboundMessage)
  on_event none w = (err (decode 0), w)
  on_event (some locs) w = (ok [], append_all locs w)

  -- `SensorHandler::handle`; the other sensors are only logged.
  unfoldable pub sensor_handle :
      ℕ → Bytes → Eff (SensorHandler PositionFix × F) (List OutboundMessage)
  unfolding on_start_request on_event append_all
  sensor_handle msg_id payload w =
      if msg_id == msg_sensor_start_request
      then (on_start_request (decode_start_request payload), w)
      else if msg_id == msg_sensor_event_indication
      then on_event (decode_event payload) w
      else (ok [], w)
