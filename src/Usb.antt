-- ===== src/Usb.antt =====
-- The stream over the accessory device, crates/aabox-aapd/src/usb/stream.rs, and the recognition of
-- the start event, crates/aabox-aapd/src/usb/uevent.rs. The blocking system calls run on other
-- threads: what polling the handle of one gives is an input of each poll.
pub mod InFlight
pub mod Uevents
mod Tests
use aabox.Common.{
  ℕ, zero, suc, ◌+◌, not, ◌&&◌, ◌||◌, Bool, true, false, Option, none, some, Result, ok, err, List,
  [], ◌∷◌, ◌++◌, length, take, ltb, ◌==◌, if◌then◌else◌, Bytes, ascii, bytes_eq,
}
use aabox.Effect.{Error, io}

-- The calls that are handed to a blocking thread.
pub data Call : Type 0 where
  read_call : ℕ → Call
  write_call : Bytes → Call

pub data IoState : Type 0 where
  idle : IoState
  reading : ℕ → IoState
  writing : Bytes → IoState

-- What polling the handle gives: not finished, a panic of the thread, an error of the call, or its
-- result, the bytes of a read and their number in the place of a write.
pub data Joined : Type 0 where
  not_finished : Joined
  join_error : ℕ → Joined
  call_error : ℕ → Joined
  finished : Bytes → ℕ → Joined

-- `panicked` is the model's own: `put_slice` of more than the buffer takes.
pub data Poll (A : Type 0) : Type 0 where
  pending : Poll A
  ready : Result Error A → Poll A
  panicked : Poll A

-- The stream, with the calls that were handed over so far, the last one first.
pub record UsbAccessoryStream : Type 0 where
  pub state : IoState
  pub calls : List Call

unfoldable pub new_stream : UsbAccessoryStream
new_stream = record { state = idle; calls = [] }

abbrev pub in_state : IoState → UsbAccessoryStream → UsbAccessoryStream
in_state st s = record s { state = st }

abbrev pub hand_over : Call → IoState → UsbAccessoryStream → UsbAccessoryStream
hand_over call st s = record { state = st; calls = call ∷ s.calls }

-- The arm of a read in flight; `remaining` is the room in the buffer of this poll.
unfoldable pub poll_reading : ℕ → Joined → UsbAccessoryStream → Poll Bytes × UsbAccessoryStream
poll_reading remaining not_finished s = (pending, s)
poll_reading remaining (join_error e) s = (ready (err (io e)), in_state idle s)
poll_reading remaining (call_error e) s = (ready (err (io e)), in_state idle s)
poll_reading remaining (finished bytes n) s = (
  if ltb remaining (length (take n bytes)) then panicked else ready (ok (take n bytes)),
  in_state idle s,
)

unfoldable pub poll_writing : Joined → UsbAccessoryStream → Poll ℕ × UsbAccessoryStream
poll_writing not_finished s = (pending, s)
poll_writing (join_error e) s = (ready (err (io e)), in_state idle s)
poll_writing (call_error e) s = (ready (err (io e)), in_state idle s)
poll_writing (finished bytes n) s = (ready (ok n), in_state idle s)

abbrev pub poll_read_at :
    IoState → ℕ → Joined → UsbAccessoryStream → Poll Bytes × UsbAccessoryStream
poll_read_at idle remaining joined s =
    if remaining == 0
    then (ready (ok []), s)
    else poll_reading remaining joined (hand_over (read_call remaining) (reading remaining) s)
poll_read_at (reading cap) remaining joined s = poll_reading remaining joined s
poll_read_at (writing src) remaining joined s = (pending, s)

-- The bytes of a read that is ready are put into the buffer.
unfoldable pub poll_read : ℕ → Joined → UsbAccessoryStream → Poll Bytes × UsbAccessoryStream
unfolding poll_reading
poll_read remaining joined s = poll_read_at s.state remaining joined s

abbrev pub poll_write_at :
    IoState → Bytes → Joined → UsbAccessoryStream → Poll ℕ × UsbAccessoryStream
poll_write_at idle src joined s = poll_writing joined (hand_over (write_call src) (writing src) s)
poll_write_at (writing in_flight) src joined s = poll_writing joined s
poll_write_at (reading cap) src joined s = (pending, s)

unfoldable pub poll_write : Bytes → Joined → UsbAccessoryStream → Poll ℕ × UsbAccessoryStream
unfolding poll_writing
poll_write src joined s = poll_write_at s.state src joined s

-- `split(|&b| b == 0)`, which gives one record more than there are zeros.
abbrev pub first_of : List Bytes → Bytes
first_of [] = []
first_of (x ∷ xs) = x

abbrev pub rest_of : List Bytes → List Bytes
rest_of [] = []
rest_of (x ∷ xs) = xs

unfoldable pub records : Bytes → List Bytes
records [] = [] ∷ []
records (b ∷ bs) =
    let more = records bs in if b == 0 then [] ∷ more else (b ∷ first_of more) ∷ rest_of more

-- The key and the value around the first `=`.
abbrev pub with_key : ℕ → Option (Bytes × Bytes) → Option (Bytes × Bytes)
with_key b none = none
with_key b (some (key, val)) = some (b ∷ key, val)

unfoldable pub key_and_value : Bytes → Option (Bytes × Bytes)
key_and_value [] = none
key_and_value (b ∷ bs) =
    let more = key_and_value bs in if b == b'=' then some ([], bs) else with_key b more

abbrev pub noted : Option (Bytes × Bytes) → Bool × Bool → Bool × Bool
noted none found = found
noted (some (key, val)) (has_devname, has_start) =
    if bytes_eq key (ascii "DEVNAME") && bytes_eq val (ascii "usb_accessory")
    then (true, has_start)
    else if bytes_eq key (ascii "ACCESSORY") && bytes_eq val (ascii "START")
    then (has_devname, true)
    else (has_devname, has_start)

unfoldable pub record_loop : List Bytes → Bool × Bool → Bool × Bool
unfolding key_and_value
record_loop [] found = found
record_loop (r ∷ rs) found = record_loop rs (noted (key_and_value r) found)

unfoldable pub is_accessory_start : Bytes → Bool
unfolding record_loop records
is_accessory_start packet =
    let found = record_loop (records packet) (false, false) in found.0 && found.1
