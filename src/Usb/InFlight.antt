-- ===== src/Usb/InFlight.antt =====
-- What a read in flight means for a write.
use aabox.Common.{ℕ, arith, false, suc, List, [], ◌∷◌, length, replicate, Bytes, ◌≡◌, refl, ◌==◌}
use aabox.Usb.{
  idle, reading, Joined, not_finished, Poll, pending, UsbAccessoryStream, poll_read, poll_write,
  poll_reading,
}

-- The results of writes that are polled one after the other, and the stream after them.
unfoldable pub write_polls :
    List (Bytes × Joined) → UsbAccessoryStream → List (Poll ℕ) × UsbAccessoryStream
write_polls [] s = ([], s)
write_polls ((src, joined) ∷ polls) s =
    let (result, s') = poll_write src joined s in
    let (results, s'') = write_polls polls s' in (result ∷ results, s'')

while_reading :
    (cap : ℕ) (polls : List (Bytes × Joined)) (s : UsbAccessoryStream)
    → s.state ≡ reading cap
    → write_polls polls s ≡ (replicate (length polls) pending, s)
unfolding write_polls poll_write
while_reading cap [] s h = refl
while_reading cap ((src, joined) ∷ polls) s h = simp (h, while_reading cap polls s h) refl

-- When a read with room for a byte is polled on an idle stream and does not finish, then every
-- write that is polled afterwards, with no poll of a read between, is pending, and the stream
-- stays as it is.
pub write_polls-poll_read :
    (s : UsbAccessoryStream) (room : ℕ) (polls : List (Bytes × Joined))
    → s.state ≡ idle
    → write_polls polls (poll_read (suc room) not_finished s).1
      ≡ (replicate (length polls) pending, (poll_read (suc room) not_finished s).1)
unfolding poll_read poll_reading
write_polls-poll_read s room polls h =
    let in_flight : (poll_read (suc room) not_finished s).1.state ≡ reading (suc room) =
      let some_room : (suc room == 0) ≡ false = ground arith in simp (h, some_room) refl in
    while_reading (suc room) polls (poll_read (suc room) not_finished s).1 in_flight
