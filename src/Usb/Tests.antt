-- ===== src/Usb/Tests.antt =====
-- Examples of the accessory device and its events.
use aabox.Common.{List, [], ◌∷◌, replicate, Bytes, ascii, ◌&&◌, ◌≡◌, refl}
use aabox.Usb.{Joined, not_finished, pending, new_stream, poll_read, is_accessory_start}
use aabox.Usb.InFlight.{write_polls, write_polls-poll_read}
use aabox.Usb.Uevents.{
  joined, NoZero, contains, devname_record, start_record, is_accessory_start-joined,
}

abbrev messages : List (Bytes × Joined)
messages = (1 ∷ 2 ∷ [], not_finished) ∷ (3 ∷ [], not_finished) ∷ []

write_polls-poll_read_example :
    write_polls messages (poll_read 4096 not_finished new_stream).1
    ≡ (replicate 2 pending, (poll_read 4096 not_finished new_stream).1)
unfolding new_stream
write_polls-poll_read_example = write_polls-poll_read new_stream 4095 messages refl

abbrev start_event : List Bytes
start_event = devname_record ∷ start_record ∷ []

header_nonzero : NoZero (ascii "change@")
header_nonzero = (refl, (refl, (refl, (refl, (refl, (refl, (refl, tt)))))))

devname_nonzero : NoZero devname_record
devname_nonzero = (
  refl,
  (
    refl,
    (
      refl,
      (
        refl,
        (
          refl,
          (
            refl,
            (
              refl,
              (
                refl,
                (
                  refl,
                  (
                    refl,
                    (
                      refl,
                      (
                        refl,
                        (refl, (refl, (refl, (refl, (refl, (refl, (refl, (refl, (refl, tt))))))))),
                      ),
                    ),
                  ),
                ),
              ),
            ),
          ),
        ),
      ),
    ),
  ),
)

start_nonzero : NoZero start_record
start_nonzero = (
  refl,
  (
    refl,
    (
      refl,
      (
        refl,
        (refl, (refl, (refl, (refl, (refl, (refl, (refl, (refl, (refl, (refl, (refl, tt))))))))))),
      ),
    ),
  ),
)

is_accessory_start-joined_example : is_accessory_start (joined (ascii "change@" ∷ start_event)) ≡ (
    contains devname_record (ascii "change@" ∷ start_event)
    && contains start_record (ascii "change@" ∷ start_event))
is_accessory_start-joined_example =
    is_accessory_start-joined (ascii "change@") start_event header_nonzero
      (devname_nonzero, (start_nonzero, tt))
