-- ===== src/Tunnel/Tests.antt =====
-- Examples of a flight.
use aabox.Common.{refl, true, false, List, [], ◌∷◌, ◌++◌, ok, Bool, Bytes, arith}
use aabox.Effect.{Transport}
use aabox.Encrypted.Carried.{IsAppending}
use aabox.Tunnel.{Handshaking, send_flight}
use aabox.Tunnel.Flight.{IsFlushing, flight_frames, Flown, send_flight-Flown}

abbrev stream : Transport Bytes
stream = record {
  read = λ cap s. (ok [], s);
  read_exact = λ n s. (ok [], s);
  write_all = λ b s. (ok tt, s ++ b);
}

abbrev stream-IsAppending : IsAppending stream
stream-IsAppending = record { written = λ s. s; appends = λ s b. (s ++ b, refl, refl) }

abbrev some_due : List Bytes → Bool
some_due [] = false
some_due (p ∷ ps) = true

abbrev first_due : List Bytes → Bytes
first_due [] = []
first_due (p ∷ ps) = p

abbrev rest_due : List Bytes → List Bytes
rest_due [] = []
rest_due (p ∷ ps) = ps

-- The state is what is to be written.
abbrev conn : Handshaking (List Bytes)
conn = record {
  is_handshaking = λ c. some_due c;
  wants_write = some_due;
  write_tls = λ c. (ok (first_due c), rest_due c);
  read_tls = λ b c. (ok 0, c);
  process_new_packets = λ c. (ok tt, c);
}

abbrev conn-IsFlushing : IsFlushing conn
conn-IsFlushing = record {
  due = λ c. c;
  wants = λ c p ps e. rw e refl;
  wants_nothing = λ c e. rw e refl;
  writes = λ c p ps e. rw e (refl, refl);
}

abbrev flight : List Bytes
flight = (0x16 ∷ 3 ∷ 1 ∷ []) ∷ [] ∷ (0x16 ∷ 3 ∷ 3 ∷ []) ∷ []

send_flight-Flown_example :
    Flown stream conn stream-IsAppending conn-IsFlushing []
      (flight_frames flight)
      (send_flight stream conn 4 ([], flight))
send_flight-Flown_example =
    send_flight-Flown stream conn stream-IsAppending conn-IsFlushing flight 4 [] flight refl
      (omega arith)
