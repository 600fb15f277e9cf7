-- ===== src/Tunnel/Flight.antt =====
-- What an end of the handshake puts on the stream.
use aabox.Common.{
  ℕ, zero, suc, ◌<◌, true, false, Bool-cases, inl, inr, Result, ok, List, [], ◌∷◌, ◌++◌, append-nil,
  append_assoc, length, ◌==◌, Bytes, ◌≡◌, refl, sym, ap, ◌∙◌, if◌then◌else◌, arith,
}
use aabox.Effect.{Error, Transport}
use aabox.Framing.{Frame, encode}
use aabox.Control.{write_frame, ssl_handshake_frame}
use aabox.Encrypted.Carried.{encode_all, IsAppending}
use aabox.Tunnel.{Handshaking, send_written, send_flight}

-- What the connection has to write: the results of the calls of `write_tls` that are due.
pub record IsFlushing {C : Type 0} (conn : Handshaking C) : Type 0 where
  pub due : C → List Bytes
  pub wants : (c : C) (p : Bytes) (ps : List Bytes) → due c ≡ p ∷ ps → conn.wants_write c ≡ true
  pub wants_nothing : (c : C) → due c ≡ [] → conn.wants_write c ≡ false
  pub writes :
      (c : C) (p : Bytes) (ps : List Bytes)
      → due c ≡ p ∷ ps
      → ((conn.write_tls c).0 ≡ ok p) × (due (conn.write_tls c).1 ≡ ps)

-- A frame for each piece that is not empty.
abbrev pub flight_frames : List Bytes → List Frame
flight_frames [] = []
flight_frames (p ∷ ps) =
    if length p == 0 then flight_frames ps else ssl_handshake_frame p ∷ flight_frames ps

module _ {S C : Type 0} (stream : Transport S) (conn : Handshaking C)
    (appending : IsAppending stream) (flushing : IsFlushing conn) where
  open appending use {written, appends}
  open flushing use {due, wants, wants_nothing, writes}

  -- The flight is on the stream, and nothing is due.
  pub record Flown (before : Bytes) (frames : List Frame) (r : Result Error (Unit {0}) × (S × C))
      : Type 0 where
    pub returned : r.0 ≡ ok tt
    pub on_wire : written r.1.0 ≡ before ++ encode_all frames
    pub nothing_due : due r.1.1 ≡ []

  -- On a stream that takes every write and a connection that writes what is due, and with more
  -- fuel than there are pieces, a flight of the TLS handshake is sent: the stream gets one SSL
  -- handshake frame for each piece that is not empty, in order, and nothing is due.
  pub send_flight-Flown :
      (ps : List Bytes) (fuel : ℕ) (s : S) (c : C)
      → due c ≡ ps
      → length ps < fuel
      → Flown (written s) (flight_frames ps) (send_flight stream conn fuel (s, c))
  unfolding send_flight send_written write_frame encode_all
  send_flight-Flown ps zero s c e lt = absurd (omega arith)
  send_flight-Flown [] (suc fuel) s c e lt =
      rw (wants_nothing c e)
        (record { returned = refl; on_wire = sym (append-nil (written s)); nothing_due = e })
  send_flight-Flown (p ∷ ps) (suc fuel) s c e lt =
      let c' = (conn.write_tls c).1 in
      let (wrote, left) = writes c p ps e in
      elim (Bool-cases (length p == 0)) [
        | inl h ↦ rw (wants c p ps e, wrote, h) (send_flight-Flown ps fuel s c' left (omega arith))
        | inr h ↦
            let (s', sent, now) = appends s (encode (ssl_handshake_frame p)) in
            let later = send_flight-Flown ps fuel s' c' left (omega arith) in
            rw (wants c p ps e, wrote, h, sent)
              (record {
                returned = later.returned;
                on_wire =
                    later.on_wire
                    ∙ ap (λ b. b ++ encode_all (flight_frames ps)) now
                    ∙ append_assoc (written s) (encode (ssl_handshake_frame p))
                        (encode_all (flight_frames ps));
                nothing_due = later.nothing_due;
              })
      ]
