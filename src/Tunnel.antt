-- ===== src/Tunnel.antt =====
-- The TLS handshake inside frames, crates/aabox-aapd/src/tls_tunnel.rs. The connection of the crate
-- `rustls` is a parameter; each loop has its rounds as fuel.
pub mod Flight
mod Tests
use aabox.Common.{
  ℕ, zero, suc, ◌+◌, not, ◌&&◌, Bool, Result, ok, err, ◌==◌, if◌then◌else◌, length, drop, Bytes,
}
use aabox.Effect.{Error, no_fuel, Eff, ◌>>=◌, ◌>>◌, return, fail, lift, Transport}
use aabox.Control.{read_frame, write_frame, ssl_handshake_frame, ssl_handshake_body}

-- `write_tls` returns what one call wrote, `read_tls` the number of bytes that it took.
pub record Handshaking (C : Type 0) : Type 0 where
  pub is_handshaking : C → Bool
  pub wants_write : C → Bool
  pub write_tls : Eff C Bytes
  pub read_tls : Bytes → Eff C ℕ
  pub process_new_packets : Eff C (Unit {0})

module _ {S C : Type 0} (stream : Transport S) (conn : Handshaking C) where
  open conn use {is_handshaking, wants_write, write_tls, read_tls, process_new_packets}

  abbrev pub on_stream : {A : Type 0} → Eff S A → Eff (S × C) A
  on_stream m (s, c) = ((m s).0, ((m s).1, c))

  abbrev pub on_conn : {A : Type 0} → Eff C A → Eff (S × C) A
  on_conn m (s, c) = ((m c).0, (s, (m c).1))

  -- A frame unless nothing was written.
  unfoldable pub send_written : Bytes → Eff (S × C) (Unit {0})
  send_written buf =
      if length buf == 0
      then return tt
      else on_stream (write_frame stream (ssl_handshake_frame buf))

  -- `while conn.wants_write()`
  unfoldable pub send_flight : ℕ → Eff (S × C) (Unit {0})
  unfolding send_written
  send_flight zero w = fail no_fuel w
  send_flight (suc fuel) (s, c) =
      let more = send_flight fuel in
      if wants_write c
      then (on_conn write_tls >>= λ buf. send_written buf >> more) (s, c)
      else (ok tt, (s, c))

  -- The body is given to the connection until the cursor is at its end.
  unfoldable pub take_body : ℕ → Bytes → Eff (S × C) (Unit {0})
  take_body zero body = fail no_fuel
  take_body (suc fuel) body =
      if length body == 0
      then return tt
      else (on_conn (read_tls body) >>= λ n. take_body fuel (drop n body))

  unfoldable pub receive_flight : ℕ → Eff (S × C) (Unit {0})
  unfolding take_body
  receive_flight fuel = on_stream (read_frame stream) >>= λ frame.
      lift (ssl_handshake_body frame) >>= λ body. take_body fuel body >> on_conn process_new_packets

  unfoldable pub client_handshake : ℕ → ℕ → Eff (S × C) (Unit {0})
  unfolding send_flight receive_flight
  client_handshake fuel zero w = fail no_fuel w
  client_handshake fuel (suc rounds) (s, c) =
      let more = client_handshake fuel rounds in
      if is_handshaking c
      then (send_flight fuel
            >> ((λ w. if is_handshaking w.1 then receive_flight fuel w else (ok tt, w)) >> more))
          (s, c)
      else (ok tt, (s, c))

  unfoldable pub server_handshake : ℕ → ℕ → Eff (S × C) (Unit {0})
  unfolding send_flight receive_flight
  server_handshake fuel zero w = fail no_fuel w
  server_handshake fuel (suc rounds) (s, c) =
      let more = server_handshake fuel rounds in
      if is_handshaking c
      then ((λ w.
              if is_handshaking w.1 && not (wants_write w.1)
              then receive_flight fuel w
              else (ok tt, w))
            >> (send_flight fuel >> more))
          (s, c)
      else (ok tt, (s, c))
