-- ===== src/Control/Version.antt =====
-- The version handshake and the frames of the TLS handshake.
use aabox.Common.{
  ℕ, ◌+◌, ◌^◌, ◌≤◌, ◌<◌, ◌≡◌, ◌↔◌, refl, ok, err, [], ◌++◌, append-nil, length, Bytes, be16, arith,
}
use aabox.Effect.{Error, Transport, ◌>>=◌, lift}
use aabox.Framing.{Frame, encode, bulk_control}
use aabox.Framing.RoundTrip.{IsWire, from_be16-be16}
use aabox.Ids.{channel_code, control, message_code, version_request}
use aabox.Control.{
  u16_at, version_body, protocol_major, protocol_minor, version_request_frame,
  version_response_frame, check_request, read_frame, write_frame, version_handshake_initiator,
  version_handshake_responder, ssl_handshake_frame, ssl_handshake_body,
}
use aabox.Control.Read.{read_frame-encode}

-- A frame is accepted as a VersionRequest with a version exactly when it is on the control
-- channel, has six bytes of payload at least, starts with the id of the VersionRequest, and holds
-- the two numbers behind it.
pub check_request_iff :
    (f : Frame) (major minor : ℕ)
    → (check_request f ≡ ok (major, minor)) ↔ (
        (f.channel_id ≡ channel_code control)
        × (6 ≤ length f.payload)
        × (u16_at f.payload 0 ≡ message_code version_request)
        × (major ≡ u16_at f.payload 2)
        × (minor ≡ u16_at f.payload 4))
unfolding check_request
check_request_iff f major minor = (λ h. ground arith, λ h. ground arith)

bulk_control-IsWire :
    (c m : ℕ) (body : Bytes) → c < 256 → length body + 2 < 2 ^ 16 → IsWire (bulk_control c m body)
unfolding bulk_control
bulk_control-IsWire c m body hc hb = record {
  channel_fits = hc;
  payload_fits = omega arith;
  total_fits = tt;
}

version_request_frame-IsWire : IsWire version_request_frame
unfolding version_request_frame
version_request_frame-IsWire = bulk_control-IsWire 0 1 version_body (omega arith) (omega arith)

version_response_frame-IsWire : IsWire version_response_frame
unfolding version_response_frame
version_response_frame-IsWire = bulk_control-IsWire 0 2 version_body (omega arith) (omega arith)

-- A VersionRequest of a peer, with whatever follows the two numbers.
abbrev pub request : ℕ → ℕ → Bytes → Frame
request major minor extra = bulk_control 0 1 (be16 major ++ (be16 minor ++ extra))

check_request-request :
    (major minor : ℕ) (extra : Bytes)
    → major < 2 ^ 16
    → minor < 2 ^ 16
    → check_request (request major minor extra) ≡ ok (major, minor)
unfolding check_request bulk_control
check_request-request major minor extra h k =
    ground (arith, from_be16-be16 major h, from_be16-be16 minor k)

module _ {S : Type 0} (stream : Transport S) where
  open stream use {read, write_all}

  -- On a VersionRequest of any version that arrives whole in the first read, with whatever follows
  -- the two numbers, the responder writes its VersionResponse and returns the version of the peer.
  pub responder_answers :
      (major minor : ℕ) (extra : Bytes) (s s' s'' : S)
      → major < 2 ^ 16
      → minor < 2 ^ 16
      → length extra + 6 < 2 ^ 16
      → read 4096 s ≡ (ok (encode (request major minor extra)), s')
      → write_all (encode version_response_frame) s' ≡ (ok tt, s'')
      → version_handshake_responder stream s ≡ (ok (major, minor), s'')
  unfolding version_handshake_responder write_frame
  responder_answers major minor extra s s' s'' h k m r w =
      rw (received, check_request-request major minor extra h k) (rw w)
    where
      received : read_frame stream s ≡ (ok (request major minor extra), s')
      received =
          read_frame-encode stream (request major minor extra) [] s s'
            (bulk_control-IsWire 0 1 _ (omega arith) (omega arith)) (rw append-nil r)

  -- On a frame that arrives whole in the first read and is refused as a VersionRequest, the
  -- responder fails with that error and writes nothing.
  pub responder_refuses :
      (f : Frame) (e : Error) (s s' : S)
      → IsWire f
      → check_request f ≡ err e
      → read 4096 s ≡ (ok (encode f), s')
      → version_handshake_responder stream s ≡ (err e, s')
  unfolding version_handshake_responder
  responder_refuses f e s s' w c r = rw (read_frame-encode stream f [] s s' w (rw append-nil r), c)

  initiator_accepts :
      (s s' s'' : S)
      → write_all (encode version_request_frame) s ≡ (ok tt, s')
      → read 4096 s' ≡ (ok (encode version_response_frame), s'')
      → version_handshake_initiator stream s ≡ (ok (protocol_major, protocol_minor, 0), s'')
  unfolding version_handshake_initiator write_frame
  initiator_accepts s s' s'' w r =
      rw
        (
          w,
          read_frame-encode stream version_response_frame [] s' s'' version_response_frame-IsWire
              (rw append-nil r),
        )
        (unfold version_response_frame in refl)

-- When what either end writes is what the other end reads, whole and in one read, the version
-- handshake completes at both ends, and each returns the version of the other.
pub version_handshake_completes :
    {S T : Type 0} (near : Transport S) (far : Transport T) (s s' s'' : S) (t t' t'' : T)
    → near.write_all (encode version_request_frame) s ≡ (ok tt, s')
    → far.read 4096 t ≡ (ok (encode version_request_frame), t')
    → far.write_all (encode version_response_frame) t' ≡ (ok tt, t'')
    → near.read 4096 s' ≡ (ok (encode version_response_frame), s'')
    → (version_handshake_initiator near s ≡ (ok (protocol_major, protocol_minor, 0), s''))
      × (version_handshake_responder far t ≡ (ok (protocol_major, protocol_minor), t''))
version_handshake_completes near far s s' s'' t t' t'' w r w' r' = (
  initiator_accepts near s s' s'' w r',
  responder_answers far 1 7 [] t t' t'' (omega arith) (omega arith) (omega arith)
      (unfold version_request_frame in r) w',
)

-- A piece of the TLS handshake of less than 2 ^ 16 - 2 bytes that is framed by
-- `ssl_handshake_frame` and arrives whole in the first read is what `ssl_handshake_body` takes out
-- of the frame that is read.
pub ssl_handshake_body-read_frame :
    {S : Type 0} (stream : Transport S) (body rest : Bytes) (s s' : S)
    → length body + 2 < 2 ^ 16
    → stream.read 4096 s ≡ (ok (encode (ssl_handshake_frame body) ++ rest), s')
    → (read_frame stream >>= λ f. lift (ssl_handshake_body f)) s ≡ (ok body, s')
ssl_handshake_body-read_frame stream body rest s s' h r =
    rw
      (read_frame-encode stream (ssl_handshake_frame body) rest s s'
        (unfold ssl_handshake_frame in bulk_control-IsWire 0 3 body (omega arith) h) r)
      (unfold ssl_handshake_frame ssl_handshake_body in ground arith)
