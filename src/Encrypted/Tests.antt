-- ===== src/Encrypted/Tests.antt =====
-- Examples over a connection that marks each payload as one record, and a stream that keeps what is
-- written.
use aabox.Common.{
  inl, suc, ◌+◌, ◌≤◌, true, err, ltb, if◌then◌else◌, take, drop, sym, ap, concat, ℕ, ◌<◌, ◌≡◌, ◌≢◌,
  refl, List, ok, [], ◌∷◌, ◌++◌, length, replicate, Bytes, be16, arith,
}
use aabox.Effect.{Eff, no_fuel, Transport}
use aabox.Encrypted.{
  Side, Reading, plaintext, would_block, decrypt_payload, OutboundMessage, send_encrypted,
}
use aabox.Encrypted.Receive.{IsReadable, decrypt_payload-Opens}
use aabox.Encrypted.Drain.{IsLawful}
use aabox.Encrypted.Carried.{IsAppending, Message}
use aabox.Encrypted.Send.{Sent, send_encrypted-Message}

abbrev write_record : List Bytes → Bytes × List Bytes
write_record [] = ([], [])
write_record (b ∷ more) = (0x17 ∷ b, more)

abbrev conn : Side (List Bytes)
conn = record {
  tls_writer_write_all = λ b c. (ok tt, b ∷ c);
  tls_reader_read = λ cap c. (would_block, c);
  tls_write_records = λ c. (ok (write_record c).0, (write_record c).1);
  tls_read_records = λ b c. (ok (length b), c);
  tls_process_new_packets = λ c. (ok tt, c);
}

abbrev Opens : Bytes → Bytes → Type 0
Opens ciphertext payload = ciphertext ≡ 0x17 ∷ (payload ++ [])

abbrev records : List Bytes → List Bytes
records [] = []
records (b ∷ more) = (0x17 ∷ b) ∷ records more

records_nil : (c : List Bytes) → records c ≡ [] → c ≡ []
records_nil [] e = refl
records_nil (b ∷ more) e = absurd (cc e)

conn_drained : (c : List Bytes) → records c ≡ [] → conn.tls_write_records c ≡ (ok [], c)
conn_drained [] e = refl
conn_drained (b ∷ more) e = absurd (cc e)

conn_writes :
    (c : List Bytes) (b : ℕ) (piece : Bytes) (more : List Bytes)
    → records c ≡ (b ∷ piece) ∷ more
    → (after : List Bytes) × (conn.tls_write_records c ≡ (ok (b ∷ piece), after))
      × (records after ≡ more)
conn_writes [] b piece more e = absurd (cc e)
conn_writes (x ∷ c) b piece more e = (c, cc e, cc e)

conn_nonempty : (c : List Bytes) (more : List Bytes) → records c ≢ [] ∷ more
conn_nonempty [] more e = absurd (cc e)
conn_nonempty (x ∷ c) more e = absurd (cc e)

conn_takes :
    (c : List Bytes) (payload : Bytes)
    → records c ≡ []
    → (after : List Bytes) × (conn.tls_writer_write_all payload c ≡ (ok tt, after))
      × (length (records after) < 2)
      × Opens (concat (records after)) payload
conn_takes [] payload e = (payload ∷ [], refl, omega arith, refl)
conn_takes (x ∷ c) payload e = absurd (cc e)

abbrev conn-IsLawful : IsLawful conn 2 Opens
conn-IsLawful = record {
  queue = records;
  drained = conn_drained;
  writes = conn_writes;
  nonempty = conn_nonempty;
  takes = conn_takes;
}

abbrev stream : Transport Bytes
stream = record {
  read = λ cap s. (ok [], s);
  read_exact = λ n s. (ok [], s);
  write_all = λ b s. (ok tt, s ++ b);
}

abbrev stream-IsAppending : IsAppending stream
stream-IsAppending = record { written = λ s. s; appends = λ s b. (s ++ b, refl, refl) }

-- A message of more than one fragment.
abbrev long_message : OutboundMessage
long_message = record { channel = 3; message_id = 0; payload = replicate 10000 0x41 }

send_encrypted-Message_example :
    Sent stream conn 2 Opens conn-IsLawful stream-IsAppending
      (send_encrypted stream conn 2 long_message)
      []
      []
      (Message Opens 3 (be16 0 ++ replicate 10000 0x41))
send_encrypted-Message_example =
    send_encrypted-Message stream conn 2 Opens conn-IsLawful stream-IsAppending long_message [] []
      refl

-- A connection that reads one byte at a time, into a buffer of eight, and counts the records. Its
-- state is what was fed, what is ready, and the number of the next record.
abbrev Peer : Type 0
Peer = Bytes × Bytes × ℕ

abbrev next_byte : Bytes → Reading
next_byte [] = would_block
next_byte (b ∷ rest) = plaintext (b ∷ [])

abbrev read_some : Bytes → Eff Peer ℕ
read_some b c = if ltb (length c.0) 8 then (ok 1, (c.0 ++ take 1 b, c.1, c.2)) else (err no_fuel, c)

abbrev peer : Side Peer
peer = record {
  tls_writer_write_all = λ b c. (ok tt, c);
  tls_reader_read = λ cap c. (next_byte c.1, (c.0, drop 1 c.1, c.2));
  tls_write_records = λ c. (ok [], c);
  tls_read_records = read_some;
  tls_process_new_packets = λ c. (ok tt, ([], c.1 ++ drop 1 c.0, suc c.2));
}

-- A record starts with its number.
abbrev Numbered : Peer → Bytes → Bytes → Type 0
Numbered c ciphertext payload = ciphertext ≡ c.2 ∷ payload

peer_blocks :
    (f r : Bytes) (s : ℕ) → r ≡ [] → peer.tls_reader_read 4096 (f, r, s) ≡ (would_block, (f, r, s))
peer_blocks f [] s e = refl
peer_blocks f (b ∷ r) s e = absurd (cc e)

peer_reads :
    (f r : Bytes) (s b : ℕ) (rest : Bytes)
    → r ≡ b ∷ rest
    → (x : ℕ) × (front : Bytes) × (after : Peer) × (peer.tls_reader_read 4096 (f, r, s)
        ≡ (plaintext (x ∷ front), after))
      × (b ∷ rest ≡ (x ∷ front) ++ after.1)
      × (after.0 ≡ f)
peer_reads f [] s b rest e = absurd (cc e)
peer_reads f (x ∷ r) s b rest e = (x, [], (f, r, s), refl, sym e, refl)

peer_feeds :
    (c : Peer) (b : ℕ) (input whole opened : Bytes)
    → Numbered c whole opened
    → length c.0 < 8
    → c.1 ≡ []
    → (n : ℕ) × (after : Peer) × (peer.tls_read_records (b ∷ input) c ≡ (ok n, after))
      × (0 < n)
      × (length c.0 + length (take n (b ∷ input)) ≤ 8)
      × (after.0 ≡ c.0 ++ take n (b ∷ input))
      × (after.1 ≡ [])
      × ((ciphertext payload : Bytes)
          → Numbered c ciphertext payload
          → Numbered after ciphertext payload)
peer_feeds c b input x p o h e =
    let room : ltb (length c.0) 8 ≡ true = ground (arith, h) in
    (
      1,
      (c.0 ++ (b ∷ []), c.1, c.2),
      rw room refl,
      omega arith,
      omega (arith, h),
      refl,
      e,
      λ x2 p2 o2. o2,
    )

abbrev peer-IsReadable : IsReadable peer 8 Numbered
peer-IsReadable = record {
  fed = λ c. c.0;
  ready = λ c. c.1;
  feeds = peer_feeds;
  processes =
      λ c payload h. (([], c.1 ++ drop 1 c.0, suc c.2), refl, refl, ap (λ l. c.1 ++ drop 1 l) h);
  blocks = λ c e. inl (peer_blocks c.0 c.1 c.2 e);
  reads = λ c b rest e. peer_reads c.0 c.1 c.2 b rest e;
}

decrypt_payload-Opens_example :
    (after : Peer) × (decrypt_payload peer 9 (5 ∷ 1 ∷ 2 ∷ 3 ∷ []) ([], [], 5)
      ≡ (ok (1 ∷ 2 ∷ 3 ∷ []), after))
    × (after.0 ≡ [])
    × (after.1 ≡ [])
decrypt_payload-Opens_example =
    decrypt_payload-Opens peer 8 Numbered peer-IsReadable 9 (5 ∷ 1 ∷ 2 ∷ 3 ∷ []) (1 ∷ 2 ∷ 3 ∷ [])
      ([], [], 5) (omega arith) (omega arith) (omega arith) refl refl refl
