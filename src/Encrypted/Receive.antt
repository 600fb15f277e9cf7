-- ===== src/Encrypted/Receive.antt =====
-- `decrypt_payload` on a connection that keeps to what its documentation says.
use aabox.Common.{
  ℕ, zero, suc, ◌+◌, ◌<◌, ◌≤◌, ◌≡◌, refl, sym, ap, inl, inr, ◌⊎◌, ◌∙◌, subst, false, ok, [], ◌∷◌,
  ◌++◌, append-nil, append_assoc, ◌==◌, length, length-append, length-drop, take, drop,
  take-append-drop, Bytes, arith,
}
use aabox.Encrypted.{Side, plaintext, would_block, feed, collected, collect, decrypt_payload}

-- `fed` is what was read of the records that are still to be processed, `ready` the plaintext
-- that is still to be taken. Records are read some bytes at a time, as long as the buffer for
-- them, of `room` bytes, is not full, no plaintext waits, and the state still opens something; a
-- read does not change which bytes open to what, as `Opens` says of a state. What opens to a
-- payload is processed to it, and the next bytes open in the state behind it. Plaintext is taken
-- some bytes at a time; when there is none, a read blocks, or is at its end once the peer has
-- closed.
pub record IsReadable {C : Type 0} (conn : Side C) (room : ℕ) (Opens : C → Bytes → Bytes → Type 0)
    : Type 0 where
  pub fed : C → Bytes
  pub ready : C → Bytes
  pub feeds :
      (c : C) (b : ℕ) (input whole opened : Bytes)
      → Opens c whole opened
      → length (fed c) < room
      → ready c ≡ []
      → (n : ℕ) × (after : C) × (conn.tls_read_records (b ∷ input) c ≡ (ok n, after))
        × (0 < n)
        × (length (fed c) + length (take n (b ∷ input)) ≤ room)
        × (fed after ≡ fed c ++ take n (b ∷ input))
        × (ready after ≡ [])
        × ((ciphertext payload : Bytes)
            → Opens c ciphertext payload
            → Opens after ciphertext payload)
  pub processes :
      (c : C) (payload : Bytes)
      → Opens c (fed c) payload
      → (after : C) × (conn.tls_process_new_packets c ≡ (ok tt, after))
        × (fed after ≡ [])
        × (ready after ≡ ready c ++ payload)
  pub blocks :
      (c : C)
      → ready c ≡ []
      → (conn.tls_reader_read 4096 c ≡ (would_block, c))
        ⊎ (conn.tls_reader_read 4096 c ≡ (plaintext [], c))
  pub reads :
      (c : C) (b : ℕ) (rest : Bytes)
      → ready c ≡ b ∷ rest
      → (x : ℕ) × (front : Bytes) × (after : C) × (conn.tls_reader_read 4096 c
          ≡ (plaintext (x ∷ front), after))
        × (b ∷ rest ≡ (x ∷ front) ++ ready after)
        × (fed after ≡ fed c)

module _ {C : Type 0} (conn : Side C) (room : ℕ) (Opens : C → Bytes → Bytes → Type 0)
    (readable : IsReadable conn room Opens) where
  open readable use {fed, ready, feeds, processes, blocks, reads}

  feed-fed :
      (n : ℕ) (input whole opened : Bytes) (c : C)
      → Opens c whole opened
      → length input < n
      → length (fed c) + length input ≤ room
      → ready c ≡ []
      → (after : C) × (feed conn n input c ≡ (ok tt, after))
        × (fed after ≡ fed c ++ input)
        × (ready after ≡ [])
        × ((ciphertext payload : Bytes)
            → Opens c ciphertext payload
            → Opens after ciphertext payload)
  unfolding feed
  feed-fed zero input x p c o h r e = absurd (omega arith)
  feed-fed (suc n) [] x p c o h r e = (c, refl, sym (append-nil (fed c)), e, λ x2 p2 o2. o2)
  feed-fed (suc n) (b ∷ input) x p c o h r e =
      let (k, mid, took, some_bytes, fits, so_far, kept, opens) =
        feeds c b input x p o (omega arith) e in
      let parts : length (take k (b ∷ input)) + length (drop k (b ∷ input)) ≡ length (b ∷ input) =
        omega (
          arith,
          length-append (take k (b ∷ input)) (drop k (b ∷ input)),
          ap length (take-append-drop k (b ∷ input)),
        ) in
      let now : length (fed mid) ≡ length (fed c) + length (take k (b ∷ input)) =
        ap length so_far ∙ length-append (fed c) (take k (b ∷ input)) in
      let (after, rest, all, kept2, opens2) =
        feed-fed n (drop k (b ∷ input)) x p mid (opens x p o)
          (omega (arith, length-drop k (b ∷ input))) (omega (arith, now, parts)) kept in
      let nonempty : (suc (length input) == 0) ≡ false = ground arith in
      let all_fed : fed after ≡ fed c ++ (b ∷ input) =
        all
        ∙ (ap (λ f. f ++ drop k (b ∷ input)) so_far
            ∙ (append_assoc (fed c) (take k (b ∷ input)) (drop k (b ∷ input))
                ∙ ap (λ l. fed c ++ l) (take-append-drop k (b ∷ input)))) in
      (after, rw (nonempty, took) rest, all_fed, kept2, λ x2 p2 o2. opens2 x2 p2 (opens x2 p2 o2))

  collect-ready :
      (n : ℕ) (rest out : Bytes) (c : C)
      → ready c ≡ rest
      → length rest < n
      → (after : C) × (collect conn n out c ≡ (ok (out ++ rest), after))
        × (ready after ≡ [])
        × (fed after ≡ fed c)
  unfolding collect collected
  collect-ready zero rest out c e h = absurd (omega arith)
  collect-ready (suc n) [] out c e h = elim (blocks c e) [
    | inl none_now ↦ (c, rw (none_now, append-nil out) refl, e, refl)
    | inr closed ↦ (c, rw (closed, append-nil out) refl, e, refl)
  ]
  collect-ready (suc n) (b ∷ rest) out c e h =
      let (x, front, mid, took, parts, same) = reads c b rest e in
      let shorter : suc (length rest) ≡ suc (length front) + length (ready mid) =
        ap length parts ∙ omega (arith, length-append front (ready mid)) in
      let (after, more, empty, same2) =
        collect-ready n (ready mid) (out ++ (x ∷ front)) mid refl (omega arith) in
      let nonempty : (suc (length front) == 0) ≡ false = ground arith in
      (
        after,
        rw (took, nonempty)
            (more
              ∙ ap (λ o. (ok o, after))
                  (append_assoc out (x ∷ front) (ready mid) ∙ ap (λ l. out ++ l) (sym parts))),
        empty,
        same2 ∙ same,
      )

  -- On a connection that keeps to the laws of `IsReadable`, with nothing fed and nothing ready,
  -- with a ciphertext that fits its buffer, and with more fuel than the ciphertext and the payload
  -- have bytes, `decrypt_payload` of a ciphertext that opens to a payload in the state of the
  -- connection returns that payload, however the records are read and the plaintext is taken in
  -- pieces, and nothing is left behind.
  pub decrypt_payload-Opens :
      (fuel : ℕ) (ciphertext payload : Bytes) (c : C)
      → length ciphertext < fuel
      → length payload < fuel
      → length ciphertext ≤ room
      → fed c ≡ []
      → ready c ≡ []
      → Opens c ciphertext payload
      → (after : C) × (decrypt_payload conn fuel ciphertext c ≡ (ok payload, after))
        × (fed after ≡ [])
        × (ready after ≡ [])
  unfolding decrypt_payload
  decrypt_payload-Opens fuel ciphertext payload c h k r e f opens =
      let none_fed_yet : length (fed c) ≡ 0 = ap length e in
      let (c1, took, all, kept, still) =
        feed-fed fuel ciphertext ciphertext payload c opens h (omega (arith, none_fed_yet)) f in
      let (c2, done, none_fed, now) = processes c1 payload (
        subst (λ b. Opens c1 b payload) (sym (all ∙ ap (λ b. b ++ ciphertext) e))
          (still ciphertext payload opens)) in
      let (c3, read, empty, same) =
        collect-ready fuel payload [] c2 (now ∙ ap (λ b. b ++ payload) kept) k in
      (c3, rw (took, done) read, same ∙ none_fed, empty)
