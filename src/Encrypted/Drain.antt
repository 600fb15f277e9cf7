-- ===== src/Encrypted/Drain.antt =====
-- `encrypt_payload` on a connection that keeps to what its documentation says.
use aabox.Common.{
  concat, ℕ, zero, suc, ◌<◌, ◌≡◌, ◌≢◌, refl, false, List, ok, [], ◌∷◌, ◌==◌, length, Bytes, arith,
}
use aabox.Encrypted.{Side, drain, encrypt_payload}

-- `queue` is what the calls of `write_tls` to come will write, a non-empty piece each. A payload
-- that is written to a connection with an empty queue is queued as ciphertext that `Opens` to it at
-- the peer, in fewer than `fuel` pieces.
pub record IsLawful {C : Type 0} (conn : Side C) (fuel : ℕ) (Opens : Bytes → Bytes → Type 0)
    : Type 0 where
  pub queue : C → List Bytes
  pub drained : (c : C) → queue c ≡ [] → conn.tls_write_records c ≡ (ok [], c)
  pub writes :
      (c : C) (b : ℕ) (piece : Bytes) (more : List Bytes)
      → queue c ≡ (b ∷ piece) ∷ more
      → (after : C) × (conn.tls_write_records c ≡ (ok (b ∷ piece), after)) × (queue after ≡ more)
  pub nonempty : (c : C) (more : List Bytes) → queue c ≢ [] ∷ more
  pub takes :
      (c : C) (payload : Bytes)
      → queue c ≡ []
      → (after : C) × (conn.tls_writer_write_all payload c ≡ (ok tt, after))
        × (length (queue after) < fuel)
        × Opens (concat (queue after)) payload

module _ {C : Type 0} (conn : Side C) (fuel : ℕ) (Opens : Bytes → Bytes → Type 0)
    (lawful : IsLawful conn fuel Opens) where
  open lawful use {queue, drained, writes, nonempty, takes}

  drain-queue :
      (n : ℕ) (pieces : List Bytes) (c : C)
      → queue c ≡ pieces
      → length pieces < n
      → (after : C) × (drain conn n c ≡ (ok (concat pieces), after)) × (queue after ≡ [])
  unfolding drain
  drain-queue zero pieces c e h = absurd (omega arith)
  drain-queue (suc n) [] c e h = (c, rw (drained c e) refl, e)
  drain-queue (suc n) ([] ∷ more) c e h = absurd (nonempty c more e)
  drain-queue (suc n) ((b ∷ piece) ∷ more) c e h =
      let (mid, wrote, left) = writes c b piece more e in
      let (after, rest, empty) = drain-queue n more mid left (omega arith) in
      let some_bytes : (suc (length piece) == 0) ≡ false = ground arith in
      (after, rw (wrote, some_bytes, rest) refl, empty)

  -- On a connection that keeps to the laws of `IsLawful` and has an empty queue, `encrypt_payload`
  -- comes to an end with bytes that open to the payload at the peer, and the queue is empty again.
  pub encrypt_payload-Opens :
      (payload : Bytes) (c : C)
      → queue c ≡ []
      → (ciphertext : Bytes) × (after : C) × (encrypt_payload conn fuel payload c
          ≡ (ok ciphertext, after))
        × Opens ciphertext payload
        × (queue after ≡ [])
  unfolding encrypt_payload
  encrypt_payload-Opens payload c e =
      let (mid, took, short, opens) = takes c payload e in
      let (after, all, empty) = drain-queue fuel (queue mid) mid refl short in
      (concat (queue mid), after, rw (took, all) refl, opens, empty)
