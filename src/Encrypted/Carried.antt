-- ===== src/Encrypted/Carried.antt =====
-- The frames that carry a message.
use aabox.Common.{
  ℕ, ◌%◌, ◌^◌, ◌≤◌, ◌<◌, ◌≡◌, false, Bool, none, some, List, ok, [], ◌∷◌, ◌++◌, length, Bytes,
}
use aabox.Effect.{Transport}
use aabox.Framing.{middle, first, last, bulk, Frame, encode}
use aabox.Encrypted.{max_fragment_plaintext, sealed_frame}

-- The bytes of frames, one after the other.
unfoldable pub encode_all : List Frame → Bytes
encode_all [] = []
encode_all (f ∷ fs) = encode f ++ encode_all fs

-- `write_all` succeeds, and appends to what was `written`.
pub record IsAppending {S : Type 0} (stream : Transport S) : Type 0 where
  pub written : S → Bytes
  pub appends :
      (s : S) (b : Bytes)
      → (after : S) × (stream.write_all b s ≡ (ok tt, after)) × (written after ≡ written s ++ b)

module _ (Opens : Bytes → Bytes → Type 0) (channel : ℕ) where
  -- The frames behind the FIRST one: full MIDDLE frames, then the LAST.
  pub data Rest : Bytes → List Frame → Type 0 where
    final :
        (chunk ciphertext : Bytes)
        → 0 < length chunk
        → length chunk ≤ max_fragment_plaintext
        → Opens ciphertext chunk
        → Rest chunk (sealed_frame channel last false none ciphertext ∷ [])
    more :
        (chunk plain ciphertext : Bytes) (fs : List Frame)
        → length chunk ≡ max_fragment_plaintext
        → Opens ciphertext chunk
        → Rest plain fs
        → Rest (chunk ++ plain) (sealed_frame channel middle false none ciphertext ∷ fs)

  -- The frames that carry a message: one BULK frame where it fits, or else a FIRST frame with the
  -- length of the whole and the frames behind it. The chunks that the payloads open to are the
  -- message when put together.
  pub data Message : Bytes → List Frame → Type 0 where
    whole :
        (plain ciphertext : Bytes) (is_control : Bool)
        → length plain ≤ max_fragment_plaintext
        → Opens ciphertext plain
        → Message plain (sealed_frame channel bulk is_control none ciphertext ∷ [])
    split :
        (chunk plain ciphertext : Bytes) (fs : List Frame)
        → length chunk ≡ max_fragment_plaintext
        → Opens ciphertext chunk
        → Rest plain fs
        → Message (chunk ++ plain) (
            sealed_frame channel first false (some (length (chunk ++ plain) % 2 ^ 32)) ciphertext
            ∷ fs)
