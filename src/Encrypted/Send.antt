-- ===== src/Encrypted/Send.antt =====
-- What `send_encrypted` puts on the stream.
use aabox.Common.{
  ℕ, zero, suc, ◌+◌, ◌-◌, ◌%◌, ◌^◌, ◌≤◌, ◌<◌, ◌≡◌, refl, sym, ap, ◌∙◌, subst, false, Bool-cases,
  inl, inr, none, some, List, Result, ok, [], ◌∷◌, ◌++◌, append-nil, append_assoc, leb, ltb_of_lt,
  ltb_of_le, ◌==◌, ==_iff, min, length, take, drop, length-take, length-drop, drop-drop,
  take-append-drop, take_all, Bytes, be16, arith,
}
use aabox.Effect.{Error, Transport}
use aabox.Framing.{middle, first, last, bulk, Frame, encode}
use aabox.Control.{write_frame}
use aabox.Encrypted.{
  Side, OutboundMessage, max_fragment_plaintext, sealed_frame, is_channel_control, fragment_type,
  fragment_total, build_encrypted_frame, send_fragments, send_encrypted,
}
use aabox.Encrypted.Drain.{IsLawful, encrypt_payload-Opens}
use aabox.Encrypted.Carried.{encode_all, IsAppending, Rest, final, more, Message, whole, split}

module _ {S C : Type 0} (stream : Transport S) (conn : Side C) (fuel : ℕ)
    (Opens : Bytes → Bytes → Type 0) (lawful : IsLawful conn fuel Opens)
    (appending : IsAppending stream) where
  open lawful use {queue}
  open appending use {written, appends}

  -- What a sender has done: it returned, the frames are on the stream, and the queue is empty.
  pub data Sent (act : S × C → Result Error (Unit {0}) × (S × C)) (s : S) (c : C)
      (P : List Frame → Type 0) : Type 0 where
    sent :
        (fs : List Frame) (s' : S) (c' : C)
        → P fs
        → act (s, c) ≡ (ok tt, (s', c'))
        → written s' ≡ written s ++ encode_all fs
        → queue c' ≡ []
        → Sent act s c P

  module _ (channel : ℕ) (plain : Bytes) where
    chunk_at : ℕ → Bytes
    chunk_at offset =
        take (min (offset + max_fragment_plaintext) (length plain) - offset) (drop offset plain)

    chunk_length :
        (offset : ℕ)
        → length (chunk_at offset) ≡ min (offset + max_fragment_plaintext) (length plain) - offset
    unfolding chunk_at
    chunk_length offset = omega (
      arith,
      length-take (min (offset + max_fragment_plaintext) (length plain) - offset)
          (drop offset plain),
      length-drop offset plain,
    )

    -- A chunk and what is behind it.
    chunk_rest :
        (offset : ℕ)
        → offset ≤ length plain
        → chunk_at offset ++ drop (min (offset + max_fragment_plaintext) (length plain)) plain
          ≡ drop offset plain
    unfolding chunk_at
    chunk_rest offset h =
        let end = min (offset + max_fragment_plaintext) (length plain) in
        let apart : offset + (end - offset) ≡ end = omega arith in
        ap (λ k. chunk_at offset ++ drop k plain) (sym apart)
        ∙ (ap (λ t. chunk_at offset ++ t) (drop-drop offset (end - offset) plain)
            ∙ take-append-drop (end - offset) (drop offset plain))

    end_at : ℕ → ℕ
    end_at offset = min (offset + max_fragment_plaintext) (length plain)

    -- One round: the chunk is sealed and written in a frame, and the rest goes on from there.
    round :
        (rounds offset : ℕ) (s : S) (c : C)
        → offset < length plain
        → queue c ≡ []
        → (ct : Bytes) × (s1 : S) × (c1 : C) × Opens ct (chunk_at offset)
          × (send_fragments stream conn fuel (suc rounds) channel plain offset (s, c)
              ≡ send_fragments stream conn fuel rounds channel plain (end_at offset) (s1, c1))
          × (written s1
              ≡ written s
                ++ encode (
                    sealed_frame channel
                      (fragment_type offset (end_at offset) (length plain))
                      false
                      (fragment_total offset (length plain))
                      ct))
          × (queue c1 ≡ [])
    unfolding send_fragments chunk_at write_frame end_at
    round rounds offset s c h e =
        let (ct, c1, sealed, opens, empty) =
          encrypt_payload-Opens conn fuel Opens lawful (chunk_at offset) c e in
        let f =
          sealed_frame channel (fragment_type offset (end_at offset) (length plain)) false
            (fragment_total offset (length plain)) ct in
        let (s1, wrote, now) = appends s (encode f) in
        (ct, s1, c1, opens, rw (ltb_of_lt offset (length plain) h, sealed, wrote) refl, now, empty)

    finish :
        (rounds offset : ℕ) (w : S × C)
        → length plain ≤ offset
        → send_fragments stream conn fuel (suc rounds) channel plain offset w ≡ (ok tt, w)
    unfolding send_fragments
    finish rounds offset w h = rw (ltb_of_le offset (length plain) h) refl

    -- The frames behind the first, from an offset that is not 0.
    send-Rest :
        (rounds offset : ℕ) (s : S) (c : C)
        → 0 < offset
        → offset < length plain
        → length plain < offset + rounds
        → queue c ≡ []
        → Sent
            (send_fragments stream conn fuel rounds channel plain offset)
            s
            c
            (Rest Opens channel (drop offset plain))
    unfolding end_at chunk_at fragment_type fragment_total encode_all encode
    send-Rest zero offset s c pos h enough e = absurd (omega arith)
    send-Rest (suc zero) offset s c pos h enough e = absurd (omega arith)
    send-Rest (suc (suc rounds)) offset s c pos h enough e =
        let end = min (offset + max_fragment_plaintext) (length plain) in
        let (ct, s1, c1, opens, goes, now, empty) = round (suc rounds) offset s c h e in
        let not_first : (offset == 0) ≡ false = ground arith in
        let size = chunk_length offset in
        let whole : chunk_at offset ++ drop end plain ≡ drop offset plain =
          chunk_rest offset (omega arith) in
        elim (Bool-cases (end == length plain)) [
          | inl at_end ↦
              let reached : end ≡ length plain = (==_iff end (length plain)).0 at_end in
              let all : chunk_at offset ≡ drop offset plain =
                take_all (end - offset) (drop offset plain)
                  (omega (arith, length-drop offset plain)) in
              sent (sealed_frame channel last false none ct ∷ []) s1 c1
                (subst (λ b. Rest Opens channel b (sealed_frame channel last false none ct ∷ []))
                  all (final (chunk_at offset) ct (omega arith) (omega arith) opens))
                (goes ∙ finish rounds end (s1, c1) (omega arith))
                (rw (not_first, at_end) at now
                  ∙ ap (λ b. written s ++ b)
                      (sym (append-nil (encode (sealed_frame channel last false none ct)))))
                empty
          | inr inside ↦
              let short : end < length plain = ground arith in
              elim (send-Rest (suc rounds) end s1 c1 (omega arith) short (omega arith) empty) [
                | sent fs s2 c2 p done log empty2 ↦
                    sent (sealed_frame channel middle false none ct ∷ fs) s2 c2
                      (subst
                        (λ b. Rest Opens channel b (sealed_frame channel middle false none ct ∷ fs))
                        whole (more (chunk_at offset) (drop end plain) ct fs (omega arith) opens p))
                      (goes ∙ done)
                      (log
                        ∙ ((ap (λ b. b ++ encode_all fs) (rw (not_first, inside) at now))
                            ∙ append_assoc (written s)
                                (encode (sealed_frame channel middle false none ct))
                                (encode_all fs)))
                      empty2
              ]
        ]

    send_all :
        (s : S) (c : C)
        → max_fragment_plaintext < length plain
        → queue c ≡ []
        → Sent
            (send_fragments stream conn fuel (suc (length plain)) channel plain 0)
            s
            c
            (Message Opens channel plain)
    unfolding end_at chunk_at fragment_type fragment_total encode_all encode
    send_all s c h e =
        let end = min (0 + max_fragment_plaintext) (length plain) in
        let (ct, s1, c1, opens, goes, now, empty) = round (length plain) 0 s c (omega arith) e in
        let size = chunk_length 0 in
        let whole : chunk_at 0 ++ drop end plain ≡ plain = chunk_rest 0 (omega arith) in
        let frame_first : Bytes → Frame =
          λ b. sealed_frame channel first false (some (length b % 2 ^ 32)) ct in
        elim (send-Rest (length plain) end s1 c1 (omega arith) (omega arith) (omega arith) empty) [
          | sent fs s2 c2 p done log empty2 ↦
              sent (frame_first plain ∷ fs) s2 c2
                (subst (λ b. Message Opens channel b (frame_first b ∷ fs)) whole
                  (split (chunk_at 0) (drop end plain) ct fs (omega arith) opens p))
                (goes ∙ done)
                (log
                  ∙ (ap (λ b. b ++ encode_all fs) now
                      ∙ append_assoc (written s) (encode (frame_first plain)) (encode_all fs)))
                empty2
        ]

  -- On a stream that takes every write and a connection that keeps to the laws of `IsLawful`, with
  -- an empty queue, `send_encrypted` returns, leaves the queue empty, and appends to the stream
  -- exactly the encodings of frames that carry the message: one BULK frame when the id and the
  -- payload fit in 0x1f00 bytes, or else a FIRST frame with the length of the whole, full MIDDLE
  -- frames and a LAST frame, all on the channel of the message, whose payloads open to chunks that
  -- make up the message when put together.
  pub send_encrypted-Message :
      (out : OutboundMessage) (s : S) (c : C)
      → queue c ≡ []
      → Sent
          (send_encrypted stream conn fuel out)
          s
          c
          (Message Opens out.channel (be16 out.message_id ++ out.payload))
  unfolding send_encrypted build_encrypted_frame write_frame encode_all
  send_encrypted-Message out s c e =
      let plain = be16 out.message_id ++ out.payload in
      elim (Bool-cases (leb (length plain) max_fragment_plaintext)) [
        | inl fits ↦
            let (ct, c1, sealed, opens, empty) =
              encrypt_payload-Opens conn fuel Opens lawful plain c e in
            let f =
              sealed_frame out.channel bulk (is_channel_control out.channel out.message_id) none
                ct in
            let (s1, wrote, now) = appends s (encode f) in
            sent (f ∷ []) s1 c1
              (whole plain ct (is_channel_control out.channel out.message_id) (ground arith) opens)
              (rw (fits, sealed, wrote) refl)
              (now ∙ ap (λ b. written s ++ b) (sym (append-nil (encode f)))) empty
        | inr long ↦ let all = send_all out.channel plain s c (ground arith) e in rw long all
      ]
