-- ===== src/Control/Read.antt =====
-- `read_frame` against `parse`.
use aabox.Common.{
  ℕ, suc, ◌+◌, ◌%◌, ◌^◌, ◌/◌, be16, ◌-◌, ◌≤◌, ◌<◌, ◌≡◌, refl, sym, ap, ◌∙◌, true, false, Option,
  none, some, ok, err, ◌∷◌, ◌++◌, ltb_of_le, ltb_of_lt, length, get_or, take_all, take_left,
  length-append, append_assoc, Bytes, from_be16, from_be32, arith,
}
use aabox.Effect.{Error, end_of_file, too_short, no_total_length, Transport}
use native.Mathlib.Nat.{mod-eq_of_lt}
use aabox.Framing.Bits.{from_flags-flags_of, flags_of_control, flags_of_encrypted}
use aabox.Framing.{
  FrameType, flags_of, encode_total, middle, first, last, bulk, is_first, Frame, from_flags, encode,
}
use aabox.Framing.RoundTrip.{
  TotalFits, IsWire, no_total, total_bytes, from_be16-be16, from_be32-be32,
}
use aabox.Control.{read_type, frame_of, read_payload, read_header, read_frame}

read_type-eq : (flags : ℕ) → read_type flags ≡ from_flags flags
unfolding read_type from_flags
read_type-eq flags = refl

module _ {S : Type 0} (stream : Transport S) where
  open stream use {read_exact}

  -- With the payload whole in what the chunk holds, nothing more is read.
  read_payload_here :
      (payload tail : Bytes) (s : S)
      → read_payload stream (payload ++ tail) (length payload) s ≡ (ok payload, s)
  unfolding read_payload
  read_payload_here payload tail s =
      rw (take_left, ltb_of_le (length payload) (length payload) (omega arith))

  -- With a part of it there, exactly what is missing is read.
  read_payload_more :
      (front back : Bytes) (s : S) {s' : S}
      → 0 < length back
      → read_exact (length back) s ≡ (ok back, s')
      → read_payload stream front (length front + length back) s ≡ (ok (front ++ back), s')
  unfolding read_payload
  read_payload_more front back s m h =
      rw (take_all (length front + length back) front (omega arith))
        (rw (ltb_of_lt (length front) (length front + length back) (omega arith), missing, h))
    where
      missing : length front + length back - length front ≡ length back
      missing = omega arith

  read_header_short :
      (c fl hi lo n : ℕ) (tail p : Bytes) (s : S) {s' : S}
      → is_first (read_type fl) ≡ false
      → from_be16 hi lo ≡ n
      → read_payload stream tail n s ≡ (ok p, s')
      → read_header stream (c ∷ fl ∷ hi ∷ lo ∷ tail) s ≡ (ok (frame_of c fl none p), s')
  unfolding read_header
  read_header_short c fl hi lo n tail p s hf hn h = rw (hf, hn, h)

  read_header_long :
      (c fl hi lo t0 t1 t2 t3 n : ℕ) (tail p : Bytes) (s : S) {s' : S}
      → is_first (read_type fl) ≡ true
      → from_be16 hi lo ≡ n
      → read_payload stream tail n s ≡ (ok p, s')
      → read_header stream (c ∷ fl ∷ hi ∷ lo ∷ t0 ∷ t1 ∷ t2 ∷ t3 ∷ tail) s
        ≡ (ok (frame_of c fl (some (from_be32 t0 t1 t2 t3)) p), s')
  unfolding read_header
  read_header_long c fl hi lo t0 t1 t2 t3 n tail p s hf hn h =
      rw
        (
          hf,
          hn,
          ltb_of_le (suc (suc (suc (suc (suc (suc (suc (suc (length tail))))))))) 8 (omega arith),
        )
        (rw h)

-- The header that `encode` writes.
abbrev pub header_of : Frame → Bytes
header_of f =
    f.channel_id ∷ flags_of f ∷ be16 (length f.payload % 2 ^ 16)
    ++ encode_total f.frame_type f.total_length

encode-eq : (f : Frame) → encode f ≡ header_of f ++ f.payload
unfolding encode
encode-eq f = refl

frame_of-flags_of :
    (f : Frame) (p : Bytes)
    → frame_of f.channel_id (flags_of f) f.total_length p ≡ record f { payload = p }
unfolding frame_of
frame_of-flags_of f p = rw (read_type-eq, from_flags-flags_of, flags_of_control, flags_of_encrypted)

read_type-flags_of : (f : Frame) → read_type (flags_of f) ≡ f.frame_type
read_type-flags_of f = read_type-eq (flags_of f) ∙ from_flags-flags_of f

module _ {S : Type 0} (stream : Transport S) (f : Frame) (tail p : Bytes) (s : S) {s' : S}
    (w : IsWire f) (h : read_payload stream tail (length f.payload) s ≡ (ok p, s')) where
  -- The header is read back, and the payload is what `read_payload` makes of the rest.
  pub read_header-header_of :
      read_header stream (header_of f ++ tail) s ≡ (ok (record f { payload = p }), s')
  read_header-header_of = by_total f.frame_type f.total_length refl refl w.total_fits
    where
      n :
          from_be16 (length f.payload % 2 ^ 16 / 256 % 256) (length f.payload % 2 ^ 16 % 256)
          ≡ length f.payload
      n = rw (mod-eq_of_lt w.payload_fits) (from_be16-be16 _ w.payload_fits)

      short :
          {t : FrameType}
          → t ≡ f.frame_type
          → none ≡ f.total_length
          → is_first t ≡ false
          → read_header stream (header_of f ++ tail) s ≡ (ok (record f { payload = p }), s')
      short ht ho hf = rw (no_total f ht ho hf) (
          read_header_short stream f.channel_id (flags_of f) _ _ _ tail p s
            (ap is_first (read_type-flags_of f ∙ sym ht) ∙ hf) n h
          ∙ ap (λ o. (ok (frame_of f.channel_id (flags_of f) o p), s')) ho
          ∙ ap (λ g. (ok g, s')) (frame_of-flags_of f p))

      by_total :
          (t : FrameType) (o : Option ℕ)
          → t ≡ f.frame_type
          → o ≡ f.total_length
          → TotalFits t o
          → read_header stream (header_of f ++ tail) s ≡ (ok (record f { payload = p }), s')
      by_total first (some total) ht ho b = rw (total_bytes f total ht ho) (
          read_header_long stream f.channel_id (flags_of f) _ _ _ _ _ _ _ tail p s
            (ap is_first (read_type-flags_of f ∙ sym ht)) n h
          ∙ ap (λ t. (ok (frame_of f.channel_id (flags_of f) (some t) p), s'))
              (from_be32-be32 total b)
          ∙ ap (λ o. (ok (frame_of f.channel_id (flags_of f) o p), s')) ho
          ∙ ap (λ g. (ok g, s')) (frame_of-flags_of f p))
      by_total first none ht ho b = elim b [ ]
      by_total middle (some total) ht ho b = elim b [ ]
      by_total middle none ht ho b = short ht ho refl
      by_total last (some total) ht ho b = elim b [ ]
      by_total last none ht ho b = short ht ho refl
      by_total bulk (some total) ht ho b = elim b [ ]
      by_total bulk none ht ho b = short ht ho refl

header_of_long : (f : Frame) → 4 ≤ length (header_of f)
header_of_long f = omega (arith)

-- What the first read delivers is refused at the end of the stream, with less than a header, and
-- with a FIRST frame of less than eight bytes, however much of it is still to come.
pub data Refusal : Bytes → Error → Type 0 where
  nothing : {buf : Bytes} → length buf ≡ 0 → Refusal buf end_of_file
  cut_header :
      {buf : Bytes} → 0 < length buf → length buf < 4 → Refusal buf (too_short (length buf))
  cut_first :
      {buf : Bytes}
      → 4 ≤ length buf
      → length buf < 8
      → from_flags (get_or buf 1 0) ≡ first
      → Refusal buf (no_total_length (length buf))

module _ {S : Type 0} (stream : Transport S) where
  open stream use {read, read_exact}

  read_frame_header :
      (buf : Bytes) (s : S) {s' : S}
      → read 4096 s ≡ (ok buf, s')
      → 4 ≤ length buf
      → read_frame stream s ≡ read_header stream buf s'
  unfolding read_frame
  read_frame_header buf s h n = unfold read_header in rw h (ground arith)

  -- When the first read delivers the encoding of a frame that the wire format can hold, and
  -- possibly bytes behind it, `read_frame` returns that frame and reads nothing more; the bytes
  -- behind the frame are neither in the result nor in the stream.
  pub read_frame-encode :
      (f : Frame) (rest : Bytes) (s s' : S)
      → IsWire f
      → read 4096 s ≡ (ok (encode f ++ rest), s')
      → read_frame stream s ≡ (ok f, s')
  read_frame-encode f rest s s' w h =
      read_frame_header (header_of f ++ (f.payload ++ rest)) s (h ∙ ap (λ b. (ok b, s')) split)
        (omega (arith, length-append (header_of f) (f.payload ++ rest)))
      ∙ read_header-header_of stream f (f.payload ++ rest) f.payload s' w
          (read_payload_here stream f.payload rest s')
    where
      split : encode f ++ rest ≡ header_of f ++ (f.payload ++ rest)
      split = ap (λ b. b ++ rest) (encode-eq f) ∙ append_assoc (header_of f) f.payload rest

  -- When the first read delivers the header and a part of the payload of a frame that the wire
  -- format can hold, and the stream then delivers the missing bytes, `read_frame` asks for exactly
  -- these and returns the frame.
  pub read_frame_split :
      (f : Frame) (front back : Bytes) (s s' s'' : S)
      → IsWire f
      → f.payload ≡ front ++ back
      → 0 < length back
      → read 4096 s ≡ (ok (header_of f ++ front), s')
      → read_exact (length back) s' ≡ (ok back, s'')
      → read_frame stream s ≡ (ok f, s'')
  read_frame_split f front back s s' s'' w e m h k =
      read_frame_header (header_of f ++ front) s h
        (omega (arith, length-append (header_of f) front))
      ∙ read_header-header_of stream f front (front ++ back) s' w
          (rw (e, length-append) (read_payload_more stream front back s' m k))
      ∙ ap (λ p. (ok (record f { payload = p }), s'')) (sym e)

  -- When the first read delivers nothing, less than four bytes, or less than eight bytes of a
  -- FIRST frame, `read_frame` fails with the matching error, and it reads nothing more.
  pub read_frame-Refusal :
      (s s' : S) (buf : Bytes) (e : Error)
      → Refusal buf e
      → read 4096 s ≡ (ok buf, s')
      → read_frame stream s ≡ (err e, s')
  read_frame-Refusal s s' buf e (nothing n) h = unfold read_frame read_header in rw h (ground arith)
  read_frame-Refusal s s' buf e (cut_header p q) h =
      unfold read_frame read_header in rw h (ground arith)
  read_frame-Refusal s s' buf e (cut_first p q t) h =
      read_frame_header buf s h p
      ∙ unfold read_header in rw (read_type-eq, t, ltb_of_lt (length buf) 8 q)
