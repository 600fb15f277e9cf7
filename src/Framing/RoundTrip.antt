-- ===== src/Framing/RoundTrip.antt =====
-- `parse` after `encode`.
use aabox.Common.{
  ℕ, suc, ◌+◌, ◌/◌, ◌%◌, ◌^◌, ◌<◌, ◌≡◌, refl, sym, ◌∙◌, bit_and, false, not, Option, none, some, [],
  ◌∷◌, ◌++◌, ltb_of_le, ◌==◌, length, length-append, take_left, drop_left, Bytes, be32, from_be16,
  from_be32, arith,
}
use aabox.Framing.{
  FrameType, middle, first, last, bulk, is_first, Frame, from_flags, flags_of, encode_total, encode,
  parse, flag_control, flag_encrypted,
}
use native.Mathlib.Nat.{mod-eq_of_lt}
use aabox.Framing.Bits.{from_flags-flags_of, flags_of_control, flags_of_encrypted}

-- A total length stands in a FIRST frame, and in no other.
abbrev pub TotalFits : FrameType → Option ℕ → Type 0
TotalFits first (some total) = total < 2 ^ 32
TotalFits first none = ⊥
TotalFits _ (some total) = ⊥
TotalFits _ none = Unit

-- The frames that the wire format can hold.
pub record IsWire (f : Frame) : Type 0 where
  pub channel_fits : f.channel_id < 256
  pub payload_fits : length f.payload < 2 ^ 16
  pub total_fits : TotalFits f.frame_type f.total_length

pub from_be16-be16 : (n : ℕ) → n < 2 ^ 16 → from_be16 (n / 256 % 256) (n % 256) ≡ n
from_be16-be16 n h = omega arith

pub from_be32-be32 :
    (n : ℕ)
    → n < 2 ^ 32
    → from_be32 (n / 65536 / 256 % 256) (n / 65536 % 256) (n / 256 % 256) (n % 256) ≡ n
from_be32-be32 n h = omega arith

-- `parse` on a header followed by at least the announced payload.
pub parse_short :
    (c fl hi lo : ℕ) (payload rest : Bytes) (t : FrameType)
    → from_flags fl ≡ t
    → is_first t ≡ false
    → from_be16 hi lo ≡ length payload
    → parse (c ∷ fl ∷ hi ∷ lo ∷ (payload ++ rest)) ≡ (
      some (record {
        channel_id = c;
        frame_type = t;
        control = not (bit_and fl flag_control == 0);
        encrypted = not (bit_and fl flag_encrypted == 0);
        total_length = none;
        payload = payload;
      }),
      rest,
    )
unfolding parse
parse_short c fl hi lo payload rest t ht hf hl =
    rw (ht, hf, hl, length-append)
      (rw (
        ltb_of_le (suc (suc (suc (suc (length payload + length rest))))) 4 (omega arith),
        ltb_of_le (suc (suc (suc (suc (length payload + length rest))))) (4 + length payload)
            (omega arith),
        take_left,
        drop_left,
      ))

-- The same with the four bytes of a total length.
pub parse_long :
    (c fl hi lo t0 t1 t2 t3 : ℕ) (payload rest : Bytes)
    → from_flags fl ≡ first
    → from_be16 hi lo ≡ length payload
    → parse (c ∷ fl ∷ hi ∷ lo ∷ t0 ∷ t1 ∷ t2 ∷ t3 ∷ (payload ++ rest)) ≡ (
      some (record {
        channel_id = c;
        frame_type = first;
        control = not (bit_and fl flag_control == 0);
        encrypted = not (bit_and fl flag_encrypted == 0);
        total_length = some (from_be32 t0 t1 t2 t3);
        payload = payload;
      }),
      rest,
    )
unfolding parse
parse_long c fl hi lo t0 t1 t2 t3 payload rest ht hl =
    let n : ℕ = suc (suc (suc (suc (suc (suc (suc (suc (length payload + length rest)))))))) in
    rw (ht, hl, length-append)
      (rw (
        ltb_of_le n 4 (omega arith),
        ltb_of_le n (8 + length payload) (omega arith),
        take_left,
        drop_left,
      ))

parse-encode_short :
    (f : Frame) (rest : Bytes)
    → is_first f.frame_type ≡ false
    → encode_total f.frame_type f.total_length ≡ []
    → f.total_length ≡ none
    → length f.payload < 2 ^ 16
    → parse (encode f ++ rest) ≡ (some f, rest)
unfolding encode
parse-encode_short f rest hf he ht hl =
    rw (he, mod-eq_of_lt hl)
      (parse_short f.channel_id (flags_of f) _ _ f.payload rest f.frame_type (from_flags-flags_of f)
          hf (from_be16-be16 _ hl)
        ∙ rw (flags_of_control f, flags_of_encrypted f, ← ht))

pub no_total :
    (f : Frame) {t : FrameType}
    → t ≡ f.frame_type
    → none ≡ f.total_length
    → is_first t ≡ false
    → encode_total f.frame_type f.total_length ≡ []
no_total f {t} ht ho hf = rw (← ht, ← ho) (by_type t)
  where
    by_type : (t : FrameType) → encode_total t none ≡ []
    by_type first = unfold encode_total in refl
    by_type middle = unfold encode_total in refl
    by_type last = unfold encode_total in refl
    by_type bulk = unfold encode_total in refl

pub total_bytes :
    (f : Frame) (total : ℕ)
    → first ≡ f.frame_type
    → some total ≡ f.total_length
    → encode_total f.frame_type f.total_length ≡ be32 total
unfolding encode_total
total_bytes f total hf ht = rw (← hf, ← ht)

parse-encode_long :
    (f : Frame) (total : ℕ) (rest : Bytes)
    → first ≡ f.frame_type
    → some total ≡ f.total_length
    → total < 2 ^ 32
    → length f.payload < 2 ^ 16
    → parse (encode f ++ rest) ≡ (some f, rest)
unfolding encode
parse-encode_long f total rest hf ht htl hl =
    rw (total_bytes f total hf ht, mod-eq_of_lt hl)
      (parse_long f.channel_id (flags_of f) _ _ _ _ _ _ f.payload rest
          (from_flags-flags_of f ∙ sym hf) (from_be16-be16 _ hl)
        ∙ rw (from_be32-be32 total htl, flags_of_control f, flags_of_encrypted f, hf, ht))

-- A frame that the wire format can hold is read back from its encoding followed by any bytes, and
-- these bytes are what is left.
pub parse-encode : (f : Frame) (rest : Bytes) → IsWire f → parse (encode f ++ rest) ≡ (some f, rest)
parse-encode f rest w = by_total f.frame_type f.total_length refl refl w.total_fits
  where
    short :
        {t : FrameType}
        → t ≡ f.frame_type
        → none ≡ f.total_length
        → is_first t ≡ false
        → parse (encode f ++ rest) ≡ (some f, rest)
    short ht ho hf =
        parse-encode_short f rest (rw (← ht) hf) (no_total f ht ho hf) (sym ho) w.payload_fits

    by_total :
        (t : FrameType) (o : Option ℕ)
        → t ≡ f.frame_type
        → o ≡ f.total_length
        → TotalFits t o
        → parse (encode f ++ rest) ≡ (some f, rest)
    by_total first (some total) ht ho h = parse-encode_long f total rest ht ho h w.payload_fits
    by_total first none ht ho h = elim h [ ]
    by_total middle (some total) ht ho h = elim h [ ]
    by_total middle none ht ho h = short ht ho refl
    by_total last (some total) ht ho h = elim h [ ]
    by_total last none ht ho h = short ht ho refl
    by_total bulk (some total) ht ho h = elim h [ ]
    by_total bulk none ht ho h = short ht ho refl
