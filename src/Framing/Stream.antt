-- ===== src/Framing/Stream.antt =====
-- `parse` on a buffer that fills up as bytes arrive.
use aabox.Common.{
  ℕ, suc, ◌+◌, ◌<◌, ◌≤◌, ◌≡◌, refl, sym, ap, ◌∙◌, ◌⊎◌, inl, inr, true, false, none, some, [], ◌∷◌,
  ◌++◌, append_assoc, append-nil, ltb, ltb_of_le, ltb_of_lt, Bool-cases, ltb→le, length, take, drop,
  length-append, take-append-drop, length-take, Bytes, from_be16, arith,
}
use aabox.Framing.{FrameType, middle, first, last, bulk, is_first, Frame, from_flags, encode, parse}
use aabox.Framing.RoundTrip.{parse_short, parse_long, IsWire, parse-encode}

-- The shapes of a buffer that starts with a whole frame.
data Found : Bytes → Type 0 where
  short :
      {buf : Bytes} (c fl hi lo : ℕ) (payload rest : Bytes)
      → buf ≡ c ∷ fl ∷ hi ∷ lo ∷ (payload ++ rest)
      → is_first (from_flags fl) ≡ false
      → from_be16 hi lo ≡ length payload
      → Found buf
  long :
      {buf : Bytes} (c fl hi lo t0 t1 t2 t3 : ℕ) (payload rest : Bytes)
      → buf ≡ c ∷ fl ∷ hi ∷ lo ∷ t0 ∷ t1 ∷ t2 ∷ t3 ∷ (payload ++ rest)
      → from_flags fl ≡ first
      → from_be16 hi lo ≡ length payload
      → Found buf

split_at :
    (n : ℕ) (xs : Bytes) → n ≤ length xs → (n ≡ length (take n xs)) × (take n xs ++ drop n xs ≡ xs)
split_at n xs h = (omega (arith, length-take n xs), take-append-drop n xs)

is_first→first : (t : FrameType) → is_first t ≡ true → t ≡ first
is_first→first first h = refl
is_first→first middle h = cc
is_first→first last h = cc
is_first→first bulk h = cc

Outcome : Bytes → Type 0
Outcome buf = (parse buf ≡ (none, buf)) ⊎ Found buf

-- Four bytes at least, and a type other than FIRST.
short_cases :
    (c fl hi lo : ℕ) (tail : Bytes)
    → is_first (from_flags fl) ≡ false
    → Outcome (c ∷ fl ∷ hi ∷ lo ∷ tail)
unfolding Outcome parse
short_cases c fl hi lo tail hf =
    elim (Bool-cases (ltb (suc (suc (suc (suc (length tail))))) (4 + from_be16 hi lo))) [
      | inl few ↦
          inl (rw (hf, ltb_of_le (suc (suc (suc (suc (length tail))))) 4 (omega arith)) (rw few))
      | inr enough ↦
          let (n, joined) = split_at (from_be16 hi lo) tail (omega (arith, ltb→le _ _ enough)) in
          inr (short c fl hi lo _ _ (ap (λ t. c ∷ fl ∷ hi ∷ lo ∷ t) (sym joined)) hf n)
    ]

long_cases :
    (c fl hi lo t0 t1 t2 t3 : ℕ) (tail : Bytes)
    → from_flags fl ≡ first
    → Outcome (c ∷ fl ∷ hi ∷ lo ∷ t0 ∷ t1 ∷ t2 ∷ t3 ∷ tail)
unfolding Outcome parse
long_cases c fl hi lo t0 t1 t2 t3 tail hf =
    let n : ℕ = suc (suc (suc (suc (suc (suc (suc (suc (length tail)))))))) in
    elim (Bool-cases (ltb n (8 + from_be16 hi lo))) [
      | inl few ↦ inl (rw (hf, ltb_of_le n 4 (omega arith)) (rw few))
      | inr enough ↦
          let (m, joined) = split_at (from_be16 hi lo) tail (omega (arith, ltb→le _ _ enough)) in
          inr (
            long c fl hi lo t0 t1 t2 t3 _ _
              (ap (λ t. c ∷ fl ∷ hi ∷ lo ∷ t0 ∷ t1 ∷ t2 ∷ t3 ∷ t) (sym joined)) hf m)
    ]

-- FIRST, with fewer than the four bytes of the total length.
cut_cases :
    (c fl hi lo : ℕ) (tail : Bytes)
    → from_flags fl ≡ first
    → length tail < 4
    → Outcome (c ∷ fl ∷ hi ∷ lo ∷ tail)
unfolding Outcome parse
cut_cases c fl hi lo tail hf h =
    let n : ℕ = suc (suc (suc (suc (length tail)))) in
    inl (rw (hf, ltb_of_le n 4 (omega arith), ltb_of_lt n (8 + from_be16 hi lo) (omega arith)))

first_cases :
    (c fl hi lo : ℕ) (tail : Bytes) → from_flags fl ≡ first → Outcome (c ∷ fl ∷ hi ∷ lo ∷ tail)
first_cases c fl hi lo (a ∷ b ∷ d ∷ e ∷ tail) hf = long_cases c fl hi lo a b d e tail hf
first_cases c fl hi lo [] hf = cut_cases c fl hi lo [] hf (omega arith)
first_cases c fl hi lo (a ∷ []) hf = cut_cases c fl hi lo _ hf (omega arith)
first_cases c fl hi lo (a ∷ b ∷ []) hf = cut_cases c fl hi lo _ hf (omega arith)
first_cases c fl hi lo (a ∷ b ∷ d ∷ []) hf = cut_cases c fl hi lo _ hf (omega arith)

-- Every buffer starts with a whole frame, or `parse` answers `Ok(None)` and leaves it alone.
parse_cases : (buf : Bytes) → Outcome buf
parse_cases [] = unfold Outcome parse in inl refl
parse_cases (c ∷ []) = unfold Outcome parse in inl refl
parse_cases (c ∷ fl ∷ []) = unfold Outcome parse in inl refl
parse_cases (c ∷ fl ∷ hi ∷ []) = unfold Outcome parse in inl refl
parse_cases (c ∷ fl ∷ hi ∷ lo ∷ tail) = elim (Bool-cases (is_first (from_flags fl))) [
  | inl h ↦ first_cases c fl hi lo tail (is_first→first _ h)
  | inr h ↦ short_cases c fl hi lo tail h
]

-- When a frame is parsed, the buffer that is left is shorter by the payload and a header of four
-- bytes at least.
pub parse_shortens :
    (buf : Bytes) {f : Frame} {rest : Bytes}
    → parse buf ≡ (some f, rest)
    → length rest + length f.payload + 4 ≤ length buf
unfolding Outcome
parse_shortens buf {f} {rest} h = by_case (parse_cases buf)
  where
    by_case : Outcome buf → length rest + length f.payload + 4 ≤ length buf
    by_case (inl n) = absurd (cc (n, h))
    by_case (inr (short c fl hi lo payload tail e hf hl)) =
        let seen =
          sym h ∙ ap parse e ∙ parse_short c fl hi lo payload tail (from_flags fl) refl hf hl in
        ground (arith, ap length e, seen, length-append payload tail)
    by_case (inr (long c fl hi lo t0 t1 t2 t3 payload tail e hf hl)) =
        let seen = sym h ∙ ap parse e ∙ parse_long c fl hi lo t0 t1 t2 t3 payload tail hf hl in
        ground (arith, ap length e, seen, length-append payload tail)

-- When a frame is parsed from a buffer, the same frame is parsed after more bytes arrive behind
-- it, and they are left behind the rest.
pub parse-append :
    (buf more : Bytes) {f : Frame} {rest : Bytes}
    → parse buf ≡ (some f, rest)
    → parse (buf ++ more) ≡ (some f, rest ++ more)
unfolding Outcome
parse-append buf more {f} {rest} h = by_case (parse_cases buf)
  where
    by_case : Outcome buf → parse (buf ++ more) ≡ (some f, rest ++ more)
    by_case (inl n) = cc
    by_case (inr (short c fl hi lo payload tail e hf hl)) =
        let seen = parse_short c fl hi lo payload tail (from_flags fl) refl hf hl in
        let seen' = parse_short c fl hi lo payload (tail ++ more) (from_flags fl) refl hf hl in
        rw (e, append_assoc) (cc (seen, seen', e))
    by_case (inr (long c fl hi lo t0 t1 t2 t3 payload tail e hf hl)) =
        let seen = parse_long c fl hi lo t0 t1 t2 t3 payload tail hf hl in
        let seen' = parse_long c fl hi lo t0 t1 t2 t3 payload (tail ++ more) hf hl in
        rw (e, append_assoc) (cc (seen, seen', e))

-- On a proper prefix of the encoding of a frame that the wire format can hold, `parse` gives no
-- frame and leaves the buffer as it is.
pub parse_partial :
    (f : Frame) (front : Bytes) (x : ℕ) (back : Bytes)
    → IsWire f
    → encode f ≡ front ++ (x ∷ back)
    → parse front ≡ (none, front)
unfolding Outcome
parse_partial f front x back w e = by_case (parse_cases front)
  where
    whole : parse (front ++ (x ∷ back)) ≡ (some f, [])
    whole = rw (append-nil, e) at (parse-encode f [] w)

    never : {g : Frame} (rest : Bytes) → parse front ≡ (some g, rest) → ⊥
    never rest h =
        let left = ap (λ t. length t.1) (sym whole ∙ parse-append front (x ∷ back) h) in
        omega (arith, left, length-append rest (x ∷ back))

    by_case : Outcome front → parse front ≡ (none, front)
    by_case (inl n) = n
    by_case (inr (short c fl hi lo payload tail p hf hl)) =
        absurd
          (never tail (ap parse p ∙ parse_short c fl hi lo payload tail (from_flags fl) refl hf hl))
    by_case (inr (long c fl hi lo t0 t1 t2 t3 payload tail p hf hl)) =
        absurd (never tail (ap parse p ∙ parse_long c fl hi lo t0 t1 t2 t3 payload tail hf hl))
