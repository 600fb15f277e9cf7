-- ===== src/Dex/Leb.antt =====
-- `read_uleb128` on what the format writes for a number, and its bounds on any input.
use aabox.Common.{
  ℕ, zero, suc, ◌+◌, ◌*◌, ◌/◌, ◌%◌, ◌^◌, ◌≤◌, ◌<◌, ◌≡◌, refl, ap, ◌∙◌, true, false, Bool-cases, inl,
  inr, ok, [], ◌∷◌, ◌++◌, ltb, ltb_of_lt, if◌then◌else◌, length, drop, drop_left, ltb→lt, get_or,
  Bytes, bit_or, bit_and, arith,
}
use aabox.Common.Disjoint.{bit_or_low_high}
use aabox.Common.Masks.{bit_and_low_seven, bit_and_top}
use aabox.Dex.Adler.{pair_eq}
use aabox.Dex.{u32, uleb128_loop, read_uleb128}
use native.Mathlib.Nat.{pow-suc, div-add-mod, mod-eq_of_lt}
use native.Mathlib.Numerals.{towards_suc}

-- The groups of seven binary digits of a number below 128 ^ (k + 1), the lowest first; the top bit
-- of a byte says that another one follows.
unfoldable pub uleb128 : ℕ → ℕ → Bytes
uleb128 zero v = v ∷ []
uleb128 (suc k) v =
    let more = uleb128 k (v / 128) in if ltb v 128 then v ∷ [] else (v % 128 + 128) ∷ more

-- What stands at an offset.
at_drop :
    (buf : Bytes) (p x : ℕ) (rest : Bytes)
    → drop p buf ≡ x ∷ rest
    → (get_or buf p 0 ≡ x) × (p < length buf) × (drop (p + 1) buf ≡ rest)
at_drop [] zero x rest e = absurd (cc e)
at_drop [] (suc p) x rest e = absurd (cc e)
at_drop (y ∷ ys) zero x rest e = (cc e, omega arith, cc e)
at_drop (y ∷ ys) (suc p) x rest e =
    let (a, b, c) = at_drop ys p x rest e in
    let shifted : suc p + 1 ≡ suc (p + 1) = omega arith in
    (a, omega arith, ap (λ n. drop n (y ∷ ys)) shifted ∙ c)

last_bits : (w : ℕ) → w < 128 → (bit_and w 0x7f ≡ w) × (bit_and w 0x80 ≡ 0)
last_bits w h =
    (omega (arith, bit_and_low_seven w (omega arith)), omega (arith, bit_and_top w (omega arith)))

inner_bits : (w : ℕ) → w < 128 → (bit_and (w + 128) 0x7f ≡ w) × (bit_and (w + 128) 0x80 ≡ 128)
inner_bits w h = (
  omega (arith, bit_and_low_seven (w + 128) (omega arith)),
  omega (arith, bit_and_top (w + 128) (omega arith)),
)

-- The bits of a group, put above those so far, where they fit the word.
add_group :
    (acc w shift : ℕ)
    → acc < 2 ^ shift
    → w * 2 ^ shift < 2 ^ 32
    → bit_or acc (u32 (w * 2 ^ shift)) ≡ acc + w * 2 ^ shift
add_group acc w shift ha hf = rw (mod-eq_of_lt hf) (bit_or_low_high shift acc w ha)

module _ (rounds p shift acc w off : ℕ) (buf rest : Bytes) (hw : w < 128) (ha : acc < 2 ^ shift)
    (hf : w * 2 ^ shift < 2 ^ 32) where
  -- One round on a last byte, and on a byte with the top bit.
  last_group :
      drop p buf ≡ w ∷ rest
      → uleb128_loop (suc rounds) buf off p shift acc ≡ ok (p + 1, acc + w * 2 ^ shift)
  unfolding uleb128_loop
  last_group e =
      let (here, inside, after) = at_drop buf p w rest e in
      let (low, top) = last_bits w hw in
      rw (here, ltb_of_lt p (length buf) inside, low, top) (rw (add_group acc w shift ha hf))

  inner_group :
      drop p buf ≡ (w + 128) ∷ rest
      → uleb128_loop (suc rounds) buf off p shift acc
        ≡ uleb128_loop rounds buf off (p + 1) (shift + 7) (acc + w * 2 ^ shift)
  unfolding uleb128_loop
  inner_group e =
      let (here, inside, after) = at_drop buf p (w + 128) rest e in
      let (low, top) = inner_bits w hw in
      rw (here, ltb_of_lt p (length buf) inside, low, top) (rw (add_group acc w shift ha hf))

seven_more : (s : ℕ) → 2 ^ (s + 7) ≡ 128 * 2 ^ s
seven_more s = simp towards_suc (omega arith)

-- The lowest group and the groups above it.
groups_split : (v s : ℕ) → v * 2 ^ s ≡ v % 128 * 2 ^ s + v / 128 * 2 ^ (s + 7)
groups_split v s = omega (
  arith,
  ap (λ (t : ℕ). t * 2 ^ s) (div-add-mod v 128),
  ap (λ (t : ℕ). v / 128 * t) (seven_more s),
)

uleb128_small : (k v : ℕ) → ltb v 128 ≡ true → uleb128 (suc k) v ≡ v ∷ []
unfolding uleb128
uleb128_small k v h = rw h

uleb128_large :
    (k v : ℕ) → ltb v 128 ≡ false → uleb128 (suc k) v ≡ (v % 128 + 128) ∷ uleb128 k (v / 128)
unfolding uleb128
uleb128_large k v h = rw h

times_mono : (w p : ℕ) → w < 128 → w * p + p ≤ 128 * p
times_mono w p h = grind arith

room : (acc w s : ℕ) → acc < 2 ^ s → w < 128 → acc + w * 2 ^ s < 2 ^ (s + 7)
room acc w s h k = omega (arith, seven_more s, times_mono w (2 ^ s) k)

uleb128_loop-uleb128 :
    (k v p shift acc off : ℕ) (buf rest : Bytes)
    → drop p buf ≡ uleb128 k v ++ rest
    → v < 128 ^ suc k
    → acc < 2 ^ shift
    → v * 2 ^ shift < 2 ^ 32
    → uleb128_loop (suc k) buf off p shift acc ≡ ok (p + length (uleb128 k v), acc + v * 2 ^ shift)
uleb128_loop-uleb128 zero v p shift acc off buf rest e hv ha hf =
    unfold uleb128 in last_group 0 p shift acc v off buf rest (omega arith) ha hf e
uleb128_loop-uleb128 (suc k) v p shift acc off buf rest e hv ha hf = elim (Bool-cases (ltb v 128)) [
  | inl small ↦ rw (uleb128_small k v small) (
      last_group (suc k) p shift acc v off buf rest (ltb→lt v 128 small) ha hf
        (e ∙ ap (λ t. t ++ rest) (uleb128_small k v small)))
  | inr large ↦
      let w : ℕ = v % 128 in
      let split = groups_split v shift in
      let e' = e ∙ ap (λ t. t ++ rest) (uleb128_large k v large) in
      let (here, inside, after) = at_drop buf p (w + 128) (uleb128 k (v / 128) ++ rest) e' in
      rw (uleb128_large k v large) (
        inner_group (suc k) p shift acc w off buf (uleb128 k (v / 128) ++ rest) (omega arith) ha
          (omega arith) e'
        ∙ uleb128_loop-uleb128 k (v / 128) (p + 1) (shift + 7) (acc + w * 2 ^ shift) off buf rest
            after (omega (arith, pow-suc 128 (suc k))) (room acc w shift ha (omega arith))
            (omega arith)
        ∙ ap ok (pair_eq (omega arith) (omega arith)))
]

-- A number below 2 ^ 32 that is written in unsigned LEB128 of up to five bytes is read back at any
-- place of the file, with the offset behind it.
pub read_uleb128-uleb128 :
    (front rest : Bytes) (v : ℕ)
    → v < 2 ^ 32
    → read_uleb128 (front ++ (uleb128 4 v ++ rest)) (length front)
      ≡ ok (length front + length (uleb128 4 v), v)
unfolding read_uleb128
read_uleb128-uleb128 front rest v h =
    uleb128_loop-uleb128 4 v (length front) 0 0 (length front) (front ++ (uleb128 4 v ++ rest)) rest
      (drop_left front (uleb128 4 v ++ rest)) (omega arith) (omega arith) (omega arith)
    ∙ ap ok (pair_eq refl (omega arith))

uleb128_loop_bounds :
    (rounds p shift acc off : ℕ) (buf : Bytes) (q v : ℕ)
    → uleb128_loop rounds buf off p shift acc ≡ ok (q, v)
    → (p < q) × (q ≤ p + rounds) × (q ≤ length buf)
unfolding uleb128_loop
uleb128_loop_bounds zero p shift acc off buf q v h = absurd (cc h)
uleb128_loop_bounds (suc rounds) p shift acc off buf q v h = ground (
  arith,
  uleb128_loop_bounds rounds (p + 1) (shift + 7)
      (bit_or acc (u32 (bit_and (get_or buf p 0) 0x7f * 2 ^ shift))) off buf q v,
)

-- On any input, a number that is read takes one to five bytes, and they lie in the file.
pub read_uleb128_bounds :
    (buf : Bytes) (off q v : ℕ)
    → read_uleb128 buf off ≡ ok (q, v)
    → (off < q) × (q ≤ off + 5) × (q ≤ length buf)
unfolding read_uleb128
read_uleb128_bounds buf off q v h = uleb128_loop_bounds 5 off 0 0 off buf q v h
