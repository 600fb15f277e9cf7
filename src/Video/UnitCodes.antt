-- ===== src/Video/UnitCodes.antt =====
-- Each access unit begins with a start code.
use aabox.Common.{
  ℕ, zero, suc, ◌+◌, ◌-◌, ◌≤◌, ◌<◌, ◌&&◌, true, false, Bool-cases, inl, inr, List, [], ◌∷◌, ◌++◌,
  length, get_or, take, drop, length-take, length-drop, length-append, leb, ◌==◌, Bytes, ◌≡◌, refl,
  ap, ◌∙◌, arith,
}
use aabox.Nal.{start_code_at, start_code_offsets, offsets_loop, group_access_units}
use aabox.Nal.{split_nals, slices, group_loop, is_slice, nal_unit_type}
use aabox.Common.{All}
use aabox.Video.StartCodes.{Code, long_code, short_code, get_or-take, get_or-drop}

-- The bytes of a code of `n` bytes at an offset.
data Coded (b : Bytes) (i n : ℕ) : Type 0 where
  coded_long :
      n ≡ 4
      → get_or b i 0 ≡ 0
      → get_or b (i + 1) 0 ≡ 0
      → get_or b (i + 2) 0 ≡ 0
      → get_or b (i + 3) 0 ≡ 1
      → i + 4 ≤ length b
      → Coded b i n
  coded_short :
      n ≡ 3
      → get_or b i 0 ≡ 0
      → get_or b (i + 1) 0 ≡ 0
      → get_or b (i + 2) 0 ≡ 1
      → i + 3 ≤ length b
      → Coded b i n

start_code_at-Coded :
    (b : Bytes) (i : ℕ)
    → i + 3 ≤ length b
    → (start_code_at b i == 0) ≡ false
    → Coded b i (start_code_at b i)
unfolding start_code_at
start_code_at-Coded b i h e = elim (Bool-cases (get_or b i 0 == 0 && get_or b (i + 1) 0 == 0)) [
  | inr z ↦ absurd (ground (arith, z, e))
  | inl z ↦
      let zero_0 : get_or b i 0 ≡ 0 = ground (arith, z) in
      let zero_1 : get_or b (i + 1) 0 ≡ 0 = ground (arith, z) in
      elim (Bool-cases
        (leb (i + 4) (length b) && (get_or b (i + 2) 0 == 0 && get_or b (i + 3) 0 == 1))) [
          | inl l ↦
              rw (z, l)
                (coded_long refl zero_0 zero_1 (ground (arith, l)) (ground (arith, l))
                  (ground (arith, l)))
          | inr l ↦
              let one : get_or b (i + 2) 0 ≡ 1 = ground (arith, z, l, e) in
              let tested : (get_or b (i + 2) 0 == 1) ≡ true = ground (arith, one) in
              rw (z, l, tested) (coded_short refl zero_0 zero_1 one h)
        ]
]

-- Codes at offsets from `low` on, none inside another.
data Spaced (b : Bytes) : ℕ → List (ℕ × ℕ) → Type 0 where
  none_left : {low : ℕ} → Spaced b low []
  and_code :
      {low start n : ℕ} {codes : List (ℕ × ℕ)}
      → low ≤ start
      → Coded b start n
      → Spaced b (start + n) codes
      → Spaced b low ((start, n) ∷ codes)

lower_Spaced :
    {b : Bytes} {low low' : ℕ} {codes : List (ℕ × ℕ)}
    → low' ≤ low
    → Spaced b low codes
    → Spaced b low' codes
lower_Spaced h none_left = none_left
lower_Spaced h (and_code le c s) = and_code (omega (arith, h, le)) c s

offsets_loop-Spaced : (fuel i : ℕ) (b : Bytes) → Spaced b i (offsets_loop fuel i b)
unfolding offsets_loop
offsets_loop-Spaced zero i b = none_left
offsets_loop-Spaced (suc fuel) i b =
    let n = start_code_at b i in
    elim (Bool-cases (leb (i + 3) (length b))) [
      | inr short ↦ rw short none_left
      | inl long ↦ elim (Bool-cases (n == 0)) [
        | inl zero_n ↦
            rw (long, zero_n) (lower_Spaced (omega arith) (offsets_loop-Spaced fuel (i + 1) b))
        | inr some_n ↦
            rw (long, some_n)
              (and_code (omega arith) (start_code_at-Coded b i (ground (arith, long)) some_n)
                (offsets_loop-Spaced fuel (i + n) b))
      ]
    ]

drop-Code : (b : Bytes) (i n : ℕ) → Coded b i n → Code (drop i b) 0
drop-Code b i n (coded_long e a0 a1 a2 a3 h) =
    let same : i + 0 ≡ i = omega arith in
    long_code (get_or-drop i 0 b ∙ ap (λ t. get_or b t 0) same ∙ a0) (get_or-drop i 1 b ∙ a1)
      (get_or-drop i 2 b ∙ a2) (get_or-drop i 3 b ∙ a3) (omega (arith, length-drop {0} i b))
drop-Code b i n (coded_short e a0 a1 a2 h) =
    let same : i + 0 ≡ i = omega arith in
    short_code (get_or-drop i 0 b ∙ ap (λ t. get_or b t 0) same ∙ a0) (get_or-drop i 1 b ∙ a1)
      (get_or-drop i 2 b ∙ a2) (omega (arith, length-drop {0} i b)) (inl refl)

-- A part that is long enough keeps the code.
take-Code : (b : Bytes) (i n k : ℕ) → Coded b i n → n ≤ k → Code (take k (drop i b)) 0
take-Code b i n k (coded_long e a0 a1 a2 a3 l) h =
    let same : i + 0 ≡ i = omega arith in
    let d = drop i b in
    long_code
      (get_or-take k 0 d (omega (arith, e, h))
        ∙ get_or-drop i 0 b
        ∙ ap (λ t. get_or b t 0) same
        ∙ a0)
      (get_or-take k 1 d (omega (arith, e, h)) ∙ get_or-drop i 1 b ∙ a1)
      (get_or-take k 2 d (omega (arith, e, h)) ∙ get_or-drop i 2 b ∙ a2)
      (get_or-take k 3 d (omega (arith, e, h)) ∙ get_or-drop i 3 b ∙ a3)
      (omega (arith, e, h, l, length-take {0} k (drop i b), length-drop {0} i b))
take-Code b i n k (coded_short e a0 a1 a2 l) h =
    let same : i + 0 ≡ i = omega arith in
    let d = drop i b in
    short_code
      (get_or-take k 0 d (omega (arith, e, h))
        ∙ get_or-drop i 0 b
        ∙ ap (λ t. get_or b t 0) same
        ∙ a0)
      (get_or-take k 1 d (omega (arith, e, h)) ∙ get_or-drop i 1 b ∙ a1)
      (get_or-take k 2 d (omega (arith, e, h)) ∙ get_or-drop i 2 b ∙ a2)
      (omega (arith, e, h, l, length-take {0} k (drop i b), length-drop {0} i b)) (inl refl)

abbrev Begun : List Bytes → Type 0
Begun = All (λ u. Code u 0)

slices-Begun :
    (b : Bytes) (low : ℕ) (codes : List (ℕ × ℕ)) → Spaced b low codes → Begun (slices b codes)
unfolding slices
slices-Begun b low [] s = tt
slices-Begun b low ((start, n) ∷ []) (and_code le c s) = (drop-Code b start n c, tt)
slices-Begun b low ((start, n) ∷ (end, m) ∷ codes) (and_code le c (and_code le' c' s)) = (
  take-Code b start n (end - start) c (omega (arith, le')),
  slices-Begun b end ((end, m) ∷ codes) (and_code (omega arith) c' s),
)

get_or-append : (c r : Bytes) (j : ℕ) → j < length c → get_or (c ++ r) j 0 ≡ get_or c j 0
get_or-append [] r j h = absurd (omega arith)
get_or-append (x ∷ c) r zero h = refl
get_or-append (x ∷ c) r (suc j) h = get_or-append c r j (omega arith)

pub append-Code : (c r : Bytes) → Code c 0 → Code (c ++ r) 0
append-Code c r (long_code a0 a1 a2 a3 l) =
    long_code (get_or-append c r 0 (omega (arith, l)) ∙ a0)
      (get_or-append c r 1 (omega (arith, l)) ∙ a1) (get_or-append c r 2 (omega (arith, l)) ∙ a2)
      (get_or-append c r 3 (omega (arith, l)) ∙ a3) (omega (arith, l, length-append {0} c r))
append-Code c r (short_code a0 a1 a2 l f) =
    short_code (get_or-append c r 0 (omega (arith, l)) ∙ a0)
      (get_or-append c r 1 (omega (arith, l)) ∙ a1) (get_or-append c r 2 (omega (arith, l)) ∙ a2)
      (omega (arith, l, length-append {0} c r)) (inl refl)

-- The bytes since the last unit: none, or begun with a code.
data Open : Bytes → Type 0 where
  no_bytes : Open []
  begun : (c : Bytes) → Code c 0 → Open c

Open-append : (c n : Bytes) → Open c → Code n 0 → Code (c ++ n) 0
Open-append [] n no_bytes d = d
Open-append c n (begun c' e) d = append-Code c n e

group_loop-Begun : (c : Bytes) (nals : List Bytes) → Open c → Begun nals → Begun (group_loop c nals)
unfolding group_loop
group_loop-Begun [] [] o h = tt
group_loop-Begun (x ∷ c) [] (begun c' e) h = (e, tt)
group_loop-Begun c (n ∷ nals) o (d, h) = elim (Bool-cases (is_slice (nal_unit_type n))) [
  | inl slice ↦ rw slice (Open-append c n o d, group_loop-Begun [] nals no_bytes h)
  | inr other ↦ rw other (group_loop-Begun (c ++ n) nals (begun (c ++ n) (Open-append c n o d)) h)
]

pub group_access_units-Begun : (b : Bytes) → All (λ u. Code u 0) (group_access_units b)
unfolding group_access_units split_nals start_code_offsets
group_access_units-Begun b =
    let spaced = offsets_loop-Spaced (length b) 0 b in
    group_loop-Begun [] (slices b (offsets_loop (length b) 0 b)) no_bytes
      (slices-Begun b 0 (offsets_loop (length b) 0 b) spaced)
