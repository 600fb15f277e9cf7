-- ===== src/Video/StartCodes.antt =====
-- Where the start codes stand that the screen capture looks for.
use aabox.Common.{
  ℕ, zero, suc, ◌+◌, ◌-◌, ◌≤◌, ◌<◌, ◌&&◌, true, false, Bool-cases, inl, inr, Option, none, some,
  List, [], ◌∷◌, length, get_or, take, drop, length-take, length-drop, ltb, ltb→le, leb, ◌==◌,
  Bytes, ◌≡◌, ◌≢◌, ◌⊎◌, refl, sym, ap, ◌∙◌, arith,
}
use aabox.Nal.{start_code_at, start_code_offsets, offsets_loop}
use aabox.Video.Capture.{last_code_loop, find_last_start_code}

-- A start code stands at an offset: the long one, or the short one.
pub data Code (b : Bytes) (i : ℕ) : Type 0 where
  long_code :
      get_or b i 0 ≡ 0
      → get_or b (i + 1) 0 ≡ 0
      → get_or b (i + 2) 0 ≡ 0
      → get_or b (i + 3) 0 ≡ 1
      → i + 4 ≤ length b
      → Code b i
  short_code :
      get_or b i 0 ≡ 0
      → get_or b (i + 1) 0 ≡ 0
      → get_or b (i + 2) 0 ≡ 1
      → i + 3 ≤ length b
      → (i ≡ 0) ⊎ (get_or b (i - 1) 0 ≢ 0)
      → Code b i

pub data Last (b : Bytes) : Option ℕ → Type 0 where
  no_code : Last b none
  code_at : (i : ℕ) → Code b i → Last b (some i)

loop-Last : (k : ℕ) (b : Bytes) → k + 2 ≤ length b → Last b (last_code_loop k b)
unfolding last_code_loop
loop-Last zero b h = no_code
loop-Last (suc i) b h =
    elim (Bool-cases (get_or b i 0 == 0 && (get_or b (i + 1) 0 == 0 && get_or b (i + 2) 0 == 1))) [
      | inr e ↦ rw e (loop-Last i b (omega arith))
      | inl e ↦
          let zero_0 : get_or b i 0 ≡ 0 = ground (arith, e) in
          let zero_1 : get_or b (i + 1) 0 ≡ 0 = ground (arith, e) in
          let one_2 : get_or b (i + 2) 0 ≡ 1 = ground (arith, e) in
          elim (Bool-cases (ltb 0 i && get_or b (i - 1) 0 == 0)) [
            | inl f ↦
                let above : 0 < i = ground (arith, f) in
                let back : i - 1 + 1 ≡ i = omega (arith, above) in
                let back_2 : i - 1 + 2 ≡ i + 1 = omega (arith, above) in
                let back_3 : i - 1 + 3 ≡ i + 2 = omega (arith, above) in
                let before : get_or b (i - 1) 0 ≡ 0 = ground (arith, f) in
                let read = λ (t : ℕ). get_or b t 0 in
                rw (e, f)
                  (code_at (i - 1) (
                    long_code before (ap read back ∙ zero_0) (ap read back_2 ∙ zero_1)
                      (ap read back_3 ∙ one_2) (omega (arith, h, above))))
            | inr f ↦
                let first_or_not : (i ≡ 0) ⊎ (get_or b (i - 1) 0 ≢ 0) =
                  elim (Bool-cases (ltb 0 i)) [
                    | inl g ↦ inr (λ z. absurd (ground (arith, f, g, z)))
                    | inr g ↦ inl (omega (arith, ltb→le 0 i g))
                  ] in
                rw (e, f)
                  (code_at i (short_code zero_0 zero_1 one_2 (omega (arith, h)) first_or_not))
          ]
    ]

pub find_last_start_code-Last : (b : Bytes) → Last b (find_last_start_code b)
unfolding find_last_start_code
find_last_start_code-Last b = elim (Bool-cases (ltb (length b) 3)) [
  | inl e ↦ rw e no_code
  | inr e ↦
      let room : length b - 2 + 2 ≤ length b = omega (arith, ltb→le (length b) 3 e) in
      rw e (loop-Last (length b - 2) b room)
]

pub get_or-take : (i j : ℕ) (b : Bytes) → j < i → get_or (take i b) j 0 ≡ get_or b j 0
get_or-take zero j b h = absurd (omega arith)
get_or-take (suc i) j [] h = refl
get_or-take (suc i) zero (x ∷ b) h = refl
get_or-take (suc i) (suc j) (x ∷ b) h = get_or-take i j b (omega arith)

pub get_or-drop : (i j : ℕ) (b : Bytes) → get_or (drop i b) j 0 ≡ get_or b (i + j) 0
get_or-drop zero j b = ap (λ t. get_or b t 0) (omega arith)
get_or-drop (suc i) j [] = refl
get_or-drop (suc i) j (x ∷ b) =
    let next : suc i + j ≡ suc (i + j) = omega arith in
    get_or-drop i j b ∙ ap (λ t. get_or (x ∷ b) t 0) (sym next)

-- What stands from a code on begins with it.
pub drop-Begins : (b : Bytes) (i : ℕ) → Code b i → Code (drop i b) 0
drop-Begins b i (long_code a0 a1 a2 a3 h) =
    let same : i + 0 ≡ i = omega arith in
    long_code (get_or-drop i 0 b ∙ ap (λ t. get_or b t 0) same ∙ a0) (get_or-drop i 1 b ∙ a1)
      (get_or-drop i 2 b ∙ a2) (get_or-drop i 3 b ∙ a3) (omega (arith, length-drop {0} i b))
drop-Begins b i (short_code a0 a1 a2 h f) =
    let same : i + 0 ≡ i = omega arith in
    short_code (get_or-drop i 0 b ∙ ap (λ t. get_or b t 0) same ∙ a0) (get_or-drop i 1 b ∙ a1)
      (get_or-drop i 2 b ∙ a2) (omega (arith, length-drop {0} i b)) (inl refl)

differ : (m : ℕ) → m ≡ 0 → m ≡ 1 → ⊥
differ m a b = absurd (omega (arith, a, b))

short_far :
    (b : Bytes) (i : ℕ)
    → get_or b 2 0 ≡ 1
    → get_or b i 0 ≡ 0
    → get_or b (i + 1) 0 ≡ 0
    → 0 < i
    → 3 ≤ i
short_far b zero one z0 z1 h = absurd (omega arith)
short_far b (suc zero) one z0 z1 h = absurd (differ (get_or b 2 0) z1 one)
short_far b (suc (suc zero)) one z0 z1 h = absurd (differ (get_or b 2 0) z0 one)
short_far b (suc (suc (suc i))) one z0 z1 h = omega arith

long_far : (b : Bytes) (i : ℕ) → get_or b 0 0 ≡ 0 → get_or b 3 0 ≡ 1 → Code b i → 0 < i → 4 ≤ i
long_far b zero zero_0 one c h = absurd (omega arith)
long_far b (suc zero) zero_0 one (long_code a0 a1 a2 a3 l) h = absurd (differ (get_or b 3 0) a2 one)
long_far b (suc zero) zero_0 one (short_code a0 a1 a2 l (inl f)) h = absurd (omega (arith, f))
long_far b (suc zero) zero_0 one (short_code a0 a1 a2 l (inr f)) h = absurd (f zero_0)
long_far b (suc (suc zero)) zero_0 one (long_code a0 a1 a2 a3 l) h =
    absurd (differ (get_or b 3 0) a1 one)
long_far b (suc (suc zero)) zero_0 one (short_code a0 a1 a2 l f) h =
    absurd (differ (get_or b 3 0) a1 one)
long_far b (suc (suc (suc zero))) zero_0 one (long_code a0 a1 a2 a3 l) h =
    absurd (differ (get_or b 3 0) a0 one)
long_far b (suc (suc (suc zero))) zero_0 one (short_code a0 a1 a2 l f) h =
    absurd (differ (get_or b 3 0) a0 one)
long_far b (suc (suc (suc (suc i)))) zero_0 one c h = omega arith

zeros :
    (b : Bytes) (i : ℕ) → Code b i → (get_or b i 0 ≡ 0) × (get_or b (i + 1) 0 ≡ 0) × (i ≤ length b)
zeros b i (long_code a0 a1 a2 a3 h) = (a0, a1, omega (arith, h))
zeros b i (short_code a0 a1 a2 h f) = (a0, a1, omega (arith, h))

-- Between two codes is room for the first.
pub take-Begins : (b : Bytes) (i : ℕ) → Code b 0 → Code b i → 0 < i → Code (take i b) 0
take-Begins b i (long_code a0 a1 a2 a3 l) d h =
    let far = long_far b i a0 a3 d h in
    let (z0, z1, inside) = zeros b i d in
    long_code (get_or-take i 0 b (omega arith) ∙ a0) (get_or-take i 1 b (omega arith) ∙ a1)
      (get_or-take i 2 b (omega arith) ∙ a2) (get_or-take i 3 b (omega arith) ∙ a3)
      (omega (arith, length-take {0} i b, far, inside))
take-Begins b i (short_code a0 a1 a2 l f) d h =
    let (z0, z1, inside) = zeros b i d in
    let far = short_far b i a2 z0 z1 h in
    short_code (get_or-take i 0 b (omega arith) ∙ a0) (get_or-take i 1 b (omega arith) ∙ a1)
      (get_or-take i 2 b (omega arith) ∙ a2) (omega (arith, length-take {0} i b, far, inside))
      (inl refl)

first_code :
    (x : ℕ) (b : Bytes) (n : ℕ)
    → start_code_at (x ∷ b) 0 ≡ suc n
    → 3 ≤ length (x ∷ b)
    → start_code_offsets (x ∷ b) ≡ (0, suc n) ∷ offsets_loop (length b) (0 + suc n) (x ∷ b)
unfolding start_code_offsets offsets_loop
first_code x b n e h =
    let fits : leb (0 + 3) (length (x ∷ b)) ≡ true = ground (arith, h) in
    let some_code : (suc n == 0) ≡ false = ground arith in rw (fits, e, some_code) refl

unfoldable pub OffsetFirst : Bytes → Type 0
OffsetFirst b = (n : ℕ) × (codes : List (ℕ × ℕ)) × (start_code_offsets b ≡ (0, n) ∷ codes)

pub Code-offset : (b : Bytes) → Code b 0 → OffsetFirst b
unfolding OffsetFirst start_code_at
Code-offset [] (long_code a0 a1 a2 a3 l) = absurd (omega (arith, l))
Code-offset [] (short_code a0 a1 a2 l f) = absurd (omega (arith, l))
Code-offset (x ∷ b) (long_code a0 a1 a2 a3 l) =
    let four : start_code_at (x ∷ b) 0 ≡ 4 = ground (arith, a0, a1, a2, a3, l) in
    (4, _, first_code x b 3 four (omega (arith, l)))
Code-offset (x ∷ b) (short_code a0 a1 a2 l f) =
    let three : start_code_at (x ∷ b) 0 ≡ 3 = ground (arith, a0, a1, a2, l) in
    (3, _, first_code x b 2 three (omega (arith, l)))
