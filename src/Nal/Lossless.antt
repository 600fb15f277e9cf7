-- ===== src/Nal/Lossless.antt =====
-- No byte behind the first start code is lost or moved.
use aabox.Common.{
  concat, ℕ, zero, suc, ◌+◌, ◌-◌, ◌≤◌, ◌≡◌, refl, sym, ap, ◌∙◌, subst, Bool-cases, inl, inr, List,
  [], ◌∷◌, ◌++◌, append_assoc, append-nil, leb, ◌==◌, if◌then◌else◌, length, take, drop,
  take-append-drop, drop-drop, Bytes, arith,
}
use aabox.Nal.{
  start_code_at, offsets_loop, start_code_offsets, slices, split_nals, nal_unit_type, is_slice,
  group_loop, group_access_units,
}

-- Offsets that grow, from `low` on.
data Ascending : ℕ → List (ℕ × ℕ) → Type 0 where
  nil : {low : ℕ} → Ascending low []
  cons :
      {low start n : ℕ} {codes : List (ℕ × ℕ)}
      → low ≤ start
      → Ascending start codes
      → Ascending low ((start, n) ∷ codes)

lower :
    {low low' : ℕ} {codes : List (ℕ × ℕ)} → low' ≤ low → Ascending low codes → Ascending low' codes
lower h nil = nil
lower h (cons k a) = cons (omega arith) a

offsets_loop-Ascending : (fuel i : ℕ) (buf : Bytes) → Ascending i (offsets_loop fuel i buf)
unfolding offsets_loop
offsets_loop-Ascending zero i buf = nil
offsets_loop-Ascending (suc fuel) i buf =
    let n = start_code_at buf i in
    let step = if n == 0 then 1 else n in
    let rest = offsets_loop-Ascending fuel (i + step) buf in
    elim (Bool-cases (leb (i + 3) (length buf))) [
      | inr short ↦ rw short nil
      | inl long ↦ rw long (elim (Bool-cases (n == 0)) [
        | inl none ↦ rw none (lower (omega arith) (offsets_loop-Ascending fuel (i + 1) buf))
        | inr some ↦
            rw some
              (cons (omega arith) (lower (omega arith) (offsets_loop-Ascending fuel (i + n) buf)))
      ])
    ]

concat-slices :
    (buf : Bytes) (start n : ℕ) (codes : List (ℕ × ℕ))
    → Ascending start codes
    → concat (slices buf ((start, n) ∷ codes)) ≡ drop start buf
unfolding slices
concat-slices buf start n [] a = append-nil (drop start buf)
concat-slices buf start n ((end, m) ∷ codes) (cons h a) =
    let apart : start + (end - start) ≡ end = omega arith in
    ap (λ t. take (end - start) (drop start buf) ++ t) (concat-slices buf end m codes a)
    ∙ (ap (λ k. take (end - start) (drop start buf) ++ drop k buf) (sym apart)
        ∙ (ap (λ t. take (end - start) (drop start buf) ++ t) (drop-drop start (end - start) buf)
            ∙ take-append-drop (end - start) (drop start buf)))

concat-group_loop :
    (current : Bytes) (nals : List Bytes)
    → concat (group_loop current nals) ≡ current ++ concat nals
unfolding group_loop
concat-group_loop [] [] = refl
concat-group_loop (b ∷ current) [] = refl
concat-group_loop current (n ∷ nals) = elim (Bool-cases (is_slice (nal_unit_type n))) [
  | inl slice ↦ rw (slice, concat-group_loop [] nals, append_assoc current n (concat nals)) refl
  | inr other ↦
      rw (other, concat-group_loop (current ++ n) nals, append_assoc current n (concat nals)) refl
]

tail_Ascending :
    {low start n : ℕ} {codes : List (ℕ × ℕ)}
    → Ascending low ((start, n) ∷ codes)
    → Ascending start codes
tail_Ascending (cons h a) = a

-- When the first start code of a buffer stands at an offset, then the NAL units put together, and
-- the access units put together, are the buffer from that offset on: no byte behind it is lost,
-- moved or sent twice.
pub concat-group_access_units :
    (buf : Bytes) (start n : ℕ) (codes : List (ℕ × ℕ))
    → start_code_offsets buf ≡ (start, n) ∷ codes
    → (concat (split_nals buf) ≡ drop start buf)
      × (concat (group_access_units buf) ≡ drop start buf)
unfolding group_access_units split_nals start_code_offsets
concat-group_access_units buf start n codes e =
    let a : Ascending 0 ((start, n) ∷ codes) =
      subst (Ascending 0) e (offsets_loop-Ascending (length buf) 0 buf) in
    let nals : concat (split_nals buf) ≡ drop start buf =
      ap (λ c. concat (slices buf c)) e ∙ concat-slices buf start n codes (tail_Ascending a) in
    (nals, concat-group_loop [] (split_nals buf) ∙ nals)
