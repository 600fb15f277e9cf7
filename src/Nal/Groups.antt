-- ===== src/Nal/Groups.antt =====
-- How the NAL units are grouped.
use aabox.Common.{
  concat, ℕ, ◌≡◌, ◌≢◌, ◌⊎◌, arith, refl, sym, ap, ◌∙◌, subst, true, false, Bool-cases, inl, inr,
  List, [], ◌∷◌, ◌++◌, append_assoc, append-nil, All, All-append, Bytes,
}
use aabox.Nal.{split_nals, nal_unit_type, is_slice, group_loop, group_access_units}

-- A coded slice: NAL unit type 1, or 5 of an IDR picture.
abbrev pub Slice : Bytes → Type 0
Slice n = (nal_unit_type n ≡ 1) ⊎ (nal_unit_type n ≡ 5)

abbrev pub NotSlice : Bytes → Type 0
NotSlice n = (nal_unit_type n ≢ 1) × (nal_unit_type n ≢ 5)

is_slice-Slice : (n : Bytes) → is_slice (nal_unit_type n) ≡ true → Slice n
unfolding is_slice
is_slice-Slice n h = ground arith

is_slice-NotSlice : (n : Bytes) → is_slice (nal_unit_type n) ≡ false → NotSlice n
unfolding is_slice
is_slice-NotSlice n h = ground arith

-- The access units of a list of NAL units: each is a slice behind the units before it that are none;
-- what stands behind the last slice is a unit of its own, unless it has no byte.
pub data Grouped : List Bytes → List Bytes → Type 0 where
  unit :
      (params : List Bytes) (n : Bytes) (nals aus : List Bytes)
      → All NotSlice params
      → Slice n
      → Grouped nals aus
      → Grouped (params ++ (n ∷ nals)) ((concat params ++ n) ∷ aus)
  trailing :
      (params : List Bytes) (b : ℕ) (rest : Bytes)
      → All NotSlice params
      → concat params ≡ b ∷ rest
      → Grouped params (concat params ∷ [])
  nothing : (params : List Bytes) → All NotSlice params → concat params ≡ [] → Grouped params []

concat-snoc : (params : List Bytes) (n : Bytes) → concat (params ++ (n ∷ [])) ≡ concat params ++ n
concat-snoc [] n = append-nil n
concat-snoc (p ∷ params) n =
    ap (λ t. p ++ t) (concat-snoc params n) ∙ sym (append_assoc p (concat params) n)

at_end :
    (params : List Bytes) (current : Bytes)
    → All NotSlice params
    → concat params ≡ current
    → Grouped params (group_loop current [])
unfolding group_loop
at_end params [] all e = nothing params all e
at_end params (b ∷ rest) all e =
    subst (λ c. Grouped params (c ∷ [])) e (trailing params b rest all e)

group_loop-Grouped :
    (nals params : List Bytes)
    → All NotSlice params
    → Grouped (params ++ nals) (group_loop (concat params) nals)
unfolding group_loop
group_loop-Grouped [] params all =
    subst (λ l. Grouped l (group_loop (concat params) [])) (sym (append-nil params))
      (at_end params (concat params) all refl)
group_loop-Grouped (n ∷ nals) params all = elim (Bool-cases (is_slice (nal_unit_type n))) [
  | inl slice ↦ rw slice (
      unit params n nals (group_loop [] nals) all (is_slice-Slice n slice)
        (group_loop-Grouped nals [] tt))
  | inr other ↦
      let more =
        group_loop-Grouped nals (params ++ (n ∷ []))
          (All-append NotSlice params (n ∷ []) all (is_slice-NotSlice n other, tt)) in
      rw other (
        subst (λ c. Grouped (params ++ (n ∷ nals)) (group_loop c nals)) (concat-snoc params n)
          (subst (λ l. Grouped l (group_loop (concat (params ++ (n ∷ []))) nals))
            (append_assoc params (n ∷ []) nals) more))
]

-- The access units of any buffer group its NAL units in order: each is a slice (NAL unit type 1 or
-- 5) behind the units before it that are none, and what stands behind the last slice is a unit of
-- its own unless it has no byte.
pub group_access_units-Grouped : (buf : Bytes) → Grouped (split_nals buf) (group_access_units buf)
unfolding group_access_units
group_access_units-Grouped buf = group_loop-Grouped (split_nals buf) [] tt
