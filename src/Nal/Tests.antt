-- ===== src/Nal/Tests.antt =====
-- Examples of streams of NAL units.
use aabox.Common.{concat, ℕ, ◌≡◌, refl, List, [], ◌∷◌, drop, Bytes}
use aabox.Nal.{
  start_code_at, offsets_loop, start_code_offsets, slices, split_nals, header_loop, nal_unit_type,
  is_slice, group_loop, group_access_units,
}
use aabox.Nal.Lossless.{concat-group_access_units}
use aabox.Nal.Groups.{Grouped, group_access_units-Grouped}

-- A byte before the first start code, parameter sets, an IDR slice and another slice.
abbrev stream : Bytes
stream =
    9 ∷ 0 ∷ 0 ∷ 1 ∷ 0x67 ∷ 0xaa ∷ 0 ∷ 0 ∷ 1 ∷ 0x68 ∷ 0 ∷ 0 ∷ 0 ∷ 1 ∷ 0x65 ∷ 0xcc ∷ 0 ∷ 0 ∷ 1 ∷ 0x61
    ∷ 0xdd ∷ []

abbrev later : List (ℕ × ℕ)
later = (6, 3) ∷ (10, 4) ∷ (16, 3) ∷ []

offsets_stream : start_code_offsets stream ≡ (1, 3) ∷ later
unfolding start_code_offsets offsets_loop start_code_at
offsets_stream = refl

units_stream :
    group_access_units stream
    ≡ (0 ∷ 0 ∷ 1 ∷ 0x67 ∷ 0xaa ∷ 0 ∷ 0 ∷ 1 ∷ 0x68 ∷ 0 ∷ 0 ∷ 0 ∷ 1 ∷ 0x65 ∷ 0xcc ∷ [])
      ∷ (0 ∷ 0 ∷ 1 ∷ 0x61 ∷ 0xdd ∷ [])
      ∷ []
unfolding group_access_units group_loop split_nals slices start_code_offsets offsets_loop
    start_code_at nal_unit_type header_loop is_slice
units_stream = refl

concat-group_access_units_example :
    (concat (split_nals stream) ≡ drop 1 stream)
    × (concat (group_access_units stream) ≡ drop 1 stream)
concat-group_access_units_example = concat-group_access_units stream 1 3 later offsets_stream

group_access_units-Grouped_example : Grouped (split_nals stream) (group_access_units stream)
group_access_units-Grouped_example = group_access_units-Grouped stream
