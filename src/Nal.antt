-- ===== src/Nal.antt =====
-- NAL units and access units of an H.264 stream, crates/aabox-aapd/src/channels/video/nal.rs.
pub mod Lossless
pub mod Groups
mod Tests
use aabox.Common.{
  ℕ, zero, suc, ◌+◌, ◌-◌, bit_and, Bool, true, false, ◌&&◌, ◌||◌, Option, List, [], ◌∷◌, ◌++◌, leb,
  ◌==◌, if◌then◌else◌, length, get_or, take, drop, Bytes,
}

-- The length of the start code at an offset, 0 where there is none; the caller has `i + 3 <= len`.
unfoldable pub start_code_at : Bytes → ℕ → ℕ
start_code_at buf i =
    if get_or buf i 0 == 0 && get_or buf (i + 1) 0 == 0
    then if leb (i + 4) (length buf) && (get_or buf (i + 2) 0 == 0 && get_or buf (i + 3) 0 == 1)
      then 4
      else if get_or buf (i + 2) 0 == 1
      then 3
      else 0
    else 0

-- The loop from the offset `i` on; each round moves it by one at least.
unfoldable pub offsets_loop : ℕ → ℕ → Bytes → List (ℕ × ℕ)
unfolding start_code_at
offsets_loop zero i buf = []
offsets_loop (suc fuel) i buf =
    let prefix_len = start_code_at buf i in
    let rest = offsets_loop fuel (i + (if prefix_len == 0 then 1 else prefix_len)) buf in
    if leb (i + 3) (length buf)
    then if prefix_len == 0 then rest else (i, prefix_len) ∷ rest
    else []

unfoldable pub start_code_offsets : Bytes → List (ℕ × ℕ)
unfolding offsets_loop
start_code_offsets buf = offsets_loop (length buf) 0 buf

-- `&buf[start..end]` for each code, where `end` is the next code's start or the end of the buffer.
unfoldable pub slices : Bytes → List (ℕ × ℕ) → List Bytes
slices buf [] = []
slices buf ((start, n) ∷ []) = drop start buf ∷ []
slices buf ((start, n) ∷ (end, m) ∷ codes) =
    take (end - start) (drop start buf) ∷ slices buf ((end, m) ∷ codes)

unfoldable pub split_nals : Bytes → List Bytes
unfolding slices start_code_offsets
split_nals buf = slices buf (start_code_offsets buf)

-- The rounds `i` to `i + n - 1` of the search for the header byte.
unfoldable pub header_loop : ℕ → ℕ → Bytes → ℕ
header_loop zero i nal = 0
header_loop (suc n) i nal =
    let rest = header_loop n (i + 1) nal in
    if get_or nal i 0 == 0 && get_or nal (i + 1) 0 == 0
    then if get_or nal (i + 2) 0 == 1 && leb (i + 4) (length nal)
      then bit_and (get_or nal (i + 3) 0) 0x1f
      else if get_or nal (i + 2) 0 == 0
          && (leb (i + 4) (length nal) && (get_or nal (i + 3) 0 == 1 && leb (i + 5) (length nal)))
      then bit_and (get_or nal (i + 4) 0) 0x1f
      else rest
    else rest

unfoldable pub nal_unit_type : Bytes → ℕ
unfolding header_loop
nal_unit_type nal = header_loop (length nal - 3) 0 nal

abbrev pub slice_non_idr : ℕ
slice_non_idr = 1

abbrev pub slice_idr : ℕ
slice_idr = 5

unfoldable pub is_slice : ℕ → Bool
is_slice nut_val = nut_val == slice_non_idr || nut_val == slice_idr

-- The units from here on, `current` holding the bytes since the last one. What is left at the end
-- is a unit of its own.
unfoldable pub group_loop : Bytes → List Bytes → List Bytes
unfolding is_slice nal_unit_type
group_loop [] [] = []
group_loop (b ∷ current) [] = (b ∷ current) ∷ []
group_loop current (n ∷ nals) =
    let flushed = group_loop [] nals in
    let kept = group_loop (current ++ n) nals in
    if is_slice (nal_unit_type n) then (current ++ n) ∷ flushed else kept

unfoldable pub group_access_units : Bytes → List Bytes
unfolding group_loop split_nals
group_access_units buf = group_loop [] (split_nals buf)
