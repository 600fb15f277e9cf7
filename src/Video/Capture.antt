-- ===== src/Video/Capture.antt =====
-- The sources of frames, crates/aabox-aapd/src/channels/video/source.rs: the test pattern, and the
-- screen capture with its buffer. The clock and the process are left out: what the process writes is
-- an input.
use aabox.Common.{
  ℕ, zero, suc, ◌+◌, ◌-◌, ◌/◌, ◌%◌, ◌^◌, ◌&&◌, ◌||◌, min, Bool, true, false, Option, none, some,
  Result, ok, err, List, [], ◌∷◌, ◌++◌, length, get_elem?, get_or, take, drop, ltb, ◌==◌,
  if◌then◌else◌, Bytes,
}
use aabox.Effect.{Error}
use aabox.Nal.{split_nals, nal_unit_type, is_slice, slice_idr, group_access_units}

pub record VideoFrame : Type 0 where
  pub annex_b : Bytes
  pub pts_us : ℕ
  pub keyframe : Bool

abbrev pub any_nal : (ℕ → Bool) → List Bytes → Bool
any_nal test [] = false
any_nal test (n ∷ ns) = test (nal_unit_type n) || any_nal test ns

unfoldable pub au_has_idr : Bytes → Bool
au_has_idr au = any_nal (λ t. t == slice_idr) (split_nals au)

unfoldable pub au_has_slice : Bytes → Bool
au_has_slice au = any_nal is_slice (split_nals au)

-- `saturating_add` on 64 bits.
abbrev pub saturating_add : ℕ → ℕ → ℕ
saturating_add a b = min (a + b) (2 ^ 64 - 1)

pub record TestPatternVideoSource : Type 0 where
  pub access_units : List Bytes
  pub next_idx : ℕ
  pub frame_interval_us : ℕ
  pub pts_us : ℕ

unfoldable pub new_pattern : Bytes → TestPatternVideoSource
new_pattern bytes = record {
  access_units = group_access_units bytes;
  next_idx = 0;
  frame_interval_us = 1000000 / 30;
  pts_us = 0;
}

abbrev pub frame_of : Bytes → ℕ → VideoFrame
frame_of au pts = record { annex_b = au; pts_us = pts; keyframe = au_has_idr au }

abbrev pattern_frame : Option Bytes → ℕ → Option VideoFrame
pattern_frame none pts = none
pattern_frame (some au) pts = some (frame_of au pts)

-- The frame is due at `start` plus its time.
unfoldable pub next_pattern : TestPatternVideoSource → Option VideoFrame × TestPatternVideoSource
unfolding au_has_idr
next_pattern s = if length s.access_units == 0 then (none, s) else (
  pattern_frame (get_elem? s.access_units s.next_idx) s.pts_us,
  record s {
    next_idx = (s.next_idx + 1) % length s.access_units;
    pts_us = saturating_add s.pts_us s.frame_interval_us;
  },
)

-- The search down from the offset before `k`.
unfoldable pub last_code_loop : ℕ → Bytes → Option ℕ
last_code_loop zero buf = none
last_code_loop (suc i) buf =
    let earlier = last_code_loop i buf in
    if get_or buf i 0 == 0 && (get_or buf (i + 1) 0 == 0 && get_or buf (i + 2) 0 == 1)
    then (if ltb 0 i && get_or buf (i - 1) 0 == 0 then some (i - 1) else some i)
    else earlier

unfoldable pub find_last_start_code : Bytes → Option ℕ
unfolding last_code_loop
find_last_start_code buf = if ltb (length buf) 3 then none else last_code_loop (length buf - 2) buf

pub record ScreenRecordVideoSource : Type 0 where
  pub stdout : Bool
  pub leftover : Bytes
  pub queued : List Bytes
  pub capture_pts_us : ℕ
  pub interval_us : ℕ

abbrev at_least_one : ℕ → ℕ
at_least_one n = if ltb n 1 then 1 else n

-- `spawn`, where the process could be started.
unfoldable pub spawn : ℕ → ScreenRecordVideoSource
spawn fps = record {
  stdout = true;
  leftover = [];
  queued = [];
  capture_pts_us = 0;
  interval_us = 1000000 / at_least_one fps;
}

abbrev pub non_empty : List Bytes → List Bytes
non_empty [] = []
non_empty (au ∷ aus) = if length au == 0 then non_empty aus else au ∷ non_empty aus

-- The units, and the last of them where it has no slice.
unfoldable pub without_trailing : List Bytes → List Bytes × Bytes
without_trailing [] = ([], [])
without_trailing (au ∷ []) = if au_has_slice au then (au ∷ [], []) else ([], au)
without_trailing (au ∷ (au' ∷ aus)) =
    let split = without_trailing (au' ∷ aus) in (au ∷ split.0, split.1)

-- What is done to `leftover` and `queued` once the last start code is known.
unfoldable pub regroup : Option ℕ → Bytes → ScreenRecordVideoSource → ScreenRecordVideoSource
unfolding without_trailing au_has_slice
regroup none buf s = record s { leftover = buf }
regroup (some last_start) buf s =
    let split = without_trailing (group_access_units (take last_start buf)) in
    if length (take last_start buf) == 0
    then record s { leftover = drop last_start buf }
    else record s {
      leftover = split.1 ++ drop last_start buf;
      queued = s.queued ++ non_empty split.0;
    }

-- What one read of at least a byte adds.
unfoldable pub absorb : Bytes → ScreenRecordVideoSource → ScreenRecordVideoSource
unfolding regroup find_last_start_code
absorb chunk s = regroup (find_last_start_code (s.leftover ++ chunk)) (s.leftover ++ chunk) s

-- A frame, the end of the source, or the wait for what the process writes next.
pub data Captured : Type 0 where
  captured : VideoFrame → Captured
  ended : Captured
  waits : Captured

abbrev pub taken :
    List Bytes → ScreenRecordVideoSource → Option (VideoFrame × ScreenRecordVideoSource)
taken [] s = none
taken (au ∷ aus) s = some (
  frame_of au s.capture_pts_us,
  record s { queued = aus; capture_pts_us = saturating_add s.capture_pts_us s.interval_us },
)

abbrev pub take_queued : ScreenRecordVideoSource → Option (VideoFrame × ScreenRecordVideoSource)
take_queued s = taken s.queued s

abbrev capture_result :
    Option (VideoFrame × ScreenRecordVideoSource)
    → Captured × ScreenRecordVideoSource
    → Captured × ScreenRecordVideoSource
capture_result (some (frame, s)) otherwise = (captured frame, s)
capture_result none otherwise = otherwise

-- `next_frame`, on the reads that complete.
unfoldable pub next_captured :
    List (Result Error Bytes) → ScreenRecordVideoSource → Captured × ScreenRecordVideoSource
unfolding absorb au_has_idr
next_captured [] s = capture_result (take_queued s) (if s.stdout then (waits, s) else (ended, s))
next_captured (err e ∷ reads) s = capture_result (take_queued s) (ended, s)
next_captured (ok chunk ∷ reads) s =
    let more = next_captured reads (absorb chunk s) in
    capture_result (take_queued s)
      (if s.stdout then (if length chunk == 0 then (ended, s) else more) else (ended, s))

unfoldable pub close : ScreenRecordVideoSource → ScreenRecordVideoSource
close s = record s { stdout = false }
