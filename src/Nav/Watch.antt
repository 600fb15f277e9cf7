-- ===== src/Nav/Watch.antt =====
-- The watcher of the destination file, `watch_destination_file` and `check_and_push` of
-- crates/aabox-aapd/src/nav/destination_file.rs. What a look at the file gives is an input; JSON is a
-- parameter.
use aabox.Common.{
  ℕ, Bool, true, false, Bool-cases, inl, inr, Option, none, some, List, [], ◌∷◌, ◌++◌, Bytes, ◌==◌,
  if◌then◌else◌, ◌≡◌, refl, arith,
}
use aabox.Nav.Runner.{DestinationFile, into_destination}

-- `std::fs::metadata`, with the time of the change, which may be unknown.
pub data Stat : Type 0 where
  not_found stat_failed : Stat
  modified : Option ℕ → Stat

-- `read_to_string`
pub data FileText : Type 0 where
  no_file read_failed : FileText
  text : Bytes → FileText

pub data ReadResult (A : Type 0) : Type 0 where
  nothing_there unreadable : ReadResult A
  found : A → ReadResult A

abbrev same_time : Option ℕ → Option ℕ → Bool
same_time none none = true
same_time (some a) (some b) = a == b
same_time _ _ = false

module _ {Float : Type 0} (parse_float : Bytes → Option Float) (label_of : Float → Float → Bytes)
    (parse_json : Bytes → Option (DestinationFile parse_float label_of)) where
  abbrev Dest : Type 0
  Dest = DestinationFile parse_float label_of

  abbrev of_json : Option Dest → ReadResult Dest
  of_json none = unreadable
  of_json (some d) = found d

  -- `DestinationFile::read_from`
  unfoldable pub read_from : FileText → ReadResult Dest
  read_from no_file = nothing_there
  read_from read_failed = unreadable
  read_from (text t) = of_json (parse_json t)

  abbrev pushed : ReadResult Dest → List Dest
  pushed (found d) = into_destination parse_float label_of d ∷ []
  pushed _ = []

  -- The destinations sent, and `last_mtime`.
  unfoldable pub check_and_push : Stat → FileText → Option ℕ → List Dest × Option ℕ
  unfolding read_from
  check_and_push not_found file last = ([], none)
  check_and_push stat_failed file last = ([], last)
  check_and_push (modified mtime) file last =
      if same_time mtime last then ([], last) else (pushed (read_from file), mtime)

  -- The ticks, each with whether the receiver is gone.
  unfoldable pub watch_loop : List (Bool × Stat × FileText) → Option ℕ → List Dest
  unfolding check_and_push
  watch_loop [] last = []
  watch_loop ((closed, stat, file) ∷ ticks) last =
      let polled = check_and_push stat file last in
      let more = watch_loop ticks polled.1 in if closed then [] else polled.0 ++ more

  unfoldable pub watch_destination_file :
      Stat → FileText → List (Bool × Stat × FileText) → List Dest
  unfolding watch_loop check_and_push
  watch_destination_file stat file ticks =
      let polled = check_and_push stat file none in polled.0 ++ watch_loop ticks polled.1

  same_time_refl : (t : Option ℕ) → same_time t t ≡ true
  same_time_refl none = refl
  same_time_refl (some a) = ground arith

  -- A file with the same time of change is not sent a second time, whatever it holds.
  check_and_push_again :
      (stat : Stat) (file file' : FileText) (last : Option ℕ)
      → check_and_push stat file' (check_and_push stat file last).1
        ≡ ([], (check_and_push stat file last).1)
  unfolding check_and_push
  check_and_push_again not_found file file' last = refl
  check_and_push_again stat_failed file file' last = refl
  check_and_push_again (modified mtime) file file' last = elim (Bool-cases (same_time mtime last)) [
    | inl e ↦ simp e refl
    | inr e ↦ simp (e, same_time_refl mtime) refl
  ]
