-- ===== src/Sensor/Fixes.antt =====
-- What the log and the queue hold after an event.
use aabox.Common.{
  ℕ, ◌≤◌, Bool, true, false, Bool-cases, inl, inr, Option, none, some, ok, List, [], ◌∷◌, ◌++◌,
  append-nil, append_assoc, length, length-append, take, take_all, take-append_le, concat, map, ltb,
  ltb→lt, ltb→le, Bytes, ◌≡◌, refl, ap, sym, ◌∙◌, arith,
}
use aabox.Sensor.{
  SensorMessages, LogFiles, GpsSink, SensorHandler, try_send, forward, make_parent, append_line,
  append_gps, append_all, sensor_handle, on_event, msg_sensor_event_indication,
}

-- A file system on which every call succeeds, with what its files hold.
pub record IsWritable {F : Type 0} (fs : LogFiles F) (contents : F → Bytes → Bytes) : Type 0 where
  pub created : (d p : Bytes) (f : F) → contents (fs.create_dir_all d f).1 p ≡ contents f p
  pub opened : (p : Bytes) (f : F) → (fs.open_append p f).0 ≡ ok tt
  pub opened_kept : (p : Bytes) (f : F) → contents (fs.open_append p f).1 p ≡ contents f p
  pub written : (p b : Bytes) (f : F) → (fs.write_all p b f).0 ≡ ok tt
  pub appended : (p b : Bytes) (f : F) → contents (fs.write_all p b f).1 p ≡ contents f p ++ b
  pub flushed_kept : (p : Bytes) (f : F) → contents (fs.flush p f).1 p ≡ contents f p

full_queue :
    {Fix : Type 0} (q : List Fix) (n : ℕ) (xs : List Fix)
    → n ≤ length q
    → length q ≤ n
    → take n (q ++ xs) ≡ q
full_queue q n xs le ge = take-append_le n q xs le ∙ take_all n q ge

module _ {Fix : Type 0} where
  try_all : List Fix → GpsSink Fix → GpsSink Fix
  try_all [] s = s
  try_all (x ∷ xs) s = try_all xs (try_send x s)

  abbrev pub open_queue : ℕ → List Fix → GpsSink Fix
  open_queue n q = record { capacity = n; closed = false; queue = q }

  -- An open queue takes fixes up to its capacity.
  try_all_lem :
      (xs : List Fix) (n : ℕ) (q : List Fix)
      → length q ≤ n
      → try_all xs (open_queue n q) ≡ open_queue n (take n (q ++ xs))
  unfolding try_all try_send
  try_all_lem [] n q h = ap (open_queue n) (sym (ap (take n) (append-nil q) ∙ take_all n q h))
  try_all_lem (x ∷ xs) n q h = elim (Bool-cases (ltb (length q) n)) [
    | inl e ↦
        let longer : length (q ++ (x ∷ [])) ≤ n =
          omega (arith, ltb→lt (length q) n e, length-append {0} q (x ∷ [])) in
        rw e (
          try_all_lem xs n (q ++ (x ∷ [])) longer
          ∙ ap (λ l. open_queue n (take n l)) (append_assoc q (x ∷ []) xs))
    | inr e ↦
        let full : n ≤ length q = ltb→le (length q) n e in
        rw e (
          try_all_lem xs n q h
          ∙ ap (open_queue n) (full_queue q n xs full h ∙ sym (full_queue q n (x ∷ xs) full h)))
  ]

module _ (m : SensorMessages) {F : Type 0} (fs : LogFiles F) (contents : F → Bytes → Bytes)
    (laws : IsWritable fs contents) where
  open m use {GpsLocation, PositionFix, fix_of, line_of, decode_event}
  open laws use {created, opened, opened_kept, written, appended, flushed_kept}

  make_parent_kept :
      (o : Option Bytes) (p : Bytes) (f : F) → contents (make_parent m fs o f) p ≡ contents f p
  unfolding make_parent
  make_parent_kept none p f = refl
  make_parent_kept (some dir) p f = created dir p f

  append_line_lem :
      (path line : Bytes) (is_open : Bool) (f : F)
      → ((append_line m fs path line is_open f).0 ≡ true)
        × (contents (append_line m fs path line is_open f).1 path ≡ contents f path ++ line)
  unfolding append_line
  append_line_lem path line true f =
      rw (written path line f)
        (refl, flushed_kept path (fs.write_all path line f).1 ∙ appended path line f)
  append_line_lem path line false f =
      let f1 = make_parent m fs (fs.parent path) f in
      let f2 = (fs.open_append path f1).1 in
      let kept : contents f2 path ≡ contents f path =
        opened_kept path f1 ∙ make_parent_kept (fs.parent path) path f in
      rw (opened path f1, written path line f2)
        (
          refl,
          flushed_kept path (fs.write_all path line f2).1
              ∙ appended path line f2
              ∙ ap (λ b. b ++ line) kept,
        )

  abbrev sink_after : List GpsLocation → Option (GpsSink PositionFix) → Option (GpsSink PositionFix)
  sink_after locs none = none
  sink_after locs (some sink) = some (try_all (map fix_of locs) sink)

  sink_after_first :
      (loc : GpsLocation) (locs : List GpsLocation) (o : Option (GpsSink PositionFix))
      → sink_after locs (forward (fix_of loc) o) ≡ sink_after (loc ∷ locs) o
  unfolding forward try_all
  sink_after_first loc locs none = refl
  sink_after_first loc locs (some sink) = refl

  append_all_lem :
      (locs : List GpsLocation) (h : SensorHandler PositionFix) (f : F)
      → (contents (append_all m fs locs (h, f)).1 h.gps_log_path
          ≡ contents f h.gps_log_path ++ concat (map line_of locs))
        × ((append_all m fs locs (h, f)).0.gps_sink ≡ sink_after locs h.gps_sink)
  unfolding append_all append_gps try_all
  append_all_lem [] h f = (sym (append-nil (contents f h.gps_log_path)), nothing h.gps_sink)
    where
      nothing : (o : Option (GpsSink PositionFix)) → o ≡ sink_after [] o
      nothing none = refl
      nothing (some sink) = refl
  append_all_lem (loc ∷ locs) h f =
      let line = append_line_lem h.gps_log_path (line_of loc) h.file f in
      let next = append_gps m fs loc (h, f) in
      let later = append_all_lem locs next.0 next.1 in
      (
        later.0
            ∙ ap (λ b. b ++ concat (map line_of locs)) line.1
            ∙ append_assoc (contents f h.gps_log_path) (line_of loc) (concat (map line_of locs)),
        later.1 ∙ sink_after_first loc locs h.gps_sink,
      )

  -- On files that take every call, and with a queue that is open and holds no more than its
  -- capacity, an event with locations appends one line for each to the log, and puts their fixes
  -- into the queue in order, as many as there is room for; the fixes that find it full are
  -- dropped.
  pub sensor_handle-event :
      (payload : Bytes) (locs : List GpsLocation) (h : SensorHandler PositionFix) (f : F) (n : ℕ)
      (q : List PositionFix)
      → decode_event payload ≡ some locs
      → h.gps_sink ≡ some (open_queue n q)
      → length q ≤ n
      → ((sensor_handle m fs msg_sensor_event_indication payload (h, f)).0 ≡ ok [])
        × (contents
              (sensor_handle m fs msg_sensor_event_indication payload (h, f)).1.1
              h.gps_log_path
            ≡ contents f h.gps_log_path ++ concat (map line_of locs))
        × ((sensor_handle m fs msg_sensor_event_indication payload (h, f)).1.0.gps_sink
            ≡ some (open_queue n (take n (q ++ map fix_of locs))))
  unfolding sensor_handle on_event
  sensor_handle-event payload locs h f n q e o le =
      let all = append_all_lem locs h f in
      rw e (
        refl,
        all.0,
        all.1 ∙ ap (sink_after locs) o ∙ ap some (try_all_lem (map fix_of locs) n q le),
      )
