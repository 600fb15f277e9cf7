-- ===== src/Audio/Log.antt =====
-- The sink that writes a log, `LoggingAudioSink` of crates/aabox-aapd/src/channels/audio.rs, over a
-- file system that is a parameter.
use aabox.Common.{
  ascii, ℕ, zero, suc, ◌+◌, ◌%◌, ◌^◌, ◌<◌, ◌≤◌, Bool, true, false, Bool-cases, inl, inr, Option,
  none, some, Result, ok, List, [], ◌∷◌, ◌++◌, All, length, length-append, take, drop, get_or,
  take_left, drop_left, append_assoc, append-nil, ltb, ltb_of_le, ◌==◌, if◌then◌else◌, Bytes, be32,
  be64, from_be32, ◌≡◌, refl, ap, sym, ◌∙◌, arith,
}
use aabox.Effect.{Error, Eff, ◌>>◌, return}
use aabox.Ids.{ChannelId, media_audio, speech_audio, system_audio}
use aabox.Framing.RoundTrip.{from_be32-be32}
use aabox.Audio.{AudioFrame, be64_of, AudioSink}
use aabox.Audio.Frames.{be64_of-be64}

-- `tokio::fs` and `Path::parent`; a file that is open is known by its path.
pub record Files (F : Type 0) : Type 0 where
  pub parent : Bytes → Option Bytes
  pub create_dir_all : Bytes → Eff F (Unit {0})
  pub open_truncated : Bytes → Eff F (Unit {0})
  pub write_all : Bytes → Bytes → Eff F (Unit {0})
  pub flush : Bytes → Eff F (Unit {0})

-- `LoggingAudioSinkInner`
pub record LoggingAudioSink : Type 0 where
  pub path : Bytes
  pub file : Bool
  pub bytes_written : ℕ
  pub frames_written : ℕ

unfoldable pub with_path : Bytes → LoggingAudioSink
with_path path = record { path = path; file = false; bytes_written = 0; frames_written = 0 }

unfoldable pub channel_log_tag : ChannelId → Bytes
channel_log_tag media_audio = ascii "media"
channel_log_tag speech_audio = ascii "speech"
channel_log_tag system_audio = ascii "system"
channel_log_tag _ = ascii "other"

unfoldable pub for_channel : ChannelId → LoggingAudioSink
unfolding channel_log_tag with_path
for_channel channel =
    with_path (ascii "/data/local/tmp/aabox-audio-" ++ (channel_log_tag channel ++ ascii ".bin"))

abbrev pub log_header : AudioFrame → Bytes
log_header frame = be64 frame.timestamp_us ++ be32 (length frame.pcm % 2 ^ 32)

abbrev counted : AudioFrame → LoggingAudioSink → LoggingAudioSink
counted frame s = record s {
  frames_written = (s.frames_written + 1) % 2 ^ 64;
  bytes_written = (s.bytes_written + length frame.pcm) % 2 ^ 64;
}

module _ {F : Type 0} (fs : Files F) where
  open fs use {parent, create_dir_all, open_truncated, write_all, flush}

  abbrev on_files : {A : Type 0} → Eff F A → Eff (LoggingAudioSink × F) A
  on_files m (s, f) = ((m f).0, (s, (m f).1))

  abbrev update : (LoggingAudioSink → LoggingAudioSink) → Eff (LoggingAudioSink × F) (Unit {0})
  update g (s, f) = (ok tt, (g s, f))

  make_parent : Option Bytes → Eff F (Unit {0})
  make_parent none = return tt
  make_parent (some dir) = if length dir == 0 then return tt else create_dir_all dir

  open_log : Bytes → Bool → Eff (LoggingAudioSink × F) (Unit {0})
  unfolding make_parent
  open_log path true = return tt
  open_log path false =
      on_files (make_parent (parent path))
      >> (on_files (open_truncated path) >> update (λ s. record s { file = true }))

  -- `LoggingAudioSink::push`
  unfoldable pub push_logged : AudioFrame → Eff (LoggingAudioSink × F) (Unit {0})
  unfolding open_log
  push_logged frame (s, f) =
      (open_log s.path s.file
          >> (on_files (write_all s.path (log_header frame))
              >> (on_files (write_all s.path frame.pcm) >> update (counted frame))))
        (s, f)

  -- `LoggingAudioSink::flush`
  unfoldable pub flush_logged : Eff (LoggingAudioSink × F) (Unit {0})
  flush_logged (s, f) = (if s.file then on_files (flush s.path) else return tt) (s, f)

  unfoldable pub logging_sink : AudioSink (LoggingAudioSink × F)
  logging_sink = record { push = push_logged }

  unfoldable pub push_frames : List AudioFrame → Eff (LoggingAudioSink × F) (Unit {0})
  push_frames [] = return tt
  push_frames (x ∷ xs) = push_logged x >> push_frames xs

  -- A file system on which every call succeeds, with what its files hold.
  pub record IsWritable (contents : F → Bytes → Bytes) : Type 0 where
    pub created : (p : Bytes) (f : F) → (create_dir_all p f).0 ≡ ok tt
    pub opened : (p : Bytes) (f : F) → (open_truncated p f).0 ≡ ok tt
    pub opened_empty : (p : Bytes) (f : F) → contents (open_truncated p f).1 p ≡ []
    pub written : (p b : Bytes) (f : F) → (write_all p b f).0 ≡ ok tt
    pub appended : (p b : Bytes) (f : F) → contents (write_all p b f).1 p ≡ contents f p ++ b

-- The frames that a log holds; `none` where the log is cut short.
unfoldable pub read_log : ℕ → Bytes → Option (List AudioFrame)
read_log zero log = none
read_log (suc fuel) [] = some []
read_log (suc fuel) (b ∷ bs) =
    let log = b ∷ bs in
    let n = from_be32 (get_or log 8 0) (get_or log 9 0) (get_or log 10 0) (get_or log 11 0) in
    let rest = read_log fuel (drop n (drop 12 log)) in
    if ltb (length log) (12 + n)
    then none
    else read_more (record { timestamp_us = be64_of log; pcm = take n (drop 12 log) }) rest
  where
    read_more : AudioFrame → Option (List AudioFrame) → Option (List AudioFrame)
    read_more x none = none
    read_more x (some xs) = some (x ∷ xs)

abbrev pub FitsLog : AudioFrame → Type 0
FitsLog x = (x.timestamp_us < 2 ^ 64) × (length x.pcm < 2 ^ 32)

abbrev pub log_of : List AudioFrame → Bytes
log_of [] = []
log_of (x ∷ xs) = (log_header x ++ x.pcm) ++ log_of xs

read_log-log_of :
    (xs : List AudioFrame) → All FitsLog xs → read_log (suc (length xs)) (log_of xs) ≡ some xs
unfolding read_log
read_log-log_of [] h = refl
read_log-log_of (x ∷ xs) ((t, n), hs) =
    let kept : length x.pcm % 2 ^ 32 ≡ length x.pcm = omega arith in
    let long_enough : 12 + length x.pcm ≤ length (log_header x ++ (x.pcm ++ log_of xs)) =
      omega (arith, length-append {0} x.pcm (log_of xs)) in
    rw
      (
        kept,
        from_be32-be32 (length x.pcm) n,
        ltb_of_le (length (log_header x ++ (x.pcm ++ log_of xs))) (12 + length x.pcm) long_enough,
        drop_left x.pcm (log_of xs),
        take_left x.pcm (log_of xs),
        read_log-log_of xs hs,
        be64_of-be64 x.timestamp_us [] t,
      )
      refl

module _ {F : Type 0} (fs : Files F) (contents : F → Bytes → Bytes)
    (laws : IsWritable fs contents) where
  open laws use {created, opened, opened_empty, written, appended}

  abbrev sink_at : Bytes → Bool → ℕ → ℕ → LoggingAudioSink
  sink_at p b n k = record { path = p; file = b; bytes_written = n; frames_written = k }

  make_parent_lem : (o : Option Bytes) (f : F) → (make_parent fs o f).0 ≡ ok tt
  unfolding make_parent
  make_parent_lem none f = refl
  make_parent_lem (some dir) f = elim (Bool-cases (length dir == 0)) [
    | inl e ↦ rw e refl
    | inr e ↦ rw (e, created dir f) refl
  ]

  -- The log is open, and holds one more frame.
  record Pushed (p : Bytes) (n k : ℕ) (before : Bytes) (x : AudioFrame)
      (r : Result Error (Unit {0}) × (LoggingAudioSink × F)) : Type 0 where
    returned : r.0 ≡ ok tt
    counted_so : r.1.0 ≡ counted x (sink_at p true n k)
    holds : contents r.1.1 p ≡ before ++ (log_header x ++ x.pcm)

  two_writes :
      (p : Bytes) (f : F) (x : AudioFrame) (before : Bytes)
      → contents f p ≡ before
      → contents (fs.write_all p x.pcm (fs.write_all p (log_header x) f).1).1 p
        ≡ before ++ (log_header x ++ x.pcm)
  two_writes p f x before e =
      appended p x.pcm (fs.write_all p (log_header x) f).1
      ∙ ap (λ t. t ++ x.pcm) (appended p (log_header x) f ∙ ap (λ t. t ++ log_header x) e)
      ∙ append_assoc before (log_header x) x.pcm

  push-Pushed :
      (p : Bytes) (n k : ℕ) (f : F) (x : AudioFrame) (b : Bool) (before : Bytes)
      → (if b then contents f p else []) ≡ before
      → Pushed p n k before x (push_logged fs x (sink_at p b n k, f))
  unfolding push_logged open_log
  push-Pushed p n k f x true before e =
      rw (written p (log_header x) f, written p x.pcm (fs.write_all p (log_header x) f).1)
        (record { returned = refl; counted_so = refl; holds = two_writes p f x before e })
  push-Pushed p n k f x false before e =
      let f1 = (make_parent fs (fs.parent p) f).1 in
      let f2 = (fs.open_truncated p f1).1 in
      rw
        (
          make_parent_lem (fs.parent p) f,
          opened p f1,
          written p (log_header x) f2,
          written p x.pcm (fs.write_all p (log_header x) f2).1,
        )
        (record {
          returned = refl;
          counted_so = refl;
          holds = two_writes p f2 x before (opened_empty p f1 ∙ e);
        })

  record Logged (p : Bytes) (log : Bytes) (r : Result Error (Unit {0}) × (LoggingAudioSink × F))
      : Type 0 where
    returned_ok : r.0 ≡ ok tt
    log_holds : contents r.1.1 p ≡ log

  frames-Logged :
      (p : Bytes) (xs : List AudioFrame) (n k : ℕ) (f : F) (before : Bytes)
      → contents f p ≡ before
      → Logged p (before ++ log_of xs) (push_frames fs xs (sink_at p true n k, f))
  unfolding push_frames
  frames-Logged p [] n k f before e = record {
    returned_ok = refl;
    log_holds = e ∙ sym (append-nil before);
  }
  frames-Logged p (x ∷ xs) n k f before e =
      let pushed = push-Pushed p n k f x true before e in
      let later =
        frames-Logged p xs _ _ (push_logged fs x (sink_at p true n k, f)).1.1
          (before ++ (log_header x ++ x.pcm)) pushed.holds in
      rw (pushed.returned, pushed.counted_so)
        (rw⁻¹ (append_assoc before (log_header x ++ x.pcm) (log_of xs)) later)

  -- On files that take every call, one frame or more, each with a timestamp below 2 ^ 64 and less
  -- than 2 ^ 32 bytes, that are pushed into a new log sink are read back from the file, in order
  -- and whatever it held before.
  pub read_log-push_frames :
      (p : Bytes) (f : F) (x : AudioFrame) (xs : List AudioFrame)
      → All FitsLog (x ∷ xs)
      → ((push_frames fs (x ∷ xs) (with_path p, f)).0 ≡ ok tt)
        × (read_log
              (suc (length (x ∷ xs)))
              (contents (push_frames fs (x ∷ xs) (with_path p, f)).1.1 p)
            ≡ some (x ∷ xs))
  unfolding push_frames with_path
  read_log-push_frames p f x xs h =
      let pushed = push-Pushed p 0 0 f x false [] refl in
      let later =
        frames-Logged p xs _ _ (push_logged fs x (sink_at p false 0 0, f)).1.1
          (log_header x ++ x.pcm) pushed.holds in
      let read = read_log-log_of (x ∷ xs) h in
      rw (pushed.returned, pushed.counted_so) (later.returned_ok, rw later.log_holds read)
