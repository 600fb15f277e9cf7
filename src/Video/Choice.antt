-- ===== src/Video/Choice.antt =====
-- The source that a start chooses, `VideoPipelineHandle::start` of
-- crates/aabox-aapd/src/channels/video/pipeline.rs, with `TestPatternProfile` of source.rs. Whether
-- `screenrecord` can be started and the embedded streams are parameters.
use aabox.Common.{ℕ, zero, suc, ◌≡◌, ◌≢◌, refl, Bool, true, false, List, Bytes}
use aabox.Nal.{group_access_units}
use aabox.Video.Capture.{TestPatternVideoSource, new_pattern, ScreenRecordVideoSource, spawn}

pub data TestPatternProfile : Type 0 where
  p720p30 p1080p30 : TestPatternProfile

-- What `screenrecord` is asked for.
pub record CaptureMode : Type 0 where
  pub width : ℕ
  pub height : ℕ
  pub fps : ℕ
  pub bitrate_bps : ℕ

pub data ChosenSource : Type 0 where
  screen_record : CaptureMode → ScreenRecordVideoSource → ChosenSource
  test_pattern : TestPatternVideoSource → ChosenSource

unfoldable pub capture_mode : ℕ → CaptureMode
capture_mode zero = record { width = 1920; height = 1080; fps = 30; bitrate_bps = 6000000 }
capture_mode (suc zero) = record { width = 1280; height = 720; fps = 30; bitrate_bps = 3000000 }
capture_mode (suc (suc config)) = record {
  width = 854;
  height = 480;
  fps = 30;
  bitrate_bps = 1500000;
}

unfoldable pub pattern_profile : ℕ → TestPatternProfile
pattern_profile zero = p1080p30
pattern_profile (suc config) = p720p30

module _ (embedded_720p30 embedded_1080p30 : Bytes) where
  unfoldable pub profile_bytes : TestPatternProfile → Bytes
  profile_bytes p720p30 = embedded_720p30
  profile_bytes p1080p30 = embedded_1080p30

  unfoldable pub choose_source : Bool → ℕ → ChosenSource
  unfolding capture_mode pattern_profile profile_bytes
  choose_source true config = screen_record (capture_mode config) (spawn (capture_mode config).fps)
  choose_source false config = test_pattern (new_pattern (profile_bytes (pattern_profile config)))

  units_of : ChosenSource → List Bytes
  units_of (screen_record mode s) = s.queued
  units_of (test_pattern s) = s.access_units

  -- Without `screenrecord`, every configuration but the first plays the 720p pattern, the one for
  -- 480p too.
  choose_source-720p :
      (config : ℕ)
      → config ≢ 0
      → units_of (choose_source false config) ≡ group_access_units embedded_720p30
  unfolding choose_source pattern_profile profile_bytes units_of new_pattern
  choose_source-720p zero h = absurd (h refl)
  choose_source-720p (suc n) h = refl
