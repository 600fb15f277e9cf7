-- ===== src/Audio/Ensured.antt =====
-- What `ensure_state` leaves.
use aabox.Common.{
  ℕ, false, true, Option, none, some, Result, ok, err, ◌≡◌, refl, sym, ◌∙◌, ◌==◌, ==_iff,
}
use aabox.Ids.{
  ChannelId, channel_code, channel_of, control, input, sensor, video, media_audio, speech_audio,
  system_audio, av_input, bluetooth, navigation, no_channel,
}
use aabox.Ids.Codes.{channel_of_iff}
use aabox.Audio.{
  AudioDirection, AudioFormat, AudioChannelState, AudioChannelManager, new_state, default_format,
  direction_of, ensure_state, or_insert, ensured, inserted, ensured_known,
}

pub ==_refl : (n : ℕ) → (n == n) ≡ true
==_refl n = (==_iff n n).1 refl

-- The state that a channel has once it is ensured.
pub data Started {Sink : Type 0} (direction : AudioDirection) (format : AudioFormat)
    : Option (AudioChannelState Sink) → AudioChannelState Sink → Type 0 where
  as_new :
      {o : Option (AudioChannelState Sink)} {st : AudioChannelState Sink}
      → o ≡ none
      → st ≡ new_state direction format
      → Started direction format o st
  as_before :
      {o : Option (AudioChannelState Sink)} {st : AudioChannelState Sink}
      → o ≡ some st
      → Started direction format o st

as_code : (channel : ℕ) (cid : ChannelId) → channel_of channel ≡ ok cid → channel ≡ channel_code cid
as_code channel cid h = (channel_of_iff channel cid).0 h

module _ {Sink Source : Type 0} where
  pub record Ensured (channel : ℕ) (w w' : AudioChannelManager Sink Source) (cid : ChannelId)
      : Type 0 where
    pub code : channel ≡ channel_code cid
    pub direction : AudioDirection
    pub format : AudioFormat
    pub has_direction : direction_of cid ≡ some direction
    pub has_format : default_format cid ≡ some format
    pub state : AudioChannelState Sink
    pub here : w'.channels channel ≡ some state
    pub state_Started : Started direction format (w.channels channel) state
    pub elsewhere : (c : ℕ) → (c == channel) ≡ false → w'.channels c ≡ w.channels c
    pub same_spawned : w'.spawned ≡ w.spawned
    pub same_signalled : w'.signalled ≡ w.signalled

  pub data Known (channel : ℕ) (w : AudioChannelManager Sink Source)
      : Option (ChannelId × AudioChannelManager Sink Source) → Type 0 where
    not_audio :
        ((cid : ChannelId) → channel ≡ channel_code cid → default_format cid ≡ none)
        → Known channel w none
    is_audio :
        (cid : ChannelId) (w' : AudioChannelManager Sink Source)
        → Ensured channel w w' cid
        → Known channel w (some (cid, w'))

  inserted-Known :
      (channel : ℕ) (w : AudioChannelManager Sink Source) (cid : ChannelId) (d : AudioDirection)
      (f : AudioFormat) (o : Option (AudioChannelState Sink))
      → channel ≡ channel_code cid
      → direction_of cid ≡ some d
      → default_format cid ≡ some f
      → w.channels channel ≡ o
      → Ensured channel w
          (record w { channels = or_insert channel (new_state d f) o w.channels })
          cid
  inserted-Known channel w cid d f none code hd hf e = record {
    code = code;
    direction = d;
    format = f;
    has_direction = hd;
    has_format = hf;
    state = new_state d f;
    here = rw (==_refl channel) refl;
    state_Started = as_new e refl;
    elsewhere = λ c h. rw h refl;
    same_spawned = refl;
    same_signalled = refl;
  }
  inserted-Known channel w cid d f (some st) code hd hf e = record {
    code = code;
    direction = d;
    format = f;
    has_direction = hd;
    has_format = hf;
    state = st;
    here = e;
    state_Started = as_before e;
    elsewhere = λ c h. refl;
    same_spawned = refl;
    same_signalled = refl;
  }

  audio-Known :
      (channel : ℕ) (w : AudioChannelManager Sink Source) (cid : ChannelId) (d : AudioDirection)
      (f : AudioFormat)
      → channel_of channel ≡ ok cid
      → direction_of cid ≡ some d
      → default_format cid ≡ some f
      → Known channel w (inserted cid (ensured channel (some d) (some f) w))
  audio-Known channel w cid d f h hd hf =
      is_audio cid _
        (inserted-Known channel w cid d f (w.channels channel) (as_code channel cid h) hd hf refl)

  other-Known :
      (channel : ℕ) (w : AudioChannelManager Sink Source) (cid : ChannelId)
      → channel_of channel ≡ ok cid
      → default_format cid ≡ none
      → Known channel w none
  other-Known channel w cid h e = not_audio (λ cid' code.
      let same : ok cid' ≡ ok cid = sym ((channel_of_iff channel cid').1 code) ∙ h in
      let eq : cid' ≡ cid = cc same in rw eq e)

  cid-Known :
      (channel : ℕ) (w : AudioChannelManager Sink Source) (cid : ChannelId)
      → channel_of channel ≡ ok cid
      → Known channel w (ensured_known channel w (ok cid))
  unfolding direction_of default_format
  cid-Known channel w media_audio h = audio-Known channel w media_audio _ _ h refl refl
  cid-Known channel w speech_audio h = audio-Known channel w speech_audio _ _ h refl refl
  cid-Known channel w system_audio h = audio-Known channel w system_audio _ _ h refl refl
  cid-Known channel w control h = other-Known channel w control h refl
  cid-Known channel w input h = other-Known channel w input h refl
  cid-Known channel w sensor h = other-Known channel w sensor h refl
  cid-Known channel w video h = other-Known channel w video h refl
  cid-Known channel w av_input h = other-Known channel w av_input h refl
  cid-Known channel w bluetooth h = other-Known channel w bluetooth h refl
  cid-Known channel w navigation h = other-Known channel w navigation h refl
  cid-Known channel w no_channel h = other-Known channel w no_channel h refl

  of-Known :
      (channel : ℕ) (w : AudioChannelManager Sink Source) (r : Result ℕ ChannelId)
      → channel_of channel ≡ r
      → Known channel w (ensured_known channel w r)
  of-Known channel w (ok cid) h = cid-Known channel w cid h
  of-Known channel w (err raw) h = not_audio (λ cid code.
      let same : err raw ≡ ok cid = sym h ∙ (channel_of_iff channel cid).1 code in cc same)

  pub ensure_state-Known :
      (channel : ℕ) (w : AudioChannelManager Sink Source) → Known channel w (ensure_state channel w)
  unfolding ensure_state
  ensure_state-Known channel w = of-Known channel w (channel_of channel) refl
