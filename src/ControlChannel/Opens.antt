-- ===== src/ControlChannel/Opens.antt =====
-- Which channels are opened when the head unit has listed its own.
use aabox.Common.{
  ℕ, ◌≡◌, refl, sym, ap, ◌∙◌, ◌%◌, ◌||◌, Bool, true, false, Option, none, arith, ◌==◌, Bool-cases,
  inl, inr, some, List, [], ◌∷◌, if◌then◌else◌,
}
use aabox.Encrypted.{OutboundMessage}
use aabox.Ids.{message_code, channel_open_request}
use aabox.ControlChannel.{
  Messages, Kind, sensor, video, audio_speech, audio_system, audio_media, audio_alarm,
  audio_unknown, input, av_input, bluetooth, navigation, vendor_ext, unknown, channel_byte,
  should_open, setup_message_for, with_setup, classify_channel, classify_av, classify_without_av,
  audio_kind, open_request, open_channels, on_service_discovery,
}

-- The channels of the ChannelOpenRequests among the messages.
unfoldable pub requested : List OutboundMessage → List ℕ
requested [] = []
requested (out ∷ outs) =
    let rest = requested outs in
    if out.message_id == message_code channel_open_request then out.channel ∷ rest else rest

-- A set-up message is no ChannelOpenRequest.
requested-with_setup :
    (channel_id : ℕ) (kind : Kind) (outs : List OutboundMessage)
    → requested (with_setup (setup_message_for channel_id kind) outs) ≡ requested outs
unfolding requested setup_message_for
requested-with_setup channel_id sensor outs = refl
requested-with_setup channel_id video outs = refl
requested-with_setup channel_id audio_speech outs = refl
requested-with_setup channel_id audio_system outs = refl
requested-with_setup channel_id audio_media outs = refl
requested-with_setup channel_id audio_alarm outs = refl
requested-with_setup channel_id audio_unknown outs = refl
requested-with_setup channel_id input outs = refl
requested-with_setup channel_id av_input outs = refl
requested-with_setup channel_id bluetooth outs = refl
requested-with_setup channel_id navigation outs = refl
requested-with_setup channel_id vendor_ext outs = refl
requested-with_setup channel_id unknown outs = refl

abbrev is_some : {A : Type 0} → Option A → Bool
is_some none = false
is_some (some a) = true

module _ (m : Messages) where
  open m use {
    ChannelDescriptor, channel_id, has_sensor_channel, av_channel, has_input_channel,
    has_av_input_channel, has_bluetooth_channel, has_navigation_channel,
  }

  -- A channel that describes sensors, audio or video, input, audio input, Bluetooth or navigation.
  unfoldable pub for_projection : ChannelDescriptor → Bool
  for_projection ch =
      has_sensor_channel ch
      || is_some (av_channel ch)
      || has_input_channel ch
      || has_av_input_channel ch
      || has_bluetooth_channel ch
      || has_navigation_channel ch

  -- The low bytes of the numbers of those channels.
  unfoldable pub projected : List ChannelDescriptor → List ℕ
  projected [] = []
  projected (ch ∷ channels) =
      let rest = projected channels in
      if for_projection ch then channel_id ch % 256 ∷ rest else rest

  should_open-audio_kind : (n : ℕ) → should_open (audio_kind n) ≡ true
  unfolding should_open audio_kind
  should_open-audio_kind n = ground arith

  should_open-av :
      (ch : ChannelDescriptor) (o : Option m.AvChannel)
      → should_open (classify_av m ch o) ≡ (
          is_some o
          || has_input_channel ch
          || has_av_input_channel ch
          || has_bluetooth_channel ch
          || has_navigation_channel ch)
  unfolding classify_av classify_without_av should_open
  should_open-av ch none = ground arith
  should_open-av ch (some av) = elim (Bool-cases (m.no_video_configs av)) [
    | inr e ↦ rw e refl
    | inl e ↦ elim (Bool-cases (m.stream_type av == m.stream_type_video)) [
      | inl v ↦ rw (e, v) refl
      | inr v ↦ rw (e, v) (should_open-audio_kind (m.audio_type av))
    ]
  ]

  should_open-classify_channel :
      (ch : ChannelDescriptor) → should_open (classify_channel m ch) ≡ for_projection ch
  unfolding classify_channel for_projection should_open
  should_open-classify_channel ch = elim (Bool-cases (has_sensor_channel ch)) [
    | inl e ↦ rw e refl
    | inr e ↦ rw e (should_open-av ch (av_channel ch))
  ]

  requested-open_channels :
      (channels : List ChannelDescriptor)
      → requested (open_channels m channels) ≡ projected channels
  unfolding requested open_channels open_request projected
  requested-open_channels [] = refl
  requested-open_channels (ch ∷ channels) =
      elim (Bool-cases (should_open (classify_channel m ch))) [
        | inl open_it ↦
            let rest =
              requested-with_setup (channel_id ch) (classify_channel m ch)
                (open_channels m channels) in
            let relevant = sym (should_open-classify_channel ch) ∙ open_it in
            rw (open_it, relevant)
              (ap (λ l. channel_byte (channel_id ch) ∷ l) (rest ∙ requested-open_channels channels))
        | inr skip ↦
            let irrelevant = sym (should_open-classify_channel ch) ∙ skip in
            rw (skip, irrelevant) (requested-open_channels channels)
      ]

  -- When the head unit has listed its channels, the ChannelOpenRequests that are sent are, in this
  -- order, one for each listed channel that describes sensors, audio or video, input, audio input,
  -- Bluetooth or navigation, addressed to the low byte of its number.
  pub on_service_discovery-requested :
      (channels : List ChannelDescriptor)
      → requested (on_service_discovery m (some channels)) ≡ projected channels
  unfolding on_service_discovery requested
  on_service_discovery-requested channels = requested-open_channels channels
