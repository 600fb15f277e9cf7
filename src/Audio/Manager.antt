-- ===== src/Audio/Manager.antt =====
-- The handlers of AudioChannelManager, crates/aabox-aapd/src/channels/audio.rs. The factories of
-- sinks and sources are functions of the channel and the format, as the ones built in are.
use aabox.Common.{
  ℕ, Bool, true, false, Option, none, some, Result, ok, err, List, [], ◌∷◌, ◌++◌, length, ◌==◌,
  if◌then◌else◌, Bytes,
}
use aabox.Effect.{Error, decode, Eff}
use aabox.Encrypted.{OutboundMessage}
use aabox.ControlChannel.{message}
use aabox.Ids.{ChannelId, channel_code}
use aabox.Video.{msg_av_media_with_timestamp_indication}
use aabox.Channels.{
  ChannelMessages, msg_setup_request, msg_start_indication, msg_stop_indication, msg_setup_response,
  msg_av_media_ack_indication, msg_av_input_open_request, msg_av_input_open_response,
}
use aabox.Audio.{
  msg_av_media_indication, AudioDirection, output, input, AudioFormat, AudioFrame, decode_inbound,
  AudioSink, AudioChannelState, AudioChannelManager, signal, armed, flushed, with_state,
  ensure_state,
}

module _ (m : ChannelMessages) {Sink Source : Type 0} (sinks : AudioSink Sink)
    (make_sink : ChannelId → AudioFormat → Sink) (make_source : AudioFormat → Source) where
  open m use {
    setup_status_ok, decode_setup_request, decode_start_indication, decode_input_open_request,
    encode_setup_response, encode_input_open_response, encode_media_ack,
  }
  open sinks use {push}

  abbrev pub Manager : Type 0
  Manager = AudioChannelManager Sink Source

  unfoldable pub on_setup_request : ℕ → Option ℕ → Result Error (List OutboundMessage)
  on_setup_request channel none = err (decode 0)
  on_setup_request channel (some config_index) =
      ok (
        message channel msg_setup_response (encode_setup_response setup_status_ok 10 (0 ∷ [])) ∷ [])

  -- A new encoder takes the place of the one that runs.
  unfoldable pub start_output : ChannelId → AudioChannelState Sink → ℕ → Manager → Manager
  start_output cid st session w =
      with_state (channel_code cid)
        (record st { session = session; stop_tx = some (length w.spawned); started = true })
        (record w {
          spawned = w.spawned ++ ((cid, make_source st.format) ∷ []);
          signalled = signal st.stop_tx w.signalled;
        })

  unfoldable pub start_input : ChannelId → AudioChannelState Sink → ℕ → Manager → Manager
  start_input cid st session w =
      with_state (channel_code cid)
        (record st { session = session; started = true; decoder = armed st st.decoder }) w

  abbrev pub started_in :
      AudioDirection → ChannelId → AudioChannelState Sink → ℕ → Manager → Manager
  started_in output cid st session w = start_output cid st session w
  started_in input cid st session w = start_input cid st session w

  -- Without a state the code panics; `ensure_state` has made one.
  unfoldable pub on_start_indication :
      ChannelId
      → Option (ℕ × ℕ)
      → Option (AudioChannelState Sink)
      → Eff Manager (List OutboundMessage)
  unfolding start_output start_input
  on_start_indication cid none o w = (err (decode 0), w)
  on_start_indication cid (some (session, config)) none w = (ok [], w)
  on_start_indication cid (some (session, config)) (some st) w =
      (ok [], started_in st.direction cid st session w)

  unfoldable pub on_stop_indication :
      ChannelId → Option (AudioChannelState Sink) → Eff Manager (List OutboundMessage)
  on_stop_indication cid none w = (ok [], w)
  on_stop_indication cid (some st) w = (
    ok [],
    with_state (channel_code cid) (record st { started = false; stop_tx = none })
        (record w {
          signalled = signal st.stop_tx w.signalled;
          flushes = flushed (channel_code cid) st.sink w.flushes;
        }),
  )

  unfoldable pub opened :
      ChannelId → AudioChannelState Sink → Bool → Option Sink → AudioChannelState Sink
  opened cid st open_it none = record st {
    sink = some (make_sink cid st.format);
    decoder = some st.format;
    started = open_it;
  }
  opened cid st open_it (some sink) = record st { started = open_it; decoder = armed st st.decoder }

  unfoldable pub on_input_open :
      ChannelId → Option Bool → Option (AudioChannelState Sink) → Eff Manager (List OutboundMessage)
  unfolding opened
  on_input_open cid none o w = (err (decode 0), w)
  on_input_open cid (some open_it) none w = (ok [], w)
  on_input_open cid (some open_it) (some st) w = (
    ok (
        message (channel_code cid) msg_av_input_open_response (encode_input_open_response 0 0)
        ∷ []),
    with_state (channel_code cid) (opened cid st open_it st.sink) w,
  )

  -- A failed push is only logged.
  abbrev pub delivered :
      ChannelId
      → AudioChannelState Sink
      → Sink
      → Result Error AudioFrame
      → Eff Manager (List OutboundMessage)
  delivered cid st sink (err e) w = (err e, w)
  delivered cid st sink (ok frame) w = (
    ok (
        message (channel_code cid) msg_av_media_ack_indication (encode_media_ack st.session 1)
        ∷ []),
    with_state (channel_code cid) (record st { sink = some (push frame sink).1 }) w,
  )

  abbrev pub into_sink :
      ChannelId
      → AudioChannelState Sink
      → Option Sink
      → Result Error AudioFrame
      → Eff Manager (List OutboundMessage)
  into_sink cid st none frame w = (ok [], w)
  into_sink cid st (some sink) frame w = delivered cid st sink frame w

  unfoldable pub on_data_frame :
      ChannelId
      → Result Error AudioFrame
      → Option (AudioChannelState Sink)
      → Eff Manager (List OutboundMessage)
  on_data_frame cid frame none w = (ok [], w)
  on_data_frame cid frame (some st) w =
      if st.started then into_sink cid st st.sink frame w else (ok [], w)

  unfoldable pub on_message : ChannelId → ℕ → Bytes → Eff Manager (List OutboundMessage)
  unfolding on_setup_request on_start_indication on_stop_indication on_input_open on_data_frame
  on_message cid msg_id payload w =
      let st = w.channels (channel_code cid) in
      if msg_id == msg_setup_request
      then (on_setup_request (channel_code cid) (decode_setup_request payload), w)
      else if msg_id == msg_start_indication
      then on_start_indication cid (decode_start_indication payload) st w
      else if msg_id == msg_stop_indication
      then on_stop_indication cid st w
      else if msg_id == msg_av_media_ack_indication
      then (ok [], w)
      else if msg_id == msg_av_input_open_request
      then on_input_open cid (decode_input_open_request payload) st w
      else if msg_id == msg_av_media_with_timestamp_indication
      then on_data_frame cid (decode_inbound payload true) st w
      else if msg_id == msg_av_media_indication
      then on_data_frame cid (decode_inbound payload false) st w
      else (ok [], w)

  abbrev pub ensured_message :
      ℕ → Bytes → Option (ChannelId × Manager) → Eff Manager (List OutboundMessage)
  ensured_message msg_id payload none w = (ok [], w)
  ensured_message msg_id payload (some (cid, w')) w = on_message cid msg_id payload w'

  -- `AudioChannelManager::handle`
  unfoldable pub handle : ℕ → ℕ → Bytes → Eff Manager (List OutboundMessage)
  unfolding ensure_state on_message
  handle channel msg_id payload w = ensured_message msg_id payload (ensure_state channel w) w
