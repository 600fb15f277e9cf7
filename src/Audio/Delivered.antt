-- ===== src/Audio/Delivered.antt =====
-- What the sinks have received after any messages.
use aabox.Common.{
  ℕ, false, Bool-cases, inl, inr, Option, none, some, ok, List, [], ◌∷◌, ◌≡◌, refl, sym, ap, ◌∙◌,
  subst, ◌==◌, ==_iff, Bytes, arith,
}
use aabox.Ids.{ChannelId, channel_code, channel_of}
use aabox.Ids.Codes.{channel_of-channel_code}
use aabox.Channels.{ChannelMessages}
use aabox.Audio.{
  AudioFormat, AudioSink, AudioChannelState, AudioDirection, new_manager, default_format,
  ensure_state,
}
use aabox.Audio.Manager.{Manager, handle, ensured_message}
use aabox.Audio.Ensured.{Started, as_new, as_before, Known, not_audio, is_audio, ensure_state-Known}
use aabox.Audio.Encoders.{none-some, some_injective}
use aabox.Audio.Elsewhere.{on_message-Same}
use aabox.Audio.Gate.{
  Gate, gate_step, meaning, Message, gate_after, sink_of, started_of, fed, manager_after,
}
use aabox.Audio.Follows.{Follows, At, at, message-At}

code_injective : (a b : ChannelId) → channel_code a ≡ channel_code b → a ≡ b
code_injective a b h =
    let same : ok a ≡ ok b =
      sym (channel_of-channel_code a) ∙ ap channel_of h ∙ channel_of-channel_code b in
    cc same

module _ (m : ChannelMessages) {Sink Source : Type 0} (sinks : AudioSink Sink)
    (make_sink : ChannelId → AudioFormat → Sink) (make_source : AudioFormat → Source)
    (cid : ChannelId) (format : AudioFormat) (is_format : default_format cid ≡ some format) where
  abbrev closed : Gate
  closed = record { started = false; frames = none }

  -- A channel has no state before its first message.
  data Kept (g : Gate) (w : Manager m sinks make_sink make_source) : Type 0 where
    untouched : w.channels (channel_code cid) ≡ none → g ≡ closed → Kept g w
    touched : At m sinks make_sink make_source cid format g w → Kept g w

  Kept-same :
      {g : Gate} {w w' : Manager m sinks make_sink make_source}
      → w'.channels (channel_code cid) ≡ w.channels (channel_code cid)
      → Kept g w
      → Kept g w'
  Kept-same e (untouched h i) = untouched (e ∙ h) i
  Kept-same e (touched (at st h f)) = touched (at st (e ∙ h) f)

  Started-Follows :
      {g : Gate} {w : Manager m sinks make_sink make_source} {d : AudioDirection} {f : AudioFormat}
      {st : AudioChannelState Sink}
      → f ≡ format
      → Started d f (w.channels (channel_code cid)) st
      → Kept g w
      → Follows m sinks make_sink make_source cid format g st
  unfolding fed
  Started-Follows e (as_new h i) (untouched h' i') =
      rw (i, i') (record { same_started = refl; same_sink = refl; same_format = e })
  Started-Follows e (as_before h) (untouched h' i') = absurd (none-some (sym h' ∙ h))
  Started-Follows e (as_new h i) (touched (at st h' f)) = absurd (none-some (sym h ∙ h'))
  Started-Follows {g = g} e (as_before h) (touched (at st h' f)) =
      subst (λ s. Follows m sinks make_sink make_source cid format g s)
        (some_injective (sym h' ∙ h)) f

  same_channel :
      {g : Gate} {w : Manager m sinks make_sink make_source} (channel msg_id : ℕ) (payload : Bytes)
      → channel ≡ channel_code cid
      → Kept g w
      → (o : Option (ChannelId × Manager m sinks make_sink make_source)) → Known channel w o
      → Kept
          (gate_step (meaning m msg_id payload) g)
          (ensured_message m sinks make_sink make_source msg_id payload o w).1
  same_channel channel msg_id payload code k none (not_audio h) =
      absurd (none-some (sym (h cid code) ∙ is_format))
  same_channel {g = g} {w = w} channel msg_id payload code k (some _) (is_audio cid' w' e) =
      let same : cid' ≡ cid = code_injective cid' cid (sym e.code ∙ code) in
      let format_same : e.format ≡ format =
        some_injective (sym e.has_format ∙ ap default_format same ∙ is_format) in
      let before =
        subst (λ c. Started e.direction e.format (w.channels c) e.state) code e.state_Started in
      let follows : Follows m sinks make_sink make_source cid format g e.state =
        Started-Follows format_same before k in
      let there : w'.channels (channel_code cid) ≡ some e.state =
        ap w'.channels (sym code) ∙ e.here in
      rw same (
        touched (
          message-At m sinks make_sink make_source cid format msg_id payload g e.state w' there
            follows))

  other_channel :
      {w : Manager m sinks make_sink make_source} (channel msg_id : ℕ) (payload : Bytes)
      → (channel == channel_code cid) ≡ false
      → (o : Option (ChannelId × Manager m sinks make_sink make_source)) → Known channel w o
      → (ensured_message m sinks make_sink make_source msg_id payload o w).1.channels
          (channel_code cid)
        ≡ w.channels (channel_code cid)
  other_channel channel msg_id payload other none (not_audio h) = refl
  other_channel channel msg_id payload other (some _) (is_audio cid' w' e) =
      let here : (channel_code cid == channel) ≡ false = ground (arith, other) in
      let there : (channel_code cid == channel_code cid') ≡ false =
        ap (λ c. channel_code cid == c) (sym e.code) ∙ here in
      on_message-Same m sinks make_sink make_source cid' (channel_code cid) there w' msg_id payload
      ∙ e.elsewhere (channel_code cid) here

  after-Kept :
      (msgs : List Message)
      → Kept
          (gate_after m (channel_code cid) msgs)
          (manager_after m sinks make_sink make_source msgs)
  unfolding gate_after manager_after new_manager handle
  after-Kept [] = untouched refl refl
  after-Kept ((channel, msg_id, payload) ∷ earlier) =
      let w = manager_after m sinks make_sink make_source earlier in
      let known = ensure_state-Known channel w in
      elim (Bool-cases (channel == channel_code cid)) [
        | inl e ↦ rw e (
            same_channel channel msg_id payload ((==_iff channel (channel_code cid)).0 e)
              (after-Kept earlier) (ensure_state channel w) known)
        | inr e ↦ rw e (
            Kept-same (other_channel channel msg_id payload e (ensure_state channel w) known)
              (after-Kept earlier))
      ]

  Kept→view :
      {g : Gate} {w : Manager m sinks make_sink make_source}
      → Kept g w
      → (sink_of (w.channels (channel_code cid)) ≡ fed sinks g.frames (make_sink cid format))
        × (started_of (w.channels (channel_code cid)) ≡ g.started)
  unfolding sink_of started_of fed
  Kept→view (untouched h e) = rw (h, e) (refl, refl)
  Kept→view (touched (at st h f)) = rw h (f.same_sink, f.same_started)

  -- After any messages on any channels, the sink of an audio channel with a format has been given
  -- exactly the frames that a gate lets through which only knows whether the channel is open and
  -- whether it is started, and the channel is started exactly when the gate is; before a sink is
  -- attached there is none.
  pub sink_of-manager_after :
      (msgs : List Message)
      → (sink_of ((manager_after m sinks make_sink make_source msgs).channels (channel_code cid))
          ≡ fed sinks (gate_after m (channel_code cid) msgs).frames (make_sink cid format))
        × (started_of
              ((manager_after m sinks make_sink make_source msgs).channels (channel_code cid))
            ≡ (gate_after m (channel_code cid) msgs).started)
  sink_of-manager_after msgs = Kept→view (after-Kept msgs)
