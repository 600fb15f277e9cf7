-- ===== src/Audio/OneEncoder.antt =====
-- At most one encoder of the manager has not been sent the stop signal.
use aabox.Common.{
  ℕ, suc, true, false, Bool-cases, inl, inr, none, some, List, [], ◌∷◌, ◌++◌, length, length-append,
  ◌≡◌, refl, sym, ap, ◌∙◌, subst, ◌==◌, ==_iff, arith,
}
use aabox.Ids.{ChannelId}
use aabox.Audio.{output, input, AudioChannelState, AudioChannelManager, signal, with_state, put}
use aabox.Audio.Encoders.{stop_of, Running, some_injective, signal-Running, spawn-Running}

-- An output state is that of the media channel; the other states hold no stop handle.
pub data Shape {Sink : Type 0} (c : ℕ) (st : AudioChannelState Sink) : Type 0 where
  of_output : st.direction ≡ output → (4 == c) ≡ true → Shape c st
  of_input : st.direction ≡ input → (4 == c) ≡ false → st.stop_tx ≡ none → Shape c st

Shape-same :
    {Sink : Type 0} {c : ℕ} {st st' : AudioChannelState Sink}
    → st'.direction ≡ st.direction
    → st'.stop_tx ≡ st.stop_tx
    → Shape c st
    → Shape c st'
Shape-same d s (of_output a b) = of_output (d ∙ a) b
Shape-same d s (of_input a b h) = of_input (d ∙ a) b (s ∙ h)

output_input : output ≡ input → ⊥
output_input h = cc h

module _ {Sink Source : Type 0} where
  pub record Inv (w : AudioChannelManager Sink Source) : Type 0 where
    pub shape : (c : ℕ) (st : AudioChannelState Sink) → w.channels c ≡ some st → Shape c st
    pub running : Running (length w.spawned) w.signalled (stop_of (w.channels 4))

  put-Shape :
      (w : AudioChannelManager Sink Source) (c : ℕ) (st : AudioChannelState Sink)
      → Inv w
      → Shape c st
      → (c' : ℕ) (st' : AudioChannelState Sink) → put c st w.channels c' ≡ some st'
      → Shape c' st'
  put-Shape w c st i s c' st' h = elim (Bool-cases (c' == c)) [
    | inl e ↦
        let same : st ≡ st' = some_injective (rw⁻¹ h (rw e refl)) in
        rw⁻¹ same (rw ((==_iff c' c).0 e) s)
    | inr e ↦ i.shape c' st' (rw⁻¹ h (rw e refl))
  ]

  here_or_there :
      (w : AudioChannelManager Sink Source) (c : ℕ) (st : AudioChannelState Sink)
      → w.channels c ≡ some st
      → (4 == c) ≡ true
      → stop_of (w.channels 4) ≡ st.stop_tx
  unfolding stop_of
  here_or_there w c st h e = ap (λ x. stop_of (w.channels x)) ((==_iff 4 c).0 e) ∙ ap stop_of h

  put_here :
      (w : AudioChannelManager Sink Source) (c : ℕ) (st : AudioChannelState Sink)
      → (4 == c) ≡ true
      → stop_of (put c st w.channels 4) ≡ st.stop_tx
  unfolding stop_of
  put_here w c st e = rw e refl

  put_there :
      (w : AudioChannelManager Sink Source) (c : ℕ) (st : AudioChannelState Sink)
      → (4 == c) ≡ false
      → stop_of (put c st w.channels 4) ≡ stop_of (w.channels 4)
  put_there w c st e = rw e refl

  -- The stop handle stays.
  pub same_handle-Inv :
      (w : AudioChannelManager Sink Source) (c : ℕ) (st st' : AudioChannelState Sink)
      → w.channels c ≡ some st
      → st'.direction ≡ st.direction
      → st'.stop_tx ≡ st.stop_tx
      → Inv w
      → Inv (with_state c st' w)
  same_handle-Inv w c st st' h d s i =
      let same : stop_of (put c st' w.channels 4) ≡ stop_of (w.channels 4) =
        elim (Bool-cases (4 == c)) [
          | inl e ↦ put_here w c st' e ∙ s ∙ sym (here_or_there w c st h e)
          | inr e ↦ put_there w c st' e
        ] in
      record {
        shape = put-Shape w c st' i (Shape-same d s (i.shape c st h));
        running = subst (λ o. Running (length w.spawned) w.signalled o) (sym same) i.running;
      }

  -- An encoder is spawned on the media channel, in place of the one before.
  pub spawn-Inv :
      (w : AudioChannelManager Sink Source) (c : ℕ) (st st' : AudioChannelState Sink)
      (new : ChannelId × Source)
      → w.channels c ≡ some st
      → st.direction ≡ output
      → st'.direction ≡ output
      → st'.stop_tx ≡ some (length w.spawned)
      → Inv w
      → Inv (
          with_state c st' (record w {
            spawned = w.spawned ++ (new ∷ []);
            signalled = signal st.stop_tx w.signalled;
          }))
  spawn-Inv w c st st' new h d d' s i = spawned (i.shape c st h)
    where
      spawned :
          Shape c st
          → Inv (
              with_state c st' (record w {
                spawned = w.spawned ++ (new ∷ []);
                signalled = signal st.stop_tx w.signalled;
              }))
      spawned (of_input a e n) = absurd (output_input (sym d ∙ a))
      spawned (of_output a e) =
          let held =
            subst (λ o. Running (length w.spawned) w.signalled o) (here_or_there w c st h e)
              i.running in
          let longer : suc (length w.spawned) ≡ length (w.spawned ++ (new ∷ [])) =
            omega (arith, length-append {0} w.spawned (new ∷ [])) in
          let next =
            subst (λ n. Running n (signal st.stop_tx w.signalled) (some (length w.spawned))) longer
              (spawn-Running (length w.spawned) (signal st.stop_tx w.signalled)
                (signal-Running (length w.spawned) w.signalled st.stop_tx held)) in
          record {
            shape = put-Shape w c st' i (of_output d' e);
            running =
                subst
                  (λ o.
                    Running (length (w.spawned ++ (new ∷ []))) (signal st.stop_tx w.signalled) o)
                  (sym (put_here w c st' e ∙ s)) next;
          }

  -- The handle is taken and signalled.
  pub stop-Inv :
      (w : AudioChannelManager Sink Source) (c : ℕ) (st st' : AudioChannelState Sink) (fl : List ℕ)
      → w.channels c ≡ some st
      → st'.direction ≡ st.direction
      → st'.stop_tx ≡ none
      → Inv w
      → Inv
          (with_state c st' (record w { signalled = signal st.stop_tx w.signalled; flushes = fl }))
  stop-Inv w c st st' fl h d s i = stopped (i.shape c st h)
    where
      stopped :
          Shape c st
          → Inv (
              with_state c st'
                (record w { signalled = signal st.stop_tx w.signalled; flushes = fl }))
      stopped (of_input a e n) = record {
        shape = put-Shape w c st' i (of_input (d ∙ a) e s);
        running =
            subst (λ o. Running (length w.spawned) (signal st.stop_tx w.signalled) o)
              (sym (put_there w c st' e)) (rw n i.running);
      }
      stopped (of_output a e) =
          let held =
            subst (λ o. Running (length w.spawned) w.signalled o) (here_or_there w c st h e)
              i.running in
          record {
            shape = put-Shape w c st' i (of_output (d ∙ a) e);
            running =
                subst (λ o. Running (length w.spawned) (signal st.stop_tx w.signalled) o)
                  (sym (put_here w c st' e ∙ s))
                  (signal-Running (length w.spawned) w.signalled st.stop_tx held);
          }
