-- ===== src/Video/Backpressure.antt =====
-- How many frames are in flight.
use aabox.Common.{
  ℕ, suc, ◌+◌, ◌≤◌, ◌≡◌, refl, sym, ap, ◌∙◌, subst, inl, inr, true, Option, none, some, List, [],
  ◌∷◌, ◌++◌, ◌==◌, ==_iff, All, arith,
}
use aabox.Video.{
  VideoPipeline, Streamer, new_pipeline, set_wire_channel, start, stop, on_media_ack, receive,
  streamer_step, next_generation,
}
use aabox.Video.Run.{
  add_task, late, Step, on_start, on_stop, on_ack, on_wire, on_receive, on_task, Reached, at_new,
  then_step,
}
use aabox.Video.Tasks.{
  current, committed_phase, committed_at, committed, sum, sum-append, sum_of, sum-add_task,
  sum-committed_le, NotAhead, sum-current_fresh, All-NotAhead-suc, Moved, advance-Moved,
}

-- With `k` frames counted late, at most `k` more than the limit are in flight or committed; one task
-- at most is current, and none is ahead.
record Within (max_in_flight k : ℕ) (w : VideoPipeline × List Streamer) : Type 0 where
  at_most : w.0.in_flight + sum (committed w.0.generation) w.1 ≤ max_in_flight + k
  single : sum (current w.0.generation) w.1 ≤ 1
  behind : All (NotAhead w.0.generation) w.1

-- A new generation starts from nothing.
renew :
    (max_in_flight k : ℕ) (g : ℕ) (ts : List Streamer)
    → All (NotAhead g) ts
    → (sum (current (suc g)) ts ≡ 0) × (sum (committed (suc g)) ts ≡ 0) × All (NotAhead (suc g)) ts
renew max_in_flight k g ts h =
    let none_current = sum-current_fresh g ts h in
    (none_current, omega (arith, sum-committed_le (suc g) ts), All-NotAhead-suc g ts h)

keep :
    (max_in_flight k : ℕ) {p p' : VideoPipeline} {ts : List Streamer}
    → p'.generation ≡ p.generation
    → p'.in_flight ≤ p.in_flight
    → Within max_in_flight k (p, ts)
    → Within max_in_flight k (p', ts)
keep max_in_flight k {p = p} {p' = p'} {ts = ts} g h w = record {
  at_most =
      subst (λ n. p'.in_flight + sum (committed n) ts ≤ max_in_flight + k) (sym g)
        (omega (arith, w.at_most));
  single = subst (λ n. sum (current n) ts ≤ 1) (sym g) w.single;
  behind = subst (λ n. All (NotAhead n) ts) (sym g) w.behind;
}

replace :
    (g : ℕ) (before after : List Streamer) (t : Streamer) (o : Option Streamer)
    → All (NotAhead g) (before ++ (t ∷ after))
    → (NotAhead g t → All (NotAhead g) (add_task o []))
    → All (NotAhead g) (before ++ add_task o after)
replace g [] after t none (h, hs) f = hs
replace g [] after t (some t') (h, hs) f = ((f h).0, hs)
replace g (x ∷ before) after t o (h, hs) f = (h, replace g before after t o hs f)

sum_around :
    (f : Streamer → ℕ) (before after : List Streamer) (t : Streamer) (o : Option Streamer)
    → (sum f (before ++ (t ∷ after)) ≡ sum f before + (f t + sum f after))
      × (sum f (before ++ add_task o after) ≡ sum f before + (sum_of f o + sum f after))
unfolding sum
sum_around f before after t o = (
  sum-append f before (t ∷ after),
  sum-append f before (add_task o after) ∙ ap (λ n. sum f before + n) (sum-add_task f o after),
)

task-Within :
    (max_in_flight k : ℕ) (p : VideoPipeline) (before after : List Streamer) (t : Streamer)
    (r : VideoPipeline × Option Streamer)
    → Moved max_in_flight p t t.phase r
    → Within max_in_flight k (p, before ++ (t ∷ after))
    → Within max_in_flight (k + late p t t.phase) (r.0, before ++ add_task r.1 after)
unfolding committed
task-Within max_in_flight k p before after t r moved w =
    let g = p.generation in
    let (c, c') = sum_around (committed g) before after t r.1 in
    let (n, n') = sum_around (current g) before after t r.1 in
    let held : p.in_flight + (sum (committed g) before + (committed g t + sum (committed g) after))
        ≤ max_in_flight + k =
      omega (arith, w.at_most, c) in
    let one : sum (current g) before + (current g t + sum (current g) after) ≤ 1 =
      omega (arith, w.single, n) in
    let at_most : r.0.in_flight + sum (committed g) (before ++ add_task r.1 after)
        ≤ max_in_flight + (k + late p t t.phase) =
      elim moved.bound [
        | inl b ↦ omega (arith, c')
        | inr (b, now) ↦ omega (arith, c', sum-committed_le g before, sum-committed_le g after)
      ] in
    let single : sum (current g) (before ++ add_task r.1 after) ≤ 1 =
      omega (arith, moved.same_task, n') in
    let behind = replace g before after t r.1 w.behind moved.not_ahead in
    record {
      at_most =
          subst
            (λ m.
              r.0.in_flight + sum (committed m) (before ++ add_task r.1 after)
              ≤ max_in_flight + (k + late p t t.phase))
            (sym moved.same_generation) at_most;
      single =
          subst (λ m. sum (current m) (before ++ add_task r.1 after) ≤ 1)
            (sym moved.same_generation) single;
      behind =
          subst (λ m. All (NotAhead m) (before ++ add_task r.1 after)) (sym moved.same_generation)
            behind;
    }

Step-Within :
    (max_in_flight k : ℕ) {n : ℕ} {a b : VideoPipeline × List Streamer}
    → Within max_in_flight k a
    → Step max_in_flight n a b
    → Within max_in_flight (k + n) b
unfolding start stop on_media_ack set_wire_channel receive streamer_step sum committed committed_at
    committed_phase current
Step-Within max_in_flight k w (on_start session p ts h) =
    let next : next_generation p ≡ suc p.generation = omega arith in
    let (fresh, free, behind) = renew max_in_flight k p.generation ts w.behind in
    let itself : (suc p.generation == suc p.generation) ≡ true =
      (==_iff (suc p.generation) (suc p.generation)).1 refl in
    rw next (record {
      at_most = rw (itself, free) (omega arith);
      single = rw (itself, fresh) (omega arith);
      behind = (omega arith, behind);
    })
Step-Within max_in_flight k w (on_stop p [] h) =
    keep max_in_flight (k + 0) refl (omega arith)
      (subst (λ m. Within max_in_flight m (p, [])) (omega arith) w)
Step-Within max_in_flight k w (on_stop p (t ∷ ts) h) =
    let next : next_generation p ≡ suc p.generation = omega arith in
    let (fresh, free, behind) = renew max_in_flight k p.generation (t ∷ ts) w.behind in
    rw next
      (record { at_most = rw free (omega arith); single = rw fresh (omega arith); behind = behind })
Step-Within max_in_flight k w (on_ack p ts) =
    keep max_in_flight (k + 0) refl (ground arith)
      (subst (λ m. Within max_in_flight m (p, ts)) (omega arith) w)
Step-Within max_in_flight k w (on_wire ch p ts) =
    keep max_in_flight (k + 0) refl (omega arith)
      (subst (λ m. Within max_in_flight m (p, ts)) (omega arith) w)
Step-Within max_in_flight k w (on_receive p ts) =
    keep max_in_flight (k + 0) refl (omega arith)
      (subst (λ m. Within max_in_flight m (p, ts)) (omega arith) w)
Step-Within max_in_flight k w (on_task p before after t event) =
    task-Within max_in_flight k p before after t _ (advance-Moved max_in_flight p t t.phase event) w

Reached-Within :
    (max_in_flight : ℕ) {k : ℕ} {w : VideoPipeline × List Streamer}
    → Reached max_in_flight k w
    → Within max_in_flight k w
unfolding new_pipeline sum
Reached-Within max_in_flight at_new = record {
  at_most = omega arith;
  single = omega arith;
  behind = tt;
}
Reached-Within max_in_flight (then_step {k = k} r s) =
    Step-Within max_in_flight k (Reached-Within max_in_flight r) s

-- In every run of the pipeline from its start, in whatever order handles are called and tasks take
-- their turns, each call and each turn being one step, and as long as the generation does not
-- wrap, the number of frames in flight is at most the limit plus the number of frames that tasks
-- of an earlier generation have counted.
pub in_flight_bound :
    (max_in_flight : ℕ) {k : ℕ} {w : VideoPipeline × List Streamer}
    → Reached max_in_flight k w
    → w.0.in_flight ≤ max_in_flight + k
in_flight_bound max_in_flight r = omega (arith, (Reached-Within max_in_flight r).at_most)
