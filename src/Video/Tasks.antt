-- ===== src/Video/Tasks.antt =====
-- What the rounds of the tasks do to the number of frames in flight.
use aabox.Common.{
  ℕ, suc, ◌+◌, ◌%◌, ◌^◌, ◌≤◌, ◌<◌, ◌≡◌, refl, ◌⊎◌, inl, inr, Bool-cases, Option, none, some, List,
  [], ◌∷◌, ◌++◌, ltb, ltb→lt, ◌==◌, if◌then◌else◌, length, All, arith,
}
use aabox.Video.{
  VideoPipeline, Phase, turn, checking, waiting, parked, fetching, sending, counting, Streamer,
  Event, generation_changed, receiver_dropped, next_frame, advance, with_in_flight,
  outbound_capacity,
}
use aabox.Video.Run.{add_task, late}

-- 1 for a task of the generation, and 1 for one that has passed the test of `in_flight` as well.
unfoldable pub current : ℕ → Streamer → ℕ
current g t = if g == t.my_gen then 1 else 0

unfoldable pub committed_phase : Phase → ℕ
committed_phase checking = 0
committed_phase waiting = 0
committed_phase parked = 0
committed_phase _ = 1

unfoldable pub committed_at : ℕ → Streamer → Phase → ℕ
unfolding committed_phase
committed_at g t phase = if g == t.my_gen then committed_phase phase else 0

unfoldable pub committed : ℕ → Streamer → ℕ
unfolding committed_at
committed g t = committed_at g t t.phase

unfoldable pub sum : (Streamer → ℕ) → List Streamer → ℕ
sum f [] = 0
sum f (t ∷ ts) = f t + sum f ts

pub sum-append : (f : Streamer → ℕ) (xs ys : List Streamer) → sum f (xs ++ ys) ≡ sum f xs + sum f ys
unfolding sum
sum-append f [] ys = omega arith
sum-append f (x ∷ xs) ys = omega (arith, sum-append f xs ys)

unfoldable pub sum_of : (Streamer → ℕ) → Option Streamer → ℕ
sum_of f none = 0
sum_of f (some t) = f t

pub sum-add_task :
    (f : Streamer → ℕ) (o : Option Streamer) (ts : List Streamer)
    → sum f (add_task o ts) ≡ sum_of f o + sum f ts
unfolding sum sum_of
sum-add_task f none ts = omega arith
sum-add_task f (some t) ts = refl

committed_phase_le : (phase : Phase) → committed_phase phase ≤ 1
unfolding committed_phase
committed_phase_le checking = omega arith
committed_phase_le waiting = omega arith
committed_phase_le parked = omega arith
committed_phase_le fetching = omega arith
committed_phase_le (sending out) = omega arith
committed_phase_le counting = omega arith

committed_le : (g : ℕ) (t : Streamer) → committed g t ≤ current g t
unfolding committed committed_at current
committed_le g t = ground (arith, committed_phase_le t.phase)

pub sum-committed_le : (g : ℕ) (ts : List Streamer) → sum (committed g) ts ≤ sum (current g) ts
unfolding sum
sum-committed_le g [] = omega arith
sum-committed_le g (t ∷ ts) = omega (arith, committed_le g t, sum-committed_le g ts)

-- No task is of a later generation.
abbrev pub NotAhead : ℕ → Streamer → Type 0
NotAhead g t = t.my_gen ≤ g

pub sum-current_fresh :
    (g : ℕ) (ts : List Streamer) → All (NotAhead g) ts → sum (current (suc g)) ts ≡ 0
unfolding sum current
sum-current_fresh g [] h = refl
sum-current_fresh g (t ∷ ts) (h, hs) = ground (arith, sum-current_fresh g ts hs)

pub All-NotAhead-suc :
    (g : ℕ) (ts : List Streamer) → All (NotAhead g) ts → All (NotAhead (suc g)) ts
All-NotAhead-suc g [] h = tt
All-NotAhead-suc g (t ∷ ts) (h, hs) = (omega arith, All-NotAhead-suc g ts hs)

-- What one round of a task does to the count: it raises what is in flight or committed by a late
-- frame at most, or it has seen a free slot and is the current task.
pub record Moved (max_in_flight : ℕ) (p : VideoPipeline) (t : Streamer) (phase : Phase)
    (r : VideoPipeline × Option Streamer) : Type 0 where
  pub same_generation : r.0.generation ≡ p.generation
  pub same_task : sum_of (current p.generation) r.1 ≤ current p.generation t
  pub not_ahead : t.my_gen ≤ p.generation → All (NotAhead p.generation) (add_task r.1 [])
  pub bound :
      (r.0.in_flight + sum_of (committed p.generation) r.1
        ≤ p.in_flight + committed_at p.generation t phase + late p t phase)
      ⊎ ((r.0.in_flight + sum_of (committed p.generation) r.1 ≤ max_in_flight)
          × (current p.generation t ≡ 1))

-- A task that goes on in another phase without touching what is in flight.
stay :
    (max_in_flight : ℕ) (p p' : VideoPipeline) (t : Streamer) (old new : Phase)
    → p'.generation ≡ p.generation
    → p'.in_flight ≡ p.in_flight
    → committed_phase new ≤ committed_phase old
    → Moved max_in_flight p t old (p', some (record { my_gen = t.my_gen; phase = new }))
unfolding sum_of current committed committed_at
stay max_in_flight p p' t old new g i h = record {
  same_generation = g;
  same_task = omega arith;
  not_ahead = λ a. (a, tt);
  bound = inl (ground arith);
}

leave :
    (max_in_flight : ℕ) (p : VideoPipeline) (t : Streamer) (old : Phase)
    → Moved max_in_flight p t old (p, none)
unfolding sum_of
leave max_in_flight p t old = record {
  same_generation = refl;
  same_task = omega arith;
  not_ahead = λ a. tt;
  bound = inl (omega arith);
}

-- The test of `in_flight` lets a task pass.
pass :
    (max_in_flight : ℕ) (p : VideoPipeline) (t : Streamer)
    → p.in_flight < max_in_flight
    → Moved max_in_flight p t waiting (p, some (record { my_gen = t.my_gen; phase = fetching }))
unfolding sum_of current committed committed_at committed_phase late
pass max_in_flight p t h = elim (Bool-cases (p.generation == t.my_gen)) [
  | inl now ↦ record {
    same_generation = refl;
    same_task = omega arith;
    not_ahead = λ a. (a, tt);
    bound = inr (rw now (omega arith), rw now refl);
  }
  | inr before ↦ record {
    same_generation = refl;
    same_task = omega arith;
    not_ahead = λ a. (a, tt);
    bound = inl (rw before (omega arith));
  }
]

count :
    (max_in_flight : ℕ) (p : VideoPipeline) (t : Streamer)
    → Moved max_in_flight p t counting (
      with_in_flight ((p.in_flight + 1) % 2 ^ 32) p,
      some (record { my_gen = t.my_gen; phase = checking }),
    )
unfolding sum_of current committed committed_at committed_phase late
count max_in_flight p t = record {
  same_generation = refl;
  same_task = omega arith;
  not_ahead = λ a. (a, tt);
  bound = inl (ground arith);
}

pub advance-Moved :
    (max_in_flight : ℕ) (p : VideoPipeline) (t : Streamer) (phase : Phase) (event : Event)
    → Moved max_in_flight p t phase (advance max_in_flight p t phase event)
unfolding advance committed_phase
advance-Moved n p t checking event = elim (Bool-cases (p.generation == t.my_gen)) [
  | inl now ↦ rw now (stay n p p t checking waiting refl refl (omega arith))
  | inr before ↦ rw before (leave n p t checking)
]
advance-Moved n p t waiting event = elim (Bool-cases (ltb p.in_flight n)) [
  | inl free ↦ rw free (pass n p t (ltb→lt p.in_flight n free))
  | inr full ↦ rw full (stay n p p t waiting parked refl refl (omega arith))
]
advance-Moved n p t parked turn = stay n p p t parked waiting refl refl (omega arith)
advance-Moved n p t parked generation_changed = elim (Bool-cases (p.generation == t.my_gen)) [
  | inl now ↦ rw now (stay n p p t parked waiting refl refl (omega arith))
  | inr before ↦ rw before (leave n p t parked)
]
advance-Moved n p t parked _ = stay n p p t parked parked refl refl (omega arith)
advance-Moved n p t fetching (next_frame none) = leave n p t fetching
advance-Moved n p t fetching (next_frame (some (pts_us, annex_b))) =
    stay n p p t fetching _ refl refl (omega arith)
advance-Moved n p t fetching _ = stay n p p t fetching fetching refl refl (omega arith)
advance-Moved n p t (sending out) receiver_dropped = leave n p t (sending out)
advance-Moved n p t (sending out) _ =
    elim (Bool-cases (ltb (length p.outbound) outbound_capacity)) [
      | inl room ↦ rw room (stay n p _ t (sending out) counting refl refl (omega arith))
      | inr full ↦ rw full (stay n p p t (sending out) (sending out) refl refl (omega arith))
    ]
advance-Moved n p t counting event = count n p t
