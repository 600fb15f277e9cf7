-- ===== src/Audio/Encoders.antt =====
-- Which of the spawned encoders have not been sent the stop signal.
use aabox.Common.{
  ℕ, suc, ◌<◌, Bool, true, false, ◌||◌, Bool-cases, inl, inr, Option, none, some, List, [], ◌∷◌,
  ◌≡◌, refl, ap, ◌==◌, ==_iff, arith,
}
use aabox.Audio.{AudioChannelState, signal}

abbrev pub elem : ℕ → List ℕ → Bool
elem k [] = false
elem k (x ∷ xs) = k == x || elem k xs

unfoldable pub stop_of : {Sink : Type 0} → Option (AudioChannelState Sink) → Option ℕ
stop_of none = none
stop_of (some st) = st.stop_tx

-- Tasks that are numbered below `n`: those that were signalled, and the one whose handle is held.
pub record Running (n : ℕ) (signalled : List ℕ) (held : Option ℕ) : Type 0 where
  pub is_held : (k : ℕ) → k < n → elem k signalled ≡ false → held ≡ some k
  pub not_signalled : (k : ℕ) → held ≡ some k → elem k signalled ≡ false
  pub in_range : (k : ℕ) → held ≡ some k → k < n
  pub was_spawned : (k : ℕ) → elem k signalled ≡ true → k < n

pub none-some : {A : Type 0} {x : A} → none ≡ some x → ⊥
none-some h = cc h

pub some_injective : {A : Type 0} {x y : A} → some x ≡ some y → x ≡ y
some_injective h = cc h

pub signal-Running :
    (n : ℕ) (signalled : List ℕ) (held : Option ℕ)
    → Running n signalled held
    → Running n (signal held signalled) none
signal-Running n signalled none r = record {
  is_held = r.is_held;
  not_signalled = λ k h. absurd (none-some h);
  in_range = λ k h. absurd (none-some h);
  was_spawned = r.was_spawned;
}
signal-Running n signalled (some task) r = record {
  is_held = λ k lt h.
      let others : elem k signalled ≡ false = ground (arith, h) in
      let same : task ≡ k = some_injective (r.is_held k lt others) in
      absurd (ground (arith, h, same));
  not_signalled = λ k h. absurd (none-some h);
  in_range = λ k h. absurd (none-some h);
  was_spawned = λ k h. elim (Bool-cases (k == task)) [
    | inl e ↦ omega (arith, (==_iff k task).0 e, r.in_range task refl)
    | inr e ↦ r.was_spawned k (ground (arith, h, e))
  ];
}

pub spawn-Running :
    (n : ℕ) (signalled : List ℕ) → Running n signalled none → Running (suc n) signalled (some n)
spawn-Running n signalled r = record {
  is_held = λ k lt h. elim (Bool-cases (k == n)) [
    | inl e ↦ ap some (omega (arith, (==_iff k n).0 e))
    | inr e ↦ absurd (none-some (r.is_held k (ground (arith, e, lt)) h))
  ];
  not_signalled = λ k h. elim (Bool-cases (elem k signalled)) [
    | inl e ↦ absurd (omega (arith, some_injective h, r.was_spawned k e))
    | inr e ↦ e
  ];
  in_range = λ k h. omega (arith, some_injective h);
  was_spawned = λ k h. omega (arith, r.was_spawned k h);
}
