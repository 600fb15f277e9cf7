-- ===== src/Nav/Runner.antt =====
-- The task that drives a source, crates/aabox-aapd/src/nav/runner.rs, and the destination file,
-- crates/aabox-aapd/src/nav/destination_file.rs. JSON and the parsing of `f64` are parameters.
use aabox.Common.{
  ℕ, zero, suc, Bool, true, false, Option, none, some, Result, ok, err, ◌>>=◌, List, [], ◌∷◌,
  length, map, ◌==◌, if◌then◌else◌, Bytes, ◌⊎◌, inl, inr,
}
use aabox.Effect.{Error, rejected, decode}
use aabox.Channels.{NavInstruction}
use aabox.Sign.Pem.{trim}
use aabox.Nav.{NavInstructionSource}

module _ {Fix Dest N : Type 0} (source : NavInstructionSource Fix Dest N) where
  open source use {install, move_to, instruction}

  -- The instructions sent, and the source while the task is not at its end. `receiver` tells whether
  -- the other end of `nav_tx` is there.
  abbrev pub Task : Type 0
  Task = List NavInstruction × Option N

  abbrev pub answer : Dest ⊎ Fix → N → Result Error (Option NavInstruction) × N
  answer (inl dest) n = install dest n
  answer (inr fix) n = move_to fix n

  -- A failure of the source is only logged.
  abbrev pub emitted : Bool → (N → Task) → Result Error (Option NavInstruction) × N → Task
  emitted receiver go (err e, n) = go n
  emitted receiver go (ok none, n) = go n
  emitted true go (ok (some instr), n) = (instr ∷ (go n).0, (go n).1)
  emitted false go (ok (some instr), n) = ([], none)

  -- The loop, on what its streams deliver.
  unfoldable pub runner_loop : List ((Dest ⊎ Fix) × Bool) → N → Task
  runner_loop [] n = ([], some n)
  runner_loop ((input, receiver) ∷ inputs) n =
      emitted receiver (runner_loop inputs) (answer input n)

  unfoldable pub run_nav : Bool → Bool → List ((Dest ⊎ Fix) × Bool) → N → Task
  unfolding runner_loop
  run_nav emit_initial receiver inputs n =
      if emit_initial then initial (instruction n) else runner_loop inputs n
    where
      initial : Option NavInstruction → Task
      initial none = runner_loop inputs n
      initial (some instr) =
          if receiver
          then (instr ∷ (runner_loop inputs n).0, (runner_loop inputs n).1)
          else ([], none)

-- `splitn(3, ',')`: `k` more splits may be made.
abbrev pub split_first : ℕ → List Bytes → List Bytes
split_first c [] = (c ∷ []) ∷ []
split_first c (p ∷ ps) = (c ∷ p) ∷ ps

unfoldable pub splitn : ℕ → Bytes → List Bytes
splitn k [] = [] ∷ []
splitn zero (c ∷ cs) = (c ∷ cs) ∷ []
splitn (suc k) (c ∷ cs) =
    let split = splitn k cs in
    let on = splitn (suc k) cs in if c == b',' then [] ∷ split else split_first c on

module _ {Float : Type 0} (parse_float : Bytes → Option Float)
    (label_of : Float → Float → Bytes) where
  pub record DestinationFile : Type 0 where
    pub lat : Float
    pub lon : Float
    pub label : Bytes

  unfoldable pub into_destination : DestinationFile → DestinationFile
  into_destination d = if length d.label == 0 then record d { label = label_of d.lat d.lon } else d

  abbrev float_of : Bytes → Result Error Float
  float_of t = of_option (parse_float t)
    where
      of_option : Option Float → Result Error Float
      of_option none = err (decode 0)
      of_option (some x) = ok x

  abbrev label_part : List Bytes → Bytes
  label_part [] = []
  label_part (l ∷ rest) = l

  unfoldable pub parse_parts : List Bytes → Result Error DestinationFile
  parse_parts [] = err (rejected 0)
  parse_parts (a ∷ []) = err (rejected 1)
  parse_parts (a ∷ b ∷ more) = float_of a >>= λ lat.
      float_of b >>= λ lon. ok (record { lat = lat; lon = lon; label = label_part more })

  -- `DestinationFile::parse_cli`
  unfoldable pub parse_cli : Bytes → Result Error DestinationFile
  unfolding parse_parts splitn
  parse_cli s = parse_parts (map trim (splitn 2 s))
