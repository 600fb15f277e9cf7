-- ===== src/Nav.antt =====
-- The navigation sources, crates/aabox-aapd/src/nav/osrm.rs and source.rs. Floating point, the
-- routing service and the text of a distance are parameters; texts are their bytes.
pub mod Osrm
pub mod Pointer
pub mod Runner
pub mod Watch
mod Tests
use aabox.Common.{
  ℕ, zero, suc, ◌+◌, ◌-◌, min, ◌&&◌, ◌||◌, Bool, true, false, Option, none, some, Result, ok, err,
  List, [], ◌∷◌, ◌++◌, length, get_elem?, map, concat, ltb, leb, ◌==◌, if◌then◌else◌, Bytes, ascii,
  bytes_eq,
}
use aabox.Effect.{Error, rejected, Eff}
use aabox.Channels.{NavInstruction}

-- What the sources use of `f64`, and the positions; `round_m` is `round().max(0.0) as u32` and
-- `text_m` the digits of `round() as i64`.
pub record Floats : Type 1 where
  pub Float : Type 0
  pub PositionFix : Type 0
  pub lat_of : PositionFix → Float
  pub lon_of : PositionFix → Float
  pub distance_to : PositionFix → Float → Float → Float
  pub less : Float → Float → Bool
  pub zero_m : Float
  pub advance_radius_m : Float
  pub recalc_radius_m : Float
  pub round_m : Float → ℕ
  pub text_m : Float → Bytes

-- One of these texts.
abbrev is_one_of : Bytes → List Bytes → Bool
is_one_of t [] = false
is_one_of t (x ∷ xs) = bytes_eq t x || is_one_of t xs

unfoldable pub modifier_turn_id : Option Bytes → ℕ
modifier_turn_id none = 1
modifier_turn_id (some m) =
    if bytes_eq m (ascii "uturn")
    then 5
    else if bytes_eq m (ascii "sharp left")
    then 4
    else if bytes_eq m (ascii "left")
    then 3
    else if bytes_eq m (ascii "slight left")
    then 2
    else if bytes_eq m (ascii "slight right")
    then 8
    else if bytes_eq m (ascii "right")
    then 7
    else if bytes_eq m (ascii "sharp right")
    then 6
    else 1

unfoldable pub maneuver_to_turn_id : Bytes → Option Bytes → ℕ
unfolding modifier_turn_id
maneuver_to_turn_id maneuver_type modifier =
    if is_one_of maneuver_type (ascii "depart" ∷ ascii "continue" ∷ ascii "new name" ∷ [])
    then 1
    else if bytes_eq maneuver_type (ascii "arrive")
    then 9
    else if is_one_of maneuver_type (ascii "rotary" ∷ ascii "roundabout" ∷ [])
    then 3
    else modifier_turn_id modifier

unfoldable pub modifier_verb : Option Bytes → Bytes
modifier_verb none = ascii "Continue"
modifier_verb (some m) =
    if bytes_eq m (ascii "uturn")
    then ascii "Make a U-turn"
    else if bytes_eq m (ascii "sharp left")
    then ascii "Turn sharp left"
    else if bytes_eq m (ascii "left")
    then ascii "Turn left"
    else if bytes_eq m (ascii "slight left")
    then ascii "Bear left"
    else if bytes_eq m (ascii "slight right")
    then ascii "Bear right"
    else if bytes_eq m (ascii "right")
    then ascii "Turn right"
    else if bytes_eq m (ascii "sharp right")
    then ascii "Turn sharp right"
    else if bytes_eq m (ascii "straight")
    then ascii "Continue"
    else ascii "Turn (" ++ (m ++ ascii ")")

abbrev keeps_left : Option Bytes → Bool
keeps_left none = false
keeps_left (some m) = is_one_of m (ascii "left" ∷ ascii "slight left" ∷ [])

unfoldable pub maneuver_to_verb : Bytes → Option Bytes → Bytes
unfolding modifier_verb
maneuver_to_verb maneuver_type modifier =
    if bytes_eq maneuver_type (ascii "depart")
    then ascii "Head"
    else if bytes_eq maneuver_type (ascii "arrive")
    then ascii "You have arrived"
    else if is_one_of maneuver_type (ascii "continue" ∷ ascii "new name" ∷ [])
    then ascii "Continue"
    else if bytes_eq maneuver_type (ascii "fork")
    then if keeps_left modifier then ascii "Keep left" else ascii "Keep right"
    else if is_one_of maneuver_type (ascii "roundabout" ∷ ascii "rotary" ∷ [])
    then ascii "Take the roundabout"
    else if bytes_eq maneuver_type (ascii "merge")
    then ascii "Merge"
    else if bytes_eq maneuver_type (ascii "on ramp")
    then ascii "Take the on-ramp"
    else if bytes_eq maneuver_type (ascii "off ramp")
    then ascii "Take the exit"
    else modifier_verb modifier

-- `trait NavInstructionSource`
pub record NavInstructionSource (Fix Dest N : Type 0) : Type 0 where
  pub install : Dest → Eff N (Option NavInstruction)
  pub move_to : Fix → Eff N (Option NavInstruction)
  pub instruction : N → Option NavInstruction

unfoldable pub straight_ahead : NavInstruction
straight_ahead = record { status_text = ascii "Continue straight"; turn_id = 1; distance_m = 0 }

-- The source that always says to go on: the last destination, and the number of updates.
abbrev pub StaticDemoSource : Type 0 → Type 0
StaticDemoSource Dest = Option Dest × ℕ

unfoldable pub static_demo :
    {Fix Dest : Type 0} → NavInstructionSource Fix Dest (StaticDemoSource Dest)
static_demo = record {
  install = λ dest s. (ok (some straight_ahead), (some dest, s.1));
  move_to = λ fix s. (ok (some straight_ahead), (s.0, s.1 + 1));
  instruction = λ s. some straight_ahead;
}
