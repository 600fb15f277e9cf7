-- ===== src/Nav/Tests.antt =====
-- Examples of a route, where positions are numbers on a line.
use aabox.Common.{ℕ, ◌+◌, ◌-◌, some, List, [], ◌∷◌, ◌⊎◌, inl, inr, ok, Bytes, ascii, ltb}
use aabox.Nav.{Floats}
use aabox.Nav.Osrm.{OsrmStep, OsrmResponse, Destination}
use aabox.Nav.Pointer.{Sound, source_after, source_after-Sound}

abbrev floats : Floats
floats = record {
  Float = ℕ;
  PositionFix = ℕ;
  lat_of = λ p. p;
  lon_of = λ p. 0;
  distance_to = λ p lat lon. (p - lat) + (lat - p);
  less = ltb;
  zero_m = 0;
  advance_radius_m = 25;
  recalc_radius_m = 200;
  round_m = λ d. d;
  text_m = λ d. ascii "some";
}

abbrev step_at : ℕ → Bytes → OsrmStep floats
step_at at maneuver = record {
  distance = 100;
  name = ascii "Main Street";
  location_lon = 0;
  location_lat = at;
  maneuver_type = maneuver;
  modifier = some (ascii "left");
}

-- Always the same route.
abbrev answer : OsrmResponse floats
answer = record {
  code = ascii "Ok";
  routes =
      ((step_at 0 (ascii "depart") ∷ step_at 100 (ascii "turn") ∷ step_at 200 (ascii "arrive") ∷ [])
        ∷ [])
      ∷ [];
}

abbrev home : Destination floats
home = record { lat = 200; lon = 0; label = ascii "Home" }

-- A fix, a destination, and two fixes, the last of them far from the route.
abbrev calls : List (Destination floats ⊎ ℕ)
calls = inr 900 ∷ inr 90 ∷ inl home ∷ inr 0 ∷ []

source_after-Sound_example :
    Sound floats (source_after floats (λ a b c d h. (ok answer, h)) tt calls).0
source_after-Sound_example = source_after-Sound floats (λ a b c d h. (ok answer, h)) tt calls
