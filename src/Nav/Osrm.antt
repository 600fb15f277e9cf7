-- ===== src/Nav/Osrm.antt =====
-- The source over the routing service, `OsrmNavSource` of crates/aabox-aapd/src/nav/osrm.rs.
use aabox.Common.{
  ℕ, ◌+◌, ◌-◌, min, Bool, false, Option, none, some, Result, ok, err, List, [], ◌∷◌, ◌++◌, length,
  get_elem?, map, concat, ltb, leb, ◌==◌, if◌then◌else◌, Bytes, ascii, bytes_eq,
}
use aabox.Effect.{Error, rejected, Eff, ◌>>=◌}
use aabox.Channels.{NavInstruction}
use aabox.Nav.{Floats, maneuver_to_turn_id, maneuver_to_verb, NavInstructionSource}

module _ (fl : Floats) where
  open fl use {
    Float, PositionFix, lat_of, lon_of, distance_to, less, zero_m, advance_radius_m,
    recalc_radius_m, round_m, text_m,
  }

  -- A step as the service sends it, with the two numbers of its location.
  pub record OsrmStep : Type 0 where
    pub distance : Float
    pub name : Bytes
    pub location_lon : Float
    pub location_lat : Float
    pub maneuver_type : Bytes
    pub modifier : Option Bytes

  -- A route is its legs, a leg its steps.
  abbrev pub OsrmRoute : Type 0
  OsrmRoute = List (List OsrmStep)

  pub record OsrmResponse : Type 0 where
    pub code : Bytes
    pub routes : List OsrmRoute

  pub record RouteStep : Type 0 where
    pub lat : Float
    pub lon : Float
    pub distance_m : Float
    pub name : Bytes
    pub turn_id : ℕ
    pub verb : Bytes

  unfoldable pub route_step : OsrmStep → RouteStep
  route_step s = record {
    lat = s.location_lat;
    lon = s.location_lon;
    distance_m = s.distance;
    name = s.name;
    turn_id = maneuver_to_turn_id s.maneuver_type s.modifier;
    verb = maneuver_to_verb s.maneuver_type s.modifier;
  }

  -- `Route::from_osrm`; a route is its steps.
  unfoldable pub from_osrm : OsrmRoute → List RouteStep
  unfolding route_step
  from_osrm legs = map route_step (concat legs)

  abbrev pub first_route : List OsrmRoute → Result Error (List RouteStep)
  first_route [] = err (rejected 0)
  first_route (r ∷ rs) = ok (from_osrm r)

  -- The part of `OsrmClient::route` behind the request.
  unfoldable pub accept_response : OsrmResponse → Result Error (List RouteStep)
  unfolding from_osrm
  accept_response body =
      if bytes_eq body.code (ascii "Ok") then first_route body.routes else err (rejected 1)

  pub record Destination : Type 0 where
    pub lat : Float
    pub lon : Float
    pub label : Bytes

  pub record OsrmNavSource : Type 0 where
    pub destination : Option Destination
    pub route : Option (List RouteStep)
    pub next_idx : ℕ
    pub last_fix : Option PositionFix
    pub current : Option NavInstruction

  unfoldable pub new_source : OsrmNavSource
  new_source = record {
    destination = none;
    route = none;
    next_idx = 0;
    last_fix = none;
    current = none;
  }

  abbrev pub distance_of : Option RouteStep → Float
  distance_of none = zero_m
  distance_of (some s) = s.distance_m

  -- The distance to show for the step at `idx`.
  unfoldable pub shown_distance : List RouteStep → ℕ → RouteStep → Option PositionFix → Float
  shown_distance steps idx step (some p) = distance_to p step.lat step.lon
  shown_distance steps idx step none =
      if ltb 0 idx then distance_of (get_elem? steps (idx - 1)) else distance_of (get_elem? steps 1)

  unfoldable pub status_text : RouteStep → Float → Bytes
  status_text step dist_m =
      if length step.name == 0
      then step.verb ++ (ascii " in " ++ (text_m dist_m ++ ascii " m"))
      else step.verb ++ (ascii " in " ++ (text_m dist_m ++ (ascii " m onto " ++ step.name)))

  unfoldable pub instruction_at :
      List RouteStep → ℕ → Option PositionFix → Option RouteStep → Option NavInstruction
  unfolding shown_distance status_text
  instruction_at steps idx last_fix none = none
  instruction_at steps idx last_fix (some step) =
      let dist_m = shown_distance steps idx step last_fix in
      some (record {
        status_text = status_text step dist_m;
        turn_id = step.turn_id;
        distance_m = round_m dist_m;
      })

  -- The index is held down to the last step, and there is no step where there are none.
  unfoldable pub rebuilt : ℕ → Option PositionFix → Option (List RouteStep) → Option NavInstruction
  unfolding instruction_at
  rebuilt next_idx last_fix none = none
  rebuilt next_idx last_fix (some steps) =
      let idx = min next_idx (length steps - 1) in
      instruction_at steps idx last_fix (get_elem? steps idx)

  unfoldable pub rebuild_current : OsrmNavSource → OsrmNavSource
  unfolding rebuilt
  rebuild_current s = record s { current = rebuilt s.next_idx s.last_fix s.route }

  abbrev nearer : Float → Option Float → Option Float
  nearer d none = some d
  nearer d (some a) = if less d a then some d else some a

  -- The fold of `min_dist_to_route`, from the first step on.
  unfoldable pub min_dist_to_route : PositionFix → List RouteStep → Option Float → Option Float
  min_dist_to_route fix [] acc = acc
  min_dist_to_route fix (s ∷ steps) acc =
      min_dist_to_route fix steps (nearer (distance_to fix s.lat s.lon) acc)

  -- The first turn of a new route.
  unfoldable pub first_idx : List RouteStep → ℕ
  first_idx steps = if leb 2 (length steps) then 1 else 0

  abbrev pub with_route : List RouteStep → OsrmNavSource → OsrmNavSource
  with_route steps s = record s { route = some steps; next_idx = first_idx steps }

  -- The answer to a request for a route, which is then shown.
  abbrev pub show_route :
      Result Error (List RouteStep)
      → OsrmNavSource
      → Result Error (Option NavInstruction) × OsrmNavSource
  show_route (err e) s = (err e, s)
  show_route (ok steps) s =
      (ok (rebuild_current (with_route steps s)).current, rebuild_current (with_route steps s))

  -- The step after the one at the pointer, where the fix is near it and it is not the last.
  unfoldable pub advanced : PositionFix → List RouteStep → ℕ → Option RouteStep → ℕ
  advanced fix steps next_idx none = next_idx
  advanced fix steps next_idx (some step) =
      if less (distance_to fix step.lat step.lon) advance_radius_m
      then if ltb (next_idx + 1) (length steps) then next_idx + 1 else next_idx
      else next_idx

  abbrev pub is_far : Option Float → Bool
  is_far none = false
  is_far (some d) = less recalc_radius_m d

  -- A failed recalculation keeps the route.
  abbrev pub recalculated : Result Error (List RouteStep) → OsrmNavSource → OsrmNavSource
  recalculated (err e) s = s
  recalculated (ok steps) s = with_route steps s

  -- `request` is the HTTP request, with start and end, over the state `H` of the client.
  module _ {H : Type 0} (request : Float → Float → Float → Float → Eff H OsrmResponse) where
    -- `OsrmClient::route`
    unfoldable pub fetch : Float → Float → Float → Float → Eff H (List RouteStep)
    unfolding accept_response
    fetch start_lat start_lon end_lat end_lon =
        request start_lat start_lon end_lat end_lon >>= λ body h. (accept_response body, h)

    unfoldable pub set_destination_at :
        Option PositionFix
        → Destination
        → OsrmNavSource
        → H
        → Result Error (Option NavInstruction) × (OsrmNavSource × H)
    set_destination_at none dest s h = (ok none, (s, h))
    set_destination_at (some p) dest s h =
        let r = fetch (lat_of p) (lon_of p) dest.lat dest.lon h in
        ((show_route r.0 s).0, ((show_route r.0 s).1, r.1))

    unfoldable pub set_destination : Destination → Eff (OsrmNavSource × H) (Option NavInstruction)
    unfolding set_destination_at fetch
    set_destination dest (s, h) =
        set_destination_at s.last_fix dest
          (record s { destination = some dest; route = none; next_idx = 0; current = none }) h

    -- A fix with a destination and a route: advance, then the test for a new route.
    unfoldable pub on_route :
        PositionFix
        → Destination
        → List RouteStep
        → OsrmNavSource
        → H
        → Result Error (Option NavInstruction) × (OsrmNavSource × H)
    on_route fix dest steps s h =
        let moved = record s {
          next_idx = advanced fix steps s.next_idx (get_elem? steps s.next_idx);
        } in
        let r = fetch (lat_of fix) (lon_of fix) dest.lat dest.lon h in
        let next : OsrmNavSource × H =
          if is_far (min_dist_to_route fix steps none)
          then (recalculated r.0 moved, r.1)
          else (moved, h) in
        (ok (rebuild_current next.0).current, (rebuild_current next.0, next.1))

    unfoldable pub update_at :
        PositionFix
        → Option Destination
        → Option (List RouteStep)
        → OsrmNavSource
        → H
        → Result Error (Option NavInstruction) × (OsrmNavSource × H)
    unfolding on_route
    update_at fix none route s h = (ok none, (s, h))
    update_at fix (some dest) none s h =
        let r = fetch (lat_of fix) (lon_of fix) dest.lat dest.lon h in
        ((show_route r.0 s).0, ((show_route r.0 s).1, r.1))
    update_at fix (some dest) (some steps) s h = on_route fix dest steps s h

    unfoldable pub update_position : PositionFix → Eff (OsrmNavSource × H) (Option NavInstruction)
    unfolding update_at
    update_position fix (s, h) =
        update_at fix s.destination s.route (record s { last_fix = some fix }) h

    unfoldable pub osrm_source : NavInstructionSource PositionFix Destination (OsrmNavSource × H)
    unfolding set_destination update_position
    osrm_source = record {
      install = set_destination;
      move_to = update_position;
      instruction = λ w. w.0.current;
    }
