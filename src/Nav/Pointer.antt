-- ===== src/Nav/Pointer.antt =====
-- The step pointer stays on the route.
use aabox.Common.{
  ℕ, zero, suc, ◌-◌, ◌≤◌, min, Bool-cases, inl, inr, Option, none, some, Result, ok, err, List, [],
  ◌∷◌, All, length, get_elem?, map, concat, Bytes, bytes_eq, ascii, ◌≡◌, ◌⊎◌, refl, sym, subst,
  arith,
}
use aabox.Effect.{Error, Eff, next}
use aabox.Channels.{NavInstruction}
use aabox.Nav.{Floats, modifier_turn_id, maneuver_to_turn_id}
use aabox.Nav.Osrm.{
  OsrmStep, OsrmRoute, OsrmResponse, RouteStep, route_step, from_osrm, first_route, accept_response,
  Destination, OsrmNavSource, new_source, instruction_at, rebuilt, rebuild_current, first_idx,
  with_route, show_route, advanced, is_far, min_dist_to_route, recalculated, fetch, set_destination,
  set_destination_at, on_route, update_at, update_position,
}

abbrev pub IsTurn : ℕ → Type 0
IsTurn n = (1 ≤ n) × (n ≤ 9)

modifier_turn_id-IsTurn : (m : Option Bytes) → IsTurn (modifier_turn_id m)
unfolding modifier_turn_id
modifier_turn_id-IsTurn none = omega arith
modifier_turn_id-IsTurn (some m) = ground arith

maneuver_to_turn_id-IsTurn : (t : Bytes) (m : Option Bytes) → IsTurn (maneuver_to_turn_id t m)
unfolding maneuver_to_turn_id
maneuver_to_turn_id-IsTurn t m = let turn = modifier_turn_id-IsTurn m in ground arith

module _ (fl : Floats) where
  open fl use {Float, PositionFix}

  abbrev pub OnTurns : List (RouteStep fl) → Type 0
  OnTurns = All (λ s. IsTurn s.turn_id)

  steps-OnTurns : (steps : List (OsrmStep fl)) → OnTurns (map (route_step fl) steps)
  unfolding route_step
  steps-OnTurns [] = tt
  steps-OnTurns (s ∷ steps) =
      (maneuver_to_turn_id-IsTurn s.maneuver_type s.modifier, steps-OnTurns steps)

  -- The pointer is at a step of the route, or at 0 where it has none, and every turn has an icon.
  pub data OnRoute (next_idx : ℕ) : Option (List (RouteStep fl)) → Type 0 where
    no_route : OnRoute next_idx none
    on_steps :
        (steps : List (RouteStep fl))
        → next_idx ≤ length steps - 1
        → OnTurns steps
        → OnRoute next_idx (some steps)

  pub data Shows : Option NavInstruction → Type 0 where
    nothing : Shows none
    turn : (instr : NavInstruction) → IsTurn instr.turn_id → Shows (some instr)

  pub record Sound (s : OsrmNavSource fl) : Type 0 where
    pub on_route_at : OnRoute s.next_idx s.route
    pub shows : Shows s.current

  element-Shows :
      (steps all : List (RouteStep fl)) (idx at : ℕ) (fix : Option PositionFix)
      → OnTurns steps
      → Shows (instruction_at fl all idx fix (get_elem? steps at))
  unfolding instruction_at
  element-Shows [] all idx at fix h = nothing
  element-Shows (s ∷ steps) all idx zero fix (h, hs) = turn _ h
  element-Shows (s ∷ steps) all idx (suc at) fix (h, hs) = element-Shows steps all idx at fix hs

  rebuilt-Shows :
      (n : ℕ) (fix : Option PositionFix) (o : Option (List (RouteStep fl)))
      → OnRoute n o
      → Shows (rebuilt fl n fix o)
  unfolding rebuilt
  rebuilt-Shows n fix none no_route = nothing
  rebuilt-Shows n fix (some steps) (on_steps steps' le h) =
      element-Shows steps steps (min n (length steps - 1)) (min n (length steps - 1)) fix h

  rebuild-Sound : (s : OsrmNavSource fl) → OnRoute s.next_idx s.route → Sound (rebuild_current fl s)
  unfolding rebuild_current
  rebuild-Sound s r = record {
    on_route_at = r;
    shows = rebuilt-Shows s.next_idx s.last_fix s.route r;
  }

  first_idx_le : (steps : List (RouteStep fl)) → first_idx fl steps ≤ length steps - 1
  unfolding first_idx
  first_idx_le steps = ground arith

  advanced_le :
      (fix : PositionFix) (steps : List (RouteStep fl)) (n : ℕ) (o : Option (RouteStep fl))
      → n ≤ length steps - 1
      → advanced fl fix steps n o ≤ length steps - 1
  unfolding advanced
  advanced_le fix steps n none h = h
  advanced_le fix steps n (some step) h = ground arith

  -- What a request for a route gives.
  data Found : Result Error (List (RouteStep fl)) → Type 0 where
    failed : (e : Error) → Found (err e)
    found : (steps : List (RouteStep fl)) → OnTurns steps → Found (ok steps)

  first_route-Found : (rs : List (OsrmRoute fl)) → Found (first_route fl rs)
  unfolding from_osrm
  first_route-Found [] = failed _
  first_route-Found (legs ∷ rs) = found _ (steps-OnTurns (concat legs))

  accept_response-Found : (body : OsrmResponse fl) → Found (accept_response fl body)
  unfolding accept_response
  accept_response-Found body = elim (Bool-cases (bytes_eq body.code (ascii "Ok"))) [
    | inl e ↦ rw e (first_route-Found body.routes)
    | inr e ↦ rw e (failed _)
  ]

  with_route-OnRoute :
      (steps : List (RouteStep fl)) → OnTurns steps → OnRoute (first_idx fl steps) (some steps)
  with_route-OnRoute steps h = on_steps steps (first_idx_le steps) h

  show_route-Sound :
      (r : Result Error (List (RouteStep fl))) (s : OsrmNavSource fl)
      → Found r
      → Sound s
      → Sound (show_route fl r s).1
  show_route-Sound (err e) s f i = i
  show_route-Sound (ok steps) s (found steps' h) i =
      rebuild-Sound (with_route fl steps s) (with_route-OnRoute steps h)

  module _ {H : Type 0} (request : Float → Float → Float → Float → Eff H (OsrmResponse fl)) where
    abbrev answer : Result Error (OsrmResponse fl) × H → Result Error (List (RouteStep fl)) × H
    answer r = next r (λ body h. (accept_response fl body, h)) (λ e h. (err e, h))

    answered : (r : Result Error (OsrmResponse fl) × H) → Found (answer r).0
    answered (err e, h) = failed e
    answered (ok body, h) = accept_response-Found body

    fetch-Found : (a b c d : Float) (h : H) → Found (fetch fl request a b c d h).0
    unfolding fetch
    fetch-Found a b c d h = answered (request a b c d h)

    set_destination_at-Sound :
        (o : Option PositionFix) (dest : Destination fl) (s : OsrmNavSource fl) (h : H)
        → Sound s
        → Sound (set_destination_at fl request o dest s h).1.0
    unfolding set_destination_at
    set_destination_at-Sound none dest s h i = i
    set_destination_at-Sound (some p) dest s h i =
        show_route-Sound _ s (fetch-Found (fl.lat_of p) (fl.lon_of p) dest.lat dest.lon h) i

    set_destination-Sound :
        (dest : Destination fl) (s : OsrmNavSource fl) (h : H)
        → Sound (set_destination fl request dest (s, h)).1.0
    unfolding set_destination
    set_destination-Sound dest s h =
        set_destination_at-Sound s.last_fix dest _ h
          (record { on_route_at = no_route; shows = nothing })

    recalculated-OnRoute :
        (r : Result Error (List (RouteStep fl))) (s : OsrmNavSource fl)
        → Found r
        → OnRoute s.next_idx s.route
        → OnRoute (recalculated fl r s).next_idx (recalculated fl r s).route
    recalculated-OnRoute (err e) s f i = i
    recalculated-OnRoute (ok steps) s (found steps' h) i = with_route-OnRoute steps h

    on_route-Sound :
        (fix : PositionFix) (dest : Destination fl) (steps : List (RouteStep fl))
        (s : OsrmNavSource fl) (h : H)
        → s.route ≡ some steps
        → s.next_idx ≤ length steps - 1
        → OnTurns steps
        → Sound (on_route fl request fix dest steps s h).1.0
    unfolding on_route
    on_route-Sound fix dest steps s h e le turns =
        let n = advanced fl fix steps s.next_idx (get_elem? steps s.next_idx) in
        let moved_le = advanced_le fix steps s.next_idx (get_elem? steps s.next_idx) le in
        let moved : OnRoute n s.route = subst (OnRoute n) (sym e) (on_steps steps moved_le turns) in
        let found_so = fetch-Found (fl.lat_of fix) (fl.lon_of fix) dest.lat dest.lon h in
        elim (Bool-cases (is_far fl (min_dist_to_route fl fix steps none))) [
          | inl far ↦ rw far (rebuild-Sound _ (recalculated-OnRoute _ _ found_so moved))
          | inr near ↦ rw near (rebuild-Sound _ moved)
        ]

    update_at-Sound :
        (fix : PositionFix) (d : Option (Destination fl)) (o : Option (List (RouteStep fl)))
        (s : OsrmNavSource fl) (h : H)
        → s.route ≡ o
        → OnRoute s.next_idx o
        → Sound s
        → Sound (update_at fl request fix d o s h).1.0
    unfolding update_at
    update_at-Sound fix none o s h e r i = i
    update_at-Sound fix (some dest) none s h e r i =
        show_route-Sound _ s (fetch-Found (fl.lat_of fix) (fl.lon_of fix) dest.lat dest.lon h) i
    update_at-Sound fix (some dest) (some steps) s h e (on_steps steps' le turns) i =
        on_route-Sound fix dest steps s h e le turns

    update_position-Sound :
        (fix : PositionFix) (s : OsrmNavSource fl) (h : H)
        → Sound s
        → Sound (update_position fl request fix (s, h)).1.0
    unfolding update_position
    update_position-Sound fix s h i =
        update_at-Sound fix s.destination s.route (record s { last_fix = some fix }) h refl
          i.on_route_at (record { on_route_at = i.on_route_at; shows = i.shows })

    -- The source after calls, the last one first in the list.
    unfoldable pub source_after : H → List (Destination fl ⊎ PositionFix) → OsrmNavSource fl × H
    source_after h [] = (new_source fl, h)
    source_after h (inl dest ∷ earlier) =
        (set_destination fl request dest (source_after h earlier)).1
    source_after h (inr fix ∷ earlier) = (update_position fl request fix (source_after h earlier)).1

    -- After any destinations and fixes, whatever the routing service answers, the step pointer is
    -- inside of the route, or at 0 where the route has no step, and every turn id of the route and
    -- of the current instruction is between 1 and 9.
    pub source_after-Sound :
        (h : H) (calls : List (Destination fl ⊎ PositionFix)) → Sound (source_after h calls).0
    unfolding source_after new_source
    source_after-Sound h [] = record { on_route_at = no_route; shows = nothing }
    source_after-Sound h (inl dest ∷ earlier) =
        let w = source_after h earlier in set_destination-Sound dest w.0 w.1
    source_after-Sound h (inr fix ∷ earlier) =
        let w = source_after h earlier in
        update_position-Sound fix w.0 w.1 (source_after-Sound h earlier)
