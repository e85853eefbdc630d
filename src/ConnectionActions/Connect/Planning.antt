-- ===== src/ConnectionActions/Connect/Planning.antt =====
-- What a connect appends, CAmMainConnectionActionConnect.cpp.
use audio_manager_plugins.Base.{
  ℕ, List, [], ◌∷◌, ◌++◌, Option, none, some, Bool, true, false, if◌then◌else◌, ◌≡◌, refl,
  Bool-cases, inl, inr, map,
}
use audio_manager_plugins.Base.Int.{ℤ}
use audio_manager_plugins.Action.{is_zero}
use audio_manager_plugins.MainConnection.{cs_connected, same_state, a_available, ss_on}
use audio_manager_plugins.MainConnection.Route.{get_route_availability}
use audio_manager_plugins.ConnectionActions.{
  Segment, Source, Child, connect_route, set_source, Steps, e_ok, appended, then_steps, Context,
  ConnectionAction, in_direction, is_unknown_source, planned,
}
use audio_manager_plugins.ConnectionActions.Connect.{
  connect_routes, source_step, set_source_states, connect_steps, start_connecting, execute,
}

-- A connect of each route element.
abbrev pub routes_on : Option ℕ → Bool → List Segment → List Child
routes_on format undo [] = []
routes_on format undo (s ∷ ss) = connect_route (some s) format undo ∷ routes_on format undo ss

-- The sources of known state, of the segments up to the first without one.
abbrev pub source_on : Bool → Option Source → List Child → List Child
source_on undo none rest = []
source_on undo (some source) rest =
    if is_unknown_source source.state then rest else set_source source ss_on undo ∷ rest

abbrev pub sources_on : Bool → List Segment → List Child
sources_on undo [] = []
sources_on undo (s ∷ ss) = source_on undo s.source (sources_on undo ss)

abbrev pub and_source : Option Source → Bool → Bool
and_source none rest = false
and_source (some source) rest = rest

abbrev pub every_source : List Segment → Bool
every_source [] = true
every_source (s ∷ ss) = and_source s.source (every_source ss)

connect_routes-routes_on :
    (format : Option ℕ) (undo : Bool) (ss : List Segment)
    → connect_routes format undo (map some ss) ≡ some (appended (routes_on format undo ss))
unfolding connect_routes
connect_routes-routes_on format undo [] = refl
connect_routes-routes_on format undo (s ∷ ss) = rw (connect_routes-routes_on format undo ss) refl

abbrev steps_of : ℤ → Bool → List Child → Steps
steps_of e ok cs = record { error = if ok then e_ok else e; children = cs }

source_step-source_on :
    (e : ℤ) (undo : Bool) (source : Option Source) (ok : Bool) (cs : List Child)
    → is_zero e ≡ false
    → then_steps (some (source_step e ss_on undo source)) (some (steps_of e ok cs))
      ≡ some (steps_of e (and_source source ok) (source_on undo source cs))
source_step-source_on e undo none ok cs h = rw h refl
source_step-source_on e undo (some source) ok cs h =
    elim (Bool-cases (is_unknown_source source.state)) [ inl y ↦ rw y refl | inr n ↦ rw n refl ]

set_source_states-sources_on :
    (e : ℤ) (undo : Bool) (ss : List Segment)
    → is_zero e ≡ false
    → set_source_states e ss_on undo (map some ss)
      ≡ some (steps_of e (every_source ss) (sources_on undo ss))
unfolding set_source_states
set_source_states-sources_on e undo [] h = refl
set_source_states-sources_on e undo (s ∷ ss) h =
    rw (set_source_states-sources_on e undo ss h)
      (source_step-source_on e undo s.source (every_source ss) (sources_on undo ss) h)

-- A connect of a connection that is not connected and whose route is available appends a connect for
-- each route element, in the order of the direction, and then, in the same order, a set state to on for
-- each source of known state, up to the first segment without a source. If there is one the result is
-- the error and the connection stays as it is, else the connection is connecting.
pub execute-plans :
    (e : ℤ) (a : ConnectionAction) (x : Context) (ss : List Segment)
    → is_zero e ≡ false
    → same_state x.connection.state cs_connected ≡ false
    → get_route_availability x.connection.list_route_elements ≡ some a_available
    → in_direction a.direction x.segments ≡ map some ss
    → execute e a (some x)
      ≡ some (record {
        context = some (if every_source ss then start_connecting a x else x);
        children =
            routes_on a.connection_format a.undo_required ss ++ sources_on a.undo_required ss;
        result = if every_source ss then e_ok else e;
      })
unfolding execute connect_steps planned
execute-plans e a x ss h open_state available order =
    rw
      (
        open_state,
        available,
        order,
        connect_routes-routes_on a.connection_format a.undo_required ss,
        set_source_states-sources_on e a.undo_required ss h,
      )
      (elim (Bool-cases (every_source ss)) [ inl y ↦ rw y refl | inr n ↦ rw (n, h) refl ])
