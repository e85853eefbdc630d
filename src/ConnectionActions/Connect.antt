-- ===== src/ConnectionActions/Connect.antt =====
-- CAmMainConnectionActionConnect.cpp
pub mod Settling
pub mod Childless
pub mod Planning
use audio_manager_plugins.Base.{
  ℕ, List, [], ◌∷◌, ◌++◌, Option, none, some, Bool, true, false, ◌&&◌, if◌then◌else◌,
}
use audio_manager_plugins.Base.Int.{ℤ}
use audio_manager_plugins.Action.{ActionState, is_zero}
use audio_manager_plugins.RoutingActions.{is_completed, is_undo_complete}
use audio_manager_plugins.MainConnection.{
  ConnectionState, cs_unknown, cs_connecting, cs_connected, cs_disconnecting, cs_disconnected,
  cs_suspended, same_state, Availability, a_available, SourceState, ss_on,
}
use audio_manager_plugins.MainConnection.Route.{is_on, get_route_availability}
use audio_manager_plugins.ConnectionActions.{
  Segment, Source, connect_route, set_source, Steps, e_ok, appended, failed, then_steps,
  main_volume_updated, Context, ConnectionAction, Plan, write_state, set_state_change_trigger,
  change_state, registered, unregistered, in_direction, is_unknown_source, failing, planned,
}

-- The states from which an action on its way to the connection starts.
abbrev pub starts_connecting : ConnectionState → Bool
starts_connecting cs_unknown = true
starts_connecting cs_disconnected = true
starts_connecting cs_suspended = true
starts_connecting _ = false

-- CAmMainConnectionActionConnect::CAmMainConnectionActionConnect with a connection
pub new_connect : ConnectionAction → Context → Context
unfolding registered change_state
new_connect a x =
    registered a
      (if starts_connecting x.connection.state then change_state cs_connecting e_ok x else x)

-- _createListActionsRouteConnect
pub connect_routes : Option ℕ → Bool → List (Option Segment) → Option Steps
connect_routes format undo [] = some (appended [])
connect_routes format undo (s ∷ ss) =
    then_steps (some (appended (connect_route s format undo ∷ []))) (connect_routes format undo ss)

-- _createActionSetSourceState
abbrev pub source_step : ℤ → SourceState → Bool → Option Source → Steps
source_step e s undo none = failed e
source_step e s undo (some source) =
    appended (if is_unknown_source source.state then [] else set_source source s undo ∷ [])

abbrev pub segment_source_step : ℤ → SourceState → Bool → Option Segment → Option Steps
segment_source_step e s undo none = none
segment_source_step e s undo (some segment) = some (source_step e s undo segment.source)

-- _createListActionsSetSourceState
pub set_source_states : ℤ → SourceState → Bool → List (Option Segment) → Option Steps
set_source_states e s undo [] = some (appended [])
set_source_states e s undo (x ∷ xs) =
    then_steps (segment_source_step e s undo x) (set_source_states e s undo xs)

abbrev pub is_available : Availability → Bool
is_available a_available = true
is_available _ = false

abbrev pub start_connecting : ConnectionAction → Context → Context
start_connecting a x =
    if same_state x.connection.state cs_connecting then x else change_state cs_connecting a.error x

-- The children of a connect, for the route elements in their order.
pub connect_steps : ℤ → ConnectionAction → List (Option Segment) → Option Steps
unfolding connect_routes set_source_states
connect_steps e a ss =
    then_steps (connect_routes a.connection_format a.undo_required ss)
      (set_source_states e ss_on a.undo_required ss)

-- CAmMainConnectionActionConnect::_execute; `e` is E_NOT_POSSIBLE.
pub execute : ℤ → ConnectionAction → Option Context → Option Plan
unfolding connect_steps in_direction planned
execute e a none = failing e none []
execute e a (some x) =
    if same_state x.connection.state cs_connected
    then failing e_ok (some x) []
    else elim (get_route_availability x.connection.list_route_elements) [
      | none ↦ none
      | some availability ↦
          if is_available availability
          then planned e (connect_steps e a (in_direction a.direction x.segments)) x
              (start_connecting a)
          else failing e (some x) []
    ]

-- CAmMainConnectionActionConnect::_undo
pub undo : ConnectionAction → Context → Context
unfolding change_state
undo a x = change_state cs_disconnecting a.error x

abbrev pub volume_update : Context → Context
volume_update x = record x { effects = x.effects ++ main_volume_updated ∷ [] }

-- The end of _update for a state that is reached; getError answers the result.
pub settle : ConnectionState → ℤ → ConnectionAction → Context → Context
unfolding write_state set_state_change_trigger unregistered
settle s result a x =
    unregistered a (set_state_change_trigger result (volume_update (write_state s x)))

-- CAmMainConnectionActionConnect::_update
pub update : ℤ → ActionState → ConnectionAction → Context → Option Context
unfolding settle
update result status a x =
    if is_zero result && is_completed status
    then elim x.main_source [
      | none ↦ none
      | some s ↦ some (settle (if is_on s then cs_connected else cs_suspended) result a x)
    ]
    else if is_undo_complete status
    then some (settle cs_disconnected result a x)
    else some x
