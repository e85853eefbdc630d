-- ===== src/ConnectionActions/Suspend.antt =====
-- CAmMainConnectionActionSuspend.cpp
use audio_manager_plugins.Base.{
  List, [], ◌∷◌, Option, none, some, Bool, true, false, ◌&&◌, ◌||◌, not, if◌then◌else◌, leb, length,
}
use audio_manager_plugins.Base.Int.{ℤ}
use audio_manager_plugins.Action.{ActionState, is_zero}
use audio_manager_plugins.RoutingActions.{is_completed, is_undo_complete}
use audio_manager_plugins.MainConnection.{
  Name, same_name, ConnectionState, cs_unknown, cs_connecting, cs_connected, cs_disconnected,
  same_state, SourceState, ss_off, ss_paused,
}
use audio_manager_plugins.ConnectionActions.{
  Source, ConnectionUser, Segment, Child, connect_route, set_source, Steps, e_ok, appended, failed,
  then_steps, Context, ConnectionAction, Plan, change_state, refresh_state, registered,
  unregistered, in_direction, is_unknown_source, failing, planned,
}

abbrev pub starts_connecting : ConnectionState → Bool
starts_connecting cs_unknown = true
starts_connecting cs_disconnected = true
starts_connecting _ = false

-- CAmMainConnectionActionSuspend::CAmMainConnectionActionSuspend with a connection
pub new_suspend : ConnectionAction → Context → Context
unfolding registered change_state
new_suspend a x =
    registered a
      (if starts_connecting x.connection.state then change_state cs_connecting e_ok x else x)

abbrev pub is_off : SourceState → Bool
is_off ss_off = true
is_off _ = false

-- The loop of _sharedConnectionCheck.
pub connected_elsewhere : Name → List ConnectionUser → Bool
connected_elsewhere name [] = false
connected_elsewhere name (c ∷ cs) =
    (same_state c.state cs_connected && not (same_name c.name name)) || connected_elsewhere name cs

-- _sharedConnectionCheck, for the state of the segment's source.
pub shared_connection_check : Name → SourceState → List ConnectionUser → Bool
unfolding connected_elsewhere
shared_connection_check name source cs =
    (is_off source || leb (length cs) 1) || not (connected_elsewhere name cs)

-- _createActionRouteConnect
abbrev pub route_step : ℤ → Bool → Option Segment → Steps
route_step e undo none = failed e
route_step e undo (some s) = appended (connect_route (some s) (some s.connection_format) undo ∷ [])

-- _createListActionsRouteConnect
pub connect_routes : ℤ → Bool → List (Option Segment) → Option Steps
connect_routes e undo [] = some (appended [])
connect_routes e undo (s ∷ ss) = then_steps (some (route_step e undo s)) (connect_routes e undo ss)

-- _createActionSetSourceState
abbrev pub source_step : SourceState → Bool → Source → Steps
source_step s undo source = appended (
    if is_unknown_source source.state
    then []
    else if leb (length source.routes) 1 || is_off source.state
    then set_source source s undo ∷ []
    else [])

-- The round of _createListActionsSetSourceState; _sharedConnectionCheck reads the source.
abbrev pub segment_source_step : ℤ → Name → SourceState → Bool → Option Segment → Option Steps
segment_source_step e name s undo none = some (failed e)
segment_source_step e name s undo (some segment) = elim segment.source [
  | none ↦ none
  | some source ↦ some (
      if shared_connection_check name source.state segment.connections
      then source_step s undo source
      else appended [])
]

-- _createListActionsSetSourceState
pub set_source_states : ℤ → Name → SourceState → Bool → List (Option Segment) → Option Steps
unfolding shared_connection_check
set_source_states e name s undo [] = some (appended [])
set_source_states e name s undo (x ∷ xs) =
    then_steps (segment_source_step e name s undo x) (set_source_states e name s undo xs)

abbrev pub needs_routes : ConnectionState → Bool
needs_routes s = same_state s cs_disconnected || same_state s cs_connecting

abbrev pub start_connecting : ConnectionAction → Context → Context
start_connecting a x =
    if same_state x.connection.state cs_connecting then x else change_state cs_connecting a.error x

-- The second half of _execute, which appends the states of the sources to the children so far.
abbrev pub pause_sources :
    ℤ → ConnectionAction → List (Option Segment) → Context → List Child → Option Plan
pause_sources e a ss x so_far =
    planned e
      (then_steps (some (appended so_far))
        (set_source_states e x.connection.name ss_paused a.undo_required ss))
      x (λ y. y)

-- _execute for the route elements in their order.
pub execute_in_order : ℤ → ConnectionAction → List (Option Segment) → Context → Option Plan
unfolding connect_routes set_source_states planned change_state
execute_in_order e a ss x =
    if needs_routes x.connection.state
    then elim (connect_routes e a.undo_required ss) [
      | none ↦ none
      | some steps ↦
          if is_zero steps.error
          then pause_sources e a ss (start_connecting a x) steps.children
          else failing e (some x) steps.children
    ]
    else pause_sources e a ss x []

-- CAmMainConnectionActionSuspend::_execute; `e` is E_NOT_POSSIBLE.
pub execute : ℤ → ConnectionAction → Option Context → Option Plan
unfolding execute_in_order in_direction
execute e a none = failing e none []
execute e a (some x) = execute_in_order e a (in_direction a.direction x.segments) x

-- CAmMainConnectionActionSuspend::_update; getError answers the result.
pub update : ℤ → ActionState → ConnectionAction → Context → Context
unfolding refresh_state unregistered
update result status a x =
    if is_completed status || is_undo_complete status
    then unregistered a (refresh_state result x)
    else x
