-- ===== src/ConnectionActions/Disconnect.antt =====
-- CAmMainConnectionActionDisconnect.cpp
pub mod Sharing
pub mod Settling
use audio_manager_plugins.Base.{
  ℕ, List, [], ◌∷◌, Option, none, some, Bool, true, false, ◌&&◌, ◌||◌, not, if◌then◌else◌, ◌==◌,
  leb, length,
}
use audio_manager_plugins.Base.Int.{ℤ}
use audio_manager_plugins.Action.{ActionState, is_zero}
use audio_manager_plugins.RoutingActions.{is_completed, is_undo_complete}
use audio_manager_plugins.MainConnection.{
  Name, same_name, ConnectionState, cs_unknown, cs_connecting, cs_connected, cs_disconnecting,
  cs_disconnected, cs_suspended, same_state, SourceState, ss_off,
}
use audio_manager_plugins.ConnectionActions.{
  RouteUser, Source, RouteState, ConnectionUser, Segment, disconnect_route, set_source, Steps,
  appended, e_ok, failed, then_steps, Context, ConnectionAction, Plan, change_state, refresh_state,
  registered, unregistered, in_direction, is_unknown_source, failing, planned,
}

abbrev pub starts_disconnecting : ConnectionState → Bool
starts_disconnecting cs_unknown = true
starts_disconnecting cs_connected = true
starts_disconnecting cs_suspended = true
starts_disconnecting _ = false

-- CAmMainConnectionActionDisconnect::CAmMainConnectionActionDisconnect with a connection
pub new_disconnect : ConnectionAction → Context → Context
unfolding registered change_state
new_disconnect a x =
    registered a
      (if starts_disconnecting x.connection.state then change_state cs_disconnecting e_ok x else x)

-- A connection has the route element among its own, and it is not disconnected there.
unfoldable pub holds : ℕ → List RouteState → Bool
holds route [] = false
holds route (r ∷ rs) = (r.id == route && not (same_state r.state cs_disconnected)) || holds route rs

-- The loop of _checkSharedRouteDisconnected; `own` is the action's connection.
pub released_by_others : ℕ → ℕ → List ConnectionUser → Bool
unfolding holds
released_by_others own route [] = true
released_by_others own route (c ∷ cs) =
    let rest = released_by_others own route cs in
    if c.id == own then rest else if holds route c.list_route_elements then false else rest

-- _checkSharedRouteDisconnected
pub check_shared_route_disconnected : ℕ → Segment → Bool
unfolding released_by_others
check_shared_route_disconnected own s =
    leb (length s.connections) 1 || released_by_others own s.id s.connections

-- The loop of _checkSharedSourceDisconnected.
pub unused_by_others : Name → List RouteUser → Bool
unused_by_others name [] = true
unused_by_others name (r ∷ rs) =
    let rest = unused_by_others name rs in
    if not (same_state r.state cs_disconnected) && not (same_name r.name name) then false else rest

-- _checkSharedSourceDisconnected
pub check_shared_source_disconnected : Source → Segment → Bool
unfolding unused_by_others
check_shared_source_disconnected source s =
    leb (length source.routes) 1 || unused_by_others s.name source.routes

-- _createActionSetSourceState
abbrev pub source_step : ℤ → SourceState → Bool → Segment → Option Source → Steps
source_step e s undo segment none = failed e
source_step e s undo segment (some source) = appended (
    if not (is_unknown_source source.state) && check_shared_source_disconnected source segment
    then set_source source s undo ∷ []
    else [])

abbrev pub segment_source_step : ℤ → SourceState → Bool → Option Segment → Steps
segment_source_step e s undo none = failed e
segment_source_step e s undo (some segment) = source_step e s undo segment segment.source

-- _createListActionsSetSourceState
pub set_source_states : ℤ → SourceState → Bool → List (Option Segment) → Option Steps
set_source_states e s undo [] = some (appended [])
set_source_states e s undo (x ∷ xs) =
    then_steps (some (segment_source_step e s undo x)) (set_source_states e s undo xs)

-- The round of _createListActionsRouteDisconnect, with _createActionRouteDisconnect.
abbrev pub route_step : ℕ → Bool → Option Segment → Option Steps
route_step own undo none = none
route_step own undo (some s) = some (
    appended (
      if s.domain_id == 0
      then []
      else if check_shared_route_disconnected own s
      then disconnect_route s undo ∷ []
      else []))

-- _createListActionsRouteDisconnect
pub disconnect_routes : ℕ → Bool → List (Option Segment) → Option Steps
unfolding check_shared_route_disconnected
disconnect_routes own undo [] = some (appended [])
disconnect_routes own undo (s ∷ ss) =
    then_steps (route_step own undo s) (disconnect_routes own undo ss)

pub disconnect_steps : ℤ → ConnectionAction → ℕ → List (Option Segment) → Option Steps
unfolding disconnect_routes set_source_states
disconnect_steps e a own ss =
    then_steps (set_source_states e ss_off a.undo_required ss)
      (disconnect_routes own a.undo_required ss)

abbrev pub start_disconnecting : ConnectionAction → Context → Context
start_disconnecting a x =
    if same_state x.connection.state cs_disconnecting
    then x
    else change_state cs_disconnecting a.error x

-- CAmMainConnectionActionDisconnect::_execute; `e` is E_NOT_POSSIBLE.
pub execute : ℤ → ConnectionAction → Option Context → Option Plan
unfolding disconnect_steps in_direction planned
execute e a none = failing e none []
execute e a (some x) =
    planned e (disconnect_steps e a x.connection.id (in_direction a.direction x.segments)) x
      (start_disconnecting a)

-- CAmMainConnectionActionDisconnect::_undo
pub undo : ConnectionAction → Context → Context
unfolding change_state
undo a x = change_state cs_connecting a.error x

abbrev pub settle : ℤ → ConnectionAction → Context → Context
settle result a x = unregistered a (refresh_state result x)

-- CAmMainConnectionActionDisconnect::_update; the Boolean is mActionCompleted, and getError answers the
-- result.
pub update : ℤ → ActionState → ConnectionAction → Bool × Context → Bool × Context
unfolding refresh_state unregistered
update result status a (action_completed, x) =
    if is_completed status
    then (is_zero result || action_completed, settle result a x)
    else if is_undo_complete status && action_completed
    then (action_completed, settle result a x)
    else (action_completed, x)
