-- ===== src/RoutingActions.antt =====
-- The leaf actions that talk to the routing side: CAmRouteActionConnect.cpp,
-- CAmRouteActionDisconnect.cpp and CAmSourceActionSetState.cpp of PluginControlInterfaceGeneric/src, and
-- the main connection actions that append them. The routing side answers with a handle and a result; it
-- and the error codes are a parameter. A null pointer that is read has no outcome.
pub mod Routes
use audio_manager_plugins.Base.{
  ℕ, List, Option, none, some, Bool, true, false, ◌&&◌, ◌||◌, not, if◌then◌else◌,
}
use audio_manager_plugins.Base.Int.{ℤ, pos, negsuc}
use audio_manager_plugins.Action.{ActionState, completed, undo_complete, is_zero, is_negative}
use audio_manager_plugins.HandleStore.{Handle, MapHandles, save_handle, clear_handle}
use audio_manager_plugins.MainConnection.{
  ConnectionState, cs_unknown, cs_connecting, cs_connected, cs_disconnecting, cs_disconnected,
  same_state, Availability, a_unavailable, SourceState, ss_unknown, ss_on, ss_off, ss_paused,
}
use audio_manager_plugins.MainConnection.Route.{is_unavailable}

-- IAmControlReceive as far as these actions use it: the results are a handle, the number of the new
-- connection for connect, and the error.
pub record RoutingReceive : Type 0 where
  pub connect : ℕ → ℕ → ℕ → Handle × ℕ × ℤ
  pub disconnect : ℕ → Handle × ℤ
  pub set_source_state : ℕ → SourceState → Handle × ℤ
  pub e_not_possible : ℤ
  pub e_database_error : ℤ

-- CAmRouteElement as far as the actions use it.
pub record RouteElement : Type 0 where
  pub connection_id : ℕ
  pub state : ConnectionState
  pub source_id : ℕ
  pub sink_id : ℕ
  pub connection_format : ℕ
  pub source_availability : Option Availability  -- none for a null pointer
  pub sink_availability : Option Availability

-- CAmRouteActionConnect and CAmRouteActionDisconnect; `id` is the action's pointer.
pub record RouteAction : Type 0 where
  pub id : ℕ
  pub route : Option RouteElement
  pub handle : Handle

pub record Outcome (A : Type 0) : Type 0 where
  pub action : A
  pub handles : MapHandles ℕ
  pub result : ℤ

abbrev pub e_ok : ℤ
e_ok = pos 0

abbrev pub e_wait_for_child_completion : ℤ
e_wait_for_child_completion = negsuc 0

abbrev pub is_completed : ActionState → Bool
is_completed completed = true
is_completed _ = false

abbrev pub is_undo_complete : ActionState → Bool
is_undo_complete undo_complete = true
is_undo_complete _ = false

abbrev pub is_present : Availability → Bool
is_present a = not (is_unavailable a)

-- A source of a route whose state is to be set.
pub record SourceElement : Type 0 where
  pub id : ℕ
  pub state : SourceState

pub record SourceAction : Type 0 where
  pub id : ℕ
  pub source : Option SourceElement
  pub source_state : Option SourceState  -- the parameter
  pub handle : Handle
  pub state : SourceState
  pub old_state : SourceState

abbrev pub same_source_state : SourceState → SourceState → Bool
same_source_state ss_unknown ss_unknown = true
same_source_state ss_on ss_on = true
same_source_state ss_off ss_off = true
same_source_state ss_paused ss_paused = true
same_source_state _ _ = false

module _ (r : RoutingReceive) where
  -- `connect`, and what follows if the routing side takes the request.
  unfoldable pub request_connect : RouteElement → RouteAction → MapHandles ℕ → Outcome RouteAction
  request_connect e a m =
      let (h, connection_id, result) = r.connect e.connection_format e.source_id e.sink_id in
      if is_zero result
      then record {
        action = record a {
          handle = h;
          route = some (record e { connection_id = connection_id; state = cs_connecting });
        };
        handles = save_handle h (some a.id) m;
        result = e_wait_for_child_completion;
      }
      else record { action = record a { handle = h }; handles = m; result = result }

  unfoldable pub request_disconnect :
      RouteElement → RouteAction → MapHandles ℕ → Outcome RouteAction
  request_disconnect e a m =
      let (h, result) = r.disconnect e.connection_id in
      if is_zero result
      then record {
        action = record a { handle = h; route = some (record e { state = cs_disconnecting }) };
        handles = save_handle h (some a.id) m;
        result = e_wait_for_child_completion;
      }
      else record { action = record a { handle = h }; handles = m; result = result }

  abbrev pub finished : ℤ → RouteAction → MapHandles ℕ → Outcome RouteAction
  finished e a m = record { action = a; handles = m; result = e }

  -- CAmRouteActionConnect::_execute
  unfoldable pub execute_connect : RouteAction → MapHandles ℕ → Option (Outcome RouteAction)
  unfolding request_connect
  execute_connect a m = elim a.route [
    | none ↦ some (finished r.e_not_possible a m)
    | some e ↦
        if same_state e.state cs_connected
        then some (finished e_ok a m)
        else elim e.source_availability [
          | none ↦ none
          | some source ↦ elim e.sink_availability [
            | none ↦ none
            | some sink ↦ some (
                if is_unavailable source || is_unavailable sink
                then finished r.e_database_error a m
                else request_connect e a m)
          ]
        ]
  ]

  -- CAmRouteActionConnect::_undo
  unfoldable pub undo_connect : RouteAction → MapHandles ℕ → Option (Outcome RouteAction)
  unfolding request_disconnect
  undo_connect a m = elim a.route [
    | none ↦ none
    | some e ↦
        some
          (if same_state e.state cs_connected then request_disconnect e a m else finished e_ok a m)
  ]

  -- CAmRouteActionDisconnect::_execute
  unfoldable pub execute_disconnect : RouteAction → MapHandles ℕ → Option (Outcome RouteAction)
  unfolding request_disconnect
  execute_disconnect a m = elim a.route [
    | none ↦ some (finished r.e_not_possible a m)
    | some e ↦ some (
        if same_state e.state cs_disconnected || same_state e.state cs_unknown
        then finished e_ok a m
        else request_disconnect e a m)
  ]

  -- CAmRouteActionDisconnect::_undo
  unfoldable pub undo_disconnect : RouteAction → MapHandles ℕ → Option (Outcome RouteAction)
  unfolding request_connect
  undo_disconnect a m = elim a.route [ none ↦ none | some e ↦ some (request_connect e a m) ]

  -- `setSourceState`, and the handle that is saved if the routing side takes the request.
  unfoldable pub request_state :
      ℕ → SourceState → SourceAction → MapHandles ℕ → Outcome SourceAction
  request_state source s a m =
      let (h, result) = r.set_source_state source s in
      if is_zero result
      then record {
        action = record a { handle = h };
        handles = save_handle h (some a.id) m;
        result = e_wait_for_child_completion;
      }
      else record { action = record a { handle = h }; handles = m; result = result }

  -- CAmSourceActionSetState::_execute
  unfoldable pub execute_source : SourceAction → MapHandles ℕ → Outcome SourceAction
  unfolding request_state
  execute_source a m = elim a.source [
    | none ↦ record { action = a; handles = m; result = r.e_not_possible }
    | some source ↦ elim a.source_state [
      | none ↦ record { action = a; handles = m; result = r.e_not_possible }
      | some s ↦
          let a' = record a { state = s; old_state = source.state } in
          if same_source_state source.state s
          then record { action = a'; handles = m; result = e_ok }
          else request_state source.id s a' m
    ]
  ]

  -- CAmSourceActionSetState::_undo
  unfoldable pub undo_source : SourceAction → MapHandles ℕ → Option (Outcome SourceAction)
  unfolding request_state
  undo_source a m = elim a.source [
    | none ↦ none
    | some source ↦ some (request_state source.id a.old_state a m)
  ]

-- The state that an update leaves, for a target and the state that its failure means.
unfoldable pub state_after : ConnectionState → ConnectionState → ℤ → ActionState → ConnectionState
state_after reached missed result status =
    if is_undo_complete status
    then missed
    else if is_zero result && is_completed status
    then reached
    else missed

abbrev pub with_state : ConnectionState → RouteElement → RouteElement
with_state s e = record e { state = s }

abbrev pub updated : ConnectionState → RouteAction → MapHandles ℕ → Option (Outcome RouteAction)
updated s a m = elim a.route [
  | none ↦ none
  | some e ↦ some (record {
    action = record a { route = some (with_state s e) };
    handles = clear_handle a.handle m;
    result = e_ok;
  })
]

-- CAmRouteActionConnect::_update and CAmRouteActionDisconnect::_update
unfoldable pub update_connect :
    ℤ → ActionState → RouteAction → MapHandles ℕ → Option (Outcome RouteAction)
unfolding state_after
update_connect result status a m =
    updated (state_after cs_connected cs_disconnected result status) a m

-- CAmActionCommand calls _update of the connect action with the result of a request only while the action
-- waits for it, which _execute or _undo has told by a negative answer; any other answer is the end.
unfoldable pub settle_connect : ℤ → ActionState → Outcome RouteAction → Option (Outcome RouteAction)
unfolding update_connect
settle_connect result status o =
    if is_negative o.result then update_connect result status o.action o.handles else some o

unfoldable pub update_disconnect :
    ℤ → ActionState → RouteAction → MapHandles ℕ → Option (Outcome RouteAction)
unfolding state_after
update_disconnect result status a m =
    updated (state_after cs_disconnected cs_connected result status) a m

-- CAmSourceActionSetState::_update
unfoldable pub update_source : SourceAction → MapHandles ℕ → Outcome SourceAction
update_source a m = record { action = a; handles = clear_handle a.handle m; result = e_ok }
