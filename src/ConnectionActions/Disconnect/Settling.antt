-- ===== src/ConnectionActions/Disconnect/Settling.antt =====
-- The life of a disconnect after its construction, CAmMainConnectionActionDisconnect.cpp with
-- registerTransitionAction and permitsDispose of CAmMainConnectionElement.cpp.
use audio_manager_plugins.Base.{
  List, [], ◌∷◌, ◌++◌, Bool, false, ◌≡◌, refl, append-nil, ◌∙◌, All, Bool-cases, inl, inr, ◌==◌,
}
use audio_manager_plugins.Base.Int.{ℤ}
use audio_manager_plugins.Action.{ActionState, completed}
use audio_manager_plugins.RoutingActions.{is_completed}
use audio_manager_plugins.MainConnection.{cs_disconnecting}
use audio_manager_plugins.MainConnection.Route.{updated_state}
use audio_manager_plugins.MainConnection.Lists.{
  register_transition_action, unregister_transition_action,
}
use audio_manager_plugins.MainConnection.Lists.Transitions.{remove_transition-first}
use audio_manager_plugins.ConnectionActions.{
  Context, ConnectionAction, change_state, registered, e_ok,
}
use audio_manager_plugins.ConnectionActions.Disconnect.{
  starts_disconnecting, new_disconnect, update,
}
use audio_manager_plugins.ConnectionActions.States.{
  change_state-ongoing_transitions, set_state-state,
}

-- The results and states with which _update is called, one after another.
abbrev pub run_updates : ConnectionAction → List (ℤ × ActionState) → Bool × Context → Bool × Context
run_updates a [] s = s
run_updates a ((result, status) ∷ us) s = run_updates a us (update result status a s)

abbrev pub HasNotCompleted : ℤ × ActionState → Type 0
HasNotCompleted u = is_completed u.1 ≡ false

new_disconnect-registered :
    (a : ConnectionAction) (x : Context)
    → (new_disconnect a x).connection.ongoing_transitions
      ≡ x.connection.ongoing_transitions ++ a.id ∷ []
unfolding new_disconnect registered register_transition_action
new_disconnect-registered a x = elim (Bool-cases (starts_disconnecting x.connection.state)) [
  | inl y ↦ rw (y, change_state-ongoing_transitions cs_disconnecting e_ok x) refl
  | inr n ↦ rw n refl
]

-- The construction keeps what updateState reads.
new_disconnect-updated_state :
    (a : ConnectionAction) (x : Context)
    → updated_state
        (new_disconnect a x).main_source
        (new_disconnect a x).connection.list_route_elements
      ≡ updated_state x.main_source x.connection.list_route_elements
unfolding new_disconnect registered change_state register_transition_action
new_disconnect-updated_state a x = elim (Bool-cases (starts_disconnecting x.connection.state)) [
  | inl y ↦ rw y refl
  | inr n ↦ rw n refl
]

-- A disconnect whose action is not registered yet and that completes, whatever its result, unregisters,
-- and leaves the connection in the state that the route and the main source have.
update-unregisters :
    (result : ℤ) (a : ConnectionAction) (x : Context)
    → All (λ t. (t == a.id) ≡ false) x.connection.ongoing_transitions
    → ((update result completed a (false, new_disconnect a x)).1.connection.ongoing_transitions
        ≡ x.connection.ongoing_transitions)
      × ((update result completed a (false, new_disconnect a x)).1.connection.state
          ≡ updated_state x.main_source x.connection.list_route_elements)
unfolding update unregister_transition_action
update-unregisters result a x h = (
  rw (new_disconnect-registered a x) (
      remove_transition-first a.id x.connection.ongoing_transitions [] h
      ∙ append-nil x.connection.ongoing_transitions),
  set_state-state _ _ ∙ new_disconnect-updated_state a x,
)
