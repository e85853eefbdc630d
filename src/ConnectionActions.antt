-- ===== src/ConnectionActions.antt =====
-- The container actions on a main connection: CAmMainConnectionActionConnect.cpp,
-- CAmMainConnectionActionDisconnect.cpp and CAmMainConnectionActionSuspend.cpp of
-- PluginControlInterfaceGeneric/src. _execute appends the children that the container then runs. A null
-- pointer that is read has no outcome; what the actions do to the connection is logged in order.
pub mod Connect
pub mod Disconnect
pub mod Suspend
pub mod States
pub mod Hooks
use audio_manager_plugins.Base.{
  ℕ, List, [], ◌∷◌, ◌++◌, Option, none, some, Bool, true, false, if◌then◌else◌,
}
use audio_manager_plugins.Base.Int.{ℤ, pos}
use audio_manager_plugins.Action.{is_zero}
use audio_manager_plugins.MainConnection.{
  Name, ConnectionState, same_state, SourceState, ss_unknown, MainConnectionElement,
}
use audio_manager_plugins.MainConnection.Lists.{
  register_transition_action, unregister_transition_action,
}
use audio_manager_plugins.MainConnection.Route.{
  Direction, sd_mainsource_to_mainsink, sd_mainsink_to_mainsource, set_state, updated_state,
}

-- A route element that observes a source.
pub record RouteUser : Type 0 where
  pub name : Name
  pub state : ConnectionState

-- CAmSourceElement as far as the actions read it; `routes` are its observers of type ET_ROUTE.
pub record Source : Type 0 where
  pub id : ℕ
  pub state : SourceState
  pub routes : List RouteUser

pub record RouteState : Type 0 where
  pub id : ℕ
  pub state : ConnectionState

-- A main connection that observes a route element, with its own route elements; `id` is its pointer.
pub record ConnectionUser : Type 0 where
  pub id : ℕ
  pub name : Name
  pub state : ConnectionState
  pub list_route_elements : List RouteState

-- CAmRouteElement as far as the actions read it; `connections` are its observers of type ET_CONNECTION.
pub record Segment : Type 0 where
  pub id : ℕ
  pub name : Name
  pub domain_id : ℕ
  pub connection_format : ℕ
  pub source : Option Source
  pub connections : List ConnectionUser

-- A child action with its parameters; the Boolean says whether it is to be undone.
pub data Child : Type 0 where
  connect_route : Option Segment → Option ℕ → Bool → Child
  disconnect_route : Segment → Bool → Child
  set_source : Source → SourceState → Bool → Child

-- The error of the functions that create children, and what they appended up to it.
pub record Steps : Type 0 where
  pub error : ℤ
  pub children : List Child

abbrev pub e_ok : ℤ
e_ok = pos 0

abbrev pub appended : List Child → Steps
appended cs = record { error = e_ok; children = cs }

abbrev pub failed : ℤ → Steps
failed e = record { error = e; children = [] }

abbrev pub with_later : Steps → Option Steps → Option Steps
with_later first none = none
with_later first (some later) =
    some (record { error = later.error; children = first.children ++ later.children })

-- A step, and the steps after it unless it fails.
abbrev pub then_steps : Option Steps → Option Steps → Option Steps
then_steps none later = none
then_steps (some first) later = if is_zero first.error then with_later first later else some first

-- What an action does to its connection, in order: a state written to the database and notified, an
-- update of the main volume, and an urgent trigger with the connection's name and state.
pub data Effect : Type 0 where
  state_changed : ConnectionState → Effect
  main_volume_updated : Effect
  connection_state_change : Name → ConnectionState → ℤ → Effect

-- The connection of an action; `segments` are its route elements as the actions read them, and
-- `main_source` is the state of its main source, none for a null pointer.
pub record Context : Type 0 where
  pub connection : MainConnectionElement
  pub segments : List (Option Segment)
  pub main_source : Option SourceState
  pub effects : List Effect

-- The action as a container; `id` is its pointer, and `error` what getError answers when _execute or
-- _undo is called. A parameter that is not set is none.
pub record ConnectionAction : Type 0 where
  pub id : ℕ
  pub error : ℤ
  pub undo_required : Bool
  pub connection_format : Option ℕ
  pub direction : Option Direction

-- What _execute leaves: the connection, if there is one, the children and the result.
pub record Plan : Type 0 where
  pub context : Option Context
  pub children : List Child
  pub result : ℤ

abbrev pub state_effects : List ConnectionState → List Effect
state_effects [] = []
state_effects (s ∷ ss) = state_changed s ∷ state_effects ss

-- CAmMainConnectionElement::setState
pub write_state : ConnectionState → Context → Context
write_state s x =
    let (stored, sent) = set_state x.connection.state s in
    record x {
      connection = record x.connection { state = stored };
      effects = x.effects ++ state_effects sent;
    }

-- CAmMainConnectionElement::setStateChangeTrigger
pub set_state_change_trigger : ℤ → Context → Context
set_state_change_trigger e x = record x {
  effects = x.effects ++ connection_state_change x.connection.name x.connection.state e ∷ [];
}

-- setState and setStateChangeTrigger
pub change_state : ConnectionState → ℤ → Context → Context
unfolding write_state set_state_change_trigger
change_state s e x = set_state_change_trigger e (write_state s x)

-- updateState and setStateChangeTrigger
pub refresh_state : ℤ → Context → Context
unfolding change_state
refresh_state e x = change_state (updated_state x.main_source x.connection.list_route_elements) e x

pub registered : ConnectionAction → Context → Context
registered a x = record x { connection = register_transition_action a.id x.connection }

pub unregistered : ConnectionAction → Context → Context
unregistered a x = record x { connection = unregister_transition_action a.id x.connection }

abbrev pub reversed_onto : List (Option Segment) → List (Option Segment) → List (Option Segment)
reversed_onto [] done = done
reversed_onto (s ∷ ss) done = reversed_onto ss (s ∷ done)

-- The route elements in the order of the parameter, by default from the main sink.
unfoldable pub in_direction : Option Direction → List (Option Segment) → List (Option Segment)
in_direction none ss = reversed_onto ss []
in_direction (some sd_mainsink_to_mainsource) ss = reversed_onto ss []
in_direction (some sd_mainsource_to_mainsink) ss = ss

abbrev pub is_unknown_source : SourceState → Bool
is_unknown_source ss_unknown = true
is_unknown_source _ = false

abbrev pub failing : ℤ → Option Context → List Child → Option Plan
failing e x cs = some (record { context = x; children = cs; result = e })

-- The children up to an error give E_NOT_POSSIBLE; without one the plan goes on from the connection.
pub planned : ℤ → Option Steps → Context → (Context → Context) → Option Plan
planned e none x go_on = none
planned e (some steps) x go_on =
    if is_zero steps.error
    then some (record { context = some (go_on x); children = steps.children; result = e_ok })
    else failing e (some x) steps.children
