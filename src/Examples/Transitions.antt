-- ===== src/Examples/Transitions.antt =====
-- The actions on a main connection at concrete inputs: a route of two segments from a tuner through a
-- gateway to a speaker, and a second connection that shares the second segment.
use audio_manager_plugins.Base.{ℕ, [], ◌∷◌, ◌++◌, some, none, true, ◌≡◌, refl}
use audio_manager_plugins.Base.Int.{pos, negsuc}
use audio_manager_plugins.Action.{executing, undoing, error_stopped}
use audio_manager_plugins.ControlSender.{ms_unmuted}
use audio_manager_plugins.MainConnection.{
  cs_connected, cs_disconnected, a_available, ss_on, ss_off, RoutePoint, RouteElement,
  MainConnectionElement,
}
use audio_manager_plugins.MainConnection.Route.{get_route_availability}
use audio_manager_plugins.ConnectionActions.{
  Source, ConnectionUser, Segment, set_source, disconnect_route, e_ok, Context, ConnectionAction,
  in_direction,
}
use audio_manager_plugins.ConnectionActions.Connect
use audio_manager_plugins.ConnectionActions.Connect.Planning.{execute-plans, routes_on, sources_on}
use audio_manager_plugins.ConnectionActions.Connect.Settling.{HasSettled, hook, update-settles}
use audio_manager_plugins.ConnectionActions.Hooks.{update_with}
use audio_manager_plugins.Action.Container.{Container, Clock, new_container}
use audio_manager_plugins.Action.Command.{World, Command, now, after_reading}
use audio_manager_plugins.ConnectionActions.Disconnect
use audio_manager_plugins.ConnectionActions.Disconnect.Sharing.{execute-releases}

abbrev end : ℕ → RoutePoint
end n = record {
  id = n;
  name = n ∷ [];
  availability = a_available;
  volume_support = true;
  volume = pos 0;
  offset_volume = pos 0;
  mute_state = ms_unmuted;
}

abbrev wire : ℕ → ℕ → RouteElement
wire a b = record {
  state = cs_disconnected;
  priority = pos 0;
  source = some (end a);
  sink = some (end b);
}

abbrev radio : MainConnectionElement
radio = record {
  id = 100;
  name = 7 ∷ [];
  class_name = 8 ∷ [];
  main_source_name = 1 ∷ [];
  main_sink_name = 4 ∷ [];
  state = cs_disconnected;
  list_route_elements = wire 1 2 ∷ wire 3 4 ∷ [];
  route_subjects = wire 1 2 ∷ wire 3 4 ∷ [];
  ongoing_transitions = 50 ∷ [];
}

-- The other connection still holds the segment 62.
abbrev other : ConnectionUser
other = record {
  id = 200;
  name = 9 ∷ [];
  state = cs_connected;
  list_route_elements = record { id = 62; state = cs_connected } ∷ [];
}

abbrev own : ConnectionUser
own = record { id = 100; name = 7 ∷ []; state = cs_disconnected; list_route_elements = [] }

abbrev tuner : Source
tuner = record {
  id = 1;
  state = ss_on;
  routes = record { name = 61 ∷ []; state = cs_connected } ∷ [];
}

abbrev gateway : Source
gateway = record {
  id = 3;
  state = ss_on;
  routes = record { name = 62 ∷ []; state = cs_connected } ∷ [];
}

abbrev first : Segment
first = record {
  id = 61;
  name = 61 ∷ [];
  domain_id = 5;
  connection_format = 1;
  source = some tuner;
  connections = own ∷ [];
}

abbrev second : Segment
second = record {
  id = 62;
  name = 62 ∷ [];
  domain_id = 6;
  connection_format = 1;
  source = some gateway;
  connections = own ∷ other ∷ [];
}

abbrev view : Context
view = record {
  connection = radio;
  segments = some first ∷ some second ∷ [];
  main_source = some ss_on;
  effects = [];
}

abbrev transition : ConnectionAction
transition = record {
  id = 60;
  error = pos 0;
  undo_required = true;
  connection_format = some 2;
  direction = none;
}

execute-plans_example :
    Connect.execute (pos 7) transition (some view)
    ≡ some (record {
      context = some (Connect.start_connecting transition view);
      children =
          routes_on (some 2) true (second ∷ first ∷ []) ++ sources_on true (second ∷ first ∷ []);
      result = e_ok;
    })
unfolding in_direction get_route_availability
execute-plans_example =
    execute-plans (pos 7) transition view (second ∷ first ∷ []) refl refl refl refl

execute-releases_example :
    Disconnect.execute (pos 7) transition (some view)
    ≡ some (record {
      context = some (Disconnect.start_disconnecting transition view);
      children =
          set_source gateway ss_off true
          ∷ set_source tuner ss_off true
          ∷ disconnect_route first true
          ∷ [];
      result = e_ok;
    })
unfolding in_direction Disconnect.holds
execute-releases_example =
    execute-releases (pos 7) transition view (second ∷ first ∷ []) refl
      ((gateway, refl, refl, refl), ((tuner, refl, refl, refl), tt))

-- A container whose one child has come to its end, and one that has undone its child.
abbrev at_last : Container ℕ
at_last =
    record (new_container (record { execute_result = e_ok; planned = []; undo_result = e_ok })) {
      status = executing;
      children = 5 ∷ [];
    }

abbrev at_first : Container ℕ
at_first = record at_last { status = undoing; index = negsuc 0 }

update-settles_example :
    HasSettled cs_connected
      (pos 0)
      transition
      view
      (update_with (hook transition) (pos 0) at_last (Connect.new_connect transition view))
    × HasSettled cs_disconnected (pos 3) transition view (
        update_with
          (hook transition)
          (pos 3)
          at_first
          (Connect.undo transition (Connect.new_connect transition view)))
update-settles_example =
    update-settles transition view (refl, tt) (pos 3) ss_on at_last at_first refl refl refl refl
      refl

-- A container that has stopped before it appended a child.
abbrev stopped : Container Command
stopped =
    record (new_container (record { execute_result = pos 7; planned = []; undo_result = e_ok })) {
      status = error_stopped;
      error = pos 7;
      undo_required = true;
    }

abbrev clock : Clock (World ℕ)
clock w = (now w, after_reading w)
