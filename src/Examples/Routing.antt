-- ===== src/Examples/Routing.antt =====
-- The actions for the routing side at concrete inputs.
use audio_manager_plugins.Base.{some}
use mathlib.Core.Option
use audio_manager_plugins.Base.Int.{pos}
use audio_manager_plugins.MainConnection.{cs_disconnected, a_available}
use audio_manager_plugins.RoutingActions.{RoutingReceive, RouteElement, RouteAction}

abbrev routing_side : RoutingReceive
routing_side = record {
  connect = λ format source sink. (record { handle_type = 1; handle = 3 }, 40, pos 0);
  disconnect = λ id. (record { handle_type = 2; handle = 4 }, pos 0);
  set_source_state = λ id state. (record { handle_type = 3; handle = 5 }, pos 0);
  e_not_possible = pos 7;
  e_database_error = pos 5;
}

abbrev cable : RouteElement
cable = record {
  connection_id = 0;
  state = cs_disconnected;
  source_id = 10;
  sink_id = 20;
  connection_format = 1;
  source_availability = some a_available;
  sink_availability = some a_available;
}

abbrev connecting : RouteAction
connecting = record { id = 9; route = some cable; handle = record { handle_type = 0; handle = 0 } }
