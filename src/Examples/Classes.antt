-- ===== src/Examples/Classes.antt =====
-- The routes of a class at concrete inputs.
use audio_manager_plugins.Base.{ℕ, List, [], ◌∷◌, none, some, true, false, ◌≡◌, refl}
use audio_manager_plugins.Classes.{
  sink_element, source_element, gateway_element, lbracket_code, rbracket_code, c_playback,
  RoutingElement, Route, Gateway, Registry, ClassElement, present_in_topology,
  pair_belongs_to_class,
}
use audio_manager_plugins.Classes.Topology.{
  RouteAnswer, not_possible, found, is_found, preferred_route, validate_route,
}
use audio_manager_plugins.Classes.Topology.Arrival.{Leads}
use audio_manager_plugins.Classes.Topology.Preferred.{preferred_route-Leads}
use audio_manager_plugins.Classes.Topology.Validation.{
  FirstThatAgrees, validate_route-FirstThatAgrees,
}

abbrev bridge : Gateway
bridge = record { source_id = 30; sink_id = 31; sink_domain_id = 2 }

-- Source 66 is number 10, sink 65 number 20, and gateway 71 exists.
abbrev registry : Registry
registry = record {
  source_id = λ n. elim n [ [] ↦ none | x ∷ xs ↦ some 10 ];
  sink = λ n. some (20, 1);
  gateway = λ n. elim n [ [] ↦ none | x ∷ xs ↦ some bridge ];
}

-- A sink, and a gateway with the source behind it.
abbrev class : ClassElement
class = record {
  class_type = c_playback;
  list_topologies =
      (record { code_id = sink_element; name = 65 ∷ [] }
        ∷ record { code_id = gateway_element; name = 71 ∷ [] }
        ∷ record { code_id = lbracket_code; name = [] }
        ∷ record { code_id = source_element; name = 66 ∷ [] }
        ∷ record { code_id = rbracket_code; name = [] }
        ∷ [])
      ∷ [];
  source_subjects = [];
  sink_subjects = [];
}

abbrev no_route : Route
no_route = record { source_id = 0; sink_id = 0; route = [] }

preferred_route-Leads_example :
    (a : RouteAnswer) × (route : Route) × (preferred_route registry class
        (66 ∷ [])
        (65 ∷ [])
        class.list_topologies
        (not_possible, no_route)
      ≡ some (a, route))
    × (is_found a ≡ true → Leads registry 10 20 route.route)
    × (is_found a ≡ false → route.route ≡ [])
preferred_route-Leads_example =
    preferred_route-Leads registry class (66 ∷ []) (65 ∷ []) 10 20 1 no_route refl refl (refl, tt)
      refl

abbrev joined : ℕ → ℕ → RoutingElement
joined sink source = record {
  source_id = source;
  sink_id = sink;
  domain_id = 1;
  connection_format = 0;
}

abbrev topology_route : Route
topology_route = record { source_id = 10; sink_id = 20; route = joined 20 30 ∷ joined 31 10 ∷ [] }

abbrev daemon_routes : List Route
daemon_routes =
    record topology_route { route = joined 20 10 ∷ [] }
    ∷ record topology_route { route = joined 31 10 ∷ joined 20 30 ∷ [] }
    ∷ []

validate_route-FirstThatAgrees_example :
    FirstThatAgrees topology_route daemon_routes (validate_route daemon_routes topology_route)
validate_route-FirstThatAgrees_example = validate_route-FirstThatAgrees daemon_routes topology_route

-- The topology leads from the sink through the gateway to the source.
preferred_route_found :
    preferred_route registry class
      (66 ∷ [])
      (65 ∷ [])
      class.list_topologies
      (not_possible, no_route)
    ≡ some (
      found,
      record topology_route {
        route =
            joined 20 30
            ∷ record { source_id = 10; sink_id = 31; domain_id = 2; connection_format = 0 }
            ∷ [];
      },
    )
unfolding preferred_route pair_belongs_to_class present_in_topology
preferred_route_found = refl
