-- ===== src/Classes/Topology.antt =====
-- Routes from the topologies of a class: _getRouteFromTopology, _getPreferredRoute and
-- _validateRouteFromTopology of CAmClassElement.cpp. A pop from an empty route and an iterator moved
-- beyond the end are `none`.
pub mod Closed
pub mod Arrival
pub mod Preferred
pub mod Validation
use audio_manager_plugins.Base.{
  ℕ, zero, suc, ◌+◌, List, [], ◌∷◌, Option, none, some, Bool, true, false, ◌&&◌, ◌||◌, not, ◌==◌,
  ltb, if◌then◌else◌, length,
}
use audio_manager_plugins.MainConnection.{Name, same_name}
use audio_manager_plugins.Classes.{
  TopologyCode, source_element, gateway_element, rbracket_code, TopologyElement, RoutingElement,
  Route, Gateway, Registry, ClassElement, source_end, sink_end, asterisk, in_subject_list,
  present_in_topology, pair_belongs_to_class,
}

-- The loop's variables: the element under construction, the pushed ones with the newest first, and
-- gatewayFoundCounter.
pub record Walk : Type 0 where
  pub routing_element : RoutingElement
  pub pushed : List RoutingElement
  pub gateway_found_counter : ℕ

-- The answers E_OK and E_UNKNOWN of the walk, with the pushed elements, the newest first.
pub record Walked : Type 0 where
  pub source_found : Bool
  pub pushed : List RoutingElement

-- `routingElement = route.back(); route.pop_back();` as often as gateways were found.
unfoldable pub pop_gateways : ℕ → RoutingElement → List RoutingElement → Option Walk
pop_gateways zero e pushed =
    some (record { routing_element = e; pushed = pushed; gateway_found_counter = 0 })
pop_gateways (suc n) e [] = none
pop_gateways (suc n) e (p ∷ ps) = pop_gateways n p ps

abbrev pub is_rbracket : TopologyCode → Bool
is_rbracket rbracket_code = true
is_rbracket _ = false

abbrev pub is_gateway : TopologyCode → Bool
is_gateway gateway_element = true
is_gateway _ = false

-- The two loops that look for the bracket of a gateway that does not exist. The iterator has been moved
-- to the list's first element, by the outer loop if `fresh`. The answer begins with the bracket; it is
-- empty at the end of the topology.
unfoldable pub skip_gateway : Bool → ℕ → ℕ → List TopologyElement → Option (List TopologyElement)
skip_gateway true loop_count counter [] = some []
skip_gateway false loop_count counter [] = if ltb (suc loop_count) counter then none else some []
skip_gateway fresh loop_count counter (e ∷ es) =
    let next = skip_gateway true (suc loop_count) counter es in
    let on =
      skip_gateway false loop_count (if is_gateway e.code_id then suc counter else counter) es in
    if is_rbracket e.code_id
    then if ltb (suc loop_count) counter then next else some (e ∷ es)
    else on

-- A source of the topology that the main source matches.
unfoldable pub is_main_source : Registry → ClassElement → Name → Name → Bool
is_main_source r c main_source n =
    (elim (r.source_id n) [ none ↦ false | some id ↦ same_name main_source n ])
    || (same_name n asterisk && in_subject_list c source_end main_source)

-- A gateway that exists: its source ends one segment, its sink starts the next.
unfoldable pub through_gateway : Gateway → Walk → Walk
through_gateway g s = record {
  routing_element = record s.routing_element {
    source_id = g.source_id;
    sink_id = g.sink_id;
    domain_id = g.sink_domain_id;
  };
  pushed = record s.routing_element { source_id = g.source_id } ∷ s.pushed;
  gateway_found_counter = suc s.gateway_found_counter;
}

-- The main loop on fuel: one round for each element of the topology at most, and the last test.
unfoldable pub walk :
    ℕ → Registry → ClassElement → Name → ℕ → List TopologyElement → Walk → Option Walked
unfolding pop_gateways skip_gateway is_main_source through_gateway
walk zero r c main_source source_id es s = none
walk (suc rounds) r c main_source source_id [] s =
    some (record { source_found = false; pushed = s.pushed })
walk (suc rounds) r c main_source source_id (e ∷ es) s = elim e.code_id [
  | source_element ↦
      if is_main_source r c main_source e.name
      then some (record {
        source_found = true;
        pushed = record s.routing_element { source_id = source_id } ∷ s.pushed;
      })
      else walk rounds r c main_source source_id es s
  | gateway_element ↦ elim (r.gateway e.name) [
    | some g ↦ walk rounds r c main_source source_id es (through_gateway g s)
    | none ↦ elim (pop_gateways s.gateway_found_counter s.routing_element s.pushed) [
      | none ↦ none
      | some s' ↦ elim (skip_gateway true 0 (suc s.gateway_found_counter) es) [
        | none ↦ none
        | some [] ↦ none
        | some (bracket ∷ rest) ↦ walk rounds r c main_source source_id rest s'
      ]
    ]
  ]
  | rbracket_code ↦ elim (pop_gateways s.gateway_found_counter s.routing_element s.pushed) [
    | none ↦ none
    | some s' ↦ walk rounds r c main_source source_id es s'
  ]
  | _ ↦ walk rounds r c main_source source_id es s
]

-- The answers of _getRouteFromTopology.
pub data RouteAnswer : Type 0 where
  not_possible unknown found : RouteAnswer

abbrev pub reverse_onto : List RoutingElement → List RoutingElement → List RoutingElement
reverse_onto [] ys = ys
reverse_onto (x ∷ xs) ys = reverse_onto xs (x ∷ ys)

abbrev pub start : ℕ × ℕ → List RoutingElement → Walk
start (sink_id, domain_id) before = record {
  routing_element = record {
    source_id = 0;
    sink_id = sink_id;
    domain_id = domain_id;
    connection_format = 0;
  };
  pushed = reverse_onto before [];
  gateway_found_counter = 0;
}

abbrev pub answer_of : ℕ → ℕ → Option Walked → Option (RouteAnswer × Route)
answer_of source_id sink_id none = none
answer_of source_id sink_id (some w) = some (
  if w.source_found then found else unknown,
  record { source_id = source_id; sink_id = sink_id; route = reverse_onto w.pushed [] },
)

-- The route that is handed in is the one that a topology before has left.
unfoldable pub get_route_from_topology :
    Registry
    → ClassElement
    → List TopologyElement
    → Name
    → Name
    → Route
    → Option (RouteAnswer × Route)
unfolding walk
get_route_from_topology r c topology main_source main_sink before = elim (r.source_id main_source) [
  | none ↦ some (not_possible, before)
  | some source_id ↦ elim (r.sink main_sink) [
    | none ↦ some (not_possible, before)
    | some sink ↦
        if not (pair_belongs_to_class c main_sink main_source)
        then some (unknown, before)
        else if not (present_in_topology c sink_end main_sink topology)
        then some (not_possible, before)
        else answer_of source_id sink.0 (
            walk (suc (length topology)) r c main_source source_id topology
              (start sink before.route))
  ]
]

abbrev pub is_found : RouteAnswer → Bool
is_found found = true
is_found _ = false

-- The loop of _getPreferredRoute, with the answer so far.
unfoldable pub preferred_route :
    Registry
    → ClassElement
    → Name
    → Name
    → List (List TopologyElement)
    → RouteAnswer × Route
    → Option (RouteAnswer × Route)
unfolding get_route_from_topology
preferred_route r c main_source main_sink [] s = some s
preferred_route r c main_source main_sink (t ∷ ts) s =
    elim (get_route_from_topology r c t main_source main_sink s.1) [
      | none ↦ none
      | some (a, route) ↦
          if is_found a
          then some (a, route)
          else preferred_route r c main_source main_sink ts (a, route)
    ]

abbrev pub same_segment : RoutingElement → RoutingElement → Bool
same_segment d t = d.sink_id == t.sink_id && d.source_id == t.source_id

-- The inner loop of _validateRouteFromTopology, over routes of one length.
unfoldable pub same_segments : List RoutingElement → List RoutingElement → Bool
same_segments [] ts = true
same_segments (d ∷ ds) [] = false
same_segments (d ∷ ds) (t ∷ ts) = same_segment d t && same_segments ds ts

-- _validateRouteFromTopology: the topology's route is compared from its end; `none` is E_NOT_POSSIBLE.
unfoldable pub validate_route : List Route → Route → Option Route
unfolding same_segments
validate_route [] topology = none
validate_route (d ∷ ds) topology =
    if length d.route == length topology.route
      && same_segments d.route (reverse_onto topology.route [])
    then some d
    else validate_route ds topology

-- The route of createMainConnection, by what the daemon's getRoute has answered. `some none` is an error;
-- an empty list without an error leaves the route as it is, and without an error too.
unfoldable pub choose_route :
    Registry → ClassElement → Bool → Bool → List Route → Name → Name → Route → Option (Option Route)
unfolding preferred_route validate_route
choose_route r c allowed false ds main_source main_sink before = some none
choose_route r c allowed true [] main_source main_sink before = some (some before)
choose_route r c allowed true (d ∷ ds) main_source main_sink before =
    elim (preferred_route r c main_source main_sink c.list_topologies (not_possible, before)) [
      | none ↦ none
      | some (a, route) ↦
          some (if not (is_found a) && allowed then some d else validate_route (d ∷ ds) route)
    ]
