-- ===== src/Classes/Topology/Preferred.antt =====
-- The preferred route of a class whose topologies are closed.
use audio_manager_plugins.Base.{
  ℕ, suc, List, [], ◌∷◌, Option, none, some, true, false, if◌then◌else◌, length, ◌≡◌, refl, sym, ap,
  All, subst, inl, inr, arith, Bool-cases,
}
use audio_manager_plugins.MainConnection.{Name}
use audio_manager_plugins.Classes.{
  TopologyElement, Route, Registry, ClassElement, sink_end, pair_belongs_to_class,
  present_in_topology,
}
use audio_manager_plugins.Classes.Topology.{
  Walked, start, answer_of, reverse_onto, get_route_from_topology, RouteAnswer, not_possible,
  is_found, preferred_route,
}
use audio_manager_plugins.Classes.Topology.Closed.{is_closed}
use audio_manager_plugins.Classes.Topology.Arrival.{Ends, walk-Ends, Leads, Arrives, reverse_twice}

-- An answer that leads from sink to source if it is found, and leaves nothing behind otherwise.
abbrev Answers : Registry → ℕ → ℕ → Option (RouteAnswer × Route) → Type 0
Answers r source sink none = ⊥
Answers r source sink (some (a, route)) =
    (is_found a ≡ true → Leads r source sink route.route) × (is_found a ≡ false → route.route ≡ [])

answer_of-Answers :
    (r : Registry) (source sink : ℕ) (o : Option Walked)
    → Ends r source sink o
    → Answers r source sink (answer_of source sink o)
answer_of-Answers r source sink none ends = ends
answer_of-Answers r source sink (some w) ends = elim (Bool-cases w.source_found) [
  | inl h ↦
      rw h (λ _. subst (Arrives r source sink) (sym (reverse_twice w.pushed)) (ends.0 h), λ k. cc)
  | inr h ↦ rw h (λ k. cc, λ _. ap (λ ps. reverse_onto ps []) (ends.1 h))
]

module _ (r : Registry) (c : ClassElement) (main_source main_sink : Name) (source sink domain : ℕ)
    (is_source : r.source_id main_source ≡ some source)
    (is_sink : r.sink main_sink ≡ some (sink, domain)) where
  get_route_from_topology-Answers :
      (t : List TopologyElement) (before : Route)
      → is_closed 0 t ≡ true
      → before.route ≡ []
      → Answers r source sink (get_route_from_topology r c t main_source main_sink before)
  unfolding get_route_from_topology
  get_route_from_topology-Answers t before closed empty =
      elim (Bool-cases (pair_belongs_to_class c main_sink main_source)) [
        | inr h ↦ rw (is_source, is_sink, h, get_route_from_topology) (λ k. cc, λ _. empty)
        | inl h ↦ elim (Bool-cases (present_in_topology c sink_end main_sink t)) [
          | inr n ↦ rw (is_source, is_sink, h, n, get_route_from_topology) (λ k. cc, λ _. empty)
          | inl p ↦
              rw (is_source, is_sink, h, p, empty, get_route_from_topology)
                (answer_of-Answers r source sink _ (
                  walk-Ends r c main_source source sink (suc (length t)) 0 t
                    (start (sink, domain) []) (omega arith) closed (omega arith)
                    (record { counted = refl; anchored = refl; linked = tt })))
        ]
      ]

  answer_or_next :
      (later : RouteAnswer × Route → Option (RouteAnswer × Route))
      → ((b : RouteAnswer) (route : Route)
          → is_found b ≡ false
          → route.route ≡ []
          → Answers r source sink (later (b, route)))
      → (o : Option (RouteAnswer × Route)) → Answers r source sink o
      → Answers r source sink (elim o [
        | none ↦ none
        | some (b, route) ↦ if is_found b then some (b, route) else later (b, route)
      ])
  answer_or_next later others none h = h
  answer_or_next later others (some (b, route)) h = elim (Bool-cases (is_found b)) [
    | inl f ↦ rw f h
    | inr f ↦ rw f (others b route f (h.1 f))
  ]

  preferred_route-Answers :
      (ts : List (List TopologyElement)) (s : RouteAnswer × Route)
      → All (λ t. is_closed 0 t ≡ true) ts
      → is_found s.0 ≡ false
      → s.1.route ≡ []
      → Answers r source sink (preferred_route r c main_source main_sink ts s)
  unfolding preferred_route
  preferred_route-Answers [] (a, route) all other empty = (λ h. cc, λ _. empty)
  preferred_route-Answers (t ∷ ts) (a, route) all other empty =
      answer_or_next (preferred_route r c main_source main_sink ts)
        (λ b next f e. preferred_route-Answers ts (b, next) all.1 f e)
        (get_route_from_topology r c t main_source main_sink route)
        (get_route_from_topology-Answers t route all.0 empty)

answered :
    (r : Registry) (source sink : ℕ) (o : Option (RouteAnswer × Route))
    → Answers r source sink o
    → (a : RouteAnswer) × (route : Route) × (o ≡ some (a, route))
      × (is_found a ≡ true → Leads r source sink route.route)
      × (is_found a ≡ false → route.route ≡ [])
answered r source sink none h = absurd h
answered r source sink (some (a, route)) h = (a, route, refl, h.0, h.1)

-- For a source and a sink that exist, and a class in whose topologies every gateway is closed by a
-- bracket and every bracket closes a gateway: from an empty route the search for the preferred route
-- returns. It pops no empty route and runs beyond no topology. A route that it finds leads from the
-- sink to the source, with a gateway that exists between two segments; if it finds none, the route is
-- empty.
pub preferred_route-Leads :
    (r : Registry) (c : ClassElement) (main_source main_sink : Name) (source sink domain : ℕ)
    (before : Route)
    → r.source_id main_source ≡ some source
    → r.sink main_sink ≡ some (sink, domain)
    → All (λ t. is_closed 0 t ≡ true) c.list_topologies
    → before.route ≡ []
    → (a : RouteAnswer) × (route : Route) × (preferred_route r c main_source main_sink
          c.list_topologies
          (not_possible, before)
        ≡ some (a, route))
      × (is_found a ≡ true → Leads r source sink route.route)
      × (is_found a ≡ false → route.route ≡ [])
preferred_route-Leads r c main_source main_sink source sink domain before is_source is_sink all
      empty =
    answered r source sink _ (
      preferred_route-Answers r c main_source main_sink source sink domain is_source is_sink
        c.list_topologies (not_possible, before) all refl empty)
