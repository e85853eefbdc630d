-- ===== src/MainConnection/Filter/Description.antt =====
-- CAmConnectionListFilter::matches, CAmMainConnectionElement.cpp, without its loop and early returns.
use audio_manager_plugins.Base.{
  List, [], ◌∷◌, Option, none, some, Bool, false, ◌&&◌, ◌||◌, not, ◌≡◌, refl, arith, is_empty, All,
}
use audio_manager_plugins.MainConnection.{Name, RoutePoint, RouteElement}
use audio_manager_plugins.MainConnection.{MainConnectionElement}
use audio_manager_plugins.MainConnection.Filter.{
  ConnectionListFilter, matches_name, has_name, has_state, matches_any_state, matches_any_name,
  segment_names, segment_matches, segments_match, matches,
}
use audio_manager_plugins.MainConnection.Route.States.{HasPoints}

-- A name satisfies a test; a null pointer has no name.
abbrev pub named : (Name → Bool) → Option RoutePoint → Bool
named test none = false
named test (some p) = test p.name

-- Some segment's source, some segment's sink, and some source or sink that is to be left out.
abbrev pub some_source : (Name → Bool) → List RouteElement → Bool
some_source test [] = false
some_source test (e ∷ es) = named test e.source || some_source test es

abbrev pub some_sink : (Name → Bool) → List RouteElement → Bool
some_sink test [] = false
some_sink test (e ∷ es) = named test e.sink || some_sink test es

abbrev pub some_exception : ConnectionListFilter → List RouteElement → Bool
some_exception f es =
    some_source (λ n. has_name n f.list_except_sources) es
    || some_sink (λ n. has_name n f.list_except_sinks) es

names_of :
    (e : RouteElement) (p q : RoutePoint)
    → e.source ≡ some p
    → e.sink ≡ some q
    → segment_names e ≡ some (p.name, q.name)
unfolding segment_names
names_of e p q source sink = ground arith

excepted : (n : Name) (ns : List Name) → not (is_empty ns) && matches_any_name ns n ≡ has_name n ns
unfolding matches_any_name
excepted n [] = refl
excepted n (x ∷ xs) = refl

segments_match-some :
    (f : ConnectionListFilter) (es : List RouteElement) (source_match sink_match : Bool)
    → All HasPoints es
    → segments_match f es source_match sink_match
      ≡ some (
          not (some_exception f es)
          && ((source_match || some_source (matches_name f.source_name) es)
              && (sink_match || some_sink (matches_name f.sink_name) es)))
unfolding segments_match segment_matches
segments_match-some f [] a b h = ground arith
segments_match-some f (e ∷ es) a b ((p, q, source, sink), h) = rw (names_of e p q source sink) (
    ground (
      arith,
      source,
      sink,
      excepted p.name f.list_except_sources,
      excepted q.name f.list_except_sinks,
      segments_match-some f es (a || matches_name f.source_name p.name)
          (b || matches_name f.sink_name q.name) h,
    ))

-- A connection whose route has no null pointer matches a filter exactly if its class is the wanted one
-- and not left out, its state is wanted, no source and no sink of its route is left out, and some source
-- and some sink of its route, not necessarily of one segment, are the wanted ones; an empty name wants
-- any, and an empty list wants all states and leaves out nothing.
pub matches-some :
    (f : ConnectionListFilter) (c : MainConnectionElement)
    → All HasPoints c.list_route_elements
    → matches f (some c)
      ≡ some (
          (matches_name f.class_name c.class_name
            && not (has_name c.class_name f.list_except_classes))
          && ((is_empty f.list_connection_states || has_state c.state f.list_connection_states)
              && (not (some_exception f c.list_route_elements)
                  && (some_source (matches_name f.source_name) c.list_route_elements
                      && some_sink (matches_name f.sink_name) c.list_route_elements))))
unfolding matches matches_any_state
matches-some f c h = ground (
  arith,
  excepted c.class_name f.list_except_classes,
  segments_match-some f c.list_route_elements false false h,
)
