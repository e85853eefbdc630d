-- ===== src/MainConnection/Filter.antt =====
-- CAmConnectionListFilter of CAmMainConnectionElement.cpp.
pub mod Description
use audio_manager_plugins.Base.{
  ℕ, zero, suc, ◌+◌, List, [], ◌∷◌, ◌++◌, Option, none, some, Bool, true, false, ◌==◌, ◌&&◌, ◌||◌,
  not, if◌then◌else◌, length, is_empty, leb,
}
use audio_manager_plugins.Base.Int.{ℤ, pos, ◌+ℤ◌, less}
use audio_manager_plugins.TriggerQueue.{TriggerPair}
use audio_manager_plugins.MainConnection.{
  Name, same_name, ConnectionState, cs_disconnected, RoutePoint, RouteElement, same_state,
}
use audio_manager_plugins.MainConnection.{MainConnectionElement}

-- CAmConnectionListFilter
pub record ConnectionListFilter : Type 0 where
  pub class_name : Name
  pub source_name : Name
  pub sink_name : Name
  pub list_connection_states : List ConnectionState
  pub list_except_sources : List Name
  pub list_except_sinks : List Name
  pub list_except_classes : List Name

-- The empty name matches every name.
unfoldable pub matches_name : Name → Name → Bool
matches_name filter_name input_name = is_empty filter_name || same_name filter_name input_name

abbrev pub has_state : ConnectionState → List ConnectionState → Bool
has_state s [] = false
has_state s (x ∷ xs) = same_state x s || has_state s xs

abbrev pub has_name : Name → List Name → Bool
has_name n [] = false
has_name n (x ∷ xs) = same_name x n || has_name n xs

-- The empty list matches everything.
unfoldable pub matches_any_state : List ConnectionState → ConnectionState → Bool
matches_any_state states s = is_empty states || has_state s states

unfoldable pub matches_any_name : List Name → Name → Bool
matches_any_name names n = is_empty names || has_name n names

-- The names at the two ends of a segment; a null pointer has none.
unfoldable pub segment_names : RouteElement → Option (Name × Name)
segment_names e = elim e.source [
  | none ↦ none
  | some source ↦ elim e.sink [ none ↦ none | some sink ↦ some (source.name, sink.name) ]
]

-- One segment, with what the segments after it make of sourceMatch and sinkMatch.
unfoldable pub segment_matches :
    ConnectionListFilter
    → Option (Name × Name)
    → (Bool → Bool → Option Bool)
    → Bool
    → Bool
    → Option Bool
unfolding matches_name matches_any_name
segment_matches f none later source_match sink_match = none
segment_matches f (some (source, sink)) later source_match sink_match =
    if (not (is_empty f.list_except_sources) && matches_any_name f.list_except_sources source)
      || (not (is_empty f.list_except_sinks) && matches_any_name f.list_except_sinks sink)
    then some false
    else later (source_match || matches_name f.source_name source)
        (sink_match || matches_name f.sink_name sink)

unfoldable pub segments_match : ConnectionListFilter → List RouteElement → Bool → Bool → Option Bool
unfolding segment_names segment_matches
segments_match f [] source_match sink_match = some (source_match && sink_match)
segments_match f (e ∷ es) source_match sink_match =
    segment_matches f (segment_names e) (segments_match f es) source_match sink_match

unfoldable pub matches : ConnectionListFilter → Option MainConnectionElement → Option Bool
unfolding matches_name matches_any_name matches_any_state segments_match
matches f none = some false
matches f (some c) =
    if not (matches_name f.class_name c.class_name)
      || ((not (is_empty f.list_except_classes)
            && matches_any_name f.list_except_classes c.class_name)
          || not (matches_any_state f.list_connection_states c.state))
    then some false
    else segments_match f c.list_route_elements false false
