-- ===== src/Examples/Connections.antt =====
-- Observers and main connections at concrete inputs.
use audio_manager_plugins.Base.{
  ℕ, List, [], ◌∷◌, none, some, true, false, ◌≡◌, refl, arith, ◌&&◌, ◌||◌, not, is_empty,
}
use audio_manager_plugins.Base.Int.{pos}
use audio_manager_plugins.ControlSender.{ms_unmuted}
use audio_manager_plugins.EventSubject.{
  Subject, notified, set_parent_of_command, set_parent_of_container,
}
use audio_manager_plugins.EventSubject.Parents.{
  BelongsTo, set_parents, set_parent_of_container-BelongsTo, set_parent_of_command-notified,
}
use audio_manager_plugins.TriggerQueue.{empty, get_snap_shot}
use audio_manager_plugins.MainConnection.{
  cs_connected, cs_disconnected, a_available, a_unavailable, ss_on, RoutePoint, RouteElement,
  same_state,
}
use audio_manager_plugins.MainConnection.Route.Mutes.{get_mute_state-some_mute}
use audio_manager_plugins.MainConnection.Route.{
  get_mute_state, get_route_availability, updated_state, get_volume, get_offset_volume,
  sd_mainsource_to_mainsink, sd_mainsink_to_mainsource, reverse_onto, get_volume_change_elements,
}
use audio_manager_plugins.MainConnection.Route.States.{
  all_connected, is_not_off, get_route_availability-availability_of, updated_state-connected,
}
use audio_manager_plugins.MainConnection.Route.Volumes.{
  supported_points, total, get_volume_change_elements-total,
}
use audio_manager_plugins.MainConnection.{MainConnectionElement}
use audio_manager_plugins.MainConnection.Lists.Transitions.{
  Change, registers, unregisters, changed, unregister_transition_action-register_transition_action,
}
use audio_manager_plugins.MainConnection.Lists.{
  MainConnectionFactory, o_high_priority, o_low_priority, o_newest, o_oldest, get_element,
  move_to_end, collect, get_list_elements, register_transition_action, unregister_transition_action,
  user_connection_request, ConnectTrigger, is_own_request, permits_dispose,
}
use audio_manager_plugins.MainConnection.Filter.{
  ConnectionListFilter, matches_name, has_name, has_state, matches,
}
use audio_manager_plugins.MainConnection.Lists.Sorting.{
  of_priority, IsSorted, lower, higher, get_list_elements-IsSorted,
}
use audio_manager_plugins.MainConnection.Lists.Moving.{move_to_end-ordered_list}
use audio_manager_plugins.MainConnection.Lists.Disposal.{submitted, permits_dispose-submitted}
use audio_manager_plugins.MainConnection.Filter.Description.{
  some_source, some_sink, some_exception, matches-some,
}

abbrev orphan : Subject
orphan = record { list_observers = []; parent = none }

set_parent_of_container-BelongsTo_example :
    let t = set_parents set_parent_of_container (1 ∷ 2 ∷ []) orphan in
    BelongsTo 2 t × (notified t.list_observers ≡ some 2)
set_parent_of_container-BelongsTo_example =
    set_parent_of_container-BelongsTo 1 (2 ∷ []) orphan (refl, refl)

abbrev child_of_one : Subject
child_of_one = record { list_observers = 1 ∷ []; parent = some 1 }

set_parent_of_command-notified_example :
    notified (set_parents set_parent_of_command (2 ∷ []) child_of_one).list_observers ≡ some 1
set_parent_of_command-notified_example =
    set_parent_of_command-notified 1 (2 ∷ []) child_of_one ((λ e. omega arith), tt)
      (1, [], refl, refl)

abbrev radio : RoutePoint
radio = record {
  id = 1;
  name = 82 ∷ [];
  availability = a_available;
  volume_support = true;
  volume = pos 3;
  offset_volume = pos 0;
  mute_state = ms_unmuted;
}

abbrev speaker : RoutePoint
speaker = record radio { id = 2; name = 83 ∷ []; volume = pos 20; availability = a_unavailable }

abbrev segment : RouteElement
segment = record {
  state = cs_connected;
  priority = pos 4;
  source = some radio;
  sink = some speaker;
}

abbrev route : List RouteElement
route = segment ∷ []

get_route_availability-availability_of_example : get_route_availability route ≡ some a_unavailable
get_route_availability-availability_of_example =
    get_route_availability-availability_of route ((radio, speaker, refl, refl), tt)

updated_state-connected_example :
    same_state (updated_state (some ss_on) route) cs_connected
    ≡ (not (is_empty route) && all_connected route) && is_not_off (some ss_on)
updated_state-connected_example = updated_state-connected (some ss_on) route

get_volume_change_elements-total_example :
    let points = get_volume_change_elements sd_mainsource_to_mainsink route [] in
    (points ≡ supported_points route)
    × (get_volume_change_elements sd_mainsink_to_mainsource route [] ≡ reverse_onto points [])
    × (get_volume route ≡ total (λ p. p.volume) (pos 0) points)
    × (get_offset_volume route ≡ total (λ p. p.offset_volume) (pos 0) points)
get_volume_change_elements-total_example = get_volume_change_elements-total route

abbrev connection : ℕ → MainConnectionElement
connection n = record {
  id = n;
  name = n ∷ [];
  class_name = 67 ∷ [];
  main_source_name = 82 ∷ [];
  main_sink_name = 83 ∷ [];
  state = cs_disconnected;
  list_route_elements = route;
  route_subjects = route;
  ongoing_transitions = [];
}

abbrev everything : ConnectionListFilter
everything = record {
  class_name = [];
  source_name = [];
  sink_name = 83 ∷ [];
  list_connection_states = [];
  list_except_sources = [];
  list_except_sinks = [];
  list_except_classes = [];
}

abbrev factory : MainConnectionFactory
factory = record {
  map_elements = connection 1 ∷ connection 2 ∷ [];
  ordered_list = connection 1 ∷ connection 2 ∷ [];
}

matches-some_example :
    matches everything (some (connection 1))
    ≡ some (
        (matches_name [] (67 ∷ []) && not (has_name (67 ∷ []) []))
        && ((is_empty (everything.list_connection_states) || has_state cs_disconnected [])
            && (not (some_exception everything route)
                && (some_source (matches_name []) route
                    && some_sink (matches_name (83 ∷ [])) route))))
matches-some_example = matches-some everything (connection 1) ((radio, speaker, refl, refl), tt)

get_list_elements-IsSorted_example :
    (high low : List MainConnectionElement) × (get_list_elements everything o_high_priority factory
      ≡ some high)
    × (get_list_elements everything o_low_priority factory ≡ some low)
    × IsSorted lower high
    × IsSorted higher low
    × (of_priority (pos 4) high ≡ of_priority (pos 4) factory.ordered_list)
    × (of_priority (pos 4) low ≡ of_priority (pos 4) factory.ordered_list)
unfolding collect matches get_element
get_list_elements-IsSorted_example =
    get_list_elements-IsSorted everything factory factory.ordered_list (pos 4) refl

move_to_end-ordered_list_example :
    ((move_to_end (1 ∷ []) o_newest factory).ordered_list ≡ connection 2 ∷ connection 1 ∷ [])
    × ((move_to_end (1 ∷ []) o_oldest factory).ordered_list ≡ connection 1 ∷ connection 2 ∷ [])
    × ((move_to_end (1 ∷ []) o_high_priority factory).ordered_list ≡ factory.ordered_list)
    × ((move_to_end (1 ∷ []) o_low_priority factory).ordered_list ≡ factory.ordered_list)
unfolding get_element
move_to_end-ordered_list_example =
    move_to_end-ordered_list (1 ∷ []) factory (connection 1) (connection 1) [] (connection 2 ∷ [])
      refl refl tt refl

abbrev own : ConnectTrigger
own = record { source_name = 82 ∷ []; sink_name = 83 ∷ []; class_name = [] }

permits_dispose-submitted_example :
    permits_dispose
      (connection 1)
      (get_snap_shot (submitted true user_connection_request (some own) empty))
    ≡ not (is_own_request (connection 1) (user_connection_request, some own))
      && permits_dispose (connection 1) (get_snap_shot empty)
permits_dispose-submitted_example =
    permits_dispose-submitted (connection 1) true user_connection_request (some own) empty

-- While transition 7 is registered, 8 registers, 9 registers and 8 unregisters.
abbrev others : List Change
others = registers 8 ∷ registers 9 ∷ unregisters 8 ∷ []

unregister_transition_action-register_transition_action_example :
    (permits_dispose (changed others (register_transition_action 7 (connection 1))) [] ≡ false)
    × (unregister_transition_action 7 (changed others (register_transition_action 7 (connection 1)))
        ≡ changed others (connection 1))
unregister_transition_action-register_transition_action_example =
    unregister_transition_action-register_transition_action 7 (connection 1) others [] tt
      (refl, (refl, (refl, tt)))

get_mute_state-some_mute_example : get_mute_state route ≡ ms_unmuted
get_mute_state-some_mute_example = get_mute_state-some_mute route
