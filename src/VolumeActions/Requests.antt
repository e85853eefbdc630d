-- ===== src/VolumeActions/Requests.antt =====
-- The actions that fill the volume matrix: here _execute of CAmActionSetVolume.cpp. Main volumes are
-- converted through tables of floats; the conversion of a sink is a parameter. The answer is the result
-- with the actions that were appended.
pub mod Restrictions
use audio_manager_plugins.Base.{
  ℕ, List, [], ◌∷◌, Option, none, some, Bool, true, false, ◌&&◌, ◌||◌, not, if◌then◌else◌, is_empty,
  length, ◌==◌,
}
use audio_manager_plugins.Base.Int.{ℤ, pos, ◌+ℤ◌, is_same, less, int16}
use audio_manager_plugins.Base.Maps.{lookup, insert}
use audio_manager_plugins.ControlSender.{MuteState, ms_muted, ms_unmuted}
use audio_manager_plugins.Element.Limits.{LimitVolume, is_absolute, get_limits, volume_no_limit}
use audio_manager_plugins.MainConnection.{
  cs_connected, cs_unknown, RoutePoint, MainConnectionElement,
}
use audio_manager_plugins.MainConnection.Route.{
  sd_mainsource_to_mainsink, sd_mainsink_to_mainsource, get_volume,
}
use audio_manager_plugins.VolumeActions.{
  PointData, Elements, VolumeInfo, ConnectionInfo, MatrixColumn, SetVolumeCore, min_volume_of,
}
use audio_manager_plugins.VolumeActions.Limiting.{
  ◌-ℤ◌, get_connection_volumes, resolve_relative_limits,
}
use audio_manager_plugins.VolumeActions.Matrix.{
  Selection, is_set, setup_connection_map, setup_volume_matrix, column_of, get_element_volumes,
  create_actions,
}
use audio_manager_plugins.VolumeActions.Balance.{clip, calculate_element_volumes}

abbrev pub same_bool : Bool → Bool → Bool
same_bool true b = b
same_bool false b = not b

-- _isLowLevelRequest: none is a request for connections; a request for one element may not find it.
unfoldable pub low_level_request :
    Selection → Option RoutePoint → Option RoutePoint → Option (Option RoutePoint)
low_level_request p source sink =
    if (is_set p.connection_name || is_set p.class_name)
      || same_bool (is_set p.source_name) (is_set p.sink_name)
    then none
    else if is_set p.source_name
    then some source
    else some sink

-- The four parameters of a volume request, none where not set.
pub record VolumeParams : Type 0 where
  pub main_volume : Option ℤ
  pub main_volume_step : Option ℤ
  pub volume : Option ℤ
  pub volume_step : Option ℤ

-- The main volume conversion of a sink, and the main volumes that are stored.
pub record MainVolumes : Type 0 where
  pub to_volume : ℕ → ℤ → ℤ  -- convertMainVolumeToVolume of the connection's main sink
  pub of_connection : ℕ → ℤ
  pub sink_to_volume : ℕ → ℤ → ℤ
  pub of_sink : ℕ → ℤ

-- _getRequestedVolume: the main volume before its step, the volume before its step, else the current.
unfoldable pub requested_volume : VolumeParams → (ℤ → ℤ) → ℤ → ℤ → ℤ
requested_volume p to_volume main current = elim p.main_volume [
  | some v ↦ to_volume v
  | none ↦ elim p.main_volume_step [
    | some step ↦ to_volume (int16 (main +ℤ step))
    | none ↦ elim p.volume [
      | some v ↦ v
      | none ↦ elim p.volume_step [ some step ↦ int16 (step +ℤ current) | none ↦ current ]
    ]
  ]
]

abbrev pub asks_main : VolumeParams → Bool
asks_main p = is_set p.main_volume || is_set p.main_volume_step

-- _getRequestedVolume for a connection and for a source or sink; a main volume for a source is an error.
unfoldable pub requested_for_connection : VolumeParams → MainVolumes → MainConnectionElement → ℤ
unfolding requested_volume
requested_for_connection p v c =
    requested_volume p (v.to_volume c.id) (v.of_connection c.id) (get_volume c.list_route_elements)

unfoldable pub requested_for_point : ℤ → VolumeParams → MainVolumes → Bool → RoutePoint → ℤ
unfolding requested_volume
requested_for_point am_mute p v is_sink e =
    if not is_sink && asks_main p
    then am_mute
    else requested_volume p (v.sink_to_volume e.id) (v.of_sink e.id) e.volume

-- _compensateMainVolumeChange
unfoldable pub compensate : ConnectionInfo → ConnectionInfo
compensate s =
    let volume_diff = int16 (s.target.volume -ℤ s.actual.volume) in
    let offset_diff = int16 (s.target.offset -ℤ s.actual.offset) in
    if not (is_same volume_diff (pos 0)) && less s.target.offset volume_no_limit
    then record s {
      target = record s.target {
        offset =
            int16 (
              min_volume_of volume_no_limit
                (s.target.offset +ℤ int16 (offset_diff -ℤ volume_diff)));
      };
    }
    else s

-- The loop of CAmActionSetVolume::_prepareBalancedRequest.
unfoldable pub request_volumes :
    VolumeParams → MainVolumes → Bool → List (ℕ × ConnectionInfo) → List (ℕ × ConnectionInfo)
unfolding requested_for_connection compensate
request_volumes p v single [] = []
request_volumes p v single ((k, s) ∷ m) =
    let requested = requested_for_connection p v s.connection in
    let s' =
      if single || less requested s.target.offset
      then record s { target = record s.target { volume = requested } }
      else s in
    (k, if asks_main p then compensate s' else s') ∷ request_volumes p v single m

unfoldable pub prepare_balanced_request :
    Elements → VolumeParams → MainVolumes → SetVolumeCore → Option SetVolumeCore
unfolding request_volumes
prepare_balanced_request w p v a =
    elim (setup_volume_matrix w (cs_connected ∷ []) (record a {
      connection_map = request_volumes p v (length a.connection_map == 1) a.connection_map;
    })) [ none ↦ none | some a' ↦ some (calculate_element_volumes w sd_mainsink_to_mainsource a') ]

-- The new target of a column for a direct request, within the range of the element.
unfoldable pub direct_target : PointData → ℤ → MatrixColumn → MatrixColumn
direct_target d requested column =
    let wanted =
      if less d.max_volume requested || less requested d.min_volume
      then clip d.min_volume d.max_volume requested
      else requested in
    record column {
      target = record column.target {
        volume = int16 (column.target.volume +ℤ int16 (wanted -ℤ column.actual.volume));
      };
    }

-- The column is new here, so that no connection shares the element.
unfoldable pub prepare_low_level_request :
    Elements → VolumeParams → MainVolumes → Option RoutePoint → SetVolumeCore → SetVolumeCore
unfolding requested_for_point direct_target
prepare_low_level_request w p v none a = a
prepare_low_level_request w p v (some e) a =
    if e.volume_support
    then record a {
      matrix =
          insert e.id
            (direct_target (w.points e.id)
              (requested_for_point w.am_mute p v (w.points e.id).is_sink e)
              (get_element_volumes e (column_of e.id a.matrix)))
            a.matrix;
    }
    else a

abbrev pub asks_internal : VolumeParams → Bool
asks_internal p = (is_set p.volume || is_set p.volume_step) && not (asks_main p)

abbrev pub actions_of : Option SetVolumeCore → Option (SetVolumeCore × List (ℕ × VolumeInfo))
actions_of none = none
actions_of (some a) = some (a, create_actions a.matrix)

-- CAmActionSetVolume::_execute
unfoldable pub execute_set_volume :
    Elements
    → Selection
    → VolumeParams
    → MainVolumes
    → Option RoutePoint
    → Option RoutePoint
    → SetVolumeCore
    → Option (SetVolumeCore × List (ℕ × VolumeInfo))
unfolding low_level_request prepare_balanced_request prepare_low_level_request
execute_set_volume w s p v source sink a = elim (setup_connection_map w s a) [
  | none ↦ none
  | some a' ↦ elim (low_level_request s source sink) [
    | none ↦ actions_of (prepare_balanced_request w p v a')
    | some direct ↦ actions_of (
        if asks_internal p || is_empty a'.connection_map
        then some (prepare_low_level_request w p v direct a')
        else prepare_balanced_request w p v a')
  ]
]
