-- ===== src/VolumeActions/Requests/Restrictions.antt =====
-- The actions that restrict volumes: _execute of CAmActionLimit.cpp and CAmActionMute.cpp. The answer is
-- the result with the actions that were appended.
use audio_manager_plugins.Base.{
  ℕ, List, [], ◌∷◌, Option, none, some, Bool, true, false, ◌&&◌, if◌then◌else◌,
}
use audio_manager_plugins.Base.Int.{ℤ, is_same, less}
use audio_manager_plugins.Base.Maps.{lookup, insert}
use audio_manager_plugins.ControlSender.{MuteState, ms_muted, ms_unmuted}
use audio_manager_plugins.Element.Limits.{LimitVolume, is_absolute, get_limits, volume_no_limit}
use audio_manager_plugins.MainConnection.{cs_connected, cs_unknown, RoutePoint}
use audio_manager_plugins.MainConnection.Route.{
  sd_mainsource_to_mainsink, sd_mainsink_to_mainsource,
}
use audio_manager_plugins.VolumeActions.{
  Elements, VolumeInfo, ConnectionInfo, MatrixColumn, SetVolumeCore,
}
use audio_manager_plugins.VolumeActions.Limiting.{get_connection_volumes, resolve_relative_limits}
use audio_manager_plugins.VolumeActions.Matrix.{
  Selection, setup_connection_map, setup_volume_matrix, column_of, get_element_volumes,
  create_actions,
}
use audio_manager_plugins.VolumeActions.Balance.{calculate_element_volumes}
use audio_manager_plugins.VolumeActions.Requests.{low_level_request, actions_of}

-- The loop at the end of CAmActionLimit::_applyLimit: the limits have changed.
unfoldable pub renew_volumes : Elements → List (ℕ × ConnectionInfo) → List (ℕ × ConnectionInfo)
renew_volumes w [] = []
renew_volumes w ((k, s) ∷ m) = (k, get_connection_volumes w s.connection true) ∷ renew_volumes w m

unfoldable pub limit_target : ℤ → LimitVolume → VolumeInfo → VolumeInfo
limit_target am_mute l t =
    if is_absolute l.limit_type && is_same l.limit_volume am_mute
    then record t { mute_state = ms_muted }
    else if is_absolute l.limit_type && less l.limit_volume t.offset
    then record t { offset = l.limit_volume }
    else t

unfoldable pub limit_targets : ℤ → List LimitVolume → VolumeInfo → VolumeInfo
unfolding limit_target
limit_targets am_mute [] t = t
limit_targets am_mute (l ∷ ls) t = limit_targets am_mute ls (limit_target am_mute l t)

-- The column of an element, made from its volumes where there is none.
unfoldable pub column_or_new : RoutePoint → List (ℕ × MatrixColumn) → MatrixColumn
column_or_new e m = elim (lookup e.id m) [
  | none ↦ get_element_volumes e (column_of e.id m)
  | some column ↦ column
]

-- CAmActionLimit::_prepareLowLevelRequest
unfoldable pub limit_point : Elements → Option RoutePoint → SetVolumeCore → SetVolumeCore
unfolding limit_targets column_or_new
limit_point w none a = record a { connection_map = resolve_relative_limits a.connection_map }
limit_point w (some e) a =
    let column = column_or_new e a.matrix in
    record {
      connection_map = resolve_relative_limits a.connection_map;
      matrix =
          insert e.id
            (record column {
              target =
                  limit_targets w.am_mute (get_limits (w.points e.id).limits)
                    (record column.target { mute_state = ms_unmuted; offset = volume_no_limit });
            })
            a.matrix;
    }

-- CAmActionLimit::_execute in a world whose limits _applyLimit has changed, `renewed` if it changed one.
unfoldable pub execute_limit :
    Elements
    → Elements
    → Selection
    → Bool
    → Option RoutePoint
    → Option RoutePoint
    → SetVolumeCore
    → Option (SetVolumeCore × List (ℕ × VolumeInfo))
unfolding low_level_request limit_point renew_volumes
execute_limit before w s renewed source sink a = elim (setup_connection_map before s a) [
  | none ↦ none
  | some a' ↦
      elim (setup_volume_matrix w (cs_connected ∷ cs_unknown ∷ []) (
        if renewed then record a' { connection_map = renew_volumes w a'.connection_map } else a')) [
          | none ↦ none
          | some b ↦ actions_of (
              some (elim (low_level_request s source sink) [
                | none ↦ calculate_element_volumes w sd_mainsource_to_mainsink b
                | some direct ↦ limit_point w direct b
              ]))
        ]
]

unfoldable pub mute_targets : MuteState → List (ℕ × ConnectionInfo) → List (ℕ × ConnectionInfo)
mute_targets requested [] = []
mute_targets requested ((k, s) ∷ m) =
    (k, record s { target = record s.target { mute_state = requested } }) ∷ mute_targets requested m

-- CAmActionMute::_prepareLowLevelRequest
unfoldable pub mute_point : MuteState → RoutePoint → SetVolumeCore → SetVolumeCore
unfolding column_or_new
mute_point requested e a =
    let column = column_or_new e a.matrix in
    record a {
      matrix =
          insert e.id (record column { target = record column.target { mute_state = requested } })
            a.matrix;
    }

-- CAmActionMute::_execute with a mute state, and whether it is done: an element that is not found is
-- E_NOT_POSSIBLE.
unfoldable pub execute_mute :
    Elements
    → Selection
    → MuteState
    → Option RoutePoint
    → Option RoutePoint
    → SetVolumeCore
    → Option (Bool × List (ℕ × VolumeInfo))
unfolding low_level_request mute_targets mute_point
execute_mute w s requested source sink a = elim (setup_connection_map w s a) [
  | none ↦ none
  | some a' ↦ elim (setup_volume_matrix w (cs_connected ∷ []) a') [
    | none ↦ none
    | some b ↦ elim (low_level_request s source sink) [
      | none ↦ some (
        true,
        create_actions
            (calculate_element_volumes w sd_mainsink_to_mainsource
              (record b { connection_map = mute_targets requested b.connection_map })).matrix,
      )
      | some none ↦ some (false, [])
      | some (some e) ↦ some (true, create_actions (mute_point requested e b).matrix)
    ]
  ]
]
