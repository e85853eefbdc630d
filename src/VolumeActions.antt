-- ===== src/VolumeActions.antt =====
-- The actions on volumes: PluginControlInterfaceGeneric/src/CAmActionSetVolumeCore.cpp and the actions
-- derived from it, CAmActionSetVolume.cpp, CAmActionLimit.cpp and CAmActionMute.cpp. Connections and
-- elements are known by their pointers; what the objects hold while an action runs is `Elements`.
pub mod Limiting
pub mod Matrix
pub mod Balance
pub mod ElementVolume
pub mod Requests
pub mod LimitStates
use audio_manager_plugins.Base.{ℕ, List, [], ◌∷◌, Bool, true, false, ◌==◌, ◌&&◌, ltb, if◌then◌else◌}
use audio_manager_plugins.Base.Int.{ℤ, pos, less, is_same}
use audio_manager_plugins.ControlSender.{MuteState, ms_muted, ms_unmuted, ms_unknown}
use audio_manager_plugins.Element.Limits.{Limits, volume_no_limit}
use audio_manager_plugins.MainConnection.{RoutePoint, MainConnectionElement}
use audio_manager_plugins.MainConnection.Lists.{MainConnectionFactory}

-- What a CAmRoutePointElement has beside what a route shows of it.
pub record PointData : Type 0 where
  pub is_sink : Bool  -- ET_SINK; otherwise ET_SOURCE
  pub min_volume : ℤ
  pub max_volume : ℤ
  pub limits : Limits

-- The objects: the points by their pointers, the factory of the main connections, and the limits of
-- the class element of each connection, empty for a null pointer.
pub record Elements : Type 0 where
  pub points : ℕ → PointData
  pub connections : MainConnectionFactory
  pub class_limits : ℕ → Limits
  pub am_mute : ℤ

-- VolumeInfo_t
pub record VolumeInfo : Type 0 where
  pub mute_state : MuteState
  pub volume : ℤ
  pub offset : ℤ

abbrev pub null_volume_info : VolumeInfo
null_volume_info = record {
  mute_state = ms_unknown;
  volume = volume_no_limit;
  offset = volume_no_limit;
}

abbrev pub same_mute : MuteState → MuteState → Bool
same_mute ms_muted ms_muted = true
same_mute ms_unmuted ms_unmuted = true
same_mute ms_unknown ms_unknown = true
same_mute _ _ = false

abbrev pub same_volume_info : VolumeInfo → VolumeInfo → Bool
same_volume_info v w =
    same_mute v.mute_state w.mute_state && (is_same v.volume w.volume && is_same v.offset w.offset)

-- ConnectionInfo_t, with the connection that is its key.
pub record ConnectionInfo : Type 0 where
  pub connection : MainConnectionElement
  pub actual : VolumeInfo
  pub target : VolumeInfo
  pub relative : ℤ
  pub adjustable : Bool

-- MatrixColumn_t
pub record MatrixColumn : Type 0 where
  pub actual : VolumeInfo
  pub target : VolumeInfo
  pub ordinal : ℕ
  pub connections : List ℕ

-- mConnectionMap and mMatrix
pub record SetVolumeCore : Type 0 where
  pub connection_map : List (ℕ × ConnectionInfo)
  pub matrix : List (ℕ × MatrixColumn)

-- std::set::insert
abbrev pub insert_key : ℕ → List ℕ → List ℕ
insert_key k [] = k ∷ []
insert_key k (j ∷ js) =
    if k == j then j ∷ js else if ltb k j then k ∷ j ∷ js else j ∷ insert_key k js

abbrev pub min_volume_of : ℤ → ℤ → ℤ
min_volume_of a b = if less b a then b else a

abbrev pub max_volume_of : ℤ → ℤ → ℤ
max_volume_of a b = if less a b then b else a
