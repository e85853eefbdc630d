-- ===== src/VolumeActions/Limiting.antt =====
-- The volumes of a connection and its limits: _getConnectionVolumes and _resolveRelativeLimits of
-- CAmActionSetVolumeCore.cpp, getLimits of CAmMainConnectionElement.cpp.
pub mod Strictest
use audio_manager_plugins.Base.{
  ℕ, ◌+◌, List, [], ◌∷◌, ◌++◌, Bool, true, false, ◌&&◌, ◌||◌, not, if◌then◌else◌,
}
use audio_manager_plugins.Base.Int.{
  ℤ, pos, negsuc, ◌+ℤ◌, diff, pos_part, neg_part, less, is_same, int16,
}
use audio_manager_plugins.ControlSender.{MuteState, ms_muted, ms_unmuted}
use audio_manager_plugins.Element.Limits.{
  Limits, LimitVolume, is_absolute, is_relative, get_limits, volume_no_limit,
}
use audio_manager_plugins.MainConnection.{RoutePoint, MainConnectionElement}
use audio_manager_plugins.MainConnection.Route.{
  get_mute_state, get_volume, get_offset_volume, get_volume_change_elements,
  sd_mainsink_to_mainsource,
}
use audio_manager_plugins.VolumeActions.{Elements, VolumeInfo, ConnectionInfo}

-- x - y
infixl 60 ◌-ℤ◌
abbrev pub ◌-ℤ◌ : ℤ → ℤ → ℤ
x -ℤ y = diff (pos_part x + neg_part y) (neg_part x + pos_part y)

unfoldable pub limits_of_points : Elements → List RoutePoint → List LimitVolume
limits_of_points w [] = []
limits_of_points w (p ∷ ps) = get_limits (w.points p.id).limits ++ limits_of_points w ps

-- CAmMainConnectionElement::getLimits
unfoldable pub limits_of_connection : Elements → MainConnectionElement → List LimitVolume
unfolding limits_of_points
limits_of_connection w c =
    get_limits (w.class_limits c.id)
    ++ limits_of_points w
        (get_volume_change_elements sd_mainsink_to_mainsource c.list_route_elements [])

-- One round of the loop over the limits: the highest restriction wins.
unfoldable pub apply_limit : ℤ → LimitVolume → ConnectionInfo → ConnectionInfo
apply_limit am_mute limit s =
    if is_absolute limit.limit_type && is_same limit.limit_volume am_mute
    then record s { target = record s.target { mute_state = ms_muted } }
    else if is_absolute limit.limit_type && less limit.limit_volume s.target.offset
    then record s { target = record s.target { offset = limit.limit_volume } }
    else if is_relative limit.limit_type && less limit.limit_volume s.relative
    then record s { relative = limit.limit_volume }
    else s

unfoldable pub apply_limits : ℤ → List LimitVolume → ConnectionInfo → ConnectionInfo
unfolding apply_limit
apply_limits am_mute [] s = s
apply_limits am_mute (l ∷ ls) s = apply_limits am_mute ls (apply_limit am_mute l s)

-- The settings before any limit.
unfoldable pub unlimited : MainConnectionElement → Bool → ConnectionInfo
unlimited c adjustable = record {
  connection = c;
  actual = record {
    mute_state = get_mute_state c.list_route_elements;
    volume = get_volume c.list_route_elements;
    offset = get_offset_volume c.list_route_elements;
  };
  target = record {
    mute_state = ms_unmuted;
    volume = get_volume c.list_route_elements;
    offset = volume_no_limit;
  };
  relative = volume_no_limit;
  adjustable = adjustable;
}

unfoldable pub get_connection_volumes : Elements → MainConnectionElement → Bool → ConnectionInfo
unfolding apply_limits unlimited limits_of_connection
get_connection_volumes w c adjustable =
    apply_limits w.am_mute (limits_of_connection w c) (unlimited c adjustable)

-- The volume and the offset of a target, in int.
abbrev pub audible : VolumeInfo → ℤ
audible v = v.volume +ℤ v.offset

-- The inner loop of _resolveRelativeLimits, over the other connections.
unfoldable pub resolve_against : ℤ → VolumeInfo → List (ℕ × ConnectionInfo) → VolumeInfo
resolve_against relative target [] = target
resolve_against relative target ((k, other) ∷ m) =
    let limit = int16 (audible other.target +ℤ relative) in
    resolve_against relative
      (if less limit (audible target)
        then record target { offset = int16 (limit -ℤ target.volume) }
        else target)
      m

unfoldable pub resolve_one : ConnectionInfo → List (ℕ × ConnectionInfo) → ConnectionInfo
unfolding resolve_against
resolve_one s others = if is_same s.relative volume_no_limit then s else record s {
  target = resolve_against s.relative s.target others;
  relative = volume_no_limit;
}

-- The outer loop, at the first entry of the second list; the first list is done.
unfoldable pub resolve_rest :
    List (ℕ × ConnectionInfo) → List (ℕ × ConnectionInfo) → List (ℕ × ConnectionInfo)
unfolding resolve_one
resolve_rest done [] = done
resolve_rest done ((k, s) ∷ m) = resolve_rest (done ++ (k, resolve_one s (done ++ m)) ∷ []) m

unfoldable pub resolve_relative_limits : List (ℕ × ConnectionInfo) → List (ℕ × ConnectionInfo)
unfolding resolve_rest
resolve_relative_limits m = resolve_rest [] m
