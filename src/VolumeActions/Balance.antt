-- ===== src/VolumeActions/Balance.antt =====
-- The balance of the element volumes: _qualifiesForChanges, _getVolumeDiff and _calculateElementVolumes
-- of CAmActionSetVolumeCore.cpp.
pub mod Ranges
use audio_manager_plugins.Base.{
  ℕ, List, [], ◌∷◌, Option, none, some, Bool, true, false, ◌&&◌, ◌||◌, not, ltb, ◌==◌,
  if◌then◌else◌, is_empty,
}
use audio_manager_plugins.Base.Int.{ℤ, pos, ◌+ℤ◌, is_same, int16}
use audio_manager_plugins.Base.Maps.{lookup, insert}
use audio_manager_plugins.ControlSender.{MuteState, ms_muted, ms_unmuted, ms_unknown}
use audio_manager_plugins.MainConnection.Lists.{stable_sort}
use audio_manager_plugins.MainConnection.Route.{
  Direction, sd_mainsource_to_mainsink, sd_mainsink_to_mainsource, is_muted, is_unknown_mute,
}
use audio_manager_plugins.VolumeActions.{
  PointData, Elements, VolumeInfo, null_volume_info, same_volume_info, same_mute, ConnectionInfo,
  MatrixColumn, SetVolumeCore, min_volume_of, max_volume_of,
}
use audio_manager_plugins.VolumeActions.Limiting.{◌-ℤ◌, resolve_relative_limits}

abbrev pub is_adjustable : Option ConnectionInfo → Bool
is_adjustable none = false
is_adjustable (some s) = s.adjustable

-- A column of one connection that may be adjusted; one of several connections is shared.
unfoldable pub qualifies_for_changes : List (ℕ × ConnectionInfo) → MatrixColumn → Bool
qualifies_for_changes m column = elim column.connections [
  | [] ↦ false
  | c ∷ rest ↦ is_empty rest && is_adjustable (lookup c m)
]

abbrev pub contains : ℕ → List ℕ → Bool
contains k [] = false
contains k (j ∷ js) = k == j || contains k js

-- The loop over the matrix: the volumes left over, and whether an element of the connection is muted.
unfoldable pub subtract_columns :
    ℕ → List (ℕ × MatrixColumn) → VolumeInfo → Bool → VolumeInfo × Bool
subtract_columns k [] d muted = (d, muted)
subtract_columns k ((e, column) ∷ m) d muted =
    let uses = contains k column.connections in
    subtract_columns k m
      (if uses
        then record d {
          volume = int16 (d.volume -ℤ column.target.volume);
          offset = int16 (d.offset -ℤ column.target.offset);
        }
        else d)
      (muted || (uses && is_muted column.target.mute_state))

unfoldable pub overall_mute : Bool → MuteState
overall_mute muted = if muted then ms_muted else ms_unmuted

-- A mute state that is reached already is MS_UNKNOWN in the difference.
unfoldable pub mark_reached : MuteState → VolumeInfo × Bool → VolumeInfo
unfolding overall_mute
mark_reached target (d, muted) =
    if same_mute (overall_mute muted) target then record d { mute_state = ms_unknown } else d

unfoldable pub get_volume_diff : ℕ → ConnectionInfo → List (ℕ × MatrixColumn) → VolumeInfo
unfolding subtract_columns mark_reached
get_volume_diff k s matrix =
    if s.adjustable
    then mark_reached s.target.mute_state (subtract_columns k matrix s.target false)
    else null_volume_info

-- diffMap
abbrev pub DiffMap : Type 0
DiffMap = List (ℕ × VolumeInfo)

unfoldable pub get_diffs : List (ℕ × ConnectionInfo) → List (ℕ × MatrixColumn) → DiffMap
unfolding get_volume_diff
get_diffs [] matrix = []
get_diffs ((k, s) ∷ m) matrix = (k, get_volume_diff k s matrix) ∷ get_diffs m matrix

-- No difference is left.
unfoldable pub is_done : DiffMap → Bool
is_done [] = true
is_done ((k, d) ∷ ds) = same_volume_info d null_volume_info && is_done ds

-- The differences of the column's connections, a later one over an earlier one.
unfoldable pub merge_diff : Option VolumeInfo → VolumeInfo → VolumeInfo
merge_diff none d = d
merge_diff (some c) d = record {
  mute_state = if is_unknown_mute c.mute_state then d.mute_state else c.mute_state;
  volume = if is_same c.volume (pos 0) then d.volume else c.volume;
  offset = if is_same c.offset (pos 0) then d.offset else c.offset;
}

unfoldable pub element_diff : List ℕ → DiffMap → VolumeInfo → VolumeInfo
unfolding merge_diff
element_diff [] ds d = d
element_diff (c ∷ cs) ds d = element_diff cs ds (merge_diff (lookup c ds) d)

-- std::max(low, std::min(high, x))
unfoldable pub clip : ℤ → ℤ → ℤ → ℤ
clip low high x = max_volume_of low (min_volume_of high x)

unfoldable pub apply_diff : PointData → VolumeInfo → MatrixColumn → MatrixColumn
unfolding clip
apply_diff p d column = record column {
  target = record {
    mute_state = if is_unknown_mute d.mute_state then column.target.mute_state else d.mute_state;
    volume = clip p.min_volume p.max_volume (int16 (column.actual.volume +ℤ d.volume));
    offset = clip p.min_volume p.max_volume (int16 (column.actual.offset +ℤ d.offset));
  };
}

-- The differences of some connections anew.
unfoldable pub renew_diffs :
    List ℕ → List (ℕ × ConnectionInfo) → List (ℕ × MatrixColumn) → DiffMap → DiffMap
unfolding get_volume_diff
renew_diffs [] m matrix ds = ds
renew_diffs (c ∷ cs) m matrix ds =
    renew_diffs cs m matrix
      (elim (lookup c m) [ none ↦ ds | some s ↦ insert c (get_volume_diff c s matrix) ds ])

-- The body of the loop for an element that qualifies.
unfoldable pub change_column :
    Elements
    → List (ℕ × ConnectionInfo)
    → ℕ
    → MatrixColumn
    → List (ℕ × MatrixColumn) × DiffMap
    → List (ℕ × MatrixColumn) × DiffMap
unfolding element_diff apply_diff renew_diffs
change_column w m k column (matrix, ds) =
    let d = element_diff column.connections ds null_volume_info in
    let matrix' = insert k (apply_diff (w.points k) d column) matrix in
    (matrix', renew_diffs column.connections m matrix' ds)

-- The loop over the sorted elements; it returns as soon as nothing is left to change.
unfoldable pub balance :
    Elements
    → List (ℕ × ConnectionInfo)
    → List (ℕ × MatrixColumn)
    → List (ℕ × MatrixColumn) × DiffMap
    → List (ℕ × MatrixColumn) × DiffMap
unfolding is_done qualifies_for_changes change_column
balance w m [] s = s
balance w m ((k, column) ∷ elements) s =
    let later =
      balance w m elements
        (if qualifies_for_changes m column then change_column w m k column s else s) in
    if is_done s.1 then s else later

pub precedes : Direction → ℕ × MatrixColumn → ℕ × MatrixColumn → Bool
precedes sd_mainsource_to_mainsink l r = ltb r.1.ordinal l.1.ordinal
precedes sd_mainsink_to_mainsource l r = ltb l.1.ordinal r.1.ordinal

unfoldable pub calculate_element_volumes : Elements → Direction → SetVolumeCore → SetVolumeCore
unfolding get_diffs balance precedes
calculate_element_volumes w direction a =
    if is_empty a.connection_map
    then a
    else let m = resolve_relative_limits a.connection_map in
      record {
        connection_map = m;
        matrix =
            (balance w m (stable_sort (precedes direction) a.matrix)
              (a.matrix, get_diffs m a.matrix)).0;
      }
