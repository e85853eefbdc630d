-- ===== src/Examples/Volumes.antt =====
-- The volume actions at concrete inputs.
use audio_manager_plugins.VolumeActions.Matrix.{setup_volume_matrix}
use audio_manager_plugins.VolumeActions.Matrix.Rounds.{IsSetUp, setup_volume_matrix-IsSetUp}
use audio_manager_plugins.Base.{
  ℕ, arith, List, [], ◌∷◌, none, some, true, false, ◌≡◌, refl, subst, ◌==◌, ==_iff, Bool-cases, inl,
  inr, ◌⊎◌, if◌then◌else◌,
}
use audio_manager_plugins.Base.Int.{ℤ, pos, negsuc}
use audio_manager_plugins.Base.Maps.{lookup}
use audio_manager_plugins.ControlSender.{ms_muted, ms_unmuted}
use audio_manager_plugins.MainConnection.{
  cs_connected, a_available, RoutePoint, MainConnectionElement,
}
use audio_manager_plugins.MainConnection.Route.{get_volume, sd_mainsink_to_mainsource}
use audio_manager_plugins.Element.Limits.{
  Limits, lt_absolute, lt_relative, ls_limited, volume_no_limit, is_within, is_covered,
}
use audio_manager_plugins.VolumeActions.{Elements, VolumeInfo, MatrixColumn, SetVolumeCore}
use audio_manager_plugins.VolumeActions.LimitStates.{
  limits_of, update_limit_states, undo_mute, apply_limit, undo_limit,
}
use audio_manager_plugins.VolumeActions.LimitStates.Undo.{
  limit_at, IsAlone, SameLimits, undo_mute-update_limit_states,
}
use audio_manager_plugins.VolumeActions.LimitStates.Release.{undo_limit-apply_limit}
use audio_manager_plugins.VolumeActions.Limiting.{get_connection_volumes, limits_of_connection}
use audio_manager_plugins.VolumeActions.Limiting.Strictest.{
  mutes, offsets, relative_limit, some_limit, IsLeast, get_connection_volumes-strictest,
}
use audio_manager_plugins.VolumeActions.Balance.{qualifies_for_changes, calculate_element_volumes}
use audio_manager_plugins.VolumeActions.Balance.Ranges.{
  IsWithin, settled, calculate_element_volumes-IsWithin,
}
use audio_manager_plugins.VolumeActions.ElementVolume.{VolumeReceive, ElementVolume}

abbrev am_mute : ℤ
am_mute = negsuc 2999

-- Element 1 has a limit under pattern 8.
abbrev limited : List (ℕ × Limits)
limited = (1, (8, record { limit_type = lt_absolute; limit_volume = negsuc 99 }) ∷ []) ∷ []

not_covered : ¬ (is_covered 1 8 ≡ true)
unfolding is_within
not_covered h = cc

-- Pattern 1 covers the patterns 0 and 1 only, under which nothing is stored.
limited-IsAlone : IsAlone 1 limited
unfolding limit_at limits_of lookup is_within
limited-IsAlone e q covered other = elim (Bool-cases (q == 8)) [
  | inl same ↦
      absurd (not_covered (subst (λ k. is_covered 1 k ≡ true) ((==_iff q 8).0 same) covered))
  | inr differs ↦ ground arith
]

undo_mute-update_limit_states_example :
    SameLimits
      (undo_mute 1 (
        update_limit_states am_mute 1 ms_muted
          (some 1 ∷ some 2 ∷ some 1 ∷ [])
          (record { elements = limited; undo_list = [] }))).elements
      limited
undo_mute-update_limit_states_example =
    undo_mute-update_limit_states am_mute 1 ms_muted (some 1 ∷ some 2 ∷ some 1 ∷ []) limited
      limited-IsAlone

undo_limit-apply_limit_example :
    limits_of 1
      (undo_limit (
        apply_limit
          (some ls_limited)
          (some (negsuc 49))
          none
          1
          (some 1)
          (record { elements = limited; undo_list = [] }))).elements
    ≡ []
unfolding limit_at limits_of lookup
undo_limit-apply_limit_example = undo_limit-apply_limit (some (negsuc 49)) none 1 1 limited refl

abbrev amplifier : RoutePoint
amplifier = record {
  id = 2;
  name = 65 ∷ [];
  availability = a_available;
  volume_support = true;
  volume = negsuc 199;
  offset_volume = pos 0;
  mute_state = ms_unmuted;
}

abbrev tuner : RoutePoint
tuner = record amplifier { id = 1; name = 84 ∷ []; volume = pos 0; volume_support = false }

abbrev connection : MainConnectionElement
connection = record {
  id = 7;
  name = 84 ∷ 58 ∷ 65 ∷ [];
  class_name = 67 ∷ [];
  main_source_name = 84 ∷ [];
  main_sink_name = 65 ∷ [];
  state = cs_connected;
  list_route_elements =
      record { state = cs_connected; priority = pos 0; source = some tuner; sink = some amplifier }
      ∷ [];
  route_subjects = [];
  ongoing_transitions = [];
}

abbrev elements : Elements
elements = record {
  points = λ k. record {
    is_sink = true;
    min_volume = negsuc 2999;
    max_volume = pos 0;
    limits = (1, record { limit_type = lt_absolute; limit_volume = negsuc 99 }) ∷ [];
  };
  connections = record { map_elements = connection ∷ []; ordered_list = connection ∷ [] };
  class_limits = λ k.
      (1, record { limit_type = lt_absolute; limit_volume = negsuc 2999 })
      ∷ (2, record { limit_type = lt_relative; limit_volume = negsuc 9 })
      ∷ [];
  am_mute = am_mute;
}

get_connection_volumes-strictest_example :
    ((get_connection_volumes elements connection true).target.mute_state ≡ (
      if some_limit (mutes am_mute) (limits_of_connection elements connection)
      then ms_muted
      else ms_unmuted))
    × IsLeast
        (offsets am_mute)
        volume_no_limit
        (limits_of_connection elements connection)
        (get_connection_volumes elements connection true).target.offset
    × IsLeast relative_limit volume_no_limit
        (limits_of_connection elements connection)
        (get_connection_volumes elements connection true).relative
    × ((get_connection_volumes elements connection true).target.volume
        ≡ get_volume connection.list_route_elements)
get_connection_volumes-strictest_example = get_connection_volumes-strictest elements connection true

abbrev loud : VolumeInfo
loud = record { mute_state = ms_unmuted; volume = negsuc 199; offset = pos 0 }

abbrev column : MatrixColumn
column = record { actual = loud; target = loud; ordinal = 0; connections = 7 ∷ [] }

abbrev core : SetVolumeCore
core = record {
  connection_map =
      (
        7,
        record {
          connection = connection;
          actual = loud;
          target = record loud { volume = pos 300; offset = negsuc 99 };
          relative = pos 0;
          adjustable = true;
        },
      )
      ∷ [];
  matrix = (2, column) ∷ [];
}

calculate_element_volumes-IsWithin_example :
    (new : MatrixColumn) × (lookup 2
        (calculate_element_volumes elements sd_mainsink_to_mainsource core).matrix
      ≡ some new)
    × (new.actual ≡ loud)
    × (new.connections ≡ 7 ∷ [])
    × ((new.target ≡ loud)
        ⊎ ((qualifies_for_changes (settled core) column ≡ true)
            × IsWithin (negsuc 2999) (pos 0) new.target.volume
            × IsWithin (negsuc 2999) (pos 0) new.target.offset))
unfolding lookup
calculate_element_volumes-IsWithin_example =
    calculate_element_volumes-IsWithin elements sd_mainsink_to_mainsource core 2 column (refl, tt)
      refl refl

abbrev receive : VolumeReceive
receive = record {
  set_volume = λ sink k v. (record { handle_type = 4; handle = 5 }, pos 0);
  routing_side_volume = λ k v. v;
  am_mute = am_mute;
  e_not_possible = pos 7;
}

abbrev quiet : VolumeInfo
quiet = record { mute_state = ms_muted; volume = negsuc 299; offset = negsuc 9 }

abbrev action : ElementVolume
action = record {
  id = 9;
  element = some amplifier;
  handle = record { handle_type = 0; handle = 0 };
  requested = quiet;
  recent = loud;
}

setup_volume_matrix-IsSetUp_example :
    IsSetUp (7 ∷ []) (
      setup_volume_matrix elements
        (cs_connected ∷ [])
        (record { connection_map = []; matrix = [] }))
setup_volume_matrix-IsSetUp_example =
    setup_volume_matrix-IsSetUp elements (cs_connected ∷ [])
      (record { connection_map = []; matrix = [] }) (((tuner, amplifier, refl, refl), tt), tt)
