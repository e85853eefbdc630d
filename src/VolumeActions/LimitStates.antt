-- ===== src/VolumeActions/LimitStates.antt =====
-- What the mute and the limit action store in the limitable elements, and how they take it back:
-- _updateLimitState and _undo of CAmActionMute.cpp, _applyLimit and _undo of CAmActionLimit.cpp.
pub mod Undo
pub mod Release
use audio_manager_plugins.Base.{ℕ, List, [], ◌∷◌, Option, none, some, Bool, true, false}
use audio_manager_plugins.Base.Int.{ℤ, pos}
use audio_manager_plugins.Base.Maps.{lookup, insert}
use audio_manager_plugins.ControlSender.{MuteState, ms_muted}
use audio_manager_plugins.Element.Limits.{
  Limits, LimitState, ls_limited, ls_unlimited, LimitVolume, lt_absolute, lt_relative, lt_unknown,
  volume_no_limit, default_limit_pattern, get_limit, set_limit_state,
}

-- gc_LimitUndo: the element is a pointer.
pub record UndoItem : Type 0 where
  pub element : ℕ
  pub state : LimitState
  pub limit : LimitVolume

-- The limits of the elements by their pointers, and mUndoList.
pub record Limiting : Type 0 where
  pub elements : List (ℕ × Limits)
  pub undo_list : List UndoItem

unfoldable pub limits_of : ℕ → List (ℕ × Limits) → Limits
limits_of e s = elim (lookup e s) [ none ↦ [] | some m ↦ m ]

-- `pElement->setLimitState(state, limit, pattern)`
unfoldable pub put_limit : ℕ → LimitState → LimitVolume → ℕ → List (ℕ × Limits) → List (ℕ × Limits)
unfolding limits_of
put_limit e state limit pattern s = insert e (set_limit_state state limit pattern (limits_of e s)) s

-- `mUndoList.push_front({pElement, pElement->getLimit(pattern, prev), prev})`, then setLimitState.
unfoldable pub change_limit : ℕ → LimitState → LimitVolume → ℕ → Limiting → Limiting
unfolding limits_of put_limit
change_limit e state limit pattern r =
    let before = get_limit pattern (limits_of e r.elements) in
    record {
      elements = put_limit e state limit pattern r.elements;
      undo_list = record { element = e; state = before.0; limit = before.1 } ∷ r.undo_list;
    }

-- The undo list from its front, each entry under the pattern.
unfoldable pub restore : ℕ → List UndoItem → List (ℕ × Limits) → List (ℕ × Limits)
unfolding put_limit
restore pattern [] s = s
restore pattern (u ∷ us) s = restore pattern us (put_limit u.element u.state u.limit pattern s)

-- CAmActionMute::_updateLimitState
unfoldable pub update_limit_state : ℤ → ℕ → MuteState → Option ℕ → Limiting → Limiting
unfolding change_limit
update_limit_state am_mute pattern requested none r = r
update_limit_state am_mute pattern ms_muted (some e) r =
    change_limit e ls_limited (record { limit_type = lt_absolute; limit_volume = am_mute }) pattern
      r
update_limit_state am_mute pattern _ (some e) r =
    change_limit e ls_unlimited
      (record { limit_type = lt_absolute; limit_volume = volume_no_limit }) pattern r

-- _prepareBalancedRequest: the class elements that the request is for, one after the other.
unfoldable pub update_limit_states : ℤ → ℕ → MuteState → List (Option ℕ) → Limiting → Limiting
unfolding update_limit_state
update_limit_states am_mute pattern requested [] r = r
update_limit_states am_mute pattern requested (e ∷ es) r =
    update_limit_states am_mute pattern requested es
      (update_limit_state am_mute pattern requested e r)

-- CAmActionMute::_undo; the pattern is the parameter, or the default pattern.
unfoldable pub undo_mute : ℕ → Limiting → Limiting
unfolding restore
undo_mute pattern r = record { elements = restore pattern r.undo_list r.elements; undo_list = [] }

-- The limit that the parameters for the volume and the volume step ask for.
abbrev pub requested_limit : Option ℤ → Option ℤ → LimitVolume
requested_limit (some volume) step = record { limit_type = lt_absolute; limit_volume = volume }
requested_limit none (some step) = record { limit_type = lt_relative; limit_volume = step }
requested_limit none none = record { limit_type = lt_unknown; limit_volume = pos 0 }

-- The class element, else the source, else the sink.
abbrev pub first_of : Option ℕ → Option ℕ → Option ℕ → Option ℕ
first_of (some e) source sink = some e
first_of none (some e) sink = some e
first_of none none sink = sink

-- The part of CAmActionLimit::_applyLimit that changes an element; `none` is a parameter not set.
unfoldable pub apply_limit :
    Option LimitState → Option ℤ → Option ℤ → ℕ → Option ℕ → Limiting → Limiting
unfolding change_limit
apply_limit (some ls_limited) volume step pattern (some e) r =
    change_limit e ls_limited (requested_limit volume step) pattern r
apply_limit (some ls_unlimited) volume step pattern (some e) r =
    change_limit e ls_unlimited (record { limit_type = lt_unknown; limit_volume = pos 0 }) pattern r
apply_limit _ volume step pattern e r = r

-- CAmActionLimit::_undo: setLimitState is called without a pattern.
unfoldable pub undo_limit : Limiting → Limiting
unfolding restore
undo_limit r = record {
  elements = restore default_limit_pattern r.undo_list r.elements;
  undo_list = [];
}
