-- ===== src/VolumeActions/ElementVolume.antt =====
-- The action that sets the volume of one element on the routing side: CAmActionSetElementVolume of
-- CAmActionSetVolumeCore.cpp. The routing side, the conversion of a volume for it, and the error codes,
-- which headers of the daemon define, are parameters.
pub mod Rollback
use audio_manager_plugins.Base.{
  ℕ, List, [], ◌∷◌, Option, none, some, Bool, true, false, ◌&&◌, not, if◌then◌else◌, ◌≡◌, refl,
  arith,
}
use audio_manager_plugins.Base.Int.{ℤ, pos, negsuc, ◌+ℤ◌, int16}
use audio_manager_plugins.Action.{ActionState, completed, undo_complete, is_zero, is_negative}
use audio_manager_plugins.ControlSender.{MuteState}
use audio_manager_plugins.HandleStore.{Handle, MapHandles, save_handle, clear_handle}
use audio_manager_plugins.MainConnection.{RoutePoint}
use audio_manager_plugins.MainConnection.Route.{is_muted}
use audio_manager_plugins.VolumeActions.{
  PointData, VolumeInfo, null_volume_info, same_volume_info, min_volume_of, max_volume_of,
}

-- IAmControlReceive as far as the action uses it.
pub record VolumeReceive : Type 0 where
  -- setSinkVolume and setSourceVolume: the handle and the result.
  pub set_volume : Bool → ℕ → ℤ → Handle × ℤ
  pub routing_side_volume : ℕ → ℤ → ℤ  -- getRoutingSideVolume
  pub am_mute : ℤ
  pub e_not_possible : ℤ

abbrev pub e_ok : ℤ
e_ok = pos 0

abbrev pub e_wait_for_child_completion : ℤ
e_wait_for_child_completion = negsuc 0

-- The action; the observer in the handle store is the action's own pointer.
pub record ElementVolume : Type 0 where
  pub id : ℕ
  pub element : Option RoutePoint
  pub handle : Handle
  pub requested : VolumeInfo
  pub recent : VolumeInfo

abbrev pub volumes_of : RoutePoint → VolumeInfo
volumes_of e = record { mute_state = e.mute_state; volume = e.volume; offset = e.offset_volume }

-- setMuteState, setVolume and setOffsetVolume
abbrev pub with_volumes : VolumeInfo → RoutePoint → RoutePoint
with_volumes v e = record e {
  mute_state = v.mute_state;
  volume = v.volume;
  offset_volume = v.offset;
}

-- What a call of _execute, _undo or _update leaves.
pub record Outcome : Type 0 where
  pub action : ElementVolume
  pub handles : MapHandles ℕ
  pub sent : Option ℤ  -- the volume before its conversion for the routing side
  pub result : ℤ

module _ (r : VolumeReceive) where
  -- The volume that a request sends to an element.
  unfoldable pub sent_volume : PointData → VolumeInfo → ℤ
  sent_volume d v =
      if is_muted v.mute_state
      then r.am_mute
      else min_volume_of d.max_volume (max_volume_of (int16 (v.volume +ℤ v.offset)) d.min_volume)

  -- _setRoutingSideVolume, with the control interface that the element has or has not.
  unfoldable pub set_routing_side_volume :
      Bool → PointData → RoutePoint → VolumeInfo → ElementVolume → MapHandles ℕ → Outcome
  unfolding sent_volume
  set_routing_side_volume false d e v a m = record {
    action = a;
    handles = m;
    sent = none;
    result = r.e_not_possible;
  }
  set_routing_side_volume true d e v a m =
      let sent = sent_volume d v in
      let (h, result) = r.set_volume d.is_sink e.id (r.routing_side_volume e.id sent) in
      if is_zero result
      then record {
        action = record a { handle = h };
        handles = save_handle h (some a.id) m;
        sent = some sent;
        result = e_wait_for_child_completion;
      }
      else record {
        action = record a { handle = h };
        handles = m;
        sent = some sent;
        result = result;
      }

  abbrev pub idle_outcome : ElementVolume → MapHandles ℕ → Outcome
  idle_outcome a m = record { action = a; handles = m; sent = none; result = e_ok }

  unfoldable pub execute : Bool → (ℕ → PointData) → ElementVolume → MapHandles ℕ → Outcome
  unfolding set_routing_side_volume
  execute receiver points a m = elim a.element [
    | none ↦ idle_outcome a m
    | some e ↦
        let a' = record a { recent = volumes_of e } in
        if not e.volume_support
        then idle_outcome a m
        else if same_volume_info (volumes_of e) a.requested
        then idle_outcome a' m
        else set_routing_side_volume receiver (points e.id) e a.requested a' m
  ]

  -- The log line at its start reads the element, so that a null pointer has no outcome.
  unfoldable pub undo : Bool → (ℕ → PointData) → ElementVolume → MapHandles ℕ → Option Outcome
  unfolding set_routing_side_volume
  undo receiver points a m = elim a.element [
    | none ↦ none
    | some e ↦ some (set_routing_side_volume receiver (points e.id) e a.recent a m)
  ]

abbrev pub is_completed : ActionState → Bool
is_completed completed = true
is_completed _ = false

abbrev pub is_undo_complete : ActionState → Bool
is_undo_complete undo_complete = true
is_undo_complete _ = false

-- _update: what the element takes over from the acknowledged request.
unfoldable pub updated_element : ℤ → ActionState → ElementVolume → RoutePoint → RoutePoint
updated_element result status a e =
    if not e.volume_support
    then e
    else if is_zero result && is_completed status
    then with_volumes a.requested e
    else if is_undo_complete status
    then with_volumes a.recent e
    else e

unfoldable pub update : ℤ → ActionState → ElementVolume → MapHandles ℕ → Outcome
unfolding updated_element
update result status a m = record {
  action = record a {
    element = elim a.element [ none ↦ none | some e ↦ some (updated_element result status a e) ];
  };
  handles = clear_handle a.handle m;
  sent = none;
  result = e_ok;
}

-- CAmActionCommand calls _update with the result of a request only while the action waits for it, which
-- _execute or _undo has told by a negative answer; any other answer ends the execution or the undo.
unfoldable pub settle : ℤ → ActionState → Outcome → Outcome
unfolding update
settle result status o = if is_negative o.result then update result status o.action o.handles else o
