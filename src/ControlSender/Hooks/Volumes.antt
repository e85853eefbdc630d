-- ===== src/ControlSender/Hooks/Volumes.antt =====
-- The user's requests to CAmControlSenderBase.cpp for volumes, mute states and sound properties.
use audio_manager_plugins.Base.{
  ℕ, List, [], ◌∷◌, ◌++◌, Option, none, some, Bool, false, ◌==◌, ◌||◌, not, if◌then◌else◌,
}
use audio_manager_plugins.Base.Int.{ℤ, pos, negsuc, ◌+ℤ◌, ◌*ℤ◌, int16, is_same}
use audio_manager_plugins.ControlSender.{
  e_ok, e_no_change, e_not_possible, e_non_existent, SoundProperty, MuteState, ms_muted, RampType,
  ramp_unknown, ramp_genivi_direct, ControlReceive, MainVolumeSet, MainSinkSoundPropertySet, Sys,
}
use audio_manager_plugins.ControlSender.Pending.{is_ok}
use audio_manager_plugins.ControlSender.Flow.{volume_of}
use audio_manager_plugins.ControlSender.Hooks.{Answer, answer, is_idle}

-- The searches of the requests that are under way for the sink.
unfoldable pub has_sound_property_change : ℕ → List MainSinkSoundPropertySet → Bool
has_sound_property_change sink [] = false
has_sound_property_change sink (x ∷ xs) =
    let rest = has_sound_property_change sink xs in x.sink_id == sink || rest

unfoldable pub has_volume_change : ℕ → List MainVolumeSet → Bool
has_volume_change sink [] = false
has_volume_change sink (x ∷ xs) = let rest = has_volume_change sink xs in x.sink_id == sink || rest

module _ {W : Type 0} (rec : ControlReceive W) where
  unfoldable pub hook_user_set_main_sink_sound_property :
      ℕ → SoundProperty → Sys W → Option (Answer W)
  unfolding has_sound_property_change
  hook_user_set_main_sink_sound_property sink property s =
      let asked =
        rec.set_sink_sound_property sink
          (record property { value = int16 ((property.value +ℤ negsuc 4) *ℤ pos 30) }) s.world in
      let asked_sys = record s { world = asked.world } in
      if not (is_idle s.sender.stateflow)
      then answer e_not_possible s
      else if sink == 0
      then answer e_non_existent s
      else if has_sound_property_change sink s.sender.list_main_sound_property_changes
      then answer e_not_possible s
      else if is_ok asked.error
      then answer e_ok (record asked_sys {
        sender = record s.sender {
          list_main_sound_property_changes =
              s.sender.list_main_sound_property_changes
              ++ record { sink_id = sink; handle = asked.handle; main_sound_property = property }
                ∷ [];
        };
      })
      else answer asked.error asked_sys

  -- The request to the routing side, whose handle is kept together with the main volume.
  unfoldable pub ask_volume : ℕ → ℤ → ℤ → RampType → Sys W → Answer W
  ask_volume sink main_volume volume ramp s =
      let asked = rec.set_sink_volume sink volume ramp 20 s.world in
      let asked_sys = record s { world = asked.world } in
      if is_ok asked.error
      then record {
        error = e_ok;
        sys = record asked_sys {
          sender = record s.sender {
            list_open_volume_changes =
                s.sender.list_open_volume_changes
                ++ record { sink_id = sink; handle = asked.handle; main_volume = main_volume } ∷ [];
          };
        };
      }
      else record { error = asked.error; sys = asked_sys }

  abbrev pub main_volume_of : ℕ → Sys W → ℤ
  main_volume_of sink s = rec.get_main_volume sink rec.fresh_main_volume s.world

  unfoldable pub hook_user_volume_change : ℕ → ℤ → Sys W → Option (Answer W)
  unfolding has_volume_change ask_volume
  hook_user_volume_change sink new_volume s =
      if not (is_idle s.sender.stateflow)
      then answer e_not_possible s
      else if sink == 0
      then none
      else if has_volume_change sink s.sender.list_open_volume_changes
      then answer e_not_possible s
      else if is_same (main_volume_of sink s) new_volume
      then answer e_no_change s
      else some (ask_volume sink new_volume (volume_of (pos 6) (pos 0) new_volume) ramp_unknown s)

  unfoldable pub hook_user_volume_step : ℕ → ℤ → Sys W → Option (Answer W)
  unfolding has_volume_change ask_volume
  hook_user_volume_step sink increment s =
      let new_volume = int16 (main_volume_of sink s +ℤ increment) in
      if not (is_idle s.sender.stateflow)
      then answer e_not_possible s
      else if sink == 0
      then none
      else if has_volume_change sink s.sender.list_open_volume_changes
      then answer e_not_possible s
      else some (ask_volume sink new_volume (volume_of (pos 6) (pos 0) new_volume) ramp_unknown s)

  -- The volume that belongs to a mute state, for a sink whose main volume is stored as given.
  abbrev pub volume_for : MuteState → ℤ → ℤ
  volume_for ms_muted main_volume = pos 0
  volume_for _ main_volume = main_volume

  -- The mute state is stored once the request has been accepted.
  abbrev pub store_mute_state : MuteState → ℕ → Answer W → Answer W
  store_mute_state mute sink a =
      if is_ok a.error
      then record a {
        sys = record a.sys { world = rec.change_sink_mute_state mute sink a.sys.world };
      }
      else a

  unfoldable pub hook_user_set_sink_mute_state : ℕ → MuteState → Sys W → Option (Answer W)
  unfolding ask_volume
  hook_user_set_sink_mute_state sink mute s =
      let main_volume = main_volume_of sink s in
      if not (is_idle s.sender.stateflow)
      then answer e_not_possible s
      else if sink == 0
      then none
      else some (
          store_mute_state mute sink
            (ask_volume sink main_volume (volume_for mute main_volume) ramp_genivi_direct s))
