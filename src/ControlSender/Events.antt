-- ===== src/ControlSender/Events.antt =====
-- The acknowledgements that drive CAmControlSenderBase.cpp, and its requests and acknowledgements as
-- the events of one step function.
pub mod Acks
pub mod Volumes
pub mod Spent
pub mod Navi
use audio_manager_plugins.Base.{
  ℕ, List, [], ◌∷◌, Option, none, some, Bool, true, false, ◌==◌, if◌then◌else◌,
}
use audio_manager_plugins.Base.Int.{ℤ}
use audio_manager_plugins.HandleStore.{Handle}
use audio_manager_plugins.ControlSender.{
  cs_connected, SoundProperty, MuteState, ControlReceive, MainVolumeSet, MainSinkSoundPropertySet,
  ControlSender, Sys,
}
use audio_manager_plugins.ControlSender.Pending.{Acked, ack_sets}
use audio_manager_plugins.ControlSender.Flow.{call_state_flow_handler}
use audio_manager_plugins.ControlSender.Hooks.{
  Answer, ConnectAnswer, hook_user_connection_request, hook_user_disconnection_request,
}
use audio_manager_plugins.ControlSender.Hooks.Volumes.{
  hook_user_set_main_sink_sound_property, hook_user_volume_change, hook_user_volume_step,
  hook_user_set_sink_mute_state,
}

-- The first volume change with the handle's number, which is erased.
unfoldable pub take_volume :
    Handle → List MainVolumeSet → Option (MainVolumeSet × List MainVolumeSet)
take_volume h [] = none
take_volume h (x ∷ xs) =
    let rest = take_volume h xs in
    if h.handle == x.handle.handle
    then some (x, xs)
    else elim rest [ none ↦ none | some found ↦ some (found.0, x ∷ found.1) ]

unfoldable pub take_sound_property :
    Handle
    → List MainSinkSoundPropertySet
    → Option (MainSinkSoundPropertySet × List MainSinkSoundPropertySet)
take_sound_property h [] = none
take_sound_property h (x ∷ xs) =
    let rest = take_sound_property h xs in
    if h.handle == x.handle.handle
    then some (x, xs)
    else elim rest [ none ↦ none | some found ↦ some (found.0, x ∷ found.1) ]

module _ {W : Type 0} (rec : ControlReceive W) where
  abbrev pub if_done : (ℕ → W → W) → Option ℕ → W → W
  if_done f none w = w
  if_done f (some id) w = f id w

  -- cbAckConnect up to its call of the flow.
  unfoldable pub settle_connection : Handle → Sys W → Sys W
  settle_connection h s =
      let a = ack_sets h s.sender.list_open_connections in
      record {
        sender = record s.sender { list_open_connections = a.sets };
        world = if_done (λ id w. rec.change_main_connection_state id cs_connected w) a.done s.world;
      }

  unfoldable pub cb_ack_connect : Handle → Sys W → Option (Sys W)
  unfolding settle_connection
  cb_ack_connect h s = call_state_flow_handler rec (settle_connection h s)

  -- cbAckDisconnect up to its call of the flow.
  unfoldable pub settle_disconnection : Handle → Sys W → Sys W
  settle_disconnection h s =
      let a = ack_sets h s.sender.list_open_disconnections in
      record {
        sender = record s.sender { list_open_disconnections = a.sets };
        world = if_done (λ id w. rec.remove_main_connection id w) a.done s.world;
      }

  unfoldable pub cb_ack_disconnect : Handle → Sys W → Option (Sys W)
  unfolding settle_disconnection
  cb_ack_disconnect h s = call_state_flow_handler rec (settle_disconnection h s)

  -- cbAckSetSinkVolumeChange up to its call of the flow.
  unfoldable pub settle_volume : Handle → Sys W → Sys W
  unfolding take_volume
  settle_volume h s = elim (take_volume h s.sender.list_open_volume_changes) [
    | none ↦ s
    | some found ↦ record {
      sender = record s.sender { list_open_volume_changes = found.1 };
      world = rec.change_sink_main_volume found.0.main_volume found.0.sink_id s.world;
    }
  ]

  unfoldable pub cb_ack_set_sink_volume_change : Handle → Sys W → Option (Sys W)
  unfolding settle_volume
  cb_ack_set_sink_volume_change h s = call_state_flow_handler rec (settle_volume h s)

  -- cbAckSetSourceVolumeChange and cbAckSetSourceState do no more.
  unfoldable pub cb_ack_set_source_volume_change : Sys W → Option (Sys W)
  cb_ack_set_source_volume_change s = call_state_flow_handler rec s

  unfoldable pub cb_ack_set_source_state : Sys W → Option (Sys W)
  cb_ack_set_source_state s = call_state_flow_handler rec s

  unfoldable pub cb_ack_set_sink_sound_property : Handle → Sys W → Sys W
  unfolding take_sound_property
  cb_ack_set_sink_sound_property h s =
      elim (take_sound_property h s.sender.list_main_sound_property_changes) [
        | none ↦ s
        | some found ↦ record {
          sender = record s.sender { list_main_sound_property_changes = found.1 };
          world =
              rec.change_main_sink_sound_property found.0.main_sound_property found.0.sink_id
                s.world;
        }
      ]

-- The acknowledgements that move a flow on.
pub data Ack : Type 0 where
  ack_connect ack_disconnect ack_sink_volume : Handle → Ack
  ack_source_volume ack_source_state : Ack

pub data Event : Type 0 where
  acknowledged : Ack → Event
  ack_sound_property : Handle → Event
  user_connects : ℕ → ℕ → Event
  user_disconnects : ℕ → Event
  user_sets_sound_property : ℕ → SoundProperty → Event
  user_sets_volume : ℕ → ℤ → Event
  user_steps_volume : ℕ → ℤ → Event
  user_mutes : ℕ → MuteState → Event

module _ {W : Type 0} where
  abbrev pub answered : Option (Answer W) → Option (Sys W)
  answered none = none
  answered (some a) = some a.sys

  abbrev pub connect_answered : Option (ConnectAnswer W) → Option (Sys W)
  connect_answered none = none
  connect_answered (some a) = some a.sys

module _ {W : Type 0} (rec : ControlReceive W) where
  unfoldable pub acknowledge : Ack → Sys W → Option (Sys W)
  unfolding cb_ack_connect cb_ack_disconnect cb_ack_set_sink_volume_change
      cb_ack_set_source_volume_change cb_ack_set_source_state
  acknowledge (ack_connect h) s = cb_ack_connect rec h s
  acknowledge (ack_disconnect h) s = cb_ack_disconnect rec h s
  acknowledge (ack_sink_volume h) s = cb_ack_set_sink_volume_change rec h s
  acknowledge ack_source_volume s = cb_ack_set_source_volume_change rec s
  acknowledge ack_source_state s = cb_ack_set_source_state rec s

  unfoldable pub step : Event → Sys W → Option (Sys W)
  unfolding acknowledge
  step (acknowledged a) s = acknowledge a s
  step (ack_sound_property h) s = some (cb_ack_set_sink_sound_property rec h s)
  step (user_connects source sink) s =
      connect_answered (hook_user_connection_request rec source sink 0 s)
  step (user_disconnects id) s = answered (hook_user_disconnection_request rec id s)
  step (user_sets_sound_property sink p) s =
      answered (hook_user_set_main_sink_sound_property rec sink p s)
  step (user_sets_volume sink v) s = answered (hook_user_volume_change rec sink v s)
  step (user_steps_volume sink i) s = answered (hook_user_volume_step rec sink i s)
  step (user_mutes sink m) s = answered (hook_user_set_sink_mute_state rec sink m s)

  abbrev pub and_then : (Sys W → Option (Sys W)) → Option (Sys W) → Option (Sys W)
  and_then f none = none
  and_then f (some s) = f s

  unfoldable pub run_events : List Event → Sys W → Option (Sys W)
  unfolding step
  run_events [] s = some s
  run_events (e ∷ es) s = and_then (run_events es) (step e s)
