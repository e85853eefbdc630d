-- ===== src/Examples/Control.antt =====
-- The reference controller at concrete inputs, over an audio manager that numbers its requests.
use audio_manager_plugins.Base.{
  ℕ, suc, List, [], ◌∷◌, some, true, false, ◌≡◌, inl, refl, arith, ◌==◌, if◌then◌else◌,
}
use audio_manager_plugins.Base.Int.{pos}
use audio_manager_plugins.HandleStore.{Handle}
use audio_manager_plugins.ControlSender.{
  e_ok, Asked, ControlReceive, MainConnectionSet, sf_none, sf_navi, navc_finished,
  new_control_sender, Sys,
}
use audio_manager_plugins.ControlSender.Flow.{call_state_flow_handler}
use audio_manager_plugins.ControlSender.Flow.Spent.{IsSpent}
use audio_manager_plugins.ControlSender.Hooks.{
  scan, Answer, ConnectAnswer, new_connection, hook_user_connection_request,
}
use audio_manager_plugins.ControlSender.Hooks.Volumes.{has_volume_change, hook_user_volume_change}
use audio_manager_plugins.ControlSender.Events.{
  Ack, ack_source_volume, ack_source_state, acknowledged, run_events, step, acknowledge,
  cb_ack_set_source_state, take_volume, cb_ack_set_sink_volume_change,
}
use audio_manager_plugins.ControlSender.Events.Acks.{run_acks, run_acks-ends}
use audio_manager_plugins.ControlSender.Events.Spent.{run_events-IsSpent}
use audio_manager_plugins.ControlSender.Events.Navi.{navi_request-connects_nothing}
use audio_manager_plugins.ControlSender.Events.Volumes.{hook_user_volume_change-ack}

abbrev numbered : ℕ → Handle
numbered n = record { handle_type = 1; handle = n }

abbrev granted : ℕ → Asked ℕ
granted n = record { error = e_ok; handle = numbered n; world = suc n }

-- Source 5 is of the navi class, any other of the player class, and every pair has a route of one
-- segment.
abbrev class_of : ℕ → ℕ
class_of n = if n == 5 then 2 else 1

abbrev manager : ControlReceive ℕ
manager = record {
  get_route = λ source sink n.
      (record { source_id = source; sink_id = sink; connection_format = 0 } ∷ []) ∷ [];
  get_list_main_connections = λ n. [];
  get_source_class = λ source class n. class_of source;
  get_main_volume = λ sink volume n. pos 7;
  get_main_connection_info =
      λ id n. (e_ok, record (new_connection 1 1) { main_connection_id = id });
  enter_main_connection = λ connection n. (n, suc n);
  change_main_connection_state = λ id state n. n;
  change_main_connection_route = λ id ids n. n;
  remove_main_connection = λ id n. n;
  change_sink_main_volume = λ volume sink n. n;
  change_main_sink_sound_property = λ property sink n. n;
  change_sink_mute_state = λ mute sink n. n;
  connect = λ segment n. (n, granted n);
  disconnect = λ id n. granted n;
  set_sink_volume = λ sink volume ramp time n. granted n;
  set_source_volume = λ source volume ramp time n. granted n;
  set_source_state = λ source state n. granted n;
  set_sink_sound_property = λ sink property n. granted n;
  fresh_source_class = 0;
  fresh_main_volume = pos 0;
}

abbrev at_start : Sys ℕ
at_start = record { sender = new_control_sender; world = 0 }

-- In the navi flow before its first step, and after its last one.
abbrev navigating : Sys ℕ
navigating = record at_start { sender = record new_control_sender { stateflow = sf_navi } }

abbrev ten_acks : List Ack
ten_acks =
    ack_source_volume ∷ ack_source_state ∷ ack_source_state ∷ ack_source_state ∷ ack_source_volume
    ∷ ack_source_volume ∷ ack_source_volume ∷ ack_source_state ∷ ack_source_state ∷ ack_source_state
    ∷ []

run_acks-ends_example :
    (t : Sys ℕ) × (run_acks manager ten_acks navigating ≡ some t) × (t.sender.stateflow ≡ sf_none)
run_acks-ends_example = run_acks-ends manager ten_acks navigating (λ w. refl) (omega arith)

abbrev spent : Sys ℕ
spent = record at_start { sender = record new_control_sender { navi_sf = navc_finished } }

navi_request-connects_nothing_example :
    (a : ConnectAnswer ℕ) × (hook_user_connection_request manager 5 2 0 spent ≡ some a)
    × (a.error ≡ e_ok)
    × (a.sys.world ≡ 1)
    × (a.sys.sender.stateflow ≡ sf_none)
    × (a.sys.sender.list_open_connections ≡ [])
unfolding scan
navi_request-connects_nothing_example =
    navi_request-connects_nothing manager 5 2 0 spent (inl refl) refl refl refl refl

run_events-IsSpent_example : IsSpent spent.sender
unfolding run_events step acknowledge cb_ack_set_source_state call_state_flow_handler
run_events-IsSpent_example =
    run_events-IsSpent manager (acknowledged ack_source_state ∷ []) spent spent refl (inl refl)

hook_user_volume_change-ack_example :
    (a : Answer ℕ) × (hook_user_volume_change manager 2 (pos 9) at_start ≡ some a)
    × (a.error ≡ e_ok)
    × (has_volume_change 2 a.sys.sender.list_open_volume_changes ≡ true)
    × (cb_ack_set_sink_volume_change manager (numbered 0) a.sys
        ≡ some (record at_start { world = 1 }))
unfolding has_volume_change take_volume
hook_user_volume_change-ack_example =
    hook_user_volume_change-ack manager 2 (pos 9) at_start refl (λ e. omega arith) refl refl refl
      refl

abbrev two_sets : List MainConnectionSet
two_sets =
    record {
      connection_id = 1;
      list_handle_status = record { status = false; handle = numbered 3 } ∷ [];
    }
    ∷ record {
      connection_id = 2;
      list_handle_status = record { status = false; handle = numbered 4 } ∷ [];
    }
    ∷ []
