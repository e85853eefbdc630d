-- ===== src/ControlSender.antt =====
-- The reference controller: the state of PluginControlInterface/src/CAmControlSenderBase.cpp, with the
-- interface of the audio manager that it calls, a parameter of the model.
pub mod Pending
pub mod Flow
pub mod Hooks
pub mod Events
use audio_manager_plugins.Base.{ℕ, List, [], Bool}
use audio_manager_plugins.Base.Int.{ℤ}
use audio_manager_plugins.HandleStore.{Handle}

-- The codes of am_Error_e that the controller answers with; the audio manager may answer others.
pub data Error : Type 0 where
  e_ok e_not_used e_already_exists e_no_change e_not_possible e_non_existent : Error
  other_error : ℕ → Error

pub data ConnectionState : Type 0 where
  cs_connecting cs_connected : ConnectionState
  other_state : ℕ → ConnectionState

pub data SourceState : Type 0 where
  ss_on ss_off ss_paused : SourceState

pub data RampType : Type 0 where
  ramp_unknown ramp_genivi_direct ramp_genivi_exp_inv : RampType

pub data MuteState : Type 0 where
  ms_muted ms_unmuted ms_unknown : MuteState

-- am_MainConnection_s
pub record MainConnection : Type 0 where
  pub main_connection_id : ℕ
  pub source_id : ℕ
  pub sink_id : ℕ
  pub connection_state : ConnectionState
  pub delay : ℕ
  pub list_connection_id : List ℕ

-- am_RoutingElement_s
pub record RoutingElement : Type 0 where
  pub source_id : ℕ
  pub sink_id : ℕ
  pub connection_format : ℕ

-- am_MainSoundProperty_s, and am_SoundProperty_s as well
pub record SoundProperty : Type 0 where
  pub type : ℕ
  pub value : ℤ

-- A request to the routing side: what it answers, the handle that it wrote, and the world after it.
pub record Asked (W : Type 0) : Type 0 where
  pub error : Error
  pub handle : Handle
  pub world : W

-- IAmControlReceive, as far as this controller uses it, over the world that it reads and changes. An
-- out-parameter of a query is handed over with the value that it had.
pub record ControlReceive (W : Type 0) : Type 0 where
  pub get_route : ℕ → ℕ → W → List (List RoutingElement)
  pub get_list_main_connections : W → List MainConnection
  pub get_source_class : ℕ → ℕ → W → ℕ
  pub get_main_volume : ℕ → ℤ → W → ℤ
  pub get_main_connection_info : ℕ → W → Error × MainConnection
  pub enter_main_connection : MainConnection → W → ℕ × W
  pub change_main_connection_state : ℕ → ConnectionState → W → W
  pub change_main_connection_route : ℕ → List ℕ → W → W
  pub remove_main_connection : ℕ → W → W
  pub change_sink_main_volume : ℤ → ℕ → W → W
  pub change_main_sink_sound_property : SoundProperty → ℕ → W → W
  pub change_sink_mute_state : MuteState → ℕ → W → W
  pub connect : RoutingElement → W → ℕ × Asked W
  pub disconnect : ℕ → W → Asked W
  pub set_sink_volume : ℕ → ℤ → RampType → ℕ → W → Asked W
  pub set_source_volume : ℕ → ℤ → RampType → ℕ → W → Asked W
  pub set_source_state : ℕ → SourceState → W → Asked W
  pub set_sink_sound_property : ℕ → SoundProperty → W → Asked W
  -- What the fields of a fresh am_SourceClass_s and am_Sink_s hold.
  pub fresh_source_class : ℕ
  pub fresh_main_volume : ℤ

-- handleStatus
pub record HandleStatus : Type 0 where
  pub status : Bool
  pub handle : Handle

pub record MainConnectionSet : Type 0 where
  pub connection_id : ℕ
  pub list_handle_status : List HandleStatus

pub record MainVolumeSet : Type 0 where
  pub sink_id : ℕ
  pub handle : Handle
  pub main_volume : ℤ

pub record MainSinkSoundPropertySet : Type 0 where
  pub sink_id : ℕ
  pub handle : Handle
  pub main_sound_property : SoundProperty

-- cs_stateflow_e
pub data Stateflow : Type 0 where
  sf_none sf_connect sf_navi sf_ta : Stateflow

-- cs_connectSf_e
pub data ConnectSf : Type 0 where
  sfc_ramp_down sfc_source_state_off sfc_disconnect sfc_connect sfc_source_state_on : ConnectSf
  sfc_ramp_up sfc_finished : ConnectSf

-- cs_naviSf_e
pub data NaviSf : Type 0 where
  navc_ramp_down navc_connect navc_source_state_on navc_ramp_up navc_wait_state : NaviSf
  navc_ramp_down_again navc_source_volume_back navc_source_activity_back : NaviSf
  navc_disconnect navc_finished : NaviSf

-- cs_trafficSf_e
pub data TrafficSf : Type 0 where
  ta_ramp_down ta_connect ta_source_state_on ta_ramp_up ta_wait_state : TrafficSf
  ta_ramp_down_again ta_source_state_off ta_source_state_old_off ta_disconnect : TrafficSf
  ta_finished : TrafficSf

-- cs_connectData_s
pub record ConnectData : Type 0 where
  pub current_main_connection : ℕ
  pub new_main_connection : ℕ
  pub old_source_id : ℕ
  pub sink_id : ℕ
  pub source_id : ℕ

pub record ControlSender : Type 0 where
  pub list_open_connections : List MainConnectionSet
  pub list_open_disconnections : List MainConnectionSet
  pub list_open_volume_changes : List MainVolumeSet
  pub list_main_sound_property_changes : List MainSinkSoundPropertySet
  pub connect_sf : ConnectSf
  pub navi_sf : NaviSf
  pub traffic_sf : TrafficSf
  pub connect_data : ConnectData
  pub stateflow : Stateflow

-- The constructor; mConnectData() is all zero.
abbrev pub new_control_sender : ControlSender
new_control_sender = record {
  list_open_connections = [];
  list_open_disconnections = [];
  list_open_volume_changes = [];
  list_main_sound_property_changes = [];
  connect_sf = sfc_ramp_down;
  navi_sf = navc_ramp_down;
  traffic_sf = ta_ramp_down;
  connect_data = record {
    current_main_connection = 0;
    new_main_connection = 0;
    old_source_id = 0;
    sink_id = 0;
    source_id = 0;
  };
  stateflow = sf_none;
}

-- The controller with the world around it.
pub record Sys (W : Type 0) : Type 0 where
  pub sender : ControlSender
  pub world : W
