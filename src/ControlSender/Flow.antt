-- ===== src/ControlSender/Flow.antt =====
-- The state flows of CAmControlSenderBase.cpp: what each call of callStateFlowHandler asks of the
-- routing side, and the step that the flow takes.
pub mod Remaining
pub mod Spent
use audio_manager_plugins.Base.{
  ℕ, ◌-◌, List, [], ◌∷◌, Option, none, some, Bool, true, false, if◌then◌else◌,
}
use audio_manager_plugins.Base.Int.{ℤ, pos, negsuc, ◌+ℤ◌, ◌*ℤ◌, int16}
use audio_manager_plugins.ControlSender.{
  Error, e_no_change, SourceState, ss_on, ss_off, ss_paused, RampType, ramp_unknown,
  ramp_genivi_exp_inv, Asked, ControlReceive, Stateflow, sf_none, sf_connect, sf_navi, sf_ta,
  ConnectSf, sfc_ramp_down, sfc_source_state_off, sfc_disconnect, sfc_connect, sfc_source_state_on,
  sfc_ramp_up, sfc_finished, NaviSf, navc_ramp_down, navc_connect, navc_source_state_on,
  navc_ramp_up, navc_wait_state, navc_ramp_down_again, navc_source_volume_back,
  navc_source_activity_back, navc_disconnect, navc_finished, TrafficSf, ta_ramp_down, ta_connect,
  ta_source_state_on, ta_ramp_up, ta_wait_state, ta_ramp_down_again, ta_source_state_off,
  ta_source_state_old_off, ta_disconnect, ta_finished, ConnectData, ControlSender, Sys,
}
use audio_manager_plugins.ControlSender.Pending.{connect, disconnect}

-- (mainVolume - 10) * scale + offset, handed over as an int16_t.
abbrev pub volume_of : ℤ → ℤ → ℤ → ℤ
volume_of scale offset main_volume = int16 ((main_volume +ℤ negsuc 9) *ℤ scale +ℤ offset)

abbrev pub is_no_change : Error → Bool
is_no_change e_no_change = true
is_no_change _ = false

module _ {W : Type 0} where
  abbrev pub to_connect : ConnectSf → Sys W → Sys W
  to_connect next s = record s { sender = record s.sender { connect_sf = next } }

  abbrev pub to_navi : NaviSf → Sys W → Sys W
  to_navi next s = record s { sender = record s.sender { navi_sf = next } }

  abbrev pub to_traffic : TrafficSf → Sys W → Sys W
  to_traffic next s = record s { sender = record s.sender { traffic_sf = next } }

  abbrev pub end_flow : Sys W → Sys W
  end_flow s = record s { sender = record s.sender { stateflow = sf_none } }

  abbrev pub then_to : (Sys W → Sys W) → Option (Sys W) → Option (Sys W)
  then_to next none = none
  then_to next (some s) = some (next s)

module _ {W : Type 0} (rec : ControlReceive W) where
  -- The new connection of mConnectData, over the route that there is now.
  abbrev pub connect_new : Sys W → Option (Sys W)
  connect_new s =
      let d = s.sender.connect_data in connect rec d.source_id d.sink_id d.new_main_connection s

  abbrev pub source_state : ℕ → SourceState → Sys W → Sys W
  source_state source state s = record s {
    world = (rec.set_source_state source state s.world).world;
  }

  abbrev pub sink_volume : ℤ → RampType → ℕ → Sys W → Asked W
  sink_volume volume ramp time s =
      rec.set_sink_volume s.sender.connect_data.sink_id volume ramp time s.world

  abbrev pub source_volume : ℤ → Sys W → Sys W
  source_volume volume s = record s {
    world =
        (rec.set_source_volume s.sender.connect_data.old_source_id volume ramp_unknown 2000
          s.world).world;
  }

  -- The main volume of the sink, as getSinkInfoDB answers it for a fresh am_Sink_s.
  abbrev pub stored_volume : Sys W → ℤ
  stored_volume s = rec.get_main_volume s.sender.connect_data.sink_id rec.fresh_main_volume s.world

  -- SFC_RAMP_UP: a volume that needs no change ends the flow at once.
  unfoldable pub ramp_up : Sys W → Sys W
  ramp_up s =
      let a =
        sink_volume (volume_of (pos 6) (pos 0) (stored_volume s)) ramp_genivi_exp_inv 4000 s in
      let s' = to_connect sfc_finished (record s { world = a.world }) in
      if is_no_change a.error then end_flow s' else s'

  unfoldable pub connect_step : ConnectSf → Sys W → Option (Sys W)
  unfolding ramp_up
  connect_step sfc_ramp_down s = some (
      to_connect sfc_source_state_off
        (record s { world = (sink_volume (negsuc 59) ramp_genivi_exp_inv 4000 s).world }))
  connect_step sfc_source_state_off s =
      some (to_connect sfc_disconnect (source_state s.sender.connect_data.old_source_id ss_off s))
  connect_step sfc_disconnect s =
      some (to_connect sfc_connect (disconnect rec s.sender.connect_data.current_main_connection s))
  connect_step sfc_connect s = then_to (to_connect sfc_source_state_on) (connect_new s)
  connect_step sfc_source_state_on s =
      some (to_connect sfc_ramp_up (source_state s.sender.connect_data.source_id ss_on s))
  connect_step sfc_ramp_up s = some (ramp_up s)
  connect_step sfc_finished s = some (end_flow s)

  unfoldable pub call_connect_handler : Sys W → Option (Sys W)
  unfolding connect_step
  call_connect_handler s = connect_step s.sender.connect_sf s

  -- The volume of the sink in the ramps of the other two flows.
  abbrev pub sink_ramp : ℤ → ℤ → Sys W → Sys W
  sink_ramp offset main_volume s = record s {
    world = (sink_volume (volume_of (pos 60) offset main_volume) ramp_unknown 2000 s).world;
  }

  -- At navc_ramp_down_again the local am_Sink_s has not been filled.
  unfoldable pub navi_step : NaviSf → Sys W → Option (Sys W)
  navi_step navc_ramp_down s = some (to_navi navc_connect (source_volume (negsuc 12) s))
  navi_step navc_connect s = then_to (to_navi navc_source_state_on) (connect_new s)
  navi_step navc_source_state_on s =
      some (to_navi navc_ramp_up (source_state s.sender.connect_data.source_id ss_on s))
  navi_step navc_ramp_up s = some (to_navi navc_wait_state (sink_ramp (pos 2) (stored_volume s) s))
  navi_step navc_wait_state s = some (to_navi navc_ramp_down_again s)
  navi_step navc_ramp_down_again s =
      some (to_navi navc_source_volume_back (sink_ramp (pos 0) rec.fresh_main_volume s))
  navi_step navc_source_volume_back s =
      some (to_navi navc_source_activity_back (source_volume (pos 0) s))
  navi_step navc_source_activity_back s =
      some (to_navi navc_disconnect (source_state s.sender.connect_data.source_id ss_off s))
  navi_step navc_disconnect s =
      some (to_navi navc_finished (disconnect rec s.sender.connect_data.new_main_connection s))
  navi_step navc_finished s = some (end_flow s)

  unfoldable pub call_navi_handler : Sys W → Option (Sys W)
  unfolding navi_step
  call_navi_handler s = navi_step s.sender.navi_sf s

  unfoldable pub traffic_step : TrafficSf → Sys W → Option (Sys W)
  traffic_step ta_ramp_down s =
      some (to_traffic ta_connect (source_state s.sender.connect_data.old_source_id ss_paused s))
  traffic_step ta_connect s = then_to (to_traffic ta_source_state_on) (connect_new s)
  traffic_step ta_source_state_on s =
      some (to_traffic ta_ramp_up (source_state s.sender.connect_data.source_id ss_on s))
  traffic_step ta_ramp_up s =
      some (to_traffic ta_wait_state (sink_ramp (pos 2) (stored_volume s) s))
  traffic_step ta_wait_state s = some (to_traffic ta_ramp_down_again s)
  traffic_step ta_ramp_down_again s =
      some (to_traffic ta_source_state_off (sink_ramp (pos 0) rec.fresh_main_volume s))
  traffic_step ta_source_state_off s = some (
      to_traffic ta_source_state_old_off (source_state s.sender.connect_data.old_source_id ss_on s))
  traffic_step ta_source_state_old_off s =
      some (to_traffic ta_disconnect (source_state s.sender.connect_data.source_id ss_off s))
  traffic_step ta_disconnect s =
      some (to_traffic ta_finished (disconnect rec s.sender.connect_data.new_main_connection s))
  traffic_step ta_finished s = some (end_flow s)

  unfoldable pub call_ta_handler : Sys W → Option (Sys W)
  unfolding traffic_step
  call_ta_handler s = traffic_step s.sender.traffic_sf s

  abbrev pub dispatch : Stateflow → Sys W → Option (Sys W)
  dispatch sf_none s = some s
  dispatch sf_connect s = call_connect_handler s
  dispatch sf_navi s = call_navi_handler s
  dispatch sf_ta s = call_ta_handler s

  unfoldable pub call_state_flow_handler : Sys W → Option (Sys W)
  unfolding call_connect_handler call_navi_handler call_ta_handler
  call_state_flow_handler s = dispatch s.sender.stateflow s
