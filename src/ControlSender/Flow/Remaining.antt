-- ===== src/ControlSender/Flow/Remaining.antt =====
-- Every call of callStateFlowHandler of CAmControlSenderBase.cpp brings its flow nearer to the end.
use audio_manager_plugins.Base.{
  ℕ, ◌-◌, ◌≤◌, List, [], ◌∷◌, Option, some, false, ◌≡◌, refl, ap, ◌∙◌, arith, is_empty,
}
use audio_manager_plugins.ControlSender.{
  RoutingElement, ControlReceive, Stateflow, sf_none, sf_connect, sf_navi, sf_ta, ConnectSf,
  sfc_ramp_down, sfc_source_state_off, sfc_disconnect, sfc_connect, sfc_source_state_on,
  sfc_ramp_up, sfc_finished, NaviSf, navc_ramp_down, navc_connect, navc_source_state_on,
  navc_ramp_up, navc_wait_state, navc_ramp_down_again, navc_source_volume_back,
  navc_source_activity_back, navc_disconnect, navc_finished, TrafficSf, ta_ramp_down, ta_connect,
  ta_source_state_on, ta_ramp_up, ta_wait_state, ta_ramp_down_again, ta_source_state_off,
  ta_source_state_old_off, ta_disconnect, ta_finished, ConnectData, ControlSender, Sys,
}
use audio_manager_plugins.ControlSender.Pending.{connect_along, connect, disconnect}
use audio_manager_plugins.ControlSender.Flow.{
  then_to, connect_new, ramp_up, connect_step, call_connect_handler, navi_step, call_navi_handler,
  traffic_step, call_ta_handler, dispatch, call_state_flow_handler,
}

-- The calls that a flow needs at most.
abbrev pub connect_left : ConnectSf → ℕ
connect_left sfc_ramp_down = 7
connect_left sfc_source_state_off = 6
connect_left sfc_disconnect = 5
connect_left sfc_connect = 4
connect_left sfc_source_state_on = 3
connect_left sfc_ramp_up = 2
connect_left sfc_finished = 1

abbrev pub navi_left : NaviSf → ℕ
navi_left navc_ramp_down = 10
navi_left navc_connect = 9
navi_left navc_source_state_on = 8
navi_left navc_ramp_up = 7
navi_left navc_wait_state = 6
navi_left navc_ramp_down_again = 5
navi_left navc_source_volume_back = 4
navi_left navc_source_activity_back = 3
navi_left navc_disconnect = 2
navi_left navc_finished = 1

abbrev pub traffic_left : TrafficSf → ℕ
traffic_left ta_ramp_down = 10
traffic_left ta_connect = 9
traffic_left ta_source_state_on = 8
traffic_left ta_ramp_up = 7
traffic_left ta_wait_state = 6
traffic_left ta_ramp_down_again = 5
traffic_left ta_source_state_off = 4
traffic_left ta_source_state_old_off = 3
traffic_left ta_disconnect = 2
traffic_left ta_finished = 1

abbrev pub left_in : Stateflow → ControlSender → ℕ
left_in sf_none c = 0
left_in sf_connect c = connect_left c.connect_sf
left_in sf_navi c = navi_left c.navi_sf
left_in sf_ta c = traffic_left c.traffic_sf

abbrev pub remaining : ControlSender → ℕ
remaining c = left_in c.stateflow c

module _ {W : Type 0} (rec : ControlReceive W) where
  -- Whatever the world is, there is a route for the connection that the flow is about.
  abbrev pub IsRoutable : ConnectData → Type 0
  IsRoutable d = (w : W) → is_empty (rec.get_route d.source_id d.sink_id w) ≡ false

  -- What connect and disconnect leave of the controller: all but the two lists.
  pub record SameFlow (c d : ControlSender) : Type 0 where
    pub same_stateflow : d.stateflow ≡ c.stateflow
    pub same_connect_sf : d.connect_sf ≡ c.connect_sf
    pub same_navi_sf : d.navi_sf ≡ c.navi_sf
    pub same_traffic_sf : d.traffic_sf ≡ c.traffic_sf
    pub same_data : d.connect_data ≡ c.connect_data

  pub disconnect-SameFlow : (id : ℕ) (s : Sys W) → SameFlow s.sender (disconnect rec id s).sender
  unfolding disconnect
  disconnect-SameFlow id s = record {
    same_stateflow = ground arith;
    same_connect_sf = ground arith;
    same_navi_sf = ground arith;
    same_traffic_sf = ground arith;
    same_data = ground arith;
  }

  -- With a route connect returns.
  abbrev pub Connects : ControlSender → Option (Sys W) → Type 0
  Connects c o = (t : Sys W) × (o ≡ some t) × SameFlow c t.sender

  connect_along-returns :
      (routes : List (List RoutingElement)) (id : ℕ) (s : Sys W)
      → is_empty routes ≡ false
      → Connects s.sender (connect_along rec routes id s)
  unfolding connect_along
  connect_along-returns [] id s routes = cc
  connect_along-returns (route ∷ others) id s routes = (
    _,
    refl,
    record {
      same_stateflow = refl;
      same_connect_sf = refl;
      same_navi_sf = refl;
      same_traffic_sf = refl;
      same_data = refl;
    },
  )

  -- A call of a flow returns, keeps what the flow is about, and leaves fewer calls to come.
  abbrev pub Advances : ℕ → ControlSender → Option (Sys W) → Type 0
  Advances left c o =
      (t : Sys W) × (o ≡ some t)
      × (remaining t.sender ≤ left)
      × (t.sender.connect_data ≡ c.connect_data)

  connects : (s : Sys W) → IsRoutable s.sender.connect_data → Connects s.sender (connect_new rec s)
  unfolding connect
  connects s routable = connect_along-returns _ _ s (routable s.world)

  connect_step-Advances :
      (sf : ConnectSf) (s : Sys W)
      → s.sender.stateflow ≡ sf_connect
      → IsRoutable s.sender.connect_data
      → Advances (connect_left sf - 1) s.sender (connect_step rec sf s)
  unfolding connect_step ramp_up
  connect_step-Advances sfc_ramp_down s e routable = (_, refl, rw e (omega arith), refl)
  connect_step-Advances sfc_source_state_off s e routable = (_, refl, rw e (omega arith), refl)
  connect_step-Advances sfc_disconnect s e routable =
      let same = disconnect-SameFlow s.sender.connect_data.current_main_connection s in
      (_, refl, rw (same.same_stateflow ∙ e) (omega arith), same.same_data)
  connect_step-Advances sfc_connect s e routable =
      let (t, returned, same) = connects s routable in
      (_, ap (then_to _) returned, rw (same.same_stateflow ∙ e) (omega arith), same.same_data)
  connect_step-Advances sfc_source_state_on s e routable = (_, refl, rw e (omega arith), refl)
  connect_step-Advances sfc_ramp_up s e routable = (_, refl, ground arith, ground arith)
  connect_step-Advances sfc_finished s e routable = (_, refl, omega arith, refl)

  navi_step-Advances :
      (sf : NaviSf) (s : Sys W)
      → s.sender.stateflow ≡ sf_navi
      → IsRoutable s.sender.connect_data
      → Advances (navi_left sf - 1) s.sender (navi_step rec sf s)
  unfolding navi_step
  navi_step-Advances navc_connect s e routable =
      let (t, returned, same) = connects s routable in
      (_, ap (then_to _) returned, rw (same.same_stateflow ∙ e) (omega arith), same.same_data)
  navi_step-Advances navc_disconnect s e routable =
      let same = disconnect-SameFlow s.sender.connect_data.new_main_connection s in
      (_, refl, rw (same.same_stateflow ∙ e) (omega arith), same.same_data)
  navi_step-Advances navc_finished s e routable = (_, refl, omega arith, refl)
  navi_step-Advances navc_ramp_down s e routable = (_, refl, rw e (omega arith), refl)
  navi_step-Advances navc_source_state_on s e routable = (_, refl, rw e (omega arith), refl)
  navi_step-Advances navc_ramp_up s e routable = (_, refl, rw e (omega arith), refl)
  navi_step-Advances navc_wait_state s e routable = (_, refl, rw e (omega arith), refl)
  navi_step-Advances navc_ramp_down_again s e routable = (_, refl, rw e (omega arith), refl)
  navi_step-Advances navc_source_volume_back s e routable = (_, refl, rw e (omega arith), refl)
  navi_step-Advances navc_source_activity_back s e routable = (_, refl, rw e (omega arith), refl)

  traffic_step-Advances :
      (sf : TrafficSf) (s : Sys W)
      → s.sender.stateflow ≡ sf_ta
      → IsRoutable s.sender.connect_data
      → Advances (traffic_left sf - 1) s.sender (traffic_step rec sf s)
  unfolding traffic_step
  traffic_step-Advances ta_connect s e routable =
      let (t, returned, same) = connects s routable in
      (_, ap (then_to _) returned, rw (same.same_stateflow ∙ e) (omega arith), same.same_data)
  traffic_step-Advances ta_disconnect s e routable =
      let same = disconnect-SameFlow s.sender.connect_data.new_main_connection s in
      (_, refl, rw (same.same_stateflow ∙ e) (omega arith), same.same_data)
  traffic_step-Advances ta_finished s e routable = (_, refl, omega arith, refl)
  traffic_step-Advances ta_ramp_down s e routable = (_, refl, rw e (omega arith), refl)
  traffic_step-Advances ta_source_state_on s e routable = (_, refl, rw e (omega arith), refl)
  traffic_step-Advances ta_ramp_up s e routable = (_, refl, rw e (omega arith), refl)
  traffic_step-Advances ta_wait_state s e routable = (_, refl, rw e (omega arith), refl)
  traffic_step-Advances ta_ramp_down_again s e routable = (_, refl, rw e (omega arith), refl)
  traffic_step-Advances ta_source_state_off s e routable = (_, refl, rw e (omega arith), refl)
  traffic_step-Advances ta_source_state_old_off s e routable = (_, refl, rw e (omega arith), refl)

  dispatch-Advances :
      (sf : Stateflow) (s : Sys W)
      → s.sender.stateflow ≡ sf
      → IsRoutable s.sender.connect_data
      → Advances (left_in sf s.sender - 1) s.sender (dispatch rec sf s)
  unfolding call_connect_handler call_navi_handler call_ta_handler
  dispatch-Advances sf_none s e routable = (_, refl, rw e (omega arith), refl)
  dispatch-Advances sf_connect s e routable = connect_step-Advances s.sender.connect_sf s e routable
  dispatch-Advances sf_navi s e routable = navi_step-Advances s.sender.navi_sf s e routable
  dispatch-Advances sf_ta s e routable = traffic_step-Advances s.sender.traffic_sf s e routable

  -- With a route for its connection a call of the flow returns, keeps the data of the connection, and
  -- leaves at least one call less to come, if any was.
  pub call_state_flow_handler-Advances :
      (s : Sys W)
      → IsRoutable s.sender.connect_data
      → Advances (remaining s.sender - 1) s.sender (call_state_flow_handler rec s)
  unfolding call_state_flow_handler
  call_state_flow_handler-Advances s routable = dispatch-Advances s.sender.stateflow s refl routable
