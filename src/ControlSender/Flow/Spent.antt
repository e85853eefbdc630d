-- ===== src/ControlSender/Flow/Spent.antt =====
-- The navi flow of CAmControlSenderBase.cpp after its end: no step of a flow resets mNaviSf.
use audio_manager_plugins.Base.{
  ℕ, ◌≤◌, List, [], ◌∷◌, Option, none, some, ◌≡◌, ◌≢◌, ◌⊎◌, inl, inr, refl, sym, subst, ◌∙◌, arith,
}
use audio_manager_plugins.ControlSender.{
  RoutingElement, ControlReceive, Stateflow, sf_none, sf_connect, sf_navi, sf_ta, ConnectSf,
  sfc_ramp_down, sfc_source_state_off, sfc_disconnect, sfc_connect, sfc_source_state_on,
  sfc_ramp_up, sfc_finished, NaviSf, navc_finished, navc_ramp_down, navc_connect,
  navc_source_state_on, navc_ramp_up, navc_wait_state, navc_ramp_down_again,
  navc_source_volume_back, navc_source_activity_back, navc_disconnect, TrafficSf, ta_ramp_down,
  ta_connect, ta_source_state_on, ta_ramp_up, ta_wait_state, ta_ramp_down_again,
  ta_source_state_off, ta_source_state_old_off, ta_disconnect, ta_finished, ControlSender, Sys,
}
use audio_manager_plugins.ControlSender.Pending.{connect_along, connect}
use audio_manager_plugins.ControlSender.Flow.{
  then_to, ramp_up, connect_step, call_connect_handler, navi_step, call_navi_handler, traffic_step,
  call_ta_handler, dispatch, call_state_flow_handler,
}
use audio_manager_plugins.ControlSender.Flow.Remaining.{navi_left, disconnect-SameFlow}

-- The navi flow has ended before: mNaviSf says so, unless the flow runs down its last steps.
abbrev pub IsSpent : ControlSender → Type 0
IsSpent c = (c.navi_sf ≡ navc_finished) ⊎ ((c.stateflow ≡ sf_navi) × (navi_left c.navi_sf ≤ 5))

module _ {W : Type 0} (rec : ControlReceive W) where
  -- What a call leaves, if it returns, is spent.
  abbrev pub Spent : Option (Sys W) → Type 0
  Spent none = Unit
  Spent (some s) = IsSpent s.sender

  pub IsSpent-same :
      (c d : ControlSender)
      → d.stateflow ≡ c.stateflow
      → d.navi_sf ≡ c.navi_sf
      → IsSpent c
      → IsSpent d
  IsSpent-same c d same_flow same_navi (inl over) = inl (same_navi ∙ over)
  IsSpent-same c d same_flow same_navi (inr (navi, left)) =
      inr (same_flow ∙ navi, subst (λ x. navi_left x ≤ 5) (sym same_navi) left)

  -- What a call leaves, if it returns, has this mNaviSf.
  abbrev Keeps : NaviSf → Option (Sys W) → Type 0
  Keeps sf none = Unit
  Keeps sf (some s) = s.sender.navi_sf ≡ sf

  connect_along-Keeps :
      (routes : List (List RoutingElement)) (id : ℕ) (next : Sys W → Sys W) (s : Sys W)
      → ((t : Sys W) → (next t).sender.navi_sf ≡ t.sender.navi_sf)
      → Keeps s.sender.navi_sf (then_to next (connect_along rec routes id s))
  unfolding connect_along
  connect_along-Keeps [] id next s kept = tt
  connect_along-Keeps (route ∷ others) id next s kept = kept _

  ramp_up-Keeps : (s : Sys W) → (ramp_up rec s).sender.navi_sf ≡ s.sender.navi_sf
  unfolding ramp_up
  ramp_up-Keeps s = ground arith

  connect_step-Keeps : (sf : ConnectSf) (s : Sys W) → Keeps s.sender.navi_sf (connect_step rec sf s)
  unfolding connect_step connect
  connect_step-Keeps sfc_ramp_down s = refl
  connect_step-Keeps sfc_source_state_off s = refl
  connect_step-Keeps sfc_disconnect s =
      (disconnect-SameFlow rec s.sender.connect_data.current_main_connection s).same_navi_sf
  connect_step-Keeps sfc_connect s = connect_along-Keeps _ _ _ s (λ t. refl)
  connect_step-Keeps sfc_source_state_on s = refl
  connect_step-Keeps sfc_ramp_up s = ramp_up-Keeps s
  connect_step-Keeps sfc_finished s = refl

  traffic_step-Keeps : (sf : TrafficSf) (s : Sys W) → Keeps s.sender.navi_sf (traffic_step rec sf s)
  unfolding traffic_step connect
  traffic_step-Keeps ta_connect s = connect_along-Keeps _ _ _ s (λ t. refl)
  traffic_step-Keeps ta_disconnect s =
      (disconnect-SameFlow rec s.sender.connect_data.new_main_connection s).same_navi_sf
  traffic_step-Keeps ta_ramp_down s = refl
  traffic_step-Keeps ta_source_state_on s = refl
  traffic_step-Keeps ta_ramp_up s = refl
  traffic_step-Keeps ta_wait_state s = refl
  traffic_step-Keeps ta_ramp_down_again s = refl
  traffic_step-Keeps ta_source_state_off s = refl
  traffic_step-Keeps ta_source_state_old_off s = refl
  traffic_step-Keeps ta_finished s = refl

  Spent-of_Keeps : (o : Option (Sys W)) → Keeps navc_finished o → Spent o
  Spent-of_Keeps none h = tt
  Spent-of_Keeps (some s) h = inl h

  navi_step-Spent :
      (sf : NaviSf) (s : Sys W)
      → s.sender.stateflow ≡ sf_navi
      → s.sender.navi_sf ≡ sf
      → navi_left sf ≤ 5
      → Spent (navi_step rec sf s)
  unfolding navi_step
  navi_step-Spent navc_ramp_down s e at left = absurd (omega arith)
  navi_step-Spent navc_connect s e at left = absurd (omega arith)
  navi_step-Spent navc_source_state_on s e at left = absurd (omega arith)
  navi_step-Spent navc_ramp_up s e at left = absurd (omega arith)
  navi_step-Spent navc_wait_state s e at left = absurd (omega arith)
  navi_step-Spent navc_ramp_down_again s e at left = inr (e, omega arith)
  navi_step-Spent navc_source_volume_back s e at left = inr (e, omega arith)
  navi_step-Spent navc_source_activity_back s e at left = inr (e, omega arith)
  navi_step-Spent navc_disconnect s e at left = inl refl
  navi_step-Spent navc_finished s e at left = inl at

  left_of_spent : (c : ControlSender) → IsSpent c → navi_left c.navi_sf ≤ 5
  left_of_spent c (inl over) = rw over (omega arith)
  left_of_spent c (inr (navi, left)) = left

  pub over_of_spent :
      (c : ControlSender) → IsSpent c → c.stateflow ≢ sf_navi → c.navi_sf ≡ navc_finished
  over_of_spent c (inl over) other = over
  over_of_spent c (inr (navi, left)) other = absurd (other navi)

  dispatch-Spent :
      (sf : Stateflow) (s : Sys W)
      → s.sender.stateflow ≡ sf
      → IsSpent s.sender
      → Spent (dispatch rec sf s)
  unfolding call_connect_handler call_navi_handler call_ta_handler
  dispatch-Spent sf_none s e spent = spent
  dispatch-Spent sf_connect s e spent =
      let over = over_of_spent s.sender spent (λ navi. cc) in
      Spent-of_Keeps _ (
        subst (λ n. Keeps n (connect_step rec s.sender.connect_sf s)) over
          (connect_step-Keeps s.sender.connect_sf s))
  dispatch-Spent sf_navi s e spent =
      navi_step-Spent s.sender.navi_sf s e refl (left_of_spent s.sender spent)
  dispatch-Spent sf_ta s e spent =
      let over = over_of_spent s.sender spent (λ navi. cc) in
      Spent-of_Keeps _ (
        subst (λ n. Keeps n (traffic_step rec s.sender.traffic_sf s)) over
          (traffic_step-Keeps s.sender.traffic_sf s))

  pub call_state_flow_handler-Spent :
      (s : Sys W) → IsSpent s.sender → Spent (call_state_flow_handler rec s)
  unfolding call_state_flow_handler
  call_state_flow_handler-Spent s spent = dispatch-Spent s.sender.stateflow s refl spent
