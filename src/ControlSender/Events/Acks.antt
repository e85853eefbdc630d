-- ===== src/ControlSender/Events/Acks.antt =====
-- The acknowledgements of the routing side bring every flow of CAmControlSenderBase.cpp to its end.
use audio_manager_plugins.Base.{
  ◌-◌, ◌≤◌, List, [], ◌∷◌, Option, some, ◌≡◌, refl, ap, sym, subst, ◌∙◌, arith, length,
}
use audio_manager_plugins.HandleStore.{Handle}
use audio_manager_plugins.ControlSender.{
  ControlReceive, Stateflow, sf_none, sf_connect, sf_navi, sf_ta, ControlSender, Sys,
}
use audio_manager_plugins.ControlSender.Flow.{call_state_flow_handler}
use audio_manager_plugins.ControlSender.Flow.Remaining.{
  connect_left, navi_left, traffic_left, left_in, remaining, IsRoutable, SameFlow, Advances,
  call_state_flow_handler-Advances,
}
use audio_manager_plugins.ControlSender.Events.{
  settle_connection, settle_disconnection, settle_volume, cb_ack_connect, cb_ack_disconnect,
  cb_ack_set_sink_volume_change, cb_ack_set_source_volume_change, cb_ack_set_source_state, Ack,
  ack_connect, ack_disconnect, ack_sink_volume, ack_source_volume, ack_source_state, acknowledge,
  and_then,
}

module _ {W : Type 0} (rec : ControlReceive W) where
  left_in-same :
      (sf : Stateflow) (c d : ControlSender) → SameFlow rec c d → left_in sf d ≡ left_in sf c
  left_in-same sf_none c d h = refl
  left_in-same sf_connect c d h = ap connect_left h.same_connect_sf
  left_in-same sf_navi c d h = ap navi_left h.same_navi_sf
  left_in-same sf_ta c d h = ap traffic_left h.same_traffic_sf

  remaining-same : (c d : ControlSender) → SameFlow rec c d → remaining d ≡ remaining c
  remaining-same c d h = ap (λ sf. left_in sf d) h.same_stateflow ∙ left_in-same c.stateflow c d h

  settle_volume-same :
      (h : Handle) (s : Sys W) → SameFlow rec s.sender (settle_volume rec h s).sender
  unfolding settle_volume
  settle_volume-same h s = record {
    same_stateflow = ground arith;
    same_connect_sf = ground arith;
    same_navi_sf = ground arith;
    same_traffic_sf = ground arith;
    same_data = ground arith;
  }

  -- A call of the flow after the controller has settled what the acknowledgement was for.
  settled-Advances :
      (s t : Sys W)
      → SameFlow rec s.sender t.sender
      → IsRoutable rec s.sender.connect_data
      → Advances rec (remaining s.sender - 1) s.sender (call_state_flow_handler rec t)
  settled-Advances s t same routable =
      let (u, returned, fewer, kept) =
        call_state_flow_handler-Advances rec t
          (subst (IsRoutable rec) (sym same.same_data) routable) in
      (
        u,
        returned,
        omega (arith, fewer, remaining-same s.sender t.sender same),
        kept ∙ same.same_data,
      )

  -- Whatever is acknowledged, with a route for the connection of the flow the controller returns,
  -- keeps what the flow is about, and needs at least one acknowledgement less to end the flow.
  pub acknowledge-Advances :
      (a : Ack) (s : Sys W)
      → IsRoutable rec s.sender.connect_data
      → Advances rec (remaining s.sender - 1) s.sender (acknowledge rec a s)
  unfolding acknowledge cb_ack_connect cb_ack_disconnect cb_ack_set_sink_volume_change
      settle_connection settle_disconnection cb_ack_set_source_volume_change cb_ack_set_source_state
  acknowledge-Advances (ack_connect h) s routable =
      settled-Advances s (settle_connection rec h s)
        (record {
          same_stateflow = refl;
          same_connect_sf = refl;
          same_navi_sf = refl;
          same_traffic_sf = refl;
          same_data = refl;
        })
        routable
  acknowledge-Advances (ack_disconnect h) s routable =
      settled-Advances s (settle_disconnection rec h s)
        (record {
          same_stateflow = refl;
          same_connect_sf = refl;
          same_navi_sf = refl;
          same_traffic_sf = refl;
          same_data = refl;
        })
        routable
  acknowledge-Advances (ack_sink_volume h) s routable =
      settled-Advances s (settle_volume rec h s) (settle_volume-same h s) routable
  acknowledge-Advances ack_source_volume s routable =
      call_state_flow_handler-Advances rec s routable
  acknowledge-Advances ack_source_state s routable = call_state_flow_handler-Advances rec s routable

  pub run_acks : List Ack → Sys W → Option (Sys W)
  run_acks [] s = some s
  run_acks (a ∷ acks) s = and_then rec (run_acks acks) (acknowledge rec a s)

  left_in-none : (sf : Stateflow) (c : ControlSender) → left_in sf c ≤ 0 → sf ≡ sf_none
  left_in-none sf_none c h = refl
  left_in-none sf_connect c h = ground arith
  left_in-none sf_navi c h = ground arith
  left_in-none sf_ta c h = ground arith

  none_left : (c : ControlSender) → remaining c ≤ 0 → c.stateflow ≡ sf_none
  none_left c h = left_in-none c.stateflow c h

  -- As many acknowledgements as the flow has calls left, of whatever kind and in whatever order, end
  -- it: with a route for its connection the controller returns and is idle.
  pub run_acks-ends :
      (acks : List Ack) (s : Sys W)
      → IsRoutable rec s.sender.connect_data
      → remaining s.sender ≤ length acks
      → (t : Sys W) × (run_acks acks s ≡ some t) × (t.sender.stateflow ≡ sf_none)
  unfolding run_acks
  run_acks-ends [] s routable enough = (s, refl, none_left s.sender enough)
  run_acks-ends (a ∷ acks) s routable enough =
      let (t, returned, fewer, kept) = acknowledge-Advances a s routable in
      let (u, ended, idle) =
        run_acks-ends acks t (subst (IsRoutable rec) (sym kept) routable)
          (omega (arith, fewer, enough)) in
      (u, ap (and_then rec (run_acks acks)) returned ∙ ended, idle)
