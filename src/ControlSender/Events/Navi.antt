-- ===== src/ControlSender/Events/Navi.antt =====
-- The next navi request of CAmControlSenderBase.cpp after the navi flow has ended once.
use audio_manager_plugins.Base.{ℕ, some, Bool, false, ◌≡◌, refl, ap, ◌∙◌, arith, is_empty}
use audio_manager_plugins.ControlSender.{
  e_ok, ControlReceive, sf_none, sf_navi, navc_finished, ControlSender, Sys,
}
use audio_manager_plugins.ControlSender.Flow.{
  end_flow, navi_step, call_navi_handler, dispatch, call_state_flow_handler,
}
use audio_manager_plugins.ControlSender.Hooks.{
  ConnectAnswer, Scanned, connected_as, is_idle, begin_flow, accept, new_connection, found_for,
  launch, consider, hook_user_connection_request,
}
use audio_manager_plugins.ControlSender.Flow.Spent.{IsSpent, over_of_spent}
use audio_manager_plugins.ControlSender.Events.Spent.{accept-navi_sf}

module _ {W : Type 0} (rec : ControlReceive W) where
  call-finished :
      (s : Sys W)
      → s.sender.stateflow ≡ sf_navi
      → s.sender.navi_sf ≡ navc_finished
      → call_state_flow_handler rec s ≡ some (end_flow s)
  unfolding call_state_flow_handler call_navi_handler navi_step
  call-finished s navi over = ap (λ f. dispatch rec f s) navi ∙ ap (λ n. navi_step rec n s) over

  begin_flow-navi :
      (class : ℕ) (has_player : Bool) (c : ControlSender)
      → class ≡ 2
      → (begin_flow rec class has_player c).stateflow ≡ sf_navi
  begin_flow-navi class has_player c navi = ground arith

  accept-list_open_connections :
      (source sink : ℕ) (found : Scanned) (s : Sys W)
      → (accept rec source sink found s).1.sender.list_open_connections
        ≡ s.sender.list_open_connections
  unfolding accept
  accept-list_open_connections source sink found s = ground arith

  launch-finished :
      (p : ℕ × Sys W)
      → p.1.sender.stateflow ≡ sf_navi
      → p.1.sender.navi_sf ≡ navc_finished
      → launch rec p ≡ some (record { error = e_ok; main_connection_id = p.0; sys = end_flow p.1 })
  unfolding launch
  launch-finished (id, s) navi over = ap (connected_as id) (call-finished s navi over)

  accept-stateflow :
      (source sink : ℕ) (found : Scanned) (s : Sys W)
      → rec.get_source_class source rec.fresh_source_class s.world ≡ 2
      → (accept rec source sink found s).1.sender.stateflow ≡ sf_navi
  unfolding accept
  accept-stateflow source sink found s navi =
      begin_flow-navi _ found.has_player (record s.sender { connect_data = _ }) navi

  request-launches :
      (source sink id : ℕ) (s : Sys W)
      → s.sender.stateflow ≡ sf_none
      → is_empty (rec.get_route source sink s.world) ≡ false
      → (found_for rec source sink s).is_duplicate ≡ false
      → hook_user_connection_request rec source sink id s
        ≡ launch rec (accept rec source sink (found_for rec source sink s) s)
  unfolding hook_user_connection_request consider
  request-launches source sink id s idle routes fresh =
      rw (ap is_idle idle) (rw (routes, consider) (rw fresh refl))

  -- An idle controller whose navi flow has ended once answers a further connection request of the navi
  -- class (2), for a pair that has a route and no main connection, with E_OK and enters a main
  -- connection; but the world is then as that entry left it, without a request to the routing side, and
  -- the controller is idle again with its open connections unchanged.
  pub navi_request-connects_nothing :
      (source sink id : ℕ) (s : Sys W)
      → IsSpent s.sender
      → s.sender.stateflow ≡ sf_none
      → rec.get_source_class source rec.fresh_source_class s.world ≡ 2
      → is_empty (rec.get_route source sink s.world) ≡ false
      → (found_for rec source sink s).is_duplicate ≡ false
      → (a : ConnectAnswer W) × (hook_user_connection_request rec source sink id s ≡ some a)
        × (a.error ≡ e_ok)
        × (a.sys.world ≡ (rec.enter_main_connection (new_connection source sink) s.world).1)
        × (a.sys.sender.stateflow ≡ sf_none)
        × (a.sys.sender.list_open_connections ≡ s.sender.list_open_connections)
  unfolding accept
  navi_request-connects_nothing source sink id s spent idle navi routes fresh =
      let found = found_for rec source sink s in
      (
        _,
        request-launches source sink id s idle routes fresh
            ∙ launch-finished (accept rec source sink found s)
                (accept-stateflow source sink found s navi)
                (accept-navi_sf rec source sink found s
                  ∙ over_of_spent rec s.sender spent (λ x. cc)),
        refl,
        refl,
        refl,
        accept-list_open_connections source sink found s,
      )
