-- ===== src/ControlSender/Events/Spent.antt =====
-- The events of CAmControlSenderBase.cpp after the navi flow has ended once.
use audio_manager_plugins.Base.{
  ℕ, List, [], ◌∷◌, Option, none, some, Bool, true, ◌≡◌, inl, inr, refl, subst, ◌∙◌, arith,
  is_empty, Bool-cases,
}
use audio_manager_plugins.Base.Int.{ℤ}
use audio_manager_plugins.HandleStore.{Handle}
use audio_manager_plugins.ControlSender.{
  MuteState, SoundProperty, ControlReceive, Stateflow, sf_none, sf_connect, sf_navi, sf_ta,
  navc_finished, ControlSender, Sys,
}
use audio_manager_plugins.ControlSender.Pending.{disconnect}
use audio_manager_plugins.ControlSender.Flow.{call_state_flow_handler}
use audio_manager_plugins.ControlSender.Flow.Remaining.{disconnect-SameFlow}
use audio_manager_plugins.ControlSender.Hooks.{
  Scanned, answer_ok, connected_as, is_idle, begin_flow, accept, found_for, launch, consider,
  hook_user_connection_request, disconnection_in, hook_user_disconnection_request,
}
use audio_manager_plugins.ControlSender.Hooks.Volumes.{
  hook_user_set_main_sink_sound_property, ask_volume, hook_user_volume_change,
  hook_user_volume_step, hook_user_set_sink_mute_state,
}
use audio_manager_plugins.ControlSender.Events.{
  answered, connect_answered, settle_connection, settle_disconnection, settle_volume,
  cb_ack_connect, cb_ack_disconnect, cb_ack_set_sink_volume_change, cb_ack_set_source_volume_change,
  cb_ack_set_source_state, cb_ack_set_sink_sound_property, Ack, ack_connect, ack_disconnect,
  ack_sink_volume, ack_source_volume, ack_source_state, acknowledge, Event, acknowledged,
  ack_sound_property, user_connects, user_disconnects, user_sets_sound_property, user_sets_volume,
  user_steps_volume, user_mutes, step, and_then, run_events,
}
use audio_manager_plugins.ControlSender.Flow.Spent.{
  IsSpent, Spent, IsSpent-same, over_of_spent, call_state_flow_handler-Spent,
}

module _ {W : Type 0} (rec : ControlReceive W) where
  Spent-answer_ok : (o : Option (Sys W)) → Spent rec o → Spent rec (answered (answer_ok o))
  Spent-answer_ok none h = tt
  Spent-answer_ok (some s) h = h

  Spent-connected_as :
      (id : ℕ) (o : Option (Sys W)) → Spent rec o → Spent rec (connect_answered (connected_as id o))
  Spent-connected_as id none h = tt
  Spent-connected_as id (some s) h = h

  disconnection_in-Spent :
      (sf : Stateflow) (id : ℕ) (s : Sys W)
      → s.sender.stateflow ≡ sf
      → IsSpent s.sender
      → Spent rec (answered (disconnection_in rec sf id s))
  disconnection_in-Spent sf_none id s e spent =
      let same = disconnect-SameFlow rec id s in
      IsSpent-same rec s.sender (disconnect rec id s).sender same.same_stateflow same.same_navi_sf
        spent
  disconnection_in-Spent sf_connect id s e spent = spent
  disconnection_in-Spent sf_navi id s e spent =
      Spent-answer_ok _ (call_state_flow_handler-Spent rec _ (inr (e, omega arith)))
  disconnection_in-Spent sf_ta id s e spent =
      Spent-answer_ok _
        (call_state_flow_handler-Spent rec _ (inl (over_of_spent rec s.sender spent (λ navi. cc))))

  acknowledge-Spent : (a : Ack) (s : Sys W) → IsSpent s.sender → Spent rec (acknowledge rec a s)
  unfolding acknowledge cb_ack_connect cb_ack_disconnect cb_ack_set_sink_volume_change
      settle_connection settle_disconnection settle_volume cb_ack_set_source_volume_change
      cb_ack_set_source_state
  acknowledge-Spent (ack_connect h) s spent = call_state_flow_handler-Spent rec _ spent
  acknowledge-Spent (ack_disconnect h) s spent = call_state_flow_handler-Spent rec _ spent
  acknowledge-Spent (ack_sink_volume h) s spent =
      call_state_flow_handler-Spent rec _ (
        IsSpent-same rec s.sender (settle_volume rec h s).sender (ground arith) (ground arith)
          spent)
  acknowledge-Spent ack_source_volume s spent = call_state_flow_handler-Spent rec s spent
  acknowledge-Spent ack_source_state s spent = call_state_flow_handler-Spent rec s spent

  sound_property-Spent :
      (h : Handle) (s : Sys W)
      → IsSpent s.sender
      → IsSpent (cb_ack_set_sink_sound_property rec h s).sender
  unfolding cb_ack_set_sink_sound_property
  sound_property-Spent h s spent =
      IsSpent-same rec s.sender (cb_ack_set_sink_sound_property rec h s).sender (ground arith)
        (ground arith) spent

  sound_property_request-Spent :
      (sink : ℕ) (p : SoundProperty) (s : Sys W)
      → IsSpent s.sender
      → Spent rec (answered (hook_user_set_main_sink_sound_property rec sink p s))
  unfolding hook_user_set_main_sink_sound_property
  sound_property_request-Spent sink p s spent = ground (arith, spent)

  volume_change-Spent :
      (sink : ℕ) (v : ℤ) (s : Sys W)
      → IsSpent s.sender
      → Spent rec (answered (hook_user_volume_change rec sink v s))
  unfolding hook_user_volume_change ask_volume
  volume_change-Spent sink v s spent = ground (arith, spent)

  volume_step-Spent :
      (sink : ℕ) (i : ℤ) (s : Sys W)
      → IsSpent s.sender
      → Spent rec (answered (hook_user_volume_step rec sink i s))
  unfolding hook_user_volume_step ask_volume
  volume_step-Spent sink i s spent = ground (arith, spent)

  mute-Spent :
      (sink : ℕ) (m : MuteState) (s : Sys W)
      → IsSpent s.sender
      → Spent rec (answered (hook_user_set_sink_mute_state rec sink m s))
  unfolding hook_user_set_sink_mute_state ask_volume
  mute-Spent sink m s spent = ground (arith, spent)

  begin_flow-navi_sf :
      (class : ℕ) (has_player : Bool) (c : ControlSender)
      → (begin_flow rec class has_player c).navi_sf ≡ c.navi_sf
  begin_flow-navi_sf class has_player c = ground arith

  idle_flow : (sf : Stateflow) → is_idle sf ≡ true → sf ≡ sf_none
  idle_flow sf h = ground arith

  busy_or_spent :
      (c : ControlSender) → IsSpent c → is_idle c.stateflow ≡ true → c.navi_sf ≡ navc_finished
  busy_or_spent c spent idle =
      let none = idle_flow c.stateflow idle in over_of_spent rec c spent (λ navi. cc)

  launch-Spent :
      (p : ℕ × Sys W)
      → p.1.sender.navi_sf ≡ navc_finished
      → Spent rec (connect_answered (launch rec p))
  unfolding launch
  launch-Spent (id, s) over =
      Spent-connected_as id (call_state_flow_handler rec s)
        (call_state_flow_handler-Spent rec s (inl over))

  pub accept-navi_sf :
      (source sink : ℕ) (found : Scanned) (s : Sys W)
      → (accept rec source sink found s).1.sender.navi_sf ≡ s.sender.navi_sf
  unfolding accept
  accept-navi_sf source sink found s = ground arith

  consider-Spent :
      (source sink id : ℕ) (s : Sys W)
      → s.sender.navi_sf ≡ navc_finished
      → Spent rec (connect_answered (consider rec source sink id s))
  unfolding consider
  consider-Spent source sink id s over =
      let launched =
        launch-Spent (accept rec source sink (found_for rec source sink s) s)
          (accept-navi_sf source sink (found_for rec source sink s) s ∙ over) in
      elim (Bool-cases (is_empty (rec.get_route source sink s.world))) [
        | inl e ↦ rw (e, consider) (inl over)
        | inr e ↦
            rw (e, consider)
              (elim (Bool-cases (found_for rec source sink s).is_duplicate) [
                | inl d ↦ rw d (inl over)
                | inr d ↦ rw d launched
              ])
      ]

  connection_request-Spent :
      (source sink id : ℕ) (s : Sys W)
      → IsSpent s.sender
      → Spent rec (connect_answered (hook_user_connection_request rec source sink id s))
  unfolding hook_user_connection_request
  connection_request-Spent source sink id s spent = elim (Bool-cases (is_idle s.sender.stateflow)) [
    | inr busy ↦ rw busy spent
    | inl idle ↦ rw idle (consider-Spent source sink id s (busy_or_spent s.sender spent idle))
  ]

  step-Spent : (e : Event) (s : Sys W) → IsSpent s.sender → Spent rec (step rec e s)
  unfolding step hook_user_disconnection_request
  step-Spent (acknowledged a) s spent = acknowledge-Spent a s spent
  step-Spent (ack_sound_property h) s spent = sound_property-Spent h s spent
  step-Spent (user_connects source sink) s spent = connection_request-Spent source sink 0 s spent
  step-Spent (user_disconnects id) s spent =
      disconnection_in-Spent s.sender.stateflow id s refl spent
  step-Spent (user_sets_sound_property sink p) s spent = sound_property_request-Spent sink p s spent
  step-Spent (user_sets_volume sink v) s spent = volume_change-Spent sink v s spent
  step-Spent (user_steps_volume sink i) s spent = volume_step-Spent sink i s spent
  step-Spent (user_mutes sink m) s spent = mute-Spent sink m s spent

  Spent-some : (o : Option (Sys W)) (t : Sys W) → Spent rec o → o ≡ some t → IsSpent t.sender
  Spent-some o t h e = subst (Spent rec) e h

  and_then-Spent :
      (f : Sys W → Option (Sys W))
      → ((s : Sys W) → IsSpent s.sender → Spent rec (f s))
      → (o : Option (Sys W)) → Spent rec o
      → Spent rec (and_then rec f o)
  and_then-Spent f keeps none h = tt
  and_then-Spent f keeps (some s) h = keeps s h

  run_events-Spent :
      (es : List Event) (s : Sys W) → IsSpent s.sender → Spent rec (run_events rec es s)
  unfolding run_events
  run_events-Spent [] s spent = spent
  run_events-Spent (e ∷ es) s spent =
      and_then-Spent (run_events rec es) (run_events-Spent es) (step rec e s) (step-Spent e s spent)

  -- Once the navi flow has come to its last state it stays there, or runs down its last steps again,
  -- through every sequence of events that the controller survives.
  pub run_events-IsSpent :
      (es : List Event) (s t : Sys W)
      → run_events rec es s ≡ some t
      → IsSpent s.sender
      → IsSpent t.sender
  run_events-IsSpent es s t e spent = Spent-some _ t (run_events-Spent es s spent) e
