-- ===== src/ControlSender/Events/Volumes.antt =====
-- The volume requests of CAmControlSenderBase.cpp and the acknowledgement that ends them.
use audio_manager_plugins.Base.{
  ℕ, List, [], ◌∷◌, ◌++◌, none, some, true, false, ◌≡◌, ◌≢◌, refl, ap, ◌∙◌, arith,
}
use audio_manager_plugins.Base.Int.{ℤ, pos, is_same}
use audio_manager_plugins.HandleStore.{Handle}
use audio_manager_plugins.ControlSender.{
  e_ok, Asked, ControlReceive, ramp_unknown, MainVolumeSet, sf_none, Sys,
}
use audio_manager_plugins.ControlSender.Pending.{is_ok}
use audio_manager_plugins.ControlSender.Flow.{volume_of, dispatch, call_state_flow_handler}
use audio_manager_plugins.ControlSender.Hooks.{Answer}
use audio_manager_plugins.ControlSender.Hooks.Volumes.{
  has_volume_change, ask_volume, main_volume_of, hook_user_volume_change,
}
use audio_manager_plugins.ControlSender.Events.{
  take_volume, settle_volume, cb_ack_set_sink_volume_change,
}

-- No change under way has the handle's number.
abbrev pub IsUnused : Handle → List MainVolumeSet → Type 0
IsUnused h xs = take_volume h xs ≡ none

take_volume-append :
    (h : Handle) (xs : List MainVolumeSet) (x : MainVolumeSet)
    → IsUnused h xs
    → h.handle ≡ x.handle.handle
    → take_volume h (xs ++ x ∷ []) ≡ some (x, xs)
unfolding take_volume
take_volume-append h [] x unused same = ground arith
take_volume-append h (y ∷ xs) x unused same = ground (arith, take_volume-append h xs x)

has_volume_change-append :
    (sink : ℕ) (xs : List MainVolumeSet) (x : MainVolumeSet)
    → x.sink_id ≡ sink
    → has_volume_change sink (xs ++ x ∷ []) ≡ true
unfolding has_volume_change
has_volume_change-append sink [] x same = ground arith
has_volume_change-append sink (y ∷ xs) x same =
    ground (arith, has_volume_change-append sink xs x same)

module _ {W : Type 0} (rec : ControlReceive W) where
  -- What the routing side answers to a volume change.
  abbrev pub asked_for : ℕ → ℤ → Sys W → Asked W
  asked_for sink volume s =
      rec.set_sink_volume sink (volume_of (pos 6) (pos 0) volume) ramp_unknown 20 s.world

  abbrev pub change_of : ℕ → ℤ → Sys W → MainVolumeSet
  change_of sink volume s = record {
    sink_id = sink;
    handle = (asked_for sink volume s).handle;
    main_volume = volume;
  }

  -- The controller with the change under way.
  abbrev pub under_way : ℕ → ℤ → Sys W → Sys W
  under_way sink volume s =
      let asked = asked_for sink volume s in
      record {
        sender = record s.sender {
          list_open_volume_changes =
              s.sender.list_open_volume_changes ++ change_of sink volume s ∷ [];
        };
        world = asked.world;
      }

  asks :
      (sink : ℕ) (volume : ℤ) (s : Sys W)
      → s.sender.stateflow ≡ sf_none
      → sink ≢ 0
      → has_volume_change sink s.sender.list_open_volume_changes ≡ false
      → is_same (main_volume_of rec sink s) volume ≡ false
      → is_ok (asked_for sink volume s).error ≡ true
      → hook_user_volume_change rec sink volume s
        ≡ some (record { error = e_ok; sys = under_way sink volume s })
  unfolding hook_user_volume_change ask_volume
  asks sink volume s idle nonzero none_open changes granted = ground arith

  settles :
      (sink : ℕ) (volume : ℤ) (s : Sys W)
      → IsUnused (asked_for sink volume s).handle s.sender.list_open_volume_changes
      → settle_volume rec (asked_for sink volume s).handle (under_way sink volume s) ≡ record s {
        world = rec.change_sink_main_volume volume sink (asked_for sink volume s).world;
      }
  unfolding settle_volume
  settles sink volume s unused =
      rw
        (
          take_volume-append (asked_for sink volume s).handle s.sender.list_open_volume_changes
              (change_of sink volume s) unused refl,
          settle_volume,
        )
        refl

  idle_call : (s : Sys W) → s.sender.stateflow ≡ sf_none → call_state_flow_handler rec s ≡ some s
  unfolding call_state_flow_handler
  idle_call s idle = ap (λ f. dispatch rec f s) idle

  -- An idle controller that the routing side grants a volume change, for a sink that has another main
  -- volume and no change under way, answers E_OK and notes the change, so that the sink's next request
  -- finds it; the acknowledgement with the request's handle, which no earlier change has, stores the
  -- new volume for the sink and leaves the controller as it was.
  pub hook_user_volume_change-ack :
      (sink : ℕ) (volume : ℤ) (s : Sys W)
      → s.sender.stateflow ≡ sf_none
      → sink ≢ 0
      → has_volume_change sink s.sender.list_open_volume_changes ≡ false
      → is_same (main_volume_of rec sink s) volume ≡ false
      → is_ok (asked_for sink volume s).error ≡ true
      → IsUnused (asked_for sink volume s).handle s.sender.list_open_volume_changes
      → (a : Answer W) × (hook_user_volume_change rec sink volume s ≡ some a)
        × (a.error ≡ e_ok)
        × (has_volume_change sink a.sys.sender.list_open_volume_changes ≡ true)
        × (cb_ack_set_sink_volume_change rec (asked_for sink volume s).handle a.sys
            ≡ some (record s {
              world = rec.change_sink_main_volume volume sink (asked_for sink volume s).world;
            }))
  unfolding cb_ack_set_sink_volume_change
  hook_user_volume_change-ack sink volume s idle nonzero none_open changes granted unused = (
    record { error = e_ok; sys = under_way sink volume s },
    asks sink volume s idle nonzero none_open changes granted,
    refl,
    has_volume_change-append sink s.sender.list_open_volume_changes _ refl,
    ap (call_state_flow_handler rec) (settles sink volume s unused) ∙ idle_call _ idle,
  )
