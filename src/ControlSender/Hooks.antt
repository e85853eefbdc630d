-- ===== src/ControlSender/Hooks.antt =====
-- The user's requests to CAmControlSenderBase.cpp. A request without an answer is one that aborts on
-- an assertion or reads out of bounds.
pub mod Volumes
use audio_manager_plugins.Base.{
  ℕ, List, [], ◌∷◌, ◌++◌, Option, none, some, Bool, true, false, ◌==◌, ◌&&◌, ◌||◌, not,
  if◌then◌else◌, is_empty,
}
use audio_manager_plugins.Base.Int.{ℤ, pos, negsuc, ◌+ℤ◌, ◌*ℤ◌, int16, is_same}
use audio_manager_plugins.ControlSender.{
  Error, e_ok, e_already_exists, e_no_change, e_not_possible, e_non_existent, cs_connecting,
  MainConnection, SoundProperty, MuteState, ms_muted, RampType, ramp_unknown, ramp_genivi_direct,
  ControlReceive, MainVolumeSet, MainSinkSoundPropertySet, Stateflow, sf_none, sf_connect, sf_navi,
  sf_ta, sfc_ramp_down, sfc_connect, navc_ramp_down_again, ta_ramp_down_again, ConnectData,
  ControlSender, Sys,
}
use audio_manager_plugins.ControlSender.Pending.{is_ok, disconnect}
use audio_manager_plugins.ControlSender.Flow.{
  volume_of, to_navi, to_traffic, call_state_flow_handler,
}

pub record Answer (W : Type 0) : Type 0 where
  pub error : Error
  pub sys : Sys W

-- With the out-parameter mainConnectionID.
pub record ConnectAnswer (W : Type 0) : Type 0 where
  pub error : Error
  pub main_connection_id : ℕ
  pub sys : Sys W

abbrev pub is_idle : Stateflow → Bool
is_idle sf_none = true
is_idle _ = false

-- What the search of the main connections found, and what it left in mConnectData.
pub record Scanned : Type 0 where
  pub is_duplicate : Bool
  pub has_player : Bool
  pub connect_data : ConnectData

-- mainConnectionData
abbrev pub new_connection : ℕ → ℕ → MainConnection
new_connection source sink = record {
  main_connection_id = 0;
  source_id = source;
  sink_id = sink;
  connection_state = cs_connecting;
  delay = 0;
  list_connection_id = [];
}

module _ {W : Type 0} where
  abbrev pub answer : Error → Sys W → Option (Answer W)
  answer e s = some (record { error = e; sys = s })

  abbrev pub answer_ok : Option (Sys W) → Option (Answer W)
  answer_ok none = none
  answer_ok (some s) = answer e_ok s

  abbrev pub connected_as : ℕ → Option (Sys W) → Option (ConnectAnswer W)
  connected_as id none = none
  connected_as id (some s) = some (record { error = e_ok; main_connection_id = id; sys = s })

module _ {W : Type 0} (rec : ControlReceive W) where
  -- `class` is what tempSourceClass holds; a main connection from a source of class 1 is the player's.
  unfoldable pub scan : ℕ → ℕ → ℕ → W → Scanned → List MainConnection → Scanned
  scan source sink class w found [] = found
  scan source sink class w found (c ∷ cs) =
      let class' = rec.get_source_class c.source_id class w in
      let rest =
        scan source sink class' w
          (if class' == 1
            then record found {
              has_player = true;
              connect_data = record found.connect_data {
                current_main_connection = c.main_connection_id;
                old_source_id = c.source_id;
              };
            }
            else found)
          cs in
      if c.sink_id == sink && (c.source_id == source)
      then record found { is_duplicate = true }
      else rest

  -- The flow that a source class starts, always with mConnectSf as its first step.
  abbrev pub begin_flow : ℕ → Bool → ControlSender → ControlSender
  begin_flow class has_player c =
      let first = if has_player then sfc_ramp_down else sfc_connect in
      if class == 1
      then record c { connect_sf = first; stateflow = sf_connect }
      else if class == 2
      then record c { connect_sf = first; stateflow = sf_navi }
      else if class == 3
      then record c { connect_sf = first; stateflow = sf_ta }
      else c

  -- The request once nothing speaks against it, up to the call of the flow.
  unfoldable pub accept : ℕ → ℕ → Scanned → Sys W → ℕ × Sys W
  accept source sink found s =
      let class = rec.get_source_class source rec.fresh_source_class s.world in
      let (id, w) = rec.enter_main_connection (new_connection source sink) s.world in
      (
        id,
        record {
          sender = begin_flow class found.has_player (record s.sender {
            connect_data = record found.connect_data {
              new_main_connection = id;
              source_id = source;
              sink_id = sink;
            };
          });
          world = w;
        },
      )

  -- The search of all main connections, from mConnectData as it is.
  abbrev pub found_for : ℕ → ℕ → Sys W → Scanned
  unfolding scan
  found_for source sink s =
      scan source sink rec.fresh_source_class s.world
        (record { is_duplicate = false; has_player = false; connect_data = s.sender.connect_data })
        (rec.get_list_main_connections s.world)

  -- The accepted request with the first call of its flow.
  unfoldable pub launch : ℕ × Sys W → Option (ConnectAnswer W)
  launch (id, s) = connected_as id (call_state_flow_handler rec s)

  -- The request to a controller that is in no flow.
  unfoldable pub consider : ℕ → ℕ → ℕ → Sys W → Option (ConnectAnswer W)
  unfolding accept launch
  consider source sink id s =
      if is_empty (rec.get_route source sink s.world)
      then some (record { error = e_not_possible; main_connection_id = id; sys = s })
      else if (found_for source sink s).is_duplicate
      then some (record {
        error = e_already_exists;
        main_connection_id = id;
        sys = record s {
          sender = record s.sender { connect_data = (found_for source sink s).connect_data };
        };
      })
      else launch (accept source sink (found_for source sink s) s)

  unfoldable pub hook_user_connection_request : ℕ → ℕ → ℕ → Sys W → Option (ConnectAnswer W)
  unfolding consider
  hook_user_connection_request source sink id s =
      if is_idle s.sender.stateflow
      then consider source sink id s
      else some (record { error = e_not_possible; main_connection_id = id; sys = s })

  abbrev pub disconnection_in : Stateflow → ℕ → Sys W → Option (Answer W)
  disconnection_in sf_navi id s =
      answer_ok (call_state_flow_handler rec (to_navi navc_ramp_down_again s))
  disconnection_in sf_ta id s =
      answer_ok (call_state_flow_handler rec (to_traffic ta_ramp_down_again s))
  disconnection_in sf_connect id s = answer e_not_possible s
  disconnection_in sf_none id s = answer e_ok (disconnect rec id s)

  unfoldable pub hook_user_disconnection_request : ℕ → Sys W → Option (Answer W)
  hook_user_disconnection_request id s = disconnection_in s.sender.stateflow id s
