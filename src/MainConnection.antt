-- ===== src/MainConnection.antt =====
-- The main connections of the generic controller:
-- PluginControlInterfaceGeneric/src/CAmMainConnectionElement.cpp. A route is a list of segments from
-- the main source to the main sink; a null pointer is none, and a call without a result reads one.
pub mod Route
pub mod Filter
pub mod Lists
use audio_manager_plugins.Base.{ℕ, List, [], ◌∷◌, Option, none, some, Bool, true, false, ◌==◌, ◌&&◌}
use audio_manager_plugins.Base.Int.{ℤ}
use audio_manager_plugins.ControlSender.{MuteState}

-- The characters of a std::string.
abbrev pub Name : Type 0
Name = List ℕ

abbrev pub same_name : Name → Name → Bool
same_name [] [] = true
same_name (x ∷ xs) (y ∷ ys) = x == y && same_name xs ys
same_name _ _ = false

-- am_ConnectionState_e
pub data ConnectionState : Type 0 where
  cs_unknown cs_connecting cs_connected cs_disconnecting cs_disconnected cs_suspended :
      ConnectionState

-- am_Availability_e
pub data Availability : Type 0 where
  a_unknown a_available a_unavailable : Availability

-- am_SourceState_e
pub data SourceState : Type 0 where
  ss_unknown ss_on ss_off ss_paused : SourceState

-- CAmRoutePointElement: a source or a sink, `id` its pointer.
pub record RoutePoint : Type 0 where
  pub id : ℕ
  pub name : Name
  pub availability : Availability
  pub volume_support : Bool
  pub volume : ℤ
  pub offset_volume : ℤ
  pub mute_state : MuteState

-- CAmRouteElement
pub record RouteElement : Type 0 where
  pub state : ConnectionState
  pub priority : ℤ
  pub source : Option RoutePoint
  pub sink : Option RoutePoint

-- The comparison of two states.
abbrev pub same_state : ConnectionState → ConnectionState → Bool
same_state cs_unknown cs_unknown = true
same_state cs_connecting cs_connecting = true
same_state cs_connected cs_connected = true
same_state cs_disconnecting cs_disconnecting = true
same_state cs_disconnected cs_disconnected = true
same_state cs_suspended cs_suspended = true
same_state _ _ = false

-- CAmMainConnectionElement; `id` is its pointer.
pub record MainConnectionElement : Type 0 where
  pub id : ℕ
  pub name : Name
  pub class_name : Name
  pub main_source_name : Name
  pub main_sink_name : Name
  pub state : ConnectionState  -- as stored in the database
  pub list_route_elements : List RouteElement
  pub route_subjects : List RouteElement  -- what getListElements(ET_ROUTE) collects of its subjects
  pub ongoing_transitions : List ℕ
