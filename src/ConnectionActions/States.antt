-- ===== src/ConnectionActions/States.antt =====
-- The state and the transitions of the connection of an action.
use audio_manager_plugins.Base.{◌≡◌, refl}
use audio_manager_plugins.Base.Int.{ℤ}
use audio_manager_plugins.MainConnection.{
  ConnectionState, cs_unknown, cs_connecting, cs_connected, cs_disconnecting, cs_disconnected,
  cs_suspended,
}
use audio_manager_plugins.MainConnection.Route.{set_state}
use audio_manager_plugins.ConnectionActions.{Context, change_state}

-- A state that is set is the state, whether it was or not.
pub set_state-state : (stored new : ConnectionState) → (set_state stored new).0 ≡ new
unfolding set_state
set_state-state cs_unknown cs_unknown = refl
set_state-state cs_unknown cs_connecting = refl
set_state-state cs_unknown cs_connected = refl
set_state-state cs_unknown cs_disconnecting = refl
set_state-state cs_unknown cs_disconnected = refl
set_state-state cs_unknown cs_suspended = refl
set_state-state cs_connecting cs_unknown = refl
set_state-state cs_connecting cs_connecting = refl
set_state-state cs_connecting cs_connected = refl
set_state-state cs_connecting cs_disconnecting = refl
set_state-state cs_connecting cs_disconnected = refl
set_state-state cs_connecting cs_suspended = refl
set_state-state cs_connected cs_unknown = refl
set_state-state cs_connected cs_connecting = refl
set_state-state cs_connected cs_connected = refl
set_state-state cs_connected cs_disconnecting = refl
set_state-state cs_connected cs_disconnected = refl
set_state-state cs_connected cs_suspended = refl
set_state-state cs_disconnecting cs_unknown = refl
set_state-state cs_disconnecting cs_connecting = refl
set_state-state cs_disconnecting cs_connected = refl
set_state-state cs_disconnecting cs_disconnecting = refl
set_state-state cs_disconnecting cs_disconnected = refl
set_state-state cs_disconnecting cs_suspended = refl
set_state-state cs_disconnected cs_unknown = refl
set_state-state cs_disconnected cs_connecting = refl
set_state-state cs_disconnected cs_connected = refl
set_state-state cs_disconnected cs_disconnecting = refl
set_state-state cs_disconnected cs_disconnected = refl
set_state-state cs_disconnected cs_suspended = refl
set_state-state cs_suspended cs_unknown = refl
set_state-state cs_suspended cs_connecting = refl
set_state-state cs_suspended cs_connected = refl
set_state-state cs_suspended cs_disconnecting = refl
set_state-state cs_suspended cs_disconnected = refl
set_state-state cs_suspended cs_suspended = refl

pub change_state-state :
    (s : ConnectionState) (e : ℤ) (x : Context) → (change_state s e x).connection.state ≡ s
unfolding change_state
change_state-state s e x = set_state-state x.connection.state s

pub change_state-ongoing_transitions :
    (s : ConnectionState) (e : ℤ) (x : Context)
    → (change_state s e x).connection.ongoing_transitions ≡ x.connection.ongoing_transitions
unfolding change_state
change_state-ongoing_transitions s e x = refl
