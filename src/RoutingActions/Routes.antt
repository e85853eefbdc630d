-- ===== src/RoutingActions/Routes.antt =====
-- A route through the connection of an action, its acknowledgement and its undo.
use audio_manager_plugins.Base.{
  ℕ, Bool, ◌⊎◌, Option, none, some, true, ◌≡◌, ◌⊎◌, Bool, if◌then◌else◌,
}
use mathlib.Core.Option
use audio_manager_plugins.Action.{is_negative}
use audio_manager_plugins.HandleStore.{MapHandles, u_handle, find}
use audio_manager_plugins.MainConnection.{ConnectionState}
use audio_manager_plugins.RoutingActions.{RouteElement, RouteAction, Outcome}

-- An answer to a call: a route, which waits or has kept its state, and with it the store.
abbrev Kept : ConnectionState → MapHandles ℕ → RouteElement → Outcome RouteAction → Type 0
Kept s m e out = (is_negative out.result ≡ true) ⊎ ((e.state ≡ s) × (out.handles ≡ m))

abbrev Answered : ConnectionState → MapHandles ℕ → Option (Outcome RouteAction) → Type 0
Answered s m o =
    (out : Outcome RouteAction) × (e : RouteElement) × (o ≡ some out)
    × (out.action.route ≡ some e)
    × Kept s m e out

-- An update has an outcome; it leaves the state, and the handle of the action in no store.
abbrev pub Settles : ConnectionState → RouteAction → Option (Outcome RouteAction) → Type 0
Settles s a o =
    (out : Outcome RouteAction) × (e : RouteElement) × (o ≡ some out)
    × (out.action.route ≡ some e)
    × (e.state ≡ s)
    × (find (u_handle a.handle) out.handles ≡ none)

-- What a call leaves once it is over, for the state that the update means and the one from before.
abbrev Ended :
    ConnectionState
    → ConnectionState
    → MapHandles ℕ
    → Outcome RouteAction
    → Option (Outcome RouteAction)
    → Type 0
Ended after before m out o =
    (end : Outcome RouteAction) × (e : RouteElement) × (o ≡ some end)
    × (end.action.route ≡ some e)
    × (e.state ≡ (if is_negative out.result then after else before))
    × (find (u_handle out.action.handle) end.handles
        ≡ (if is_negative out.result then none else find (u_handle out.action.handle) m))
