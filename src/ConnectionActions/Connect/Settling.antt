-- ===== src/ConnectionActions/Connect/Settling.antt =====
-- The life of a connect after its construction, CAmMainConnectionActionConnect.cpp with
-- registerTransitionAction of CAmMainConnectionElement.cpp.
use audio_manager_plugins.Base.{
  true, List, [], ◌∷◌, ◌++◌, Option, some, false, ◌≡◌, refl, append-nil, length, none, All, ap, sym,
  subst, ◌∙◌, append_assoc, Bool-cases, inl, inr, ◌==◌, if◌then◌else◌,
}
use audio_manager_plugins.Base.Int.{ℤ, pos}
use audio_manager_plugins.Action.{executing, completed, undoing, undo_complete, is_zero}
use audio_manager_plugins.MainConnection.{
  ConnectionState, cs_connecting, cs_connected, cs_disconnecting, cs_disconnected, cs_suspended,
  SourceState,
}
use audio_manager_plugins.MainConnection.Route.{is_on}
use audio_manager_plugins.MainConnection.Lists.{
  register_transition_action, unregister_transition_action,
}
use audio_manager_plugins.MainConnection.Lists.Transitions.{remove_transition-first}
use audio_manager_plugins.ConnectionActions.{
  e_ok, Effect, main_volume_updated, connection_state_change, Context, ConnectionAction,
  change_state, registered, unregistered, write_state, set_state_change_trigger,
}
use audio_manager_plugins.Action.Container.{Container, Clock, at_least, increment}
use audio_manager_plugins.Action.Container
use audio_manager_plugins.ConnectionActions.Hooks.{Hook, update_with}
use audio_manager_plugins.ConnectionActions.Connect.{
  starts_connecting, new_connect, undo, settle, update,
}
use audio_manager_plugins.ConnectionActions.States.{
  change_state-ongoing_transitions, set_state-state,
}

pub new_connect-registered :
    (a : ConnectionAction) (x : Context)
    → (new_connect a x).connection.ongoing_transitions
      ≡ x.connection.ongoing_transitions ++ a.id ∷ []
unfolding new_connect registered register_transition_action
new_connect-registered a x = elim (Bool-cases (starts_connecting x.connection.state)) [
  | inl y ↦ rw (y, change_state-ongoing_transitions cs_connecting e_ok x) refl
  | inr n ↦ rw n refl
]

new_connect-main_source :
    (a : ConnectionAction) (x : Context) → (new_connect a x).main_source ≡ x.main_source
unfolding new_connect registered change_state
new_connect-main_source a x = elim (Bool-cases (starts_connecting x.connection.state)) [
  | inl y ↦ rw y refl
  | inr n ↦ rw n refl
]

-- The connection has the state and the transitions, and the last effects are the update of its volume
-- and the trigger for the state.
abbrev pub HasSettled : ConnectionState → ℤ → ConnectionAction → Context → Option Context → Type 0
HasSettled s e a x o =
    (y : Context) × (before : List Effect) × (o ≡ some y)
    × (y.connection.state ≡ s)
    × (y.connection.ongoing_transitions ≡ x.connection.ongoing_transitions)
    × (y.effects
        ≡ before ++ main_volume_updated ∷ connection_state_change y.connection.name s e ∷ [])

settle-HasSettled :
    (s : ConnectionState) (e : ℤ) (a : ConnectionAction) (x y : Context)
    → All (λ t. (t == a.id) ≡ false) x.connection.ongoing_transitions
    → y.connection.ongoing_transitions ≡ x.connection.ongoing_transitions ++ a.id ∷ []
    → HasSettled s e a x (some (settle s e a y))
unfolding settle unregistered unregister_transition_action write_state set_state_change_trigger
settle-HasSettled s e a x y h at = (
  _,
  (write_state s y).effects,
  refl,
  set_state-state y.connection.state s,
  rw at (
      remove_transition-first a.id x.connection.ongoing_transitions [] h
      ∙ append-nil x.connection.ongoing_transitions),
  append_assoc (write_state s y).effects (main_volume_updated ∷ [])
        (connection_state_change _ _ _ ∷ [])
      ∙ ap
          (λ t.
            (write_state s y).effects
            ++ main_volume_updated ∷ connection_state_change y.connection.name t e ∷ [])
          (set_state-state y.connection.state s),
)

update-completed :
    (a : ConnectionAction) (x : Context) (source : SourceState)
    → x.main_source ≡ some source
    → update (pos 0) completed a x
      ≡ some (settle (if is_on source then cs_connected else cs_suspended) (pos 0) a x)
unfolding update
update-completed a x source at = simp at

update-undo_complete :
    (result : ℤ) (a : ConnectionAction) (x : Context)
    → update result undo_complete a x ≡ some (settle cs_disconnected result a x)
unfolding update
update-undo_complete result a x = elim (Bool-cases (is_zero result)) [
  | inl y ↦ rw y refl
  | inr n ↦ rw n refl
]

-- _update of the action as the container calls it.
abbrev pub hook : ConnectionAction → Hook
hook a result status x = update result status a x

only_settled : {A : Type 0} (o : Option A) → elim o [ none ↦ none | some y ↦ some y ] ≡ o
only_settled none = refl
only_settled (some y) = refl

-- The update of a container after its last child, and the one at the end of its undo.
update_with-last :
    {C : Type 0} (a : ConnectionAction) (b : Container C) (y : Context)
    → b.status ≡ executing
    → at_least (increment b.index) (length b.children) ≡ true
    → update_with (hook a) (pos 0) b y ≡ update (pos 0) completed a y
unfolding update_with Container.update
update_with-last a b y runs last = rw (runs, last) (only_settled (update (pos 0) completed a y))

update_with-undone :
    {C : Type 0} (result : ℤ) (a : ConnectionAction) (b : Container C) (y : Context)
    → b.status ≡ undoing
    → at_least b.index 0 ≡ false
    → update_with (hook a) result b y ≡ update result undo_complete a y
unfolding update_with Container.update
update_with-undone result a b y undoes first =
    rw (undoes, first) (only_settled (update result undo_complete a y))

module _ {C : Type 0} (a : ConnectionAction) (x : Context)
    (fresh : All (λ t. (t == a.id) ≡ false) x.connection.ongoing_transitions) where
  -- A connect whose action was not registered, of a connection with a main source. When the container is
  -- updated without an error after its last child, the connection is connected if the main source is on
  -- and suspended if not. When it is updated, with whatever result, at the end of the undo of its
  -- children, the connection is disconnected. Either way the action is unregistered, the main volume is
  -- updated, and then the trigger for the new state and the result is queued.
  pub update-settles :
      (result : ℤ) (source : SourceState) (last undone : Container C)
      → x.main_source ≡ some source
      → last.status ≡ executing
      → at_least (increment last.index) (length last.children) ≡ true
      → undone.status ≡ undoing
      → at_least undone.index 0 ≡ false
      → HasSettled
          (if is_on source then cs_connected else cs_suspended)
          (pos 0)
          a
          x
          (update_with (hook a) (pos 0) last (new_connect a x))
        × HasSettled cs_disconnected result a x
            (update_with (hook a) result undone (undo a (new_connect a x)))
  unfolding undo
  update-settles result source last undone at runs is_last undoes is_first = (
    subst (HasSettled (if is_on source then cs_connected else cs_suspended) (pos 0) a x)
        (sym (
          update_with-last a last (new_connect a x) runs is_last
          ∙ update-completed a (new_connect a x) source (new_connect-main_source a x ∙ at)))
        (settle-HasSettled _ (pos 0) a x (new_connect a x) fresh (new_connect-registered a x)),
    subst (HasSettled cs_disconnected result a x)
        (sym (
          update_with-undone result a undone (undo a (new_connect a x)) undoes is_first
          ∙ update-undo_complete result a (undo a (new_connect a x))))
        (settle-HasSettled cs_disconnected result a x (undo a (new_connect a x)) fresh (
          change_state-ongoing_transitions cs_disconnecting a.error (new_connect a x)
          ∙ new_connect-registered a x)),
  )
