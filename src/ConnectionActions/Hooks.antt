-- ===== src/ConnectionActions/Hooks.antt =====
-- A container that calls _update of its concrete action: CAmActionContainer::update calls it with the new
-- status just before each notification, and undo calls _undo where undo is required, CAmActionContainer.cpp.
use audio_manager_plugins.Base.{List, [], ◌∷◌, Option, none, some, ◌&&◌, if◌then◌else◌}
use audio_manager_plugins.Base.Int.{ℤ}
use audio_manager_plugins.Action.{ActionState, ActionCommand}
use audio_manager_plugins.Action.Container.{Container, Clock}
use audio_manager_plugins.Action.Container
use audio_manager_plugins.Action.Container.Undo.{may_undo}
use audio_manager_plugins.Action.Container.Undo
use audio_manager_plugins.ConnectionActions.{Context}

-- _update of a concrete action, for its result and the status of the container.
abbrev pub Hook : Type 0
Hook = ℤ → ActionState → Context → Option Context

-- The calls of _update that go with the notifications.
abbrev pub run_hook : Hook → ActionState → List ℤ → Context → Option Context
run_hook hook status [] x = some x
run_hook hook status (e ∷ es) x = elim (hook e status x) [
  | none ↦ none
  | some y ↦ run_hook hook status es y
]

-- The connection after CAmActionContainer::update.
unfoldable pub update_with : {C : Type 0} → Hook → ℤ → Container C → Context → Option Context
update_with hook result b x =
    let u = Container.update result b in run_hook hook u.box.status u.notes x

-- The connection after CAmActionContainer::undo, with _undo of the concrete action.
unfoldable pub undo_with :
    {W C : Type 0}
    → Hook
    → (Context → Context)
    → ActionCommand W C
    → Clock W
    → Container C
    → W
    → Context
    → Option Context
undo_with hook undo ops clock b w x = elim (Undo.undo ops clock b w) [
  | none ↦ none
  | some r ↦
      run_hook hook r.self.status r.notes
        (if may_undo ops clock b && b.undo_required then undo x else x)
]
