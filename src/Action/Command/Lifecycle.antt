-- ===== src/Action/Command/Lifecycle.antt =====
-- The life of a leaf action, CAmActionCommand.cpp: which states its calls lead to, and what its
-- parent hears.
use audio_manager_plugins.Base.{[], ◌∷◌, ◌≡◌, refl, ◌⊎◌, arith, ◌≢◌}
use audio_manager_plugins.Base.Int.{ℤ}
use audio_manager_plugins.Action.{
  ActionState, not_started, executing, completed, undoing, undo_complete, Reply, IsLawful,
}
use audio_manager_plugins.Action.Timer.{SocketHandler}
use audio_manager_plugins.Action.Command.{
  World, Command, set_timeout, execute, undo, update, command_ops,
}

-- The transitions of a leaf action that is only updated while it waits for an answer.
infix 40 ◌⟶◌
pub data ◌⟶◌ : ActionState → ActionState → Type 0 where
  stays : {s : ActionState} → s ⟶ s
  waits : not_started ⟶ executing
  finishes : not_started ⟶ completed
  answered : executing ⟶ completed
  undo_waits : completed ⟶ undoing
  undo_finishes : completed ⟶ undo_complete
  undo_answered : undoing ⟶ undo_complete

-- The calls that the controller makes of a leaf action.
pub data Call : Type 0 where
  executes undoes : Call
  updates : ℤ → Call

module _ {S : Type 0} (sh : SocketHandler S) where
  unfoldable pub call : Call → Command → World S → Reply (World S) Command
  call executes c w = execute sh c w
  call undoes c w = undo sh c w
  call (updates e) c w = update sh e c w

  -- An update comes as the answer to a request, so the action is waiting for it.
  abbrev pub IsAwaited : Call → Command → Type 0
  IsAwaited executes c = Unit
  IsAwaited undoes c = Unit
  IsAwaited (updates e) c = (c.status ≡ executing) ⊎ (c.status ≡ undoing)

  ruleset edges = (stays, waits, finishes, answered, undo_waits, undo_finishes, undo_answered)

  execute-⟶ : (c : Command) (w : World S) → c.status ⟶ (execute sh c w).self.status
  unfolding execute
  execute-⟶ c w = grind (arith, edges)

  undo-⟶ : (c : Command) (w : World S) → c.status ⟶ (undo sh c w).self.status
  unfolding undo
  undo-⟶ c w = grind (arith, edges)

  update-⟶ :
      (e : ℤ) (c : Command) (w : World S)
      → IsAwaited (updates e) c
      → c.status ⟶ (update sh e c w).self.status
  unfolding update
  update-⟶ e c w h = grind (arith, edges)

  -- Every call follows an edge of the life cycle, if updates only come while the action waits for an
  -- answer: a leaf action is started once, finished once and undone once, and it never stops in error.
  pub call-⟶ :
      (k : Call) (c : Command) (w : World S) → IsAwaited k c → c.status ⟶ (call k c w).self.status
  unfolding call
  call-⟶ executes c w h = execute-⟶ c w
  call-⟶ undoes c w h = undo-⟶ c w
  call-⟶ (updates e) c w h = update-⟶ e c w h

  -- If updates only come while the action waits for an answer, the parent hears of a call exactly when
  -- it takes the action to the end of its execution or of its undo, and then once, with the error code
  -- that the action keeps.
  pub call-notes :
      (k : Call) (c : Command) (w : World S)
      → IsAwaited k c
      → let r = call k c w in
        ((r.notes ≡ [])
          × ((r.self.status ≡ c.status) ⊎ (r.self.status ≡ executing) ⊎ (r.self.status ≡ undoing)))
        ⊎ ((r.notes ≡ r.self.error ∷ [])
            × (r.self.status ≢ c.status)
            × ((r.self.status ≡ completed) ⊎ (r.self.status ≡ undo_complete)))
  unfolding call execute undo update
  call-notes executes c w h = ground arith
  call-notes undoes c w h = ground arith
  call-notes (updates e) c w h = ground arith

  -- A leaf action keeps the contract of an action in whatever state.
  pub command_ops-IsLawful : IsLawful (command_ops sh) (λ c. Unit {0})
  unfolding execute set_timeout
  command_ops-IsLawful = record {
    execute_returns = λ c w live good. (execute sh c w, refl, tt, ground arith);
    set_timeout_status = λ t c. refl;
    set_timeout_good = λ t c good. tt;
  }
