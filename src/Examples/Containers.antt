-- ===== src/Examples/Containers.antt =====
-- Container actions at concrete inputs, over leaf actions and over containers of them.
use audio_manager_plugins.Base.{ℕ, [], ◌∷◌, some, ◌≡◌, inl, refl, arith}
use audio_manager_plugins.Base.Int.{ℤ, pos}
use audio_manager_plugins.Action.{completed, error_stopped, Reply, IsLawful, ActionCommand}
use audio_manager_plugins.Action.Command
use audio_manager_plugins.Action.Command.{
  World, Command, new_command, command_ops, now, after_reading,
}
use audio_manager_plugins.Action.Command.Lifecycle.{command_ops-IsLawful}
use audio_manager_plugins.Action.Container.{Container, Clock, Script, new_container}
use audio_manager_plugins.Action.Container.Execute.Layout.{IsReady}
use audio_manager_plugins.Action.Container.Execute.Lawful.{container_ops-IsLawful}
use audio_manager_plugins.Action.Container.Undo.{undo}
use audio_manager_plugins.Action.Container.Undo.Settled.{Outcome}
use audio_manager_plugins.Action.Container.Undo.Rollback.{undo-rolls_back}
use audio_manager_plugins.Action.Container.Tree.{container_ops}
use audio_manager_plugins.Examples.Commands.{numbering, quiet}

abbrev pub reading : Clock (World ℕ)
reading w = (now w, after_reading w)

abbrev leaf : ℕ → Command
leaf id = new_command id (pos 0) (pos 0)

abbrev done_leaf : ℕ → Command
done_leaf id = record (leaf id) { status = completed }

abbrev pub e_aborted : ℤ
e_aborted = pos 9

-- A route of two steps that its _execute appends, and a root action above it.
abbrev route_script : Script Command
route_script = record {
  execute_result = pos 0;
  planned = leaf 1 ∷ leaf 2 ∷ [];
  undo_result = pos 0;
}

abbrev route : Container Command
route = new_container route_script

-- The route, stopped in its third step.
abbrev stopped : Container Command
stopped = record route {
  status = error_stopped;
  index = pos 2;
  error = pos 5;
  children = done_leaf 1 ∷ done_leaf 2 ∷ record (leaf 3) { status = completed; error = pos 5 } ∷ [];
}

-- A container with one child that is over and one that has not started.
abbrev pub halfway : Container Command
halfway = record route { children = done_leaf 1 ∷ leaf 2 ∷ [] }

abbrev pub leaf_ops : ActionCommand (World ℕ) Command
leaf_ops = command_ops numbering

container_ops-IsLawful_example :
    IsLawful (container_ops leaf_ops reading e_aborted) (IsReady leaf_ops (λ c. Unit))
container_ops-IsLawful_example =
    container_ops-IsLawful leaf_ops reading (λ c. Unit) (command_ops-IsLawful numbering) e_aborted
      refl

undo-rolls_back_example :
    (r : Reply (World ℕ) (Container Command)) × (undo leaf_ops reading stopped quiet ≡ some r)
    × Outcome leaf_ops reading [] r
undo-rolls_back_example =
    undo-rolls_back leaf_ops reading (λ c w. (Command.undo numbering c w, refl)) stopped quiet
      (inl refl) (omega arith) tt
