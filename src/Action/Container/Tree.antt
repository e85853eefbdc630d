-- ===== src/Action/Container/Tree.antt =====
-- Containers as children of containers, so that actions form trees.
use audio_manager_plugins.Base.Int.{ℤ}
use audio_manager_plugins.Action.{ActionCommand}
use audio_manager_plugins.Action.Container.{Container, Clock}
use audio_manager_plugins.Action.Container.Execute.{execution_time_of, execute}
use audio_manager_plugins.Action.Container.Undo.{undo}
use audio_manager_plugins.Action.Container.Children.{cleanup}

-- A container as a child of another one, and two kinds of actions as children of one container.
abbrev pub container_ops :
    {W C : Type 0} → ActionCommand W C → Clock W → ℤ → ActionCommand W (Container C)
container_ops ops clock e_aborted = record {
  get_status = λ b. b.status;
  get_error = λ b. b.error;
  get_execution_time = execution_time_of ops clock;
  set_timeout = λ t b. record b { timeout = t };
  execute = execute ops clock e_aborted;
  undo = undo ops clock;
  cleanup = cleanup ops (λ b. b);
}
