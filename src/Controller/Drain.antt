-- ===== src/Controller/Drain.antt =====
-- iterateActions of CAmControllerPlugin.cpp with triggers for which the policy appends no action.
use audio_manager_plugins.Base.{ℕ, List, [], ◌∷◌, Option, some, ◌≡◌, map}
use audio_manager_plugins.Base.Int.{ℤ, pos}
use audio_manager_plugins.Action.{not_started, ActionCommand}
use audio_manager_plugins.Action.Container.{Container, Clock}
use audio_manager_plugins.TriggerQueue.{TriggerQueue, empty}
use audio_manager_plugins.Controller.{Controller, Policy, pass_with, iterate_actions}
use audio_manager_plugins.Controller.Service.{IsIdle}

-- A root action at rest: CAmRootAction takes _execute from CAmActionContainer, which answers 0.
abbrev pub at_rest : {C : Type 0} → ℤ → Container C → Container C
at_rest undo_result b = record b {
  status = not_started;
  index = pos 0;
  children = [];
  script = record { execute_result = pos 0; planned = []; undo_result = undo_result };
}

-- Triggers that carry data, the urgent ones and the others.
abbrev pub loaded : {T D : Type 0} → T × D → T × Option D
loaded (t, d) = (t, some d)

abbrev pub queue_of : {T D : Type 0} → List (T × D) → List (T × D) → TriggerQueue T D
queue_of urgent normal = record {
  list_trigger = map loaded normal;
  list_priority = map loaded urgent;
}

module _ {W C T D : Type 0} (ops : ActionCommand W C) (clock : Clock W) (e_aborted : ℤ)
    (act : T → D → W → W) (t0 : T) (u : ℤ) where
  -- A policy that appends no action.
  abbrev pub acting : Policy W C T D
  acting t d c = record c { world = act t d c.world }

  -- The two readings of the clock in a pass over the root action at rest.
  abbrev pub after_pass : W → W
  after_pass w = (clock (clock w).1).1

  -- The world after the passes that serve these triggers, and the last pass.
  abbrev pub served : List (T × D) → W → W
  served [] w = after_pass w
  served ((t, d) ∷ xs) w = served xs (act t d (after_pass w))

  abbrev rested : Container C → W → Container C
  rested b w = record b {
    start_time = (clock w).0;
    error = pos 0;
    execution_time = 0;
    undo_time = 0;
  }

  abbrev resting : Container C → List (T × D) → List (T × D) → W → Controller W C T D
  resting b urgent normal w = record {
    root = at_rest u b;
    queue = queue_of urgent normal;
    world = w;
  }

  abbrev loop : ℕ → Controller W C T D → Option (Controller W C T D)
  loop = iterate_actions ops clock e_aborted acting t0

  abbrev rest_of : ℕ → Option (Controller W C T D) → Option (Controller W C T D)
  unfolding pass_with
  rest_of n o = pass_with ops clock e_aborted acting t0 (loop n) o

  abbrev pub Drained : List (T × D) → W → Option (Controller W C T D) → Type 0
  Drained triggers w o =
      (r : Controller W C T D) × (o ≡ some r)
      × (r.queue ≡ empty)
      × (r.world ≡ served triggers w)
      × IsIdle r
