-- ===== src/Controller.antt =====
-- The loop of the generic controller: iterateActions of
-- PluginControlInterfaceGeneric/src/CAmControllerPlugin.cpp, over the root action and the trigger queue.
-- What the policy engine does for a trigger is a parameter, as are the actions.
pub mod Service
pub mod Drain
use audio_manager_plugins.Base.{
  ℕ, zero, suc, List, [], ◌∷◌, Option, none, some, Bool, true, false, ◌||◌, if◌then◌else◌, is_empty,
}
use audio_manager_plugins.Base.Int.{ℤ}
use audio_manager_plugins.Action.{ActionCommand, is_not_started, Reply}
use audio_manager_plugins.Action.Container.{Container, Clock, is_error_stopped, is_undoing}
use audio_manager_plugins.Action.Container.Execute.{execute}
use audio_manager_plugins.Action.Container.Undo.{undo}
use audio_manager_plugins.Action.Container.Children.{cleanup, root_cleanup}
use audio_manager_plugins.TriggerQueue.{TriggerQueue, Dequeued, dequeue}

pub record Controller (W C T D : Type 0) : Type 0 where
  pub root : Container C
  pub queue : TriggerQueue T D
  pub world : W

-- _forwardTriggertoPolicyEngine
abbrev pub Policy : Type 0 → Type 0 → Type 0 → Type 0 → Type 0
Policy W C T D = T → D → Controller W C T D → Controller W C T D

-- Where a pass of the loop leaves the controller.
pub data Pass (X : Type 0) : Type 0 where
  stops : X → Pass X
  goes_on : X → Pass X

module _ {W C T D : Type 0} (ops : ActionCommand W C) (clock : Clock W) (e_aborted : ℤ) where
  abbrev pub with_root : Controller W C T D → Reply W (Container C) → Controller W C T D
  with_root c r = record c { root = r.self; world = r.world }

  -- The root action has no parent, so that what it notifies is lost.
  unfoldable pub undo_root :
      Controller W C T D → Reply W (Container C) → Option (Reply W (Container C))
  undo_root c r =
      if is_error_stopped r.self.status || is_undoing r.self.status
      then undo ops clock r.self r.world
      else some r

  abbrev pub clean_root :
      Controller W C T D → Option (Reply W (Container C)) → Option (Controller W C T D)
  clean_root c none = none
  clean_root c (some r) = some (with_root c (record r { self = cleanup ops root_cleanup r.self }))

  abbrev pub undo_and_clean :
      Controller W C T D → Option (Reply W (Container C)) → Option (Controller W C T D)
  unfolding undo_root
  undo_and_clean c none = none
  undo_and_clean c (some r) = clean_root c (undo_root c r)

  -- Execution, undo and cleanup of the root action.
  unfoldable pub run_root : Controller W C T D → Option (Controller W C T D)
  unfolding undo_and_clean
  run_root c = undo_and_clean c (execute ops clock e_aborted c.root c.world)

module _ {W C T D : Type 0} (forward : Policy W C T D) (t0 : T) where
  abbrev pub again_if_not_started : Controller W C T D → Pass (Controller W C T D)
  again_if_not_started c = if is_not_started c.root.status then goes_on c else stops c

  -- The dequeued trigger goes to the policy engine; the loop ends when there is none.
  abbrev pub serve_element : Option D → T → Controller W C T D → Pass (Controller W C T D)
  serve_element none t c = stops c
  serve_element (some d) t c = again_if_not_started (forward t d c)

  unfoldable pub serve_trigger : Controller W C T D → Pass (Controller W C T D)
  serve_trigger c =
      let next = dequeue t0 c.queue in
      if is_not_started c.root.status
      then (if is_empty c.root.children
          then serve_element next.element next.trigger_type (record c { queue = next.rest })
          else stops c)
      else stops c

module _ {W C T D : Type 0} (ops : ActionCommand W C) (clock : Clock W) (e_aborted : ℤ)
    (forward : Policy W C T D) (t0 : T) where
  abbrev pub continue_with :
      (Controller W C T D → Option (Controller W C T D))
      → Pass (Controller W C T D)
      → Option (Controller W C T D)
  continue_with loop (stops c) = some c
  continue_with loop (goes_on c) = loop c

  abbrev pub pass_with :
      (Controller W C T D → Option (Controller W C T D))
      → Option (Controller W C T D)
      → Option (Controller W C T D)
  unfolding serve_trigger
  pass_with loop none = none
  pass_with loop (some c) = continue_with loop (serve_trigger forward t0 c)

  -- The passes of the loop, as many as the fuel allows.
  unfoldable pub iterate_actions : ℕ → Controller W C T D → Option (Controller W C T D)
  unfolding run_root pass_with
  iterate_actions zero c = none
  iterate_actions (suc n) c = pass_with (iterate_actions n) (run_root ops clock e_aborted c)
