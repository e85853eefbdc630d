-- ===== src/Action/Container/Children.antt =====
-- How a container's vector of children changes: append, insert and cleanup of CAmActionContainer.cpp,
-- and the cleanup of CAmRootAction.cpp.
pub mod Laws
use audio_manager_plugins.Base.{
  ℕ, zero, suc, ◌+◌, ◌-◌, ◌%◌, ◌^◌, List, [], ◌∷◌, ◌++◌, Option, none, some, Bool, true, false, ltb,
  leb, ◌==◌, if◌then◌else◌, ◌&&◌, ◌||◌, length, is_empty, get_elem?, not,
}
use audio_manager_plugins.Base.Int.{ℤ, pos, negsuc}
use audio_manager_plugins.Action.{
  ActionState, not_started, executing, completed, undoing, undo_complete, error_stopped,
  is_not_started, is_executing, is_positive, is_zero, infinite_timeout, Reply, ActionCommand,
}
use audio_manager_plugins.Action.Command.{Time, time_difference}
use audio_manager_plugins.Action.Container.{
  Container, Clock, Script, Noted, update, deliver, is_completed, is_undoing, is_undo_complete,
  is_error_stopped, decrement, at_least, child_at, put_child, reply,
}

module _ {W C : Type 0} (ops : ActionCommand W C) where
  open ops use {get_status}

  abbrev is_disposable : ActionState → C → Bool
  is_disposable own c =
      is_undo_complete (get_status c)
      || is_completed (get_status c)
      || is_not_started (get_status c) && is_undo_complete own

  -- The children that cleanup leaves: it cleans up and deletes from the front, up to the first that has
  -- to stay. What a deleted child's own cleanup does beyond the child is left out.
  unfoldable pub remaining : ActionState → List C → List C
  remaining own [] = []
  remaining own (c ∷ cs) =
      let rest = remaining own cs in if is_disposable own c then rest else c ∷ cs

  -- `clean` is the virtual _cleanup, called when no child is left.
  unfoldable pub cleanup : (Container C → Container C) → Container C → Container C
  unfolding remaining
  cleanup clean b =
      let left = record b { children = remaining b.status b.children } in
      record (if is_empty left.children then clean left else left) {
        index = pos 0;
        execution_time = 0;
        undo_time = 0;
      }

  insert_child : C → List C → List C
  insert_child c [] = c ∷ []
  insert_child c (x ∷ xs) =
      let rest = insert_child c xs in if is_not_started (get_status x) then c ∷ x ∷ xs else x ∷ rest

  -- A null command is not appended.
  pub append : Option C → Container C → Container C
  append none b = b
  append (some c) b = record b { children = b.children ++ c ∷ [] }

  -- Before the first child that has not started.
  pub insert : C → Container C → Container C
  unfolding insert_child append
  insert c b =
      if is_empty b.children
      then append (some c) b
      else record b { children = insert_child c b.children }

-- CAmRootAction::_cleanup
unfoldable pub root_cleanup : {C : Type 0} → Container C → Container C
root_cleanup b = record b { status = not_started; error = pos 0 }
