-- ===== src/Action/Container/Undo.antt =====
-- CAmActionContainer::undo. A container with no reply reads its vector of children out of bounds.
pub mod Settled
pub mod Rollback
pub mod Childless
use audio_manager_plugins.Base.{
  ℕ, zero, suc, ◌+◌, ◌-◌, ◌%◌, ◌^◌, List, [], ◌∷◌, ◌++◌, Option, none, some, Bool, true, false, ltb,
  leb, ◌==◌, if◌then◌else◌, ◌&&◌, ◌||◌, length, get_elem?, not,
}
use audio_manager_plugins.Base.Int.{ℤ, pos, negsuc}
use audio_manager_plugins.Action.{
  ActionState, not_started, executing, completed, undoing, undo_complete, error_stopped,
  is_not_started, is_executing, is_positive, is_zero, infinite_timeout, Reply, ActionCommand,
}
use audio_manager_plugins.Action.Command.{Time, time_difference}
use audio_manager_plugins.Action.Container.{
  Container, Clock, Script, Noted, update, deliver, is_completed, is_undoing, is_undo_complete,
  is_error_stopped, decrement, at_least, child_at, put_child, reply,
}

module _ {W C : Type 0} (ops : ActionCommand W C) (clock : Clock W) where
  open ops use {get_status}

  abbrev pub needs_undo : C → Bool
  needs_undo c =
      is_error_stopped (get_status c)
      || is_completed (get_status c) && is_zero (ops.get_error c)
      || is_undoing (get_status c)

  -- The part of undo for an action that has completed without an error or has stopped.
  pub start_undo : Container C → W → Reply W (Container C)
  start_undo b w =
      let undone =
        if b.undo_required
        then (let (begin, w') = clock w in
            let (end, w'') = clock w' in
            reply
              (record b {
                start_time = begin;
                error = b.script.undo_result;
                undo_time = time_difference begin end;
              })
              w'' [])
        else reply b w [] in
      record undone {
        self = record undone.self {
          status = if length b.children == 0 then undo_complete else undoing;
        };
      }

  -- An int compared with a size_t: a negative index counts as large.
  abbrev pub is_beyond : ℤ → ℕ → Bool
  is_beyond (pos i) n = leb n i
  is_beyond (negsuc i) n = true

  abbrev pub clamp_index : Container C → Container C
  clamp_index b = record b {
    index =
        if is_beyond b.index (length b.children)
        then decrement (pos (length b.children))
        else b.index;
  }

  abbrev pub step_down : Container C → Container C
  step_down b = record b { index = decrement b.index }

  -- The container once its current child has been undone, and has called update for each note.
  pub after_undo : Container C → Reply W C → Noted C
  unfolding deliver
  after_undo b r = deliver r.notes (record b { children = put_child b.index r.self b.children })

  -- The rounds of the loop of undo, from the current child down to the first.
  pub undo_children : ℕ → Container C → W → List ℤ → Option (Reply W (Container C))
  unfolding after_undo update
  undo_children zero b w notes = none
  undo_children (suc rounds) b w notes = elim (at_least b.index 0) [
    | false ↦ (let u = update b.error b in some (reply u.box w (notes ++ u.notes)))
    | true ↦ elim (child_at b.index b.children) [
      | none ↦ none
      | some c ↦ elim (needs_undo c) [
        | false ↦ undo_children rounds (step_down b) w notes
        | true ↦ elim (ops.undo c w) [
          | none ↦ none
          | some r ↦
              let u = after_undo b r in
              elim (is_undo_complete (get_status r.self)) [
                | true ↦ undo_children rounds (step_down u.box) r.world (notes ++ u.notes)
                | false ↦ some (reply u.box r.world (notes ++ u.notes))
              ]
        ]
      ]
    ]
  ]

  -- The states from which undo goes to work anew.
  abbrev pub may_undo : Container C → Bool
  may_undo b = is_error_stopped b.status || is_completed b.status && is_zero b.error

  pub proceed_undo : Reply W (Container C) → Option (Reply W (Container C))
  unfolding undo_children update
  proceed_undo s =
      if is_undoing s.self.status
      then undo_children (suc (suc (length s.self.children))) (clamp_index s.self) s.world []
      else if is_undo_complete s.self.status
      then (let u = update s.self.error s.self in some (reply u.box s.world u.notes))
      else some s

  unfoldable pub undo : Container C → W → Option (Reply W (Container C))
  unfolding start_undo proceed_undo
  undo b w = proceed_undo (if may_undo b then start_undo b w else reply b w [])
