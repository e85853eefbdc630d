-- ===== src/Action/Container/Execute.antt =====
-- CAmActionContainer::execute. A container with no reply reads its vector of children out of bounds,
-- or does not return.
pub mod Layout
pub mod Rounds
pub mod Loop
pub mod Lawful
use audio_manager_plugins.Base.{
  ℕ, zero, suc, ◌+◌, ◌-◌, ◌%◌, ◌^◌, List, [], ◌∷◌, ◌++◌, Option, none, some, Bool, true, false, ltb,
  leb, ◌==◌, if◌then◌else◌, ◌&&◌, ◌||◌, length, get_elem?, not,
}
use audio_manager_plugins.Base.Int.{ℤ, pos, negsuc}
use audio_manager_plugins.Action.{
  ActionState, not_started, executing, completed, undoing, undo_complete, error_stopped,
  is_not_started, is_executing, is_positive, is_zero, infinite_timeout, Reply, ActionCommand,
}
use audio_manager_plugins.Action.Command.{Time, time_difference}
use audio_manager_plugins.Action.Container.{
  Container, Clock, Script, Noted, update, deliver, is_completed, is_undoing, is_undo_complete,
  is_error_stopped, decrement, at_least, child_at, put_child, reply,
}

module _ {W C : Type 0} (ops : ActionCommand W C) (clock : Clock W) where
  open ops use {get_status, get_error, get_execution_time}

  child_times : List C → ℕ
  child_times [] = 0
  child_times (c ∷ cs) = (get_execution_time c + child_times cs) % 2 ^ 32

  pub execution_time_of : Container C → ℕ
  unfolding child_times
  execution_time_of b = (b.execution_time + child_times b.children) % 2 ^ 32

  -- getUndoTime, which adds up the execution times of the children.
  pub undo_time_of : Container C → ℕ
  unfolding child_times
  undo_time_of b = (b.undo_time + child_times b.children) % 2 ^ 32

  -- What execute does to an action that was not started: _execute with the clock around it, and an
  -- update if it answers anything but 0.
  unfoldable pub begin : Container C → W → Reply W (Container C)
  begin b w =
      let (begin_time, w') = clock w in
      let (end_time, w'') = clock w' in
      reply
        (record b {
          start_time = begin_time;
          error = b.script.execute_result;
          children = b.children ++ b.script.planned;
          execution_time = time_difference begin_time end_time;
          status = executing;
        })
        w'' []

  unfoldable pub start : Container C → W → Reply W (Container C)
  unfolding begin update
  start b w =
      let s = begin b w in
      if is_zero s.self.error
      then s
      else (let u = update s.self.error s.self in reply u.box s.world u.notes)

  -- A child that has not started gets what is left of a finite timeout.
  pub budget : Container C → C → C
  budget b c =
      if not (b.timeout == infinite_timeout) && is_not_started (get_status c)
      then ops.set_timeout (b.timeout - execution_time_of b) c
      else c

  pub is_overdue : Container C → Bool
  is_overdue b = not (b.timeout == infinite_timeout) && ltb b.timeout (execution_time_of b)

  -- The container once its current child has been called, and has called update for each note.
  pub after_child : Container C → Reply W C → Noted C
  unfolding deliver
  after_child b r = deliver r.notes (record b { children = put_child b.index r.self b.children })

  -- The rounds of the loop of execute, which runs children until one of them waits or the container
  -- is no longer executing. `notes` are those of the rounds before.
  pub run_children : ℕ → ℤ → Container C → W → List ℤ → Option (Reply W (Container C))
  unfolding after_child update
  run_children zero e_aborted b w notes = none
  run_children (suc rounds) e_aborted b w notes = elim (child_at b.index b.children) [
    | none ↦ none
    | some c ↦ elim (is_overdue b) [
      | true ↦ (let u = update e_aborted b in some (reply u.box w (notes ++ u.notes)))
      | false ↦ elim (ops.execute (budget b c) w) [
        | none ↦ none
        | some r ↦
            let u = after_child b r in
            elim (is_executing (get_status r.self) || not (is_executing u.box.status)) [
              | true ↦ some (reply u.box r.world (notes ++ u.notes))
              | false ↦ run_children rounds e_aborted u.box r.world (notes ++ u.notes)
            ]
      ]
    ]
  ]

  -- With no child left to run at the start of the loop, the container is updated with its own error.
  unfoldable pub run_loop : ℤ → Container C → W → List ℤ → Option (Reply W (Container C))
  unfolding update
  run_loop e_aborted b w notes =
      if at_least b.index (length b.children)
      then (let u = update b.error b in some (reply u.box w (notes ++ u.notes)))
      else run_children (suc (length b.children)) e_aborted b w notes

  -- The part of execute for an action that was started before or just now.
  unfoldable pub proceed : ℤ → Reply W (Container C) → Option (Reply W (Container C))
  unfolding run_loop
  proceed e_aborted s =
      if is_executing s.self.status
      then run_loop e_aborted s.self s.world s.notes
      else if is_completed s.self.status
      then (let u = update s.self.error s.self in some (reply u.box s.world (s.notes ++ u.notes)))
      else some s

  unfoldable pub execute : ℤ → Container C → W → Option (Reply W (Container C))
  unfolding proceed start
  execute e_aborted b w =
      proceed e_aborted (if is_not_started b.status then start b w else reply b w [])
