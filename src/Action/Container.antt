-- ===== src/Action/Container.antt =====
-- The container actions: the state and update of
-- PluginControlInterfaceGeneric/src/CAmActionContainer.cpp. The children are any actions behind the
-- interface, and a child's notes are the calls of update that it makes of the container.
pub mod Execute
pub mod Undo
pub mod Children
pub mod Tree
use audio_manager_plugins.Base.{
  ℕ, zero, suc, ◌+◌, ◌-◌, ◌%◌, ◌^◌, List, [], ◌∷◌, ◌++◌, Option, none, some, Bool, true, false, ltb,
  leb, ◌==◌, if◌then◌else◌, ◌&&◌, ◌||◌, length, get_elem?, not,
}
use audio_manager_plugins.Base.Int.{ℤ, pos, negsuc}
use audio_manager_plugins.Action.{
  ActionState, not_started, executing, completed, undoing, undo_complete, error_stopped,
  is_not_started, is_executing, is_positive, is_zero, infinite_timeout, Reply, ActionCommand,
}
use audio_manager_plugins.Action.Command.{Time, time_difference}

-- What the virtual functions of the concrete container do: _execute answers with a result and
-- appends children, and _undo answers with a result.
pub record Script (C : Type 0) : Type 0 where
  pub execute_result : ℤ
  pub planned : List C
  pub undo_result : ℤ

pub record Container (C : Type 0) : Type 0 where
  pub status : ActionState
  pub index : ℤ
  pub error : ℤ
  pub undo_required : Bool
  pub timeout : ℕ
  pub start_time : Time
  pub execution_time : ℕ
  pub undo_time : ℕ
  pub children : List C
  pub script : Script C

-- The clock of the world: a reading, and the world after it.
abbrev pub Clock : Type 0 → Type 0
Clock W = W → Time × W

abbrev pub is_completed : ActionState → Bool
is_completed completed = true
is_completed _ = false

abbrev pub is_undoing : ActionState → Bool
is_undoing undoing = true
is_undoing _ = false

abbrev pub is_undo_complete : ActionState → Bool
is_undo_complete undo_complete = true
is_undo_complete _ = false

abbrev pub is_error_stopped : ActionState → Bool
is_error_stopped error_stopped = true
is_error_stopped _ = false

-- ++mIndex and --mIndex
abbrev pub increment : ℤ → ℤ
increment (pos n) = pos (suc n)
increment (negsuc zero) = pos 0
increment (negsuc (suc n)) = negsuc n

abbrev pub decrement : ℤ → ℤ
decrement (pos zero) = negsuc 0
decrement (pos (suc n)) = pos n
decrement (negsuc n) = negsuc (suc n)

-- The comparison of two ints, the second a number of children.
abbrev pub at_least : ℤ → ℕ → Bool
at_least (pos i) n = leb n i
at_least (negsuc i) n = false

-- The child at a position of the vector; a position out of bounds has none.
abbrev pub child_at : {C : Type 0} → ℤ → List C → Option C
child_at (pos i) cs = get_elem? cs i
child_at (negsuc i) cs = none

abbrev pub set_at : {C : Type 0} → ℕ → C → List C → List C
set_at i c [] = []
set_at zero c (x ∷ xs) = c ∷ xs
set_at (suc i) c (x ∷ xs) = x ∷ set_at i c xs

abbrev pub put_child : {C : Type 0} → ℤ → C → List C → List C
put_child (pos i) c cs = set_at i c cs
put_child (negsuc i) c cs = cs

-- A container with the results that it has handed to its own parent so far.
pub record Noted (C : Type 0) : Type 0 where
  pub box : Container C
  pub notes : List ℤ

module _ {C : Type 0} where
  -- update, without the virtual _update and the reading of the clock that is only logged.
  unfoldable pub update : ℤ → Container C → Noted C
  update result b =
      let e = record b { error = result } in
      let next = record e { index = increment b.index } in
      if is_executing b.status
      then (if is_positive result
          then record { box = record e { status = error_stopped }; notes = result ∷ [] }
          else if at_least next.index (length b.children)
          then record { box = record next { status = completed }; notes = result ∷ [] }
          else record { box = next; notes = [] })
      else if is_undoing b.status && not (at_least b.index 0)
      then record { box = record e { status = undo_complete }; notes = result ∷ [] }
      else record { box = e; notes = [] }

  -- The updates that a child's call makes, one after the other.
  pub deliver : List ℤ → Container C → Noted C
  deliver [] b = record { box = b; notes = [] }
  deliver (e ∷ es) b =
      let first = update e b in
      let later = deliver es first.box in record later { notes = first.notes ++ later.notes }

module _ {W C : Type 0} where
  abbrev pub reply : Container C → W → List ℤ → Reply W (Container C)
  reply b w notes = record { self = b; world = w; notes = notes }

-- The constructor, for a concrete container that does what the script says.
abbrev pub new_container : {C : Type 0} → Script C → Container C
new_container script = record {
  status = not_started;
  index = pos 0;
  error = pos 0;
  undo_required = false;
  timeout = infinite_timeout;
  start_time = record { tv_sec = 0; tv_nsec = 0 };
  execution_time = 0;
  undo_time = 0;
  children = [];
  script = script;
}
