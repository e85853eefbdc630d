-- ===== src/Action/Command.antt =====
-- The leaf actions: PluginControlInterfaceGeneric/src/CAmActionCommand.cpp. The virtual functions of
-- the concrete action answer with a number that the action carries, and the clock is a stream of
-- readings of the world; the parent is the first observer, so that notify is a note to it.
pub mod Lifecycle
pub mod Timers
pub mod Clock
use audio_manager_plugins.Base.{
  ℕ, suc, ◌+◌, ◌-◌, ◌*◌, ◌/◌, ◌%◌, ◌^◌, List, [], ◌∷◌, Option, none, some, Bool, true, false, ltb,
  ◌==◌, if◌then◌else◌,
}
use audio_manager_plugins.Base.Int.{ℤ, pos}
use audio_manager_plugins.Action.{
  ActionState, not_started, executing, completed, undoing, undo_complete, error_stopped,
  is_not_started, is_executing, is_negative, infinite_timeout, default_undo_timeout, Reply,
  ActionCommand,
}
use audio_manager_plugins.Action.Timer.{
  SocketHandler, TimerEvent, Timed, int32, set_timer, remove_timer,
}

-- A reading of CLOCK_MONOTONIC.
pub record Time : Type 0 where
  pub tv_sec : ℕ
  pub tv_nsec : ℕ

abbrev pub max_ns : ℕ
max_ns = 1000000000

-- The seconds and milliseconds of a difference; a negative count of nanoseconds rounds towards zero.
millis : ℕ → ℕ → ℕ → ℕ
millis sec plus minus =
    if ltb plus minus
    then (sec * 1000 - (minus - plus) / 1000000) % 2 ^ 32
    else (sec * 1000 + (plus - minus) / 1000000) % 2 ^ 32

-- _calculateTimeDifference. The test that should borrow a second compares the start with itself.
unfoldable pub time_difference : Time → Time → ℕ
unfolding millis
time_difference start end =
    if ltb start.tv_nsec start.tv_nsec
    then millis (end.tv_sec - start.tv_sec - 1) (end.tv_nsec + max_ns) start.tv_nsec
    else millis (end.tv_sec - start.tv_sec) end.tv_nsec start.tv_nsec

-- What the actions act on: the timers, and the clock with the number of readings taken so far.
pub record World (S : Type 0) : Type 0 where
  pub timers : TimerEvent S
  pub clock : ℕ → Time
  pub readings : ℕ

module _ {S : Type 0} where
  abbrev pub now : World S → Time
  now w = w.clock w.readings

  abbrev pub after_reading : World S → World S
  after_reading w = record w { readings = suc w.readings }

pub record Command : Type 0 where
  pub status : ActionState
  pub error : ℤ
  pub undo_required : Bool
  pub timeout : ℕ
  pub timer_handle : ℕ
  pub start_time : Time
  pub execution_time : ℕ
  pub undo_time : ℕ
  pub timer_callback : ℕ  -- mpTimerCallback with its user data
  pub execute_result : ℤ  -- what _execute answers
  pub undo_result : ℤ  -- what _undo answers

-- The constructor, for a concrete action that answers so.
abbrev pub new_command : ℕ → ℤ → ℤ → Command
new_command id execute_result undo_result = record {
  status = not_started;
  error = pos 0;
  undo_required = false;
  timeout = infinite_timeout;
  timer_handle = 0;
  start_time = record { tv_sec = 0; tv_nsec = 0 };
  execution_time = 0;
  undo_time = 0;
  timer_callback = id;
  execute_result = execute_result;
  undo_result = undo_result;
}

pub set_timeout : ℕ → Command → Command
set_timeout t c = record c { timeout = t }

module _ {S : Type 0} (sh : SocketHandler S) where
  with_timers : Command → World S → Timed S → Reply (World S) Command
  with_timers c w t = record {
    self = record c { timer_handle = t.handle };
    world = record w { timers = t.timers };
    notes = [];
  }

  arm : ℤ → Command → World S → Reply (World S) Command
  unfolding with_timers
  arm msec c w = with_timers c w (set_timer sh c.timer_callback msec c.timer_handle w.timers)

  disarm : Command → World S → Reply (World S) Command
  unfolding with_timers
  disarm c w = with_timers c w (remove_timer sh c.timer_handle w.timers)

  -- The timer of an execution runs only with a finite timeout.
  arm_execution : Command → World S → Reply (World S) Command
  unfolding arm
  arm_execution c w =
      if c.timeout == infinite_timeout
      then record { self = c; world = w; notes = [] }
      else arm (int32 c.timeout) c w

  -- `if (mTimerHandle) removeTimer(mTimerHandle)`
  disarm_if_set : Command → World S → Reply (World S) Command
  unfolding disarm
  disarm_if_set c w =
      if c.timer_handle == 0 then record { self = c; world = w; notes = [] } else disarm c w

  abbrev note : ℤ → Reply (World S) Command → Reply (World S) Command
  note e r = record r { notes = e ∷ [] }

  -- The call of _execute and what follows it.
  run : Command → World S → Reply (World S) Command
  unfolding disarm_if_set
  run c w =
      let started = record c { start_time = now w; error = c.execute_result } in
      let w' = after_reading w in
      if is_negative c.execute_result
      then record { self = record started { status = executing }; world = w'; notes = [] }
      else note c.execute_result (
          disarm_if_set
            (record started {
              status = completed;
              execution_time = time_difference (now w) (now w');
            })
            (after_reading w'))

  unfoldable pub execute : Command → World S → Reply (World S) Command
  unfolding run arm_execution
  execute c w =
      if is_not_started c.status
      then (let armed = arm_execution c w in run armed.self armed.world)
      else record { self = c; world = w; notes = [] }

  -- The undo part of an action that needs one, with its own timer.
  undo_required_part : Command → World S → Reply (World S) Command
  unfolding arm
  undo_required_part c w =
      if c.undo_required
      then (let armed =
            arm (pos default_undo_timeout) (record c { start_time = now w }) (after_reading w) in
          record armed { self = record armed.self { error = c.undo_result } })
      else record { self = c; world = w; notes = [] }

  finish_undo : Command → World S → Reply (World S) Command
  unfolding disarm
  finish_undo c w =
      if is_negative c.error
      then record { self = record c { status = undoing }; world = w; notes = [] }
      else note c.error (
          disarm
            (record c { status = undo_complete; undo_time = time_difference c.start_time (now w) })
            (after_reading w))

  abbrev is_completed : ActionState → Bool
  is_completed completed = true
  is_completed _ = false

  unfoldable pub undo : Command → World S → Reply (World S) Command
  unfolding undo_required_part finish_undo
  undo c w =
      if is_completed c.status
      then (let undone = undo_required_part c w in finish_undo undone.self undone.world)
      else record { self = c; world = w; notes = [] }

  -- The answer to what the action waits for.
  unfoldable pub update : ℤ → Command → World S → Reply (World S) Command
  unfolding disarm_if_set
  update result c w =
      let disarmed = disarm_if_set (record c { error = result }) w in
      let w' = disarmed.world in
      let took = time_difference c.start_time (now w') in
      record {
        self =
            if is_executing c.status
            then record disarmed.self { status = completed; execution_time = took }
            else record disarmed.self { status = undo_complete; undo_time = took };
        world = after_reading w';
        notes = result ∷ [];
      }

  -- The timer callback: the concrete _timeout aborts the request, and the action is updated.
  unfoldable pub timed_out : ℕ → Command → World S → Reply (World S) Command
  unfolding update
  timed_out e_aborted c w = update (pos e_aborted) c w

unfoldable pub cleanup : Command → Command
cleanup c = record c {
  start_time = record { tv_sec = 0; tv_nsec = 0 };
  execution_time = 0;
  undo_time = 0;
}

-- A command as a child of a container.
abbrev pub command_ops : {S : Type 0} → SocketHandler S → ActionCommand (World S) Command
command_ops sh = record {
  get_status = λ c. c.status;
  get_error = λ c. c.error;
  get_execution_time = λ c. c.execution_time;
  set_timeout = set_timeout;
  execute = λ c w. some (execute sh c w);
  undo = λ c w. some (undo sh c w);
  cleanup = cleanup;
}
