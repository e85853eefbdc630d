-- ===== src/Examples/Commands.antt =====
-- Leaf actions at concrete inputs, over a socket handler that numbers its timers.
use audio_manager_plugins.Base.{ℕ, ◌+◌, [], ◌∷◌, some, true, ◌≡◌, ◌≢◌, ◌⊎◌, refl, arith}
use audio_manager_plugins.Base.Int.{pos, negsuc}
use audio_manager_plugins.Action.{not_started, executing, undoing, completed, undo_complete}
use audio_manager_plugins.Action.Timer.{SocketHandler, find_handle, timer_callback}
use audio_manager_plugins.Action.Command.{World, Command, execute, update}
use audio_manager_plugins.Action.Command.Lifecycle.{◌⟶◌, executes, call, call-⟶, call-notes}
use audio_manager_plugins.Action.Command.Timers.{IsGranted, own_client, update-execute-timers}

abbrev pub numbering : SocketHandler ℕ
numbering = record {
  add_timer = λ spec client s. record { is_ok = true; handle = s + 1; socket = s + 1 };
  remove_timer = λ handle s. s;
}

abbrev pub quiet : World ℕ
quiet = record {
  timers = record { socket = 0; list_clients = [] };
  clock = λ n. record { tv_sec = n; tv_nsec = 0 };
  readings = 0;
}

-- A route connection that waits for the routing side, with three seconds to do so.
abbrev waiting : Command
waiting = record {
  status = not_started;
  error = pos 0;
  undo_required = true;
  timeout = 3000;
  timer_handle = 0;
  start_time = record { tv_sec = 0; tv_nsec = 0 };
  execution_time = 0;
  undo_time = 0;
  timer_callback = 12;
  execute_result = negsuc 0;
  undo_result = negsuc 0;
}

abbrev at_once : Command
at_once = record waiting { execute_result = pos 0 }

-- The same with a timeout that is negative as an int32_t.
abbrev patient : Command
patient = record waiting { timeout = 3000000000 }

call-⟶_example : not_started ⟶ (call numbering executes waiting quiet).self.status
call-⟶_example = call-⟶ numbering executes waiting quiet tt

call-notes_example :
    let r = call numbering executes at_once quiet in
    ((r.notes ≡ [])
      × ((r.self.status ≡ not_started) ⊎ (r.self.status ≡ executing) ⊎ (r.self.status ≡ undoing)))
    ⊎ ((r.notes ≡ r.self.error ∷ [])
        × (r.self.status ≢ not_started)
        × ((r.self.status ≡ completed) ⊎ (r.self.status ≡ undo_complete)))
call-notes_example = call-notes numbering executes at_once quiet tt

patient-IsGranted : IsGranted numbering patient quiet
unfolding find_handle
patient-IsGranted = record {
  fresh = refl;
  no_timer = refl;
  in_range = omega arith;
  granted = refl;
  nonzero = λ e. omega arith;
  unused = refl;
}

update-execute-timers_example :
    let r = execute numbering patient quiet in
    let u = update numbering (pos 0) r.self r.world in
    (r.world.timers.list_clients ≡ own_client numbering patient quiet ∷ [])
    × (timer_callback 1 r.world.timers ≡ some 12)
    × (r.self.timer_handle ≡ 1)
    × (u.world.timers.list_clients ≡ [])
    × (u.self.timer_handle ≡ 0)
update-execute-timers_example =
    update-execute-timers numbering patient quiet (pos 0) patient-IsGranted refl
