-- ===== src/Action/Command/Timers.antt =====
-- The timers that leaf actions start and stop, CAmActionCommand.cpp over CAmTimerEvent.cpp.
use audio_manager_plugins.Base.{
  Bool, ◌==◌, ◌||◌, ◌&&◌, not, leb, ℕ, if◌then◌else◌, ◌<◌, ◌^◌, append-nil, [], ◌∷◌, ◌++◌, none,
  some, true, ◌≡◌, ◌≢◌, arith,
}
use audio_manager_plugins.Base.Int.{ℤ}
use audio_manager_plugins.Action.{not_started, is_negative, infinite_timeout}
use audio_manager_plugins.Action.Timer.{
  SocketHandler, TimerClient, max_timer_value, time_spec_of, find_handle, set_timer, remove_timer,
  timer_callback, AddTimer, int32,
}
use audio_manager_plugins.Action.Timer.Clients.{find_handle-append, erase_handle-append}
use audio_manager_plugins.Action.Command.{World, Command, execute, update}

-- The timeouts in milliseconds for which a timer runs: those up to ten seconds, and those that are
-- negative as an int32_t; the infinite timeout, the greatest uint32_t, has none.
abbrev pub runs_timer : ℕ → Bool
runs_timer t = leb t max_timer_value || (leb (2 ^ 31) t && not (t == infinite_timeout))

module _ {S : Type 0} (sh : SocketHandler S) (c : Command) (w : World S) where
  -- What the socket handler answers when the action asks for its timer.
  abbrev pub answer : AddTimer S
  answer = sh.add_timer (time_spec_of (int32 c.timeout)) c.timer_callback w.timers.socket

  -- The client that is then in the list.
  abbrev pub own_client : TimerClient
  own_client = record {
    client = c.timer_callback;
    handle = answer.handle;
    time_spec = time_spec_of (int32 c.timeout);
  }

  -- An action that has not started and has no timer; the socket handler would grant it a timer under a
  -- handle that is not 0 and not in use.
  pub record IsGranted : Type 0 where
    pub fresh : c.status ≡ not_started
    pub no_timer : c.timer_handle ≡ 0
    pub in_range : c.timeout < 2 ^ 32
    pub granted : answer.is_ok ≡ true
    pub nonzero : answer.handle ≢ 0
    pub unused : find_handle answer.handle w.timers.list_clients ≡ none

  -- An action that has not started and has no timer, and that waits for an answer once it is executed:
  -- it runs a timer of its own, whose expiry calls it, exactly if its timeout is at most ten seconds or
  -- is not infinite and negative as an int32_t; above ten seconds it waits for its answer alone. This is
  -- so if the socket handler grants timers, under a handle that is not 0 and not in use. The answer that
  -- the action waits for, or the timeout, removes its timer and no other.
  pub update-execute-timers :
      (e : ℤ)
      → IsGranted
      → is_negative c.execute_result ≡ true
      → let r = execute sh c w in
        let u = update sh e r.self r.world in
        let own = if runs_timer c.timeout then own_client ∷ [] else [] in
        (r.world.timers.list_clients ≡ w.timers.list_clients ++ own)
        × (timer_callback answer.handle r.world.timers
            ≡ (if runs_timer c.timeout then some c.timer_callback else none))
        × (r.self.timer_handle ≡ (if runs_timer c.timeout then answer.handle else 0))
        × (u.world.timers.list_clients ≡ w.timers.list_clients)
        × (u.self.timer_handle ≡ 0)
  unfolding execute update set_timer remove_timer timer_callback
  update-execute-timers e t waits = ground (
    arith,
    append-nil w.timers.list_clients,
    find_handle-append answer.handle w.timers.list_clients own_client,
    erase_handle-append answer.handle w.timers.list_clients own_client,
  )
