-- ===== src/Action/Timer.antt =====
-- The timers of the controller: PluginControlInterfaceGeneric/src/CAmTimerEvent.cpp. The socket
-- handler of the audio manager is a parameter, and a callback with its user data is a number.
pub mod Clients
use audio_manager_plugins.Base.{
  ℕ, ◌+◌, ◌-◌, ◌*◌, ◌/◌, ◌%◌, ◌^◌, List, [], ◌∷◌, Option, none, some, Bool, true, false, ltb, ◌==◌,
  if◌then◌else◌, ◌++◌,
}
use mathlib.Core.Option
use audio_manager_plugins.Base.Int.{ℤ, pos, negsuc}

-- timespec
pub record TimeSpec : Type 0 where
  pub tv_sec : ℤ
  pub tv_nsec : ℤ

-- What addTimer answers: whether it is E_OK, the handle that it wrote, and the handler's new state.
pub record AddTimer (S : Type 0) : Type 0 where
  pub is_ok : Bool
  pub handle : ℕ
  pub socket : S

-- CAmSocketHandler, as far as the timers use it.
pub record SocketHandler (S : Type 0) : Type 0 where
  pub add_timer : TimeSpec → ℕ → S → AddTimer S
  pub remove_timer : ℕ → S → S

-- gc_TimerClient_s
pub record TimerClient : Type 0 where
  pub client : ℕ
  pub handle : ℕ
  pub time_spec : TimeSpec

pub record TimerEvent (S : Type 0) : Type 0 where
  pub socket : S
  pub list_clients : List TimerClient

-- What setTimer and removeTimer leave in the caller's handle, beside the timers.
pub record Timed (S : Type 0) : Type 0 where
  pub done : Bool
  pub handle : ℕ
  pub timers : TimerEvent S

abbrev pub max_timer_value : ℕ
max_timer_value = 10 * 1000

-- A uint32_t handed over as an int32_t.
abbrev pub int32 : ℕ → ℤ
int32 t = if ltb t (2 ^ 31) then pos t else negsuc (2 ^ 32 - t - 1)

abbrev exceeds_max : ℤ → Bool
exceeds_max (pos n) = ltb max_timer_value n
exceeds_max (negsuc n) = false

abbrev negate : ℕ → ℤ
negate ℕ.zero = pos 0
negate (ℕ.suc n) = negsuc n

-- msec / SEC and (msec % SEC) * NSEC, which round towards zero.
pub time_spec_of : ℤ → TimeSpec
time_spec_of (pos n) = record { tv_sec = pos (n / 1000); tv_nsec = pos (n % 1000 * 1000000) }
time_spec_of (negsuc n) = record {
  tv_sec = negate ((n + 1) / 1000);
  tv_nsec = negate ((n + 1) % 1000 * 1000000);
}

pub erase_handle : ℕ → List TimerClient → List TimerClient
erase_handle h [] = []
erase_handle h (c ∷ cs) = let rest = erase_handle h cs in if c.handle == h then cs else c ∷ rest

unfoldable pub find_handle : ℕ → List TimerClient → Option TimerClient
find_handle h [] = none
find_handle h (c ∷ cs) = let rest = find_handle h cs in if c.handle == h then some c else rest

module _ {S : Type 0} (sh : SocketHandler S) where
  -- The handle is passed by reference: addTimer writes it also when it fails.
  unfoldable pub set_timer : ℕ → ℤ → ℕ → TimerEvent S → Timed S
  set_timer client msec handle t =
      let spec = time_spec_of msec in
      let a = sh.add_timer spec client t.socket in
      if exceeds_max msec
      then record { done = false; handle = handle; timers = t }
      else if a.is_ok
      then record {
        done = true;
        handle = a.handle;
        timers = record {
          socket = a.socket;
          list_clients =
              t.list_clients
              ++ record { client = client; handle = a.handle; time_spec = spec } ∷ [];
        };
      }
      else record { done = false; handle = a.handle; timers = record t { socket = a.socket } }

  -- The first client with the handle goes, and the caller's handle becomes 0; an unknown handle stays.
  unfoldable pub remove_timer : ℕ → TimerEvent S → Timed S
  remove_timer handle t = elim (find_handle handle t.list_clients) [
    | none ↦ record { done = false; handle = handle; timers = t }
    | some c ↦ record {
      done = true;
      handle = 0;
      timers = record {
        socket = sh.remove_timer c.handle t.socket;
        list_clients = erase_handle handle t.list_clients;
      };
    }
  ]

-- The callback calls the first client that has the handle; the controller then iterates its actions.
unfoldable pub timer_callback : {S : Type 0} → ℕ → TimerEvent S → Option ℕ
timer_callback handle t = Option.map (λ c. c.client) (find_handle handle t.list_clients)
