-- ===== src/Action.antt =====
-- The action interface of the generic controller: PluginControlInterfaceGeneric/include/IAmAction.h,
-- with the states of an action and the result codes that its functions hand around.
pub mod Timer
pub mod Command
pub mod Container
use audio_manager_plugins.Base.{
  ℕ, List, [], ◌∷◌, Option, some, Bool, true, false, ◌^◌, ◌-◌, ◌≡◌, ◌⊎◌,
}
use audio_manager_plugins.Base.Int.{ℤ, pos, negsuc}

-- ActionState_e
pub data ActionState : Type 0 where
  not_started executing completed undoing undo_complete error_stopped : ActionState

abbrev pub is_not_started : ActionState → Bool
is_not_started not_started = true
is_not_started _ = false

abbrev pub is_executing : ActionState → Bool
is_executing executing = true
is_executing _ = false

-- Result codes are ints: negative means pending, 0 success and positive an error.
abbrev pub is_negative : ℤ → Bool
is_negative (pos n) = false
is_negative (negsuc n) = true

abbrev pub is_zero : ℤ → Bool
is_zero (pos ℕ.zero) = true
is_zero _ = false

abbrev pub is_positive : ℤ → Bool
is_positive (pos (ℕ.suc n)) = true
is_positive _ = false

-- INFINITE_TIMEOUT and DEFAULT_UNDO_TIMEOUT of CAmTypes.h, in milliseconds.
abbrev pub infinite_timeout : ℕ
infinite_timeout = 2 ^ 32 - 1

abbrev pub default_undo_timeout : ℕ
default_undo_timeout = 10000

-- What a call leaves: the action, the world that it acts on, and the results that it handed to the
-- update of its first observer, which is its parent, oldest first.
pub record Reply (W C : Type 0) : Type 0 where
  pub self : C
  pub world : W
  pub notes : List ℤ

-- IAmActionCommand, as far as a container uses it. A call without a reply is one that does not return.
pub record ActionCommand (W C : Type 0) : Type 0 where
  pub get_status : C → ActionState
  pub get_error : C → ℤ
  pub get_execution_time : C → ℕ
  pub set_timeout : ℕ → C → C
  pub execute : C → W → Option (Reply W C)
  pub undo : C → W → Option (Reply W C)
  pub cleanup : C → C

-- An action that is still to be finished: not started, or waiting for an answer.
abbrev pub IsLive : ActionState → Type 0
IsLive s = (s ≡ not_started) ⊎ (s ≡ executing)

abbrev pub IsFinal : ActionState → Type 0
IsFinal s = (s ≡ completed) ⊎ (s ≡ error_stopped)

module _ {W C : Type 0} (ops : ActionCommand W C) where
  open ops use {get_status, get_error, set_timeout, execute}

  -- An execution either waits and has told its parent nothing, or it is over and has told its parent
  -- once, with its error code.
  abbrev pub Progress : Reply W C → Type 0
  Progress r =
      ((get_status r.self ≡ executing) × (r.notes ≡ []))
      ⊎ (IsFinal (get_status r.self) × (r.notes ≡ get_error r.self ∷ []))

  -- The contract of an action whose state satisfies `Good`: executed while it is live it returns.
  pub record IsLawful (Good : C → Type 0) : Type 0 where
    pub execute_returns :
        (c : C) (w : W)
        → IsLive (get_status c)
        → Good c
        → (r : Reply W C) × (execute c w ≡ some r) × Good r.self × Progress r
    pub set_timeout_status : (t : ℕ) (c : C) → get_status (set_timeout t c) ≡ get_status c
    pub set_timeout_good : (t : ℕ) (c : C) → Good c → Good (set_timeout t c)
