-- ===== src/HandleStore.antt =====
-- The table of asynchronous requests: PluginControlInterfaceGeneric/src/CAmHandleStore.cpp. The
-- std::map from uint16_t keys is an association list; an observer is a pointer that may be null, and
-- what its update does to the table and to the rest of the controller is a parameter.
pub mod Laws
use audio_manager_plugins.Base.{
  ℕ, ◌+◌, ◌*◌, ◌/◌, ◌%◌, ◌^◌, Option, none, some, List, [], ◌∷◌, Bool, true, false, ◌==◌,
  if◌then◌else◌,
}
use audio_manager_plugins.Base.Int.{ℤ}

-- am_Handle_s: the kind of the request and its number.
pub record Handle : Type 0 where
  pub handle_type : ℕ
  pub handle : ℕ

-- uint16_t uHandle = (((uint16_t)handle.handleType) << 10) + (handle.handle)
unfoldable pub u_handle : Handle → ℕ
u_handle h = (h.handle_type * 2 ^ 10 + h.handle) % 2 ^ 16

-- it->first >> 10 and it->first & 0x3ff, with which the destructor prints a key.
unfoldable pub decode : ℕ → Handle
decode key = record { handle_type = key / 2 ^ 10; handle = key % 2 ^ 10 }

module _ (O : Type 0) where
  abbrev pub MapHandles : Type 0
  MapHandles = List (ℕ × Option O)

module _ {O : Type 0} where
  pub find : ℕ → MapHandles O → Option (Option O)
  find k [] = none
  find k ((j, o) ∷ m) = if j == k then some o else find k m

  pub insert : ℕ → Option O → MapHandles O → MapHandles O
  insert k o [] = (k, o) ∷ []
  insert k o ((j, p) ∷ m) = if j == k then (k, o) ∷ m else (j, p) ∷ insert k o m

  pub erase : ℕ → MapHandles O → MapHandles O
  erase k [] = []
  erase k ((j, o) ∷ m) = let rest = erase k m in if j == k then rest else (j, o) ∷ rest

  -- A handle that is in the table already is only logged, and its observer replaced.
  pub save_handle : Handle → Option O → MapHandles O → MapHandles O
  save_handle h o m = insert (u_handle h) o m

  pub clear_handle : Handle → MapHandles O → MapHandles O
  clear_handle h m = erase (u_handle h) m

  -- The entries that the destructor logs as orphaned.
  pub orphans : MapHandles O → List Handle
  orphans [] = []
  orphans ((k, o) ∷ m) = decode k ∷ orphans m

module _ {O W : Type 0} (update : O → ℤ → MapHandles O × W → MapHandles O × W) where
  call_observer : Option O → ℤ → MapHandles O × W → MapHandles O × W
  call_observer none e s = s
  call_observer (some o) e s = update o e s

  -- The observer is called with the entry still in the table, and the key is erased afterwards.
  pub notify_async_result : Handle → ℤ → MapHandles O × W → MapHandles O × W
  unfolding call_observer
  notify_async_result h e (m, w) = elim (find (u_handle h) m) [
    | none ↦ (m, w)
    | some o ↦ let (m', w') = call_observer o e (m, w) in (erase (u_handle h) m', w')
  ]
