-- ===== src/ControlSender/Pending/Waiting.antt =====
-- What waits for the routing side in CAmControlSenderBase.cpp: every set under way waits for a handle.
use audio_manager_plugins.Base.{List, [], ◌∷◌, ◌++◌, Option, none, some, true, false, ◌≡◌, ◌⊎◌, All}
use audio_manager_plugins.HandleStore.{Handle}
use audio_manager_plugins.ControlSender.{HandleStatus, MainConnectionSet}
use audio_manager_plugins.ControlSender.Pending.{mark, all_done, Acked}

-- A set waits as long as a handle of it has not been acknowledged.
abbrev pub IsWaiting : MainConnectionSet → Type 0
IsWaiting s = all_done s.list_handle_status ≡ false

-- A set with the handle marked, if it has the handle.
abbrev pub marked_with : MainConnectionSet → Option (List HandleStatus) → MainConnectionSet
marked_with s none = s
marked_with s (some l) = record s { list_handle_status = l }

abbrev pub marked : Handle → MainConnectionSet → MainConnectionSet
marked h s = marked_with s (mark h s.list_handle_status)

abbrev pub all_marked : Handle → List MainConnectionSet → List MainConnectionSet
all_marked h [] = []
all_marked h (s ∷ ss) = marked h s ∷ all_marked h ss

-- What an acknowledgement leaves of the sets: either none was completed, and all are still there, with
-- the handle marked; or the first that the handle completes is gone and its connection reported, those
-- before it have the handle marked, and those behind it are as they were.
abbrev pub Outcome : Handle → List MainConnectionSet → Acked → Type 0
Outcome h ss a =
    ((a.done ≡ none) × (a.sets ≡ all_marked h ss))
    ⊎ ((before after : List MainConnectionSet) × (s : MainConnectionSet) × (l : List HandleStatus)
        × (ss ≡ before ++ s ∷ after)
        × (mark h s.list_handle_status ≡ some l)
        × (all_done l ≡ true)
        × (a.done ≡ some s.connection_id)
        × (a.sets ≡ all_marked h before ++ after)
        × All IsWaiting (all_marked h before))
