-- ===== src/Action/Timer/Clients.antt =====
-- The list of timer clients of CAmTimerEvent.cpp when a client with an unused handle is added.
use audio_manager_plugins.Base.{ℕ, List, [], ◌∷◌, ◌++◌, none, some, ◌≡◌, arith}
use audio_manager_plugins.Action.Timer.{TimerClient, find_handle, erase_handle}

pub find_handle-append :
    (h : ℕ) (xs : List TimerClient) (c : TimerClient)
    → find_handle h xs ≡ none
    → c.handle ≡ h
    → find_handle h (xs ++ c ∷ []) ≡ some c
unfolding find_handle
find_handle-append h [] c f e = ground arith
find_handle-append h (x ∷ xs) c f e = ground (arith, find_handle-append h xs c)

pub erase_handle-append :
    (h : ℕ) (xs : List TimerClient) (c : TimerClient)
    → find_handle h xs ≡ none
    → c.handle ≡ h
    → erase_handle h (xs ++ c ∷ []) ≡ xs
unfolding find_handle erase_handle
erase_handle-append h [] c f e = ground arith
erase_handle-append h (x ∷ xs) c f e = ground (arith, erase_handle-append h xs c)
