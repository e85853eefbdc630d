-- ===== src/Examples/Handles.antt =====
-- The table of handles at concrete inputs.
use audio_manager_plugins.Base.{ℕ, List, [], ◌∷◌, none, some, ◌≡◌, arith}
use audio_manager_plugins.Base.Int.{ℤ, pos}
use audio_manager_plugins.HandleStore.{
  Handle, u_handle, MapHandles, find, save_handle, clear_handle, notify_async_result,
}
use audio_manager_plugins.HandleStore.Laws.{InRange, notify_async_result-save_handle}

abbrev volume_handle : Handle
volume_handle = record { handle_type = 3; handle = 17 }

abbrev connect_handle : Handle
connect_handle = record { handle_type = 1; handle = 1023 }

volume_handle-InRange : InRange volume_handle
volume_handle-InRange = omega arith

connect_handle-InRange : InRange connect_handle
connect_handle-InRange = omega arith

-- An observer that records the error codes that it hears, and saves its handle again.
abbrev listen : ℕ → ℤ → MapHandles ℕ × List ℤ → MapHandles ℕ × List ℤ
listen o e (m, heard) = (save_handle volume_handle (some o) m, e ∷ heard)

notify_async_result-save_handle_example :
    let s =
      notify_async_result listen volume_handle
        (pos 0)
        (save_handle volume_handle (some 7) [], []) in
    let called = listen 7 (pos 0) (save_handle volume_handle (some 7) [], []) in
    (s ≡ (clear_handle volume_handle called.0, called.1))
    × (find (u_handle volume_handle) s.0 ≡ none)
    × (notify_async_result listen volume_handle (pos 4) s ≡ s)
notify_async_result-save_handle_example =
    notify_async_result-save_handle listen volume_handle 7 (pos 0) (pos 4) [] []
