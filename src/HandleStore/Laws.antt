-- ===== src/HandleStore/Laws.antt =====
-- The keys of CAmHandleStore.cpp and what saving, clearing and acknowledging do to the table.
use audio_manager_plugins.Base.{
  ℕ, ◌<◌, ◌^◌, Option, none, some, [], ◌∷◌, ◌≡◌, refl, Bool, ◌==◌, ◌&&◌, arith, if◌then◌else◌,
}
use audio_manager_plugins.Base.Int.{ℤ}
use audio_manager_plugins.HandleStore.{
  Handle, u_handle, decode, MapHandles, find, insert, erase, save_handle, clear_handle,
  call_observer, notify_async_result,
}

-- The ranges of the two bit fields of am_Handle_s: six bits and ten bits.
pub record InRange (h : Handle) : Type 0 where
  pub type_bits : h.handle_type < 2 ^ 6
  pub handle_bits : h.handle < 2 ^ 10

-- A handle is read back from its key, so two handles in range have different keys.
decode-u_handle : (h : Handle) → InRange h → decode (u_handle h) ≡ h
unfolding decode u_handle
decode-u_handle h r = ground arith

pub u_handle-injective : (g h : Handle) → InRange g → InRange h → u_handle g ≡ u_handle h → g ≡ h
unfolding u_handle
u_handle-injective g h rg rh e = ground arith

module _ {O : Type 0} where
  pub find-insert :
      (k j : ℕ) (o : Option O) (m : MapHandles O)
      → find j (insert k o m) ≡ (if k == j then some o else find j m)
  unfolding find insert
  find-insert k j o [] = refl
  find-insert k j o ((i, p) ∷ m) = ground (arith, find-insert k j o m)

  pub find-erase :
      (k j : ℕ) (m : MapHandles O) → find j (erase k m) ≡ (if k == j then none else find j m)
  unfolding find erase
  find-erase k j [] = ground arith
  find-erase k j ((i, p) ∷ m) = ground (arith, find-erase k j m)

  pub find-cleared : (h : Handle) (m : MapHandles O) → find (u_handle h) (clear_handle h m) ≡ none
  unfolding clear_handle
  find-cleared h m = ground (arith, find-erase (u_handle h) (u_handle h) m)

pub same_handle : Handle → Handle → Bool
same_handle g h = (g.handle_type == h.handle_type) && (g.handle == h.handle)

u_handle_eq : (g h : Handle) → InRange g → InRange h → (u_handle h == u_handle g) ≡ same_handle h g
unfolding u_handle same_handle
u_handle_eq g h rg rh = ground arith

module _ {O : Type 0} where
  -- For handles in range, an entry is found under the handle that it was saved for and under no
  -- other: saving replaces the observer of that handle alone, and clearing removes it alone.
  find-save_handle-clear_handle :
      (g h : Handle) (o : Option O) (m : MapHandles O)
      → InRange g
      → InRange h
      → (find (u_handle g) (save_handle h o m)
          ≡ (if same_handle h g then some o else find (u_handle g) m))
        × (find (u_handle g) (clear_handle h m)
            ≡ (if same_handle h g then none else find (u_handle g) m))
  unfolding save_handle clear_handle
  find-save_handle-clear_handle g h o m rg rh = ground (
    arith,
    u_handle_eq g h rg rh,
    find-insert (u_handle h) (u_handle g) o m,
    find-erase (u_handle h) (u_handle g) m,
  )

module _ {O W : Type 0} (update : O → ℤ → MapHandles O × W → MapHandles O × W) where
  notify_hit :
      (h : Handle) (e : ℤ) (m : MapHandles O) (w : W) (o : Option O)
      → find (u_handle h) m ≡ some o
      → notify_async_result update h e (m, w)
        ≡ (let s = call_observer update o e (m, w) in (clear_handle h s.0, s.1))
  unfolding notify_async_result clear_handle
  notify_hit h e m w o f = rw (f, notify_async_result)

  notify_miss :
      (h : Handle) (e : ℤ) (s : MapHandles O × W)
      → find (u_handle h) s.0 ≡ none
      → notify_async_result update h e s ≡ s
  unfolding notify_async_result
  notify_miss h e (m, w) f = rw (f, notify_async_result)

  -- An acknowledgement for a saved handle calls the observer saved last for it, once, with the given
  -- error and while the entry is still there; then the key is gone, and a second acknowledgement
  -- for the same handle, with whatever error, changes nothing and calls nobody.
  pub notify_async_result-save_handle :
      (h : Handle) (o : O) (e e' : ℤ) (m : MapHandles O) (w : W)
      → let s = notify_async_result update h e (save_handle h (some o) m, w) in
        let called = update o e (save_handle h (some o) m, w) in
        (s ≡ (clear_handle h called.0, called.1))
        × (find (u_handle h) s.0 ≡ none)
        × (notify_async_result update h e' s ≡ s)
  unfolding save_handle call_observer
  notify_async_result-save_handle h o e e' m w =
      (hit, rw hit (find-cleared h _), rw hit (notify_miss h e' _ (find-cleared h _)))
    where
      saved : find (u_handle h) (save_handle h (some o) m) ≡ some (some o)
      saved = ground (arith, find-insert (u_handle h) (u_handle h) (some o) m)

      hit : notify_async_result update h e (save_handle h (some o) m, w) ≡ (
          let called = update o e (save_handle h (some o) m, w) in
          (clear_handle h called.0, called.1))
      hit = notify_hit h e (save_handle h (some o) m) w (some o) saved
