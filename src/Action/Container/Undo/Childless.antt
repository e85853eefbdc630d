-- ===== src/Action/Container/Undo/Childless.antt =====
-- The undo of a container without children, CAmActionContainer.cpp.
use audio_manager_plugins.Base.{
  [], some, true, ◌≡◌, refl, ap, ◌∙◌, ◌&&◌, ◌||◌, ◌==◌, length, if◌then◌else◌,
}
use audio_manager_plugins.Action.{
  undoing, undo_complete, error_stopped, is_zero, Reply, ActionCommand,
}
use audio_manager_plugins.Action.Container.{
  Container, Clock, update, reply, is_error_stopped, is_completed,
}
use audio_manager_plugins.Action.Container.Undo.{start_undo, proceed_undo, may_undo, undo}

module _ {W C : Type 0} (ops : ActionCommand W C) (clock : Clock W) where
  start_undo-childless :
      (b : Container C) (w : W)
      → b.children ≡ []
      → (start_undo ops clock b w).self.status ≡ undo_complete
  unfolding start_undo
  start_undo-childless b w childless =
      ap (λ cs. if length cs == 0 then undo_complete else undoing) childless

  proceed_undo_complete :
      (s : Reply W (Container C))
      → s.self.status ≡ undo_complete
      → (r : Reply W (Container C)) × (proceed_undo ops clock s ≡ some r)
        × (r.self.status ≡ undo_complete)
        × (r.notes ≡ [])
  unfolding proceed_undo update
  proceed_undo_complete s complete = (
    record { self = record s.self { error = s.self.error }; world = s.world; notes = [] },
    rw complete refl,
    complete,
    refl,
  )

  pub may_undo-stopped : (b : Container C) → b.status ≡ error_stopped → may_undo ops clock b ≡ true
  may_undo-stopped b stopped =
      ap (λ s. is_error_stopped s || is_completed s && is_zero b.error) stopped

  -- The undo is complete, and the container has told nobody.
  pub undo-childless :
      (b : Container C) (w : W)
      → b.status ≡ error_stopped
      → b.children ≡ []
      → (r : Reply W (Container C)) × (undo ops clock b w ≡ some r)
        × (r.self.status ≡ undo_complete)
        × (r.notes ≡ [])
  unfolding undo
  undo-childless b w stopped childless =
      let (r, at, status, notes) =
        proceed_undo_complete (start_undo ops clock b w) (start_undo-childless b w childless) in
      (
        r,
        ap (λ c. proceed_undo ops clock (if c then start_undo ops clock b w else reply b w []))
              (may_undo-stopped b stopped)
            ∙ at,
        status,
        notes,
      )
