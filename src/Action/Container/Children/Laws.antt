-- ===== src/Action/Container/Children/Laws.antt =====
-- What append, insert and cleanup leave of a container's children, CAmActionContainer.cpp, and when
-- the root action of CAmRootAction.cpp is ready for the next trigger.
use audio_manager_plugins.Base.{
  List, [], ◌∷◌, ◌++◌, some, true, false, ◌≡◌, inl, inr, refl, ap, arith, Bool-cases, is_empty, All,
}
use audio_manager_plugins.Base.Int.{pos}
use audio_manager_plugins.Action.{ActionState, not_started, is_not_started, ActionCommand}
use audio_manager_plugins.Action.Container.{Container}
use audio_manager_plugins.Action.Container.Children.{
  is_disposable, remaining, cleanup, insert_child, append, insert, root_cleanup,
}

module _ {W C : Type 0} (ops : ActionCommand W C) where
  open ops use {get_status}

  -- The status of the children, in order.
  abbrev pub IsStarted : C → Type 0
  IsStarted c = is_not_started (get_status c) ≡ false

  abbrev pub IsWaiting : C → Type 0
  IsWaiting c = is_not_started (get_status c) ≡ true

  insert_child-place :
      (c : C) (done rest : List C)
      → All IsStarted done
      → All IsWaiting rest
      → insert_child ops c (done ++ rest) ≡ done ++ c ∷ rest
  unfolding insert_child
  insert_child-place c [] [] h k = refl
  insert_child-place c [] (x ∷ rest) h k = ground arith
  insert_child-place c (x ∷ done) rest h k = ground (arith, insert_child-place c done rest h.1 k)

  -- Among children of which some were started and the others, behind them, were not, insert puts
  -- the new one between the two kinds, and append behind all.
  insert-append :
      (c : C) (b : Container C) (done rest : List C)
      → b.children ≡ done ++ rest
      → All IsStarted done
      → All IsWaiting rest
      → ((insert ops c b).children ≡ done ++ c ∷ rest)
        × ((append ops (some c) b).children ≡ (done ++ rest) ++ c ∷ [])
  unfolding insert append
  insert-append c b [] [] e h k = (rw e refl, rw e refl)
  insert-append c b [] (x ∷ rest) e h k = (rw e (insert_child-place c [] (x ∷ rest) h k), rw e refl)
  insert-append c b (x ∷ done) rest e h k =
      (rw e (insert_child-place c (x ∷ done) rest h k), rw e refl)

  -- The children that cleanup takes, from the front.
  abbrev IsDisposable : ActionState → C → Type 0
  IsDisposable own c = is_disposable ops own c ≡ true

  -- What is left starts with a child that has to stay.
  abbrev IsBlocked : ActionState → List C → Type 0
  IsBlocked own [] = Unit
  IsBlocked own (c ∷ cs) = is_disposable ops own c ≡ false

  remaining-splits :
      (own : ActionState) (cs : List C)
      → (gone : List C) × (cs ≡ gone ++ remaining ops own cs)
        × All (IsDisposable own) gone
        × IsBlocked own (remaining ops own cs)
  unfolding remaining
  remaining-splits own [] = ([], refl, tt, tt)
  remaining-splits own (c ∷ cs) = elim (Bool-cases (is_disposable ops own c)) [
    | inl gone ↦
        let (before, split, all, blocked) = remaining-splits own cs in
        (c ∷ before, rw gone (ap (◌∷◌ c) split), (gone, all), rw gone blocked)
    | inr stays ↦ ([], rw stays refl, tt, rw stays stays)
  ]

  -- cleanup takes children from the front while they may be deleted, keeps the rest in order, and
  -- starts over at index 0.
  cleanup-children :
      (clean : Container C → Container C) (b : Container C)
      → ((c : Container C) → (clean c).children ≡ c.children)
      → (gone : List C) × (b.children ≡ gone ++ (cleanup ops clean b).children)
        × All (IsDisposable b.status) gone
        × IsBlocked b.status (cleanup ops clean b).children
        × ((cleanup ops clean b).index ≡ pos 0)
  unfolding cleanup
  cleanup-children clean b keeps =
      let (gone, split, all, blocked) = remaining-splits b.status b.children in
      let same : (cleanup ops clean b).children ≡ remaining ops b.status b.children =
        elim (Bool-cases (is_empty (remaining ops b.status b.children))) [
          | inl e ↦ rw e (keeps _)
          | inr e ↦ rw e refl
        ] in
      (gone, rw same split, all, rw same blocked, ground arith)

  remaining-none :
      (own : ActionState) (cs : List C) → All (IsDisposable own) cs → remaining ops own cs ≡ []
  unfolding remaining
  remaining-none own [] h = refl
  remaining-none own (c ∷ cs) h = rw h.0 (remaining-none own cs h.1)

  -- The root action is as new, without children and error and at index 0, once all its children are
  -- over: done or undone, or, if its own undo is complete, never started.
  cleanup-root_cleanup :
      (b : Container C)
      → All (IsDisposable b.status) b.children
      → let r = cleanup ops root_cleanup b in
        (r.children ≡ []) × (r.status ≡ not_started) × (r.error ≡ pos 0) × (r.index ≡ pos 0)
  unfolding cleanup root_cleanup
  cleanup-root_cleanup b h = ground (arith, remaining-none b.status b.children h)
