-- ===== src/Action/Container/Execute/Layout.antt =====
-- How the children of a container of CAmActionContainer.cpp lie around its index.
use audio_manager_plugins.Base.{
  ℕ, zero, suc, ◌<◌, List, [], ◌∷◌, ◌++◌, some, false, ◌≡◌, inl, refl, arith, All, length,
  get_elem?,
}
use audio_manager_plugins.Base.Int.{pos}
use audio_manager_plugins.Action.{
  ActionState, not_started, executing, is_negative, ActionCommand, IsLive, IsFinal,
}
use audio_manager_plugins.Action.Container.{Container, set_at}

module _ {W C : Type 0} (ops : ActionCommand W C) (Good : C → Type 0) where
  open ops use {get_status}

  abbrev pub Fresh : C → Type 0
  Fresh c = (get_status c ≡ not_started) × Good c

  -- The children below the index are over, the child at the index is live, and those above it have
  -- not started.
  abbrev pub Layout : ℕ → List C → Type 0
  Layout i [] = ⊥
  Layout zero (c ∷ cs) = (IsLive (get_status c) × Good c) × All Fresh cs
  Layout (suc i) (c ∷ cs) = IsFinal (get_status c) × Layout i cs

  -- What a container's state has to satisfy to be executed: before the start its children have not
  -- started and its own _execute will not ask to wait; while it executes the index tells the
  -- children apart.
  abbrev pub GoodAt : ActionState → Container C → Type 0
  GoodAt not_started b =
      (b.index ≡ pos 0)
      × All Fresh (b.children ++ b.script.planned)
      × (is_negative b.script.execute_result ≡ false)
  GoodAt executing b = (i : ℕ) × (b.index ≡ pos i) × Layout i b.children
  GoodAt _ b = Unit

  abbrev pub IsReady : Container C → Type 0
  IsReady b = GoodAt b.status b

  pub focus :
      (i : ℕ) (cs : List C)
      → Layout i cs
      → (c : C) × (get_elem? cs i ≡ some c) × IsLive (get_status c) × Good c
  focus i [] h = absurd h
  focus zero (c ∷ cs) h = (c, refl, h.0.0, h.0.1)
  focus (suc i) (c ∷ cs) h = focus i cs h.1

  pub Layout-waits :
      (i : ℕ) (cs : List C) (d : C)
      → Layout i cs
      → IsLive (get_status d)
      → Good d
      → Layout i (set_at i d cs)
  Layout-waits i [] d h l g = h
  Layout-waits zero (c ∷ cs) d h l g = ((l, g), h.1)
  Layout-waits (suc i) (c ∷ cs) d h l g = (h.0, Layout-waits i cs d h.1 l g)

  pub Layout-next :
      (i : ℕ) (cs : List C) (d : C)
      → Layout i cs
      → IsFinal (get_status d)
      → suc i < length cs
      → Layout (suc i) (set_at i d cs)
  Layout-next i [] d h f lt = h
  Layout-next zero (c ∷ []) d h f lt = absurd (omega arith)
  Layout-next zero (c ∷ x ∷ xs) d h f lt = (f, ((inl h.1.0.0, h.1.0.1), h.1.1))
  Layout-next (suc i) (c ∷ cs) d h f lt = (h.0, Layout-next i cs d h.1 f (omega arith))

  pub length-set_at : (i : ℕ) (d : C) (cs : List C) → length (set_at i d cs) ≡ length cs
  length-set_at i d [] = refl
  length-set_at zero d (c ∷ cs) = refl
  length-set_at (suc i) d (c ∷ cs) = omega (arith, length-set_at i d cs)

  pub Layout-lt : (i : ℕ) (cs : List C) → Layout i cs → i < length cs
  Layout-lt i [] h = absurd h
  Layout-lt zero (c ∷ cs) h = omega arith
  Layout-lt (suc i) (c ∷ cs) h = omega (arith, Layout-lt i cs h.1)
