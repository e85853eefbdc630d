-- ===== src/EventSubject/Parents.antt =====
-- Who is told of an action's end after setParent, CAmActionContainer.cpp and CAmActionCommand.cpp.
use audio_manager_plugins.Base.{
  ℕ, List, [], ◌∷◌, ◌++◌, Option, none, some, ◌≡◌, ◌≢◌, ap, arith, All,
}
use audio_manager_plugins.EventSubject.{
  Subject, register_observer, remove_first, unregister_observer, notified, set_parent_of_command,
  set_parent_of_container,
}

-- The subject's parent is its first observer, and it has no other.
abbrev pub BelongsTo : ℕ → Subject → Type 0
BelongsTo p s = (s.parent ≡ some p) × (s.list_observers ≡ p ∷ [])

abbrev pub IsOrphan : Subject → Type 0
IsOrphan s = (s.parent ≡ none) × (s.list_observers ≡ [])

-- The parents that an action is given, one after the other.
abbrev pub set_parents : (Option ℕ → Subject → Subject) → List ℕ → Subject → Subject
set_parents set [] s = s
set_parents set (p ∷ ps) s = set_parents set ps (set (some p) s)

abbrev pub last_of : ℕ → List ℕ → ℕ
last_of p [] = p
last_of p (q ∷ ps) = last_of q ps

container-BelongsTo :
    (p q : ℕ) (s : Subject) → BelongsTo p s → BelongsTo q (set_parent_of_container (some q) s)
unfolding set_parent_of_container register_observer unregister_observer remove_first
container-BelongsTo p q s h = ground arith

containers-BelongsTo :
    (p : ℕ) (ps : List ℕ) (s : Subject)
    → BelongsTo p s
    → BelongsTo (last_of p ps) (set_parents set_parent_of_container ps s)
containers-BelongsTo p [] s h = h
containers-BelongsTo p (q ∷ ps) s h = containers-BelongsTo q ps _ (container-BelongsTo p q s h)

first-BelongsTo :
    (p : ℕ) (s : Subject) → IsOrphan s → BelongsTo p (set_parent_of_container (some p) s)
unfolding set_parent_of_container register_observer
first-BelongsTo p s h = ground arith

-- A container without parent and observers that is given parents one after the other belongs to the
-- last of them, and a notification calls that one.
pub set_parent_of_container-BelongsTo :
    (p : ℕ) (ps : List ℕ) (s : Subject)
    → IsOrphan s
    → let t = set_parents set_parent_of_container (p ∷ ps) s in
      BelongsTo (last_of p ps) t × (notified t.list_observers ≡ some (last_of p ps))
unfolding notified
set_parent_of_container-BelongsTo p ps s orphan =
    let h = containers-BelongsTo p ps _ (first-BelongsTo p s orphan) in (h, ap notified h.1)

-- The first observer of a leaf action that has a parent.
abbrev pub IsFirst : ℕ → Subject → Type 0
IsFirst p s = (q : ℕ) × (os : List ℕ) × (s.parent ≡ some q) × (s.list_observers ≡ p ∷ os)

command-IsFirst :
    (p q : ℕ) (s : Subject) → q ≢ p → IsFirst p s → IsFirst p (set_parent_of_command (some q) s)
unfolding set_parent_of_command register_observer unregister_observer remove_first
command-IsFirst p q s other (r, os, parent, observers) =
    (q, remove_first q os ++ q ∷ [], ground arith, ground arith)

-- A leaf action that belongs to a parent and is then given others stays with the first one in its
-- observers: a notification calls that one, whatever its parent is by then.
pub set_parent_of_command-notified :
    (p : ℕ) (ps : List ℕ) (s : Subject)
    → All (λ q. q ≢ p) ps
    → IsFirst p s
    → notified (set_parents set_parent_of_command ps s).list_observers ≡ some p
unfolding notified
set_parent_of_command-notified p [] s others (r, os, parent, observers) = ap notified observers
set_parent_of_command-notified p (q ∷ ps) s others first =
    set_parent_of_command-notified p ps _ others.1 (command-IsFirst p q s others.0 first)
