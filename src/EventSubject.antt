-- ===== src/EventSubject.antt =====
-- Observers: PluginControlInterfaceGeneric/src/CAmEventSubject.cpp, and the parents of actions, which
-- observe them: setParent of CAmActionCommand.cpp and of CAmActionContainer.cpp. An observer is a
-- pointer: a number, or none for NULL.
pub mod Parents
use audio_manager_plugins.Base.{ℕ, List, [], ◌∷◌, ◌++◌, Option, none, some, ◌==◌, if◌then◌else◌}

pub register_observer : Option ℕ → List ℕ → List ℕ
register_observer none os = os
register_observer (some o) os = os ++ o ∷ []

-- The first entry goes; NULL is never an entry.
pub remove_first : ℕ → List ℕ → List ℕ
remove_first o [] = []
remove_first o (x ∷ xs) = let rest = remove_first o xs in if x == o then xs else x ∷ rest

pub unregister_observer : Option ℕ → List ℕ → List ℕ
unfolding remove_first
unregister_observer none os = os
unregister_observer (some o) os = remove_first o os

-- The observer whose update a notification calls: the first alone.
pub notified : List ℕ → Option ℕ
notified [] = none
notified (o ∷ os) = some o

-- An action as a subject.
pub record Subject : Type 0 where
  pub list_observers : List ℕ
  pub parent : Option ℕ

abbrev pub has_observers : List ℕ → Subject → Subject
has_observers os s = record s { list_observers = os }

abbrev pub adopt : Option ℕ → List ℕ → Subject
adopt p os = record { list_observers = os; parent = p }

-- CAmActionCommand::setParent, which unregisters the new parent.
pub set_parent_of_command : Option ℕ → Subject → Subject
unfolding register_observer unregister_observer
set_parent_of_command p s = elim s.parent [
  | none ↦ adopt p (register_observer p s.list_observers)
  | some old ↦ adopt p (register_observer p (unregister_observer p s.list_observers))
]

-- CAmActionContainer::setParent, which unregisters the old one.
pub set_parent_of_container : Option ℕ → Subject → Subject
unfolding register_observer unregister_observer
set_parent_of_container p s = elim s.parent [
  | none ↦ adopt p (register_observer p s.list_observers)
  | some old ↦ adopt p (register_observer p (unregister_observer (some old) s.list_observers))
]
