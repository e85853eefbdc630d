-- ===== src/Element/Attachment.antt =====
-- Which element observes which: _register, _deregister, attach, detach and _detachAll of
-- PluginControlInterfaceGeneric/src/CAmElement.cpp. A number stands for the pointer to an element; `self`
-- is what getElement answers, the pointer that the factory holds for the element, none if it holds none.
pub mod Symmetry
pub mod Calls
use audio_manager_plugins.Base.{
  ℕ, List, [], ◌∷◌, ◌++◌, Option, none, some, Bool, true, false, ◌||◌, if◌then◌else◌, ◌==◌,
}

-- am_Error_e as far as these functions answer it.
pub data Error : Type 0 where
  e_ok e_already_exists e_not_possible : Error

-- mListObservers and mListSubjects of every element.
pub record Links : Type 0 where
  pub list_observers : ℕ → List ℕ
  pub list_subjects : ℕ → List ℕ

abbrev pub set_at : ℕ → List ℕ → (ℕ → List ℕ) → ℕ → List ℕ
set_at k v f j = if j == k then v else f j

-- std::find
pub contains : ℕ → List ℕ → Bool
contains k [] = false
contains k (j ∷ js) = k == j || contains k js

-- The entry that std::find finds, erased.
pub erase_first : ℕ → List ℕ → List ℕ
erase_first k [] = []
erase_first k (j ∷ js) = let rest = erase_first k js in if k == j then js else j ∷ rest

abbrev pub push_at : ℕ → ℕ → (ℕ → List ℕ) → ℕ → List ℕ
push_at k x f = set_at k (f k ++ x ∷ []) f

abbrev pub erase_at : ℕ → ℕ → (ℕ → List ℕ) → ℕ → List ℕ
erase_at k x f = set_at k (erase_first x (f k)) f

pub register : ℕ → Option ℕ → Links → Error × Links
unfolding contains
register this none l = (e_not_possible, l)
register this (some observer) l =
    if contains observer (l.list_observers this)
    then (e_already_exists, l)
    else (e_ok, record l { list_observers = push_at this observer l.list_observers })

pub deregister : ℕ → Option ℕ → Links → Links
unfolding contains erase_first
deregister this none l = l
deregister this (some observer) l =
    if contains observer (l.list_observers this)
    then record l { list_observers = erase_at this observer l.list_observers }
    else l

abbrev pub push_subject : ℕ → ℕ → Links → Links
push_subject this subject l = record l { list_subjects = push_at this subject l.list_subjects }

-- What attach does after the subject has registered the observer.
pub attached : ℕ → ℕ → Error × Links → Error × Links
attached this subject (e_ok, l) = (e_ok, push_subject this subject l)
attached this subject (e_already_exists, l) =
    if contains subject (l.list_subjects this)
    then (e_already_exists, l)
    else (e_ok, push_subject this subject l)
attached this subject (e_not_possible, l) = (e_not_possible, l)

pub attach : ℕ → Option ℕ → Option ℕ → Links → Error × Links
unfolding attached register
attach this self none l = (e_not_possible, l)
attach this self (some subject) l = attached this subject (register subject self l)

pub detach : ℕ → Option ℕ → Option ℕ → Links → Error × Links
unfolding deregister
detach this self none l = (e_not_possible, l)
detach this self (some subject) l =
    if contains subject (l.list_subjects this)
    then (
      e_ok,
      deregister subject self (record l { list_subjects = erase_at this subject l.list_subjects }),
    )
    else (e_ok, l)

-- The loop of _detachAll over the subjects.
pub detach_loop : ℕ → Option ℕ → List ℕ → Links → Links
unfolding deregister
detach_loop this self [] l = l
detach_loop this self (s ∷ ss) l =
    let l' = deregister s self l in
    detach_loop this self ss (record l' { list_subjects = set_at this ss l'.list_subjects })

pub detach_all : ℕ → Option ℕ → Links → Links
unfolding detach_loop
detach_all this self l = detach_loop this self (l.list_subjects this) l
