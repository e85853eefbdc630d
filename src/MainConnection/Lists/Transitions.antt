-- ===== src/MainConnection/Lists/Transitions.antt =====
-- The transitions of a main connection, registerTransitionAction and unregisterTransitionAction of
-- CAmMainConnectionElement.cpp.
use audio_manager_plugins.Base.{
  ℕ, List, [], ◌∷◌, ◌++◌, false, ◌==◌, ◌≡◌, refl, sym, ap, ◌∙◌, arith, All, append_assoc,
  append-nil, Bool-cases, inl, inr,
}
use audio_manager_plugins.TriggerQueue.{TriggerPair}
use audio_manager_plugins.MainConnection.{MainConnectionElement}
use audio_manager_plugins.MainConnection.Lists.{
  Trigger, ConnectTrigger, permits_dispose, register_transition_action, remove_transition,
  unregister_transition_action,
}
use audio_manager_plugins.MainConnection.Lists.Disposal.{permits_dispose-transition}

-- Calls for one action after another.
pub data Change : Type 0 where
  registers : ℕ → Change
  unregisters : ℕ → Change

abbrev pub action_of : Change → ℕ
action_of (registers k) = k
action_of (unregisters k) = k

abbrev pub change : Change → MainConnectionElement → MainConnectionElement
change (registers k) c = register_transition_action k c
change (unregisters k) c = unregister_transition_action k c

abbrev pub changed : List Change → MainConnectionElement → MainConnectionElement
changed [] c = c
changed (ch ∷ chs) c = changed chs (change ch c)

-- The call is for another action.
abbrev pub IsOther : ℕ → Change → Type 0
IsOther a ch = (action_of ch == a) ≡ false

abbrev pub IsAbsent : ℕ → List ℕ → Type 0
IsAbsent a xs = All (λ x. (x == a) ≡ false) xs

-- The first entry goes, and nothing else.
pub remove_transition-first :
    (a : ℕ) (xs ys : List ℕ) → IsAbsent a xs → remove_transition a (xs ++ a ∷ ys) ≡ xs ++ ys
unfolding remove_transition
remove_transition-first a [] ys h = ground arith
remove_transition-first a (x ∷ xs) ys h = ground (arith, h.0, remove_transition-first a xs ys h.1)

-- The transitions `with` and without the action: it stands once more in the first.
abbrev IsInserted : ℕ → List ℕ → List ℕ → Type 0
IsInserted a with_it without =
    (xs ys : List ℕ) × (with_it ≡ xs ++ a ∷ ys) × (without ≡ xs ++ ys) × IsAbsent a xs

remove_transition-IsInserted :
    (k a : ℕ) (xs ys : List ℕ)
    → (k == a) ≡ false
    → IsAbsent a xs
    → IsInserted a (remove_transition k (xs ++ a ∷ ys)) (remove_transition k (xs ++ ys))
unfolding remove_transition
remove_transition-IsInserted k a [] ys other h =
    ([], remove_transition k ys, ground (arith, other), refl, tt)
remove_transition-IsInserted k a (x ∷ xs) ys other (h, hs) = elim (Bool-cases (x == k)) [
  | inl y ↦ rw y (xs, ys, refl, refl, hs)
  | inr n ↦
      let (us, vs, at, without, absent) = remove_transition-IsInserted k a xs ys other hs in
      rw n (x ∷ us, vs, ap (λ t. x ∷ t) at, ap (λ t. x ∷ t) without, (h, absent))
]

change-IsInserted :
    (a : ℕ) (ch : Change) (c d : MainConnectionElement)
    → IsOther a ch
    → IsInserted a c.ongoing_transitions d.ongoing_transitions
    → IsInserted a (change ch c).ongoing_transitions (change ch d).ongoing_transitions
unfolding register_transition_action unregister_transition_action
change-IsInserted a (registers k) c d other (xs, ys, at, without, absent) = (
  xs,
  ys ++ k ∷ [],
  ap (λ t. t ++ k ∷ []) at ∙ append_assoc xs (a ∷ ys) (k ∷ []),
  ap (λ t. t ++ k ∷ []) without ∙ append_assoc xs ys (k ∷ []),
  absent,
)
change-IsInserted a (unregisters k) c d other (xs, ys, at, without, absent) =
    rw (at, without) (remove_transition-IsInserted k a xs ys other absent)

changed-IsInserted :
    (a : ℕ) (chs : List Change) (c d : MainConnectionElement)
    → All (IsOther a) chs
    → IsInserted a c.ongoing_transitions d.ongoing_transitions
    → IsInserted a (changed chs c).ongoing_transitions (changed chs d).ongoing_transitions
changed-IsInserted a [] c d others inserted = inserted
changed-IsInserted a (ch ∷ chs) c d (other, others) inserted =
    changed-IsInserted a chs (change ch c) (change ch d) others
      (change-IsInserted a ch c d other inserted)

-- The calls change the transitions alone.
abbrev with_transitions : List ℕ → MainConnectionElement → MainConnectionElement
with_transitions ts c = record c { ongoing_transitions = ts }

changed-transitions :
    (chs : List Change) (c : MainConnectionElement) (ts : List ℕ)
    → with_transitions ts (changed chs c) ≡ with_transitions ts c
unfolding register_transition_action unregister_transition_action
changed-transitions [] c ts = refl
changed-transitions (registers k ∷ chs) c ts = changed-transitions chs (change (registers k) c) ts
changed-transitions (unregisters k ∷ chs) c ts =
    changed-transitions chs (change (unregisters k) c) ts

-- A transition that has registered keeps a connection from being disposed, whatever is pending, for as
-- long as only other actions register and unregister. When it unregisters, the connection is as if it
-- had never registered, if it was not registered before: the other actions are all there in their order.
pub unregister_transition_action-register_transition_action :
    (a : ℕ) (c : MainConnectionElement) (chs : List Change)
    (snap_shot : List (TriggerPair Trigger ConnectTrigger))
    → IsAbsent a c.ongoing_transitions
    → All (IsOther a) chs
    → (permits_dispose (changed chs (register_transition_action a c)) snap_shot ≡ false)
      × (unregister_transition_action a (changed chs (register_transition_action a c))
          ≡ changed chs c)
unfolding register_transition_action unregister_transition_action
unregister_transition_action-register_transition_action a c chs snap_shot absent others =
    let r = register_transition_action a c in
    let (xs, ys, at, without, before) =
      changed-IsInserted a chs r c others
        (c.ongoing_transitions, [], refl, sym (append-nil c.ongoing_transitions), absent) in
    (
      permits_dispose-transition (changed chs r) snap_shot xs ys a at,
      ap (λ ts. with_transitions ts (changed chs r))
            (ap (remove_transition a) at ∙ remove_transition-first a xs ys before ∙ sym without)
          ∙ changed-transitions chs r (changed chs c).ongoing_transitions
          ∙ sym (changed-transitions chs c (changed chs c).ongoing_transitions),
    )
