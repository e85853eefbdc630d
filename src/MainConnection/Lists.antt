-- ===== src/MainConnection/Lists.antt =====
-- The lists of main connections, CAmMainConnectionElement.cpp: the factory's ordered list and the
-- disposal of a connection. Where std::map and std::list hold pointers, `id` is the pointer.
pub mod Sorting
pub mod Answers
pub mod Moving
pub mod Disposal
pub mod Transitions
use audio_manager_plugins.Base.{
  ℕ, zero, suc, ◌+◌, List, [], ◌∷◌, ◌++◌, Option, none, some, Bool, true, false, ◌==◌, ◌&&◌, ◌||◌,
  not, if◌then◌else◌, length, is_empty, leb,
}
use audio_manager_plugins.Base.Int.{ℤ, pos, ◌+ℤ◌, less, wrap32}
use audio_manager_plugins.TriggerQueue.{TriggerPair}
use audio_manager_plugins.MainConnection.{
  Name, same_name, ConnectionState, cs_disconnected, RoutePoint, RouteElement, same_state,
}
use audio_manager_plugins.MainConnection.{MainConnectionElement}
use audio_manager_plugins.MainConnection.Filter.{ConnectionListFilter, matches}

-- CAmMainConnectionFactory: the map from names, and the ordered list.
pub record MainConnectionFactory : Type 0 where
  pub map_elements : List MainConnectionElement
  pub ordered_list : List MainConnectionElement

unfoldable pub get_element : Name → List MainConnectionElement → Option MainConnectionElement
get_element n [] = none
get_element n (c ∷ cs) = let rest = get_element n cs in if same_name c.name n then some c else rest

-- gc_Order_e
pub data Order : Type 0 where
  o_high_priority o_low_priority o_newest o_oldest : Order

-- The first entry with the pointer, and the list without it.
pub take_entry :
    ℕ → List MainConnectionElement → Option (MainConnectionElement × List MainConnectionElement)
take_entry p [] = none
take_entry p (c ∷ cs) =
    let rest = take_entry p cs in
    if c.id == p
    then some (c, cs)
    else elim rest [ none ↦ none | some found ↦ some (found.0, c ∷ found.1) ]

abbrev pub place :
    Order
    → MainConnectionElement
    → List MainConnectionElement
    → List MainConnectionElement
    → List MainConnectionElement
place o_newest c rest all = rest ++ c ∷ []
place o_oldest c rest all = c ∷ rest
place _ c rest all = all

abbrev pub move_entry :
    Order
    → List MainConnectionElement
    → Option (MainConnectionElement × List MainConnectionElement)
    → List MainConnectionElement
move_entry position all none = all
move_entry position all (some (c, rest)) = place position c rest all

pub move_to_end : Name → Order → MainConnectionFactory → MainConnectionFactory
unfolding get_element take_entry
move_to_end n position f = elim (get_element n f.map_elements) [
  | none ↦ f
  | some c ↦ record f {
    ordered_list = move_entry position f.ordered_list (take_entry c.id f.ordered_list);
  }
]

-- The candidate in front of the others that match.
abbrev pub collect_one :
    Option MainConnectionElement
    → Option Bool
    → Option (List MainConnectionElement)
    → Option (List MainConnectionElement)
collect_one c none rest = none
collect_one none (some b) rest = rest
collect_one (some c) (some true) none = none
collect_one (some c) (some true) (some cs) = some (c ∷ cs)
collect_one (some c) (some false) rest = rest

-- The loop over the ordered list; each entry is looked up by its name.
unfoldable pub collect :
    ConnectionListFilter
    → List MainConnectionElement
    → List MainConnectionElement
    → Option (List MainConnectionElement)
unfolding matches get_element
collect f elements [] = some []
collect f elements (entry ∷ entries) =
    let candidate = get_element entry.name elements in
    collect_one candidate (matches f candidate) (collect f elements entries)

-- getPriority: the priorities of the route elements among its subjects and theirs, added up in an
-- int32_t that wraps around.
abbrev pub sum_priorities : ℤ → List RouteElement → ℤ
sum_priorities sum [] = sum
sum_priorities sum (e ∷ es) = sum_priorities (wrap32 (sum +ℤ e.priority)) es

abbrev pub get_priority : MainConnectionElement → ℤ
get_priority c = sum_priorities (pos 0) c.route_subjects

-- std::stable_sort, by insertion from the back.
pub insert_sorted {ℓ} : {A : Type ℓ} → (A → A → Bool) → A → List A → List A
insert_sorted lt x [] = x ∷ []
insert_sorted lt x (y ∷ ys) =
    let rest = insert_sorted lt x ys in if lt y x then y ∷ rest else x ∷ y ∷ ys

pub stable_sort {ℓ} : {A : Type ℓ} → (A → A → Bool) → List A → List A
unfolding insert_sorted
stable_sort lt [] = []
stable_sort lt (x ∷ xs) = insert_sorted lt x (stable_sort lt xs)

abbrev pub reversed : List MainConnectionElement → List MainConnectionElement
reversed [] = []
reversed (c ∷ cs) = reversed cs ++ c ∷ []

pub in_order : Order → List MainConnectionElement → List MainConnectionElement
unfolding stable_sort
in_order o_high_priority cs = stable_sort (λ l r. less (get_priority l) (get_priority r)) cs
in_order o_low_priority cs = stable_sort (λ l r. less (get_priority r) (get_priority l)) cs
in_order o_newest cs = reversed cs
in_order o_oldest cs = cs

-- A list of one needs no order.
abbrev pub sort_collected :
    Order → Option (List MainConnectionElement) → Option (List MainConnectionElement)
unfolding in_order
sort_collected order none = none
sort_collected order (some cs) = some (if leb (length cs) 1 then cs else in_order order cs)

pub get_list_elements :
    ConnectionListFilter → Order → MainConnectionFactory → Option (List MainConnectionElement)
unfolding collect
get_list_elements f order factory =
    sort_collected order (collect f factory.map_elements factory.ordered_list)

unfoldable pub register_transition_action : ℕ → MainConnectionElement → MainConnectionElement
register_transition_action a c = record c { ongoing_transitions = c.ongoing_transitions ++ a ∷ [] }

pub remove_transition : ℕ → List ℕ → List ℕ
remove_transition a [] = []
remove_transition a (x ∷ xs) = let rest = remove_transition a xs in if x == a then xs else x ∷ rest

unfoldable pub unregister_transition_action : ℕ → MainConnectionElement → MainConnectionElement
unfolding remove_transition
unregister_transition_action a c = record c {
  ongoing_transitions = remove_transition a c.ongoing_transitions;
}

-- gc_Trigger_e as far as permitsDispose looks at it, and gc_ConnectTrigger_s.
pub data Trigger : Type 0 where
  user_connection_request : Trigger
  other_trigger : ℕ → Trigger

pub record ConnectTrigger : Type 0 where
  pub source_name : Name
  pub sink_name : Name
  pub class_name : Name

-- A pending request to connect the connection's own pair.
pub is_own_request : MainConnectionElement → TriggerPair Trigger ConnectTrigger → Bool
is_own_request c (user_connection_request, some t) =
    same_name t.sink_name c.main_sink_name && same_name t.source_name c.main_source_name
is_own_request c _ = false

pub count_requests : MainConnectionElement → List (TriggerPair Trigger ConnectTrigger) → ℕ
unfolding is_own_request
count_requests c [] = 0
count_requests c (p ∷ ps) =
    let rest = count_requests c ps in if is_own_request c p then suc rest else rest

pub permits_dispose : MainConnectionElement → List (TriggerPair Trigger ConnectTrigger) → Bool
unfolding count_requests
permits_dispose c snap_shot =
    same_state c.state cs_disconnected
    && (length c.ongoing_transitions + count_requests c snap_shot == 0)
