-- ===== src/MainConnection/Lists/Answers.antt =====
-- getListElements of a factory whose connections have no null pointers, CAmMainConnectionElement.cpp.
use audio_manager_plugins.Base.{
  List, [], ◌∷◌, Option, none, some, Bool, true, false, ◌≡◌, refl, sym, subst, length, leb,
  Bool-cases, inl, inr, All,
}
use audio_manager_plugins.MainConnection.{Name, MainConnectionElement, same_name}
use audio_manager_plugins.MainConnection.Filter.{ConnectionListFilter, matches}
use audio_manager_plugins.MainConnection.Filter.Description.{matches-some}
use audio_manager_plugins.MainConnection.Route.States.{HasPoints}
use audio_manager_plugins.MainConnection.Lists.{
  MainConnectionFactory, o_oldest, get_element, collect, collect_one, in_order, get_list_elements,
}

-- The connection has no null pointer on its route, and the predicate holds for it.
abbrev pub IsComplete : (MainConnectionElement → Type 0) → MainConnectionElement → Type 0
IsComplete P c = All HasPoints c.list_route_elements × P c

abbrev IsNoneOr : (MainConnectionElement → Type 0) → Option MainConnectionElement → Type 0
IsNoneOr P none = Unit
IsNoneOr P (some c) = P c

get_element-IsNoneOr :
    (P : MainConnectionElement → Type 0) (n : Name) (cs : List MainConnectionElement)
    → All P cs
    → IsNoneOr P (get_element n cs)
unfolding get_element
get_element-IsNoneOr P n [] h = tt
get_element-IsNoneOr P n (c ∷ cs) (h, hs) = elim (Bool-cases (same_name c.name n)) [
  | inl y ↦ rw y h
  | inr other ↦ rw other (get_element-IsNoneOr P n cs hs)
]

-- The search answers, with connections that satisfy the predicate.
abbrev pub Answers : (MainConnectionElement → Type 0) → Option (List MainConnectionElement) → Type 0
Answers P o = (cs : List MainConnectionElement) × (o ≡ some cs) × All P cs

candidate-Answers :
    (P : MainConnectionElement → Type 0) (c : MainConnectionElement) (b : Bool)
    (rest : Option (List MainConnectionElement))
    → P c
    → Answers P rest
    → Answers P (collect_one (some c) (some b) rest)
candidate-Answers P c true rest p (cs, at, all) = (c ∷ cs, rw at refl, (p, all))
candidate-Answers P c false rest p answers = answers

collect_one-Answers :
    (P : MainConnectionElement → Type 0) (f : ConnectionListFilter)
    (c : Option MainConnectionElement) (rest : Option (List MainConnectionElement))
    → IsNoneOr (IsComplete P) c
    → Answers P rest
    → Answers P (collect_one c (matches f c) rest)
unfolding matches
collect_one-Answers P f none rest h answers = answers
collect_one-Answers P f (some c) rest (points, p) answers =
    subst (λ o. Answers P (collect_one (some c) o rest)) (sym (matches-some f c points))
      (candidate-Answers P c _ rest p answers)

collect-Answers :
    (P : MainConnectionElement → Type 0) (f : ConnectionListFilter)
    (elements entries : List MainConnectionElement)
    → All (IsComplete P) elements
    → Answers P (collect f elements entries)
unfolding collect
collect-Answers P f elements [] h = ([], refl, tt)
collect-Answers P f elements (entry ∷ entries) h =
    collect_one-Answers P f (get_element entry.name elements) (collect f elements entries)
      (get_element-IsNoneOr (IsComplete P) entry.name elements h)
      (collect-Answers P f elements entries h)

pub get_list_elements-Answers :
    (P : MainConnectionElement → Type 0) (f : ConnectionListFilter)
    (factory : MainConnectionFactory)
    → All (IsComplete P) factory.map_elements
    → Answers P (get_list_elements f o_oldest factory)
unfolding get_list_elements in_order
get_list_elements-Answers P f factory h =
    let (cs, at, all) = collect-Answers P f factory.map_elements factory.ordered_list h in
    (
      cs,
      rw at (elim (Bool-cases (leb (length cs) 1)) [ inl y ↦ rw y refl | inr n ↦ rw n refl ]),
      all,
    )
