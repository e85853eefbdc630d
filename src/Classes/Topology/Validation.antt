-- ===== src/Classes/Topology/Validation.antt =====
-- Which of the daemon's routes the validation takes.
use audio_manager_plugins.Base.{
  ℕ, ◌+◌, ==_iff, List, [], ◌∷◌, Option, none, some, Bool, true, false, ◌&&◌, ◌==◌, length, ◌≡◌,
  refl, ap, arith, All, Bool-cases, inl, inr, ◌++◌,
}
use audio_manager_plugins.Classes.{RoutingElement, Route}
use audio_manager_plugins.Classes.Topology.{reverse_onto, same_segments, validate_route}

-- The sinks and sources that a route joins, segment by segment.
abbrev pub joins : List RoutingElement → List (ℕ × ℕ)
joins [] = []
joins (e ∷ es) = (e.sink_id, e.source_id) ∷ joins es

accepts_joins :
    (ds ts : List RoutingElement)
    → length ds ≡ length ts
    → same_segments ds ts ≡ true
    → joins ds ≡ joins ts
unfolding same_segments
accepts_joins [] [] len h = refl
accepts_joins [] (t ∷ ts) len h = absurd (omega arith)
accepts_joins (d ∷ ds) [] len h = absurd (omega arith)
accepts_joins (d ∷ ds) (t ∷ ts) len h = ground (arith, accepts_joins ds ts)

joins_accepts :
    (ds ts : List RoutingElement)
    → joins ds ≡ joins ts
    → (length ds ≡ length ts) × (same_segments ds ts ≡ true)
unfolding same_segments
joins_accepts [] [] h = (refl, refl)
joins_accepts [] (t ∷ ts) h = cc
joins_accepts (d ∷ ds) [] h = cc
joins_accepts (d ∷ ds) (t ∷ ts) h = ground (arith, joins_accepts ds ts)

-- A route of the daemon joins what the topology's route joins from its end.
abbrev pub Agrees : Route → Route → Type 0
Agrees topology d = joins d.route ≡ joins (reverse_onto topology.route [])

length-reverse_onto :
    (xs ys : List RoutingElement) → length (reverse_onto xs ys) ≡ length xs + length ys
length-reverse_onto [] ys = omega arith
length-reverse_onto (x ∷ xs) ys = omega (arith, length-reverse_onto xs (x ∷ ys))

-- The first route that agrees, or none where no route does.
abbrev pub FirstThatAgrees : Route → List Route → Option Route → Type 0
FirstThatAgrees topology ds none = All (λ d. ¬ Agrees topology d) ds
FirstThatAgrees topology ds (some d) =
    (before : List Route) × (after : List Route) × (ds ≡ before ++ d ∷ after)
    × Agrees topology d
    × All (λ x. ¬ Agrees topology x) before

abbrev accepts : Route → Route → Bool
accepts topology d =
    length d.route == length topology.route
    && same_segments d.route (reverse_onto topology.route [])

accepts-Agrees :
    (topology d : Route)
    → ((accepts topology d ≡ true) → Agrees topology d)
      × ((accepts topology d ≡ false) → ¬ Agrees topology d)
accepts-Agrees topology d = (
  λ h.
      accepts_joins d.route (reverse_onto topology.route [])
        (omega (
          arith,
          length-reverse_onto topology.route [],
          (==_iff (length d.route) (length topology.route)).0 (ground arith),
        ))
        (ground arith),
  λ h agrees.
      let same = joins_accepts d.route (reverse_onto topology.route []) agrees in
      ground (arith, same, length-reverse_onto topology.route []),
)

skip_route :
    (topology d : Route) (ds : List Route) (o : Option Route)
    → ¬ Agrees topology d
    → FirstThatAgrees topology ds o
    → FirstThatAgrees topology (d ∷ ds) o
skip_route topology d ds none not_here first = (not_here, first)
skip_route topology d ds (some x) not_here (before, after, split, agrees, others) =
    (d ∷ before, after, ap (λ xs. d ∷ xs) split, agrees, (not_here, others))

-- The validation takes the first of the daemon's routes that joins the same sinks and sources, in the
-- same order, as the topology's route read from its end, and no route exactly if none does.
pub validate_route-FirstThatAgrees :
    (ds : List Route) (topology : Route) → FirstThatAgrees topology ds (validate_route ds topology)
unfolding validate_route
validate_route-FirstThatAgrees [] topology = tt
validate_route-FirstThatAgrees (d ∷ ds) topology = elim (Bool-cases (accepts topology d)) [
  | inl h ↦ rw h ([], ds, refl, (accepts-Agrees topology d).0 h, tt)
  | inr h ↦ rw h (
      skip_route topology d ds (validate_route ds topology) ((accepts-Agrees topology d).1 h)
        (validate_route-FirstThatAgrees ds topology))
]
