-- ===== src/Classes/Topology/Arrival.antt =====
-- Where the route of a topology starts and ends.
use audio_manager_plugins.Base.{
  ℕ, zero, suc, ◌<◌, ◌≤◌, List, [], ◌∷◌, Option, none, some, true, false, length, ◌≡◌, refl, ◌∙◌,
  ◌++◌, append-nil, inl, inr, arith, Bool-cases, Option-cases,
}
use audio_manager_plugins.MainConnection.{Name}
use audio_manager_plugins.Classes.{
  TopologyCode, general_element, sink_element, source_element, gateway_element, equal_code,
  exclusive_code, shared_code, lbracket_code, rbracket_code, null_code, TopologyElement,
  RoutingElement, Gateway, Registry, ClassElement,
}
use audio_manager_plugins.Classes.Topology.{
  reverse_onto, Walk, Walked, pop_gateways, skip_gateway, is_main_source, through_gateway, walk,
}
use audio_manager_plugins.Classes.Topology.Closed.{is_closed, AtBracket, skip_gateway-AtBracket}

-- The sink of the oldest segment.
abbrev pub first_sink : RoutingElement → List RoutingElement → ℕ
first_sink e [] = e.sink_id
first_sink e (p ∷ ps) = first_sink p ps

-- Between a segment and the next older one lies a gateway.
abbrev pub Linked : Registry → RoutingElement → List RoutingElement → Type 0
Linked r e [] = Unit
Linked r e (p ∷ ps) =
    ((n : Name) × (g : Gateway) × (r.gateway n ≡ some g)
      × (p.source_id ≡ g.source_id)
      × (e.sink_id ≡ g.sink_id))
    × Linked r p ps

pub record IsSound (r : Registry) (sink : ℕ) (s : Walk) : Type 0 where
  pub counted : s.gateway_found_counter ≡ length s.pushed  -- every push is counted
  pub anchored : first_sink s.routing_element s.pushed ≡ sink
  pub linked : Linked r s.routing_element s.pushed

-- The segments that were pushed lead from the sink to the source.
abbrev pub Arrives : Registry → ℕ → ℕ → List RoutingElement → Type 0
Arrives r source sink [] = ⊥
Arrives r source sink (e ∷ es) = (e.source_id ≡ source) × (first_sink e es ≡ sink) × Linked r e es

abbrev Popped : Registry → ℕ → Option Walk → Type 0
Popped r sink none = ⊥
Popped r sink (some s) = IsSound r sink s × (s.gateway_found_counter ≡ 0)

pop_gateways-Popped :
    (r : Registry) (sink n : ℕ) (e : RoutingElement) (ps : List RoutingElement)
    → n ≡ length ps
    → first_sink e ps ≡ sink
    → Linked r e ps
    → Popped r sink (pop_gateways n e ps)
unfolding pop_gateways
pop_gateways-Popped r sink zero e ps all a l =
    (record { counted = all; anchored = a; linked = l }, refl)
pop_gateways-Popped r sink (suc n) e [] all a l = absurd (omega arith)
pop_gateways-Popped r sink (suc n) e (p ∷ ps) all a l =
    pop_gateways-Popped r sink n p ps (omega arith) a l.1

first_sink-source :
    (e : RoutingElement) (source : ℕ) (ps : List RoutingElement)
    → first_sink (record e { source_id = source }) ps ≡ first_sink e ps
first_sink-source e source [] = refl
first_sink-source e source (p ∷ ps) = refl

Linked-source :
    (r : Registry) (e : RoutingElement) (source : ℕ) (ps : List RoutingElement)
    → Linked r e ps
    → Linked r (record e { source_id = source }) ps
Linked-source r e source [] l = tt
Linked-source r e source (p ∷ ps) l = l

through_gateway-IsSound :
    (r : Registry) (sink : ℕ) (n : Name) (g : Gateway) (s : Walk)
    → r.gateway n ≡ some g
    → IsSound r sink s
    → IsSound r sink (through_gateway g s)
unfolding through_gateway
through_gateway-IsSound r sink n g s h sound = record {
  counted = ground (arith, sound.counted);
  anchored = first_sink-source s.routing_element g.source_id s.pushed ∙ sound.anchored;
  linked =
      ((n, g, h, refl, refl), Linked-source r s.routing_element g.source_id s.pushed sound.linked);
}

-- A walk that ends, and arrives if it finds the source; otherwise nothing is left of it.
abbrev pub Ends : Registry → ℕ → ℕ → Option Walked → Type 0
Ends r source sink none = ⊥
Ends r source sink (some w) =
    (w.source_found ≡ true → Arrives r source sink w.pushed)
    × (w.source_found ≡ false → w.pushed ≡ [])

through_gateway-counter :
    (g : Gateway) (s : Walk) (depth : ℕ)
    → s.gateway_found_counter ≤ depth
    → (through_gateway g s).gateway_found_counter ≤ suc depth
unfolding through_gateway
through_gateway-counter g s depth h = omega arith

none_pushed : (ps : List RoutingElement) → length ps ≡ 0 → ps ≡ []
none_pushed [] h = refl
none_pushed (p ∷ ps) h = absurd (omega arith)

AtBracket-at_most :
    (n m : ℕ) (o : Option (List TopologyElement)) → AtBracket n o → n ≤ m → AtBracket m o
AtBracket-at_most n m none h le = h
AtBracket-at_most n m (some []) h le = h
AtBracket-at_most n m (some (e ∷ rest)) h le = (omega (arith, h.0), h.1, h.2)

module _ (r : Registry) (c : ClassElement) (main_source : Name) (source sink : ℕ) where
  abbrev pub EndsFrom : ℕ → Type 0
  EndsFrom rounds =
      (depth : ℕ) (es : List TopologyElement) (s : Walk)
      → length es < rounds
      → is_closed depth es ≡ true
      → s.gateway_found_counter ≤ depth
      → IsSound r sink s
      → Ends r source sink (walk rounds r c main_source source es s)

  Ends-after_skip :
      (rounds : ℕ)
      → EndsFrom rounds
      → (s : Walk) → (o : Option (List TopologyElement)) → AtBracket rounds o
      → IsSound r sink s
      → s.gateway_found_counter ≡ 0
      → Ends r source sink (elim o [
        | none ↦ none
        | some [] ↦ none
        | some (bracket ∷ rest) ↦ walk rounds r c main_source source rest s
      ])
  Ends-after_skip rounds later s none at sound zero_found = absurd at
  Ends-after_skip rounds later s (some []) at sound zero_found = absurd at
  Ends-after_skip rounds later s (some (e ∷ rest)) at sound zero_found =
      later at.1 rest s at.0 at.2 (omega arith) sound

  Ends-after_pop :
      (o : Option Walk) (f : Walk → Option Walked)
      → Popped r sink o
      → ((s : Walk) → IsSound r sink s → s.gateway_found_counter ≡ 0 → Ends r source sink (f s))
      → Ends r source sink (elim o [ none ↦ none | some s ↦ f s ])
  Ends-after_pop none f popped then_ends = absurd popped
  Ends-after_pop (some s) f popped then_ends = then_ends s popped.0 popped.1

  popped :
      (s : Walk)
      → IsSound r sink s
      → Popped r sink (pop_gateways s.gateway_found_counter s.routing_element s.pushed)
  popped s sound =
      pop_gateways-Popped r sink s.gateway_found_counter s.routing_element s.pushed sound.counted
        sound.anchored sound.linked

  -- One round, for an element of each code.
  walk_round :
      (rounds : ℕ)
      → EndsFrom rounds
      → (depth : ℕ) (code : TopologyCode) (name : Name) (es : List TopologyElement) (s : Walk)
      → length es < rounds
      → is_closed depth (record { code_id = code; name = name } ∷ es) ≡ true
      → s.gateway_found_counter ≤ depth
      → IsSound r sink s
      → Ends r source sink
          (walk (suc rounds) r c main_source source (record { code_id = code; name = name } ∷ es) s)
  unfolding walk
  walk_round rounds later depth source_element name es s few closed open_count sound =
      elim (Bool-cases (is_main_source r c main_source name)) [
        | inl h ↦ rw h (
          λ _. (
            refl,
            first_sink-source s.routing_element source s.pushed ∙ sound.anchored,
            Linked-source r s.routing_element source s.pushed sound.linked,
          ),
          λ h. cc,
        )
        | inr h ↦ rw h (later depth es s few closed open_count sound)
      ]
  walk_round rounds later depth gateway_element name es s few closed open_count sound =
      elim (Option-cases (r.gateway name)) [
        | inl h ↦
            rw (h, walk)
              (Ends-after_pop _ _ (popped s sound) (λ s' sound' at_start.
                Ends-after_skip rounds later s' _
                  (AtBracket-at_most _ rounds (skip_gateway true 0 (suc s.gateway_found_counter) es)
                    (skip_gateway-AtBracket true 0 (suc s.gateway_found_counter) (suc depth) es
                      closed (omega arith) (omega arith))
                    (omega arith))
                  sound' at_start))
        | inr (g, h) ↦
            rw (h, walk)
              (later (suc depth) es (through_gateway g s) few closed
                (through_gateway-counter g s depth open_count)
                (through_gateway-IsSound r sink name g s h sound))
      ]
  walk_round rounds later zero rbracket_code name es s few closed open_count sound = cc
  walk_round rounds later (suc depth) rbracket_code name es s few closed open_count sound =
      Ends-after_pop _ _ (popped s sound)
        (λ s' sound' at_start. later depth es s' few closed (omega arith) sound')
  walk_round rounds later depth general_element name es s few closed open_count sound =
      later depth es s few closed open_count sound
  walk_round rounds later depth sink_element name es s few closed open_count sound =
      later depth es s few closed open_count sound
  walk_round rounds later depth equal_code name es s few closed open_count sound =
      later depth es s few closed open_count sound
  walk_round rounds later depth exclusive_code name es s few closed open_count sound =
      later depth es s few closed open_count sound
  walk_round rounds later depth shared_code name es s few closed open_count sound =
      later depth es s few closed open_count sound
  walk_round rounds later depth lbracket_code name es s few closed open_count sound =
      later depth es s few closed open_count sound
  walk_round rounds later depth null_code name es s few closed open_count sound =
      later depth es s few closed open_count sound

  pub walk-Ends : (rounds : ℕ) → EndsFrom rounds
  unfolding walk
  walk-Ends zero depth es s few closed open_count sound = absurd (omega arith)
  walk-Ends (suc rounds) depth [] s few closed open_count sound =
      (λ h. cc, λ h. none_pushed s.pushed (ground (arith, sound.counted)))
  walk-Ends (suc rounds) depth (e ∷ es) s few closed open_count sound =
      walk_round rounds (walk-Ends rounds) depth e.code_id e.name es s (omega arith) closed
        open_count sound

-- A route leads from the sink of its first segment to the source of its last one.
abbrev pub Leads : Registry → ℕ → ℕ → List RoutingElement → Type 0
Leads r source sink route = Arrives r source sink (reverse_onto route [])

reverse_onto-reverse_onto :
    (xs ys zs : List RoutingElement)
    → reverse_onto (reverse_onto xs ys) zs ≡ reverse_onto ys (xs ++ zs)
reverse_onto-reverse_onto [] ys zs = refl
reverse_onto-reverse_onto (x ∷ xs) ys zs = reverse_onto-reverse_onto xs (x ∷ ys) zs

pub reverse_twice : (xs : List RoutingElement) → reverse_onto (reverse_onto xs []) [] ≡ xs
reverse_twice xs = reverse_onto-reverse_onto xs [] [] ∙ append-nil xs
