-- ===== src/Classes/Topology/Closed.antt =====
-- The walk over a topology whose gateways are closed.
use audio_manager_plugins.Base.{
  ℕ, zero, suc, ◌+◌, ◌<◌, ◌≤◌, List, [], ◌∷◌, Option, none, some, Bool, true, false, ◌==◌, ltb,
  if◌then◌else◌, length, ◌≡◌, refl, inl, inr, arith, Bool-cases,
}
use audio_manager_plugins.Classes.{
  TopologyCode, general_element, sink_element, source_element, gateway_element, equal_code,
  exclusive_code, shared_code, lbracket_code, rbracket_code, null_code, TopologyElement,
}
use audio_manager_plugins.Classes.Topology.{is_rbracket, is_gateway, skip_gateway}

-- So many gateways are open, and every bracket closes one.
abbrev pub is_closed : ℕ → List TopologyElement → Bool
is_closed depth [] = depth == 0
is_closed depth (e ∷ es) =
    if is_gateway e.code_id
    then is_closed (suc depth) es
    else if is_rbracket e.code_id
    then (elim depth [ zero ↦ false | suc d ↦ is_closed d es ])
    else is_closed depth es

-- The list begins with a bracket, behind which so many gateways are open.
abbrev pub AtBracket : ℕ → Option (List TopologyElement) → Type 0
AtBracket rounds none = ⊥
AtBracket rounds (some []) = ⊥
AtBracket rounds (some (e ∷ rest)) = (length rest < rounds) × (d : ℕ) × (is_closed d rest ≡ true)

AtBracket-weaken : (n : ℕ) (o : Option (List TopologyElement)) → AtBracket n o → AtBracket (suc n) o
AtBracket-weaken n none h = h
AtBracket-weaken n (some []) h = h
AtBracket-weaken n (some (e ∷ rest)) h = (omega (arith, h.0), h.1, h.2)

rbracket_no_gateway : (c : TopologyCode) → is_rbracket c ≡ true → is_gateway c ≡ false
rbracket_no_gateway gateway_element h = cc
rbracket_no_gateway rbracket_code h = refl
rbracket_no_gateway general_element h = refl
rbracket_no_gateway sink_element h = refl
rbracket_no_gateway source_element h = refl
rbracket_no_gateway equal_code h = refl
rbracket_no_gateway exclusive_code h = refl
rbracket_no_gateway shared_code h = refl
rbracket_no_gateway lbracket_code h = refl
rbracket_no_gateway null_code h = refl

-- What a closed list says of its first element.
pub closed_bracket :
    (depth : ℕ) (e : TopologyElement) (es : List TopologyElement)
    → is_rbracket e.code_id ≡ true
    → is_closed depth (e ∷ es) ≡ true
    → (d : ℕ) × (depth ≡ suc d) × (is_closed d es ≡ true)
closed_bracket zero e es b h = ground (arith, rbracket_no_gateway e.code_id b)
closed_bracket (suc d) e es b h = (d, refl, ground (arith, rbracket_no_gateway e.code_id b))

pub closed_other :
    (depth : ℕ) (e : TopologyElement) (es : List TopologyElement)
    → is_rbracket e.code_id ≡ false
    → is_closed depth (e ∷ es) ≡ true
    → is_closed (if is_gateway e.code_id then suc depth else depth) es ≡ true
closed_other depth e es b h = ground arith

pub skip_gateway-AtBracket :
    (fresh : Bool) (loop_count counter depth : ℕ) (es : List TopologyElement)
    → is_closed depth es ≡ true
    → loop_count < counter
    → counter ≤ loop_count + depth
    → AtBracket (length es) (skip_gateway fresh loop_count counter es)
unfolding skip_gateway
skip_gateway-AtBracket fresh loop_count counter depth [] closed more few = absurd (ground arith)
skip_gateway-AtBracket fresh loop_count counter depth (e ∷ es) closed more few =
    elim (Bool-cases (is_rbracket e.code_id)) [
      | inl b ↦
          let (d, is_suc, inner) = closed_bracket depth e es b closed in
          rw b (elim (Bool-cases (ltb (suc loop_count) counter)) [
            | inl on ↦ rw on (
                AtBracket-weaken _ _ (
                  skip_gateway-AtBracket true (suc loop_count) counter d es inner (ground arith)
                    (omega arith)))
            | inr here ↦ rw here (omega arith, d, inner)
          ])
      | inr b ↦ rw b (
          AtBracket-weaken _ _ (
            skip_gateway-AtBracket false loop_count
              (if is_gateway e.code_id then suc counter else counter)
              (if is_gateway e.code_id then suc depth else depth) es
              (closed_other depth e es b closed) (ground arith) (ground arith)))
    ]
