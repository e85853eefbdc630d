-- ===== src/ConnectionActions/Disconnect/Sharing.antt =====
-- What a disconnect takes down, against the other users of the route's parts,
-- CAmMainConnectionActionDisconnect.cpp.
use audio_manager_plugins.Base.{
  ℕ, suc, List, [], ◌∷◌, ◌++◌, Option, none, some, Bool, true, false, ◌&&◌, ◌||◌, not,
  if◌then◌else◌, ◌==◌, leb, length, ◌≡◌, refl, sym, subst, arith, All, Bool-cases, inl, inr, map,
}
use audio_manager_plugins.Base.Int.{ℤ}
use audio_manager_plugins.MainConnection.{Name, same_name, cs_disconnected, same_state, ss_off}
use audio_manager_plugins.ConnectionActions.{
  RouteUser, Source, ConnectionUser, Segment, Child, disconnect_route, set_source, e_ok, appended,
  Context, ConnectionAction, in_direction, is_unknown_source, planned,
}
use audio_manager_plugins.ConnectionActions.Disconnect.{
  holds, released_by_others, check_shared_route_disconnected, unused_by_others,
  check_shared_source_disconnected, set_source_states, disconnect_routes, disconnect_steps,
  start_disconnecting, execute, source_step,
}

-- The observers other than `own` that hold the route, and whether `own` observes it.
abbrev pub other_holders : ℕ → ℕ → List ConnectionUser → ℕ
other_holders own route [] = 0
other_holders own route (c ∷ cs) =
    let rest = other_holders own route cs in
    if not (c.id == own) && holds route c.list_route_elements then suc rest else rest

abbrev pub observes : ℕ → List ConnectionUser → Bool
observes own [] = false
observes own (c ∷ cs) = c.id == own || observes own cs

-- The routes of other names that use a source, and whether a route of the name does.
abbrev pub other_routes : Name → List RouteUser → ℕ
other_routes name [] = 0
other_routes name (r ∷ rs) =
    let rest = other_routes name rs in
    if not (same_state r.state cs_disconnected) && not (same_name r.name name)
    then suc rest
    else rest

abbrev pub uses : Name → List RouteUser → Bool
uses name [] = false
uses name (r ∷ rs) = same_name r.name name || uses name rs

-- The segment has a source, observes it, and the connection observes the segment.
abbrev pub IsAttached : ℕ → Segment → Type 0
IsAttached own s =
    (source : Source) × (s.source ≡ some source)
    × (uses s.name source.routes ≡ true)
    × (observes own s.connections ≡ true)

released_by_others-other_holders :
    (own route : ℕ) (cs : List ConnectionUser)
    → released_by_others own route cs ≡ (other_holders own route cs == 0)
unfolding released_by_others
released_by_others-other_holders own route [] = refl
released_by_others-other_holders own route (c ∷ cs) =
    ground (arith, released_by_others-other_holders own route cs)

alone-other_holders :
    (own route : ℕ) (cs : List ConnectionUser)
    → leb (length cs) 1 ≡ true
    → observes own cs ≡ true
    → other_holders own route cs ≡ 0
alone-other_holders own route [] h o = refl
alone-other_holders own route (c ∷ []) h o = ground arith
alone-other_holders own route (c ∷ d ∷ cs) h o = ground arith

check_shared_route_disconnected-other_holders :
    (own : ℕ) (s : Segment)
    → observes own s.connections ≡ true
    → check_shared_route_disconnected own s ≡ (other_holders own s.id s.connections == 0)
unfolding check_shared_route_disconnected
check_shared_route_disconnected-other_holders own s o =
    elim (Bool-cases (leb (length s.connections) 1)) [
      | inl y ↦ ground (arith, alone-other_holders own s.id s.connections y o)
      | inr n ↦ ground (arith, released_by_others-other_holders own s.id s.connections)
    ]

unused_by_others-other_routes :
    (name : Name) (rs : List RouteUser) → unused_by_others name rs ≡ (other_routes name rs == 0)
unfolding unused_by_others
unused_by_others-other_routes name [] = refl
unused_by_others-other_routes name (r ∷ rs) = ground (arith, unused_by_others-other_routes name rs)

alone-other_routes :
    (name : Name) (rs : List RouteUser)
    → leb (length rs) 1 ≡ true
    → uses name rs ≡ true
    → other_routes name rs ≡ 0
alone-other_routes name [] h u = refl
alone-other_routes name (r ∷ []) h u = ground arith
alone-other_routes name (r ∷ q ∷ rs) h u = ground arith

check_shared_source_disconnected-other_routes :
    (source : Source) (s : Segment)
    → uses s.name source.routes ≡ true
    → check_shared_source_disconnected source s ≡ (other_routes s.name source.routes == 0)
unfolding check_shared_source_disconnected
check_shared_source_disconnected-other_routes source s u =
    elim (Bool-cases (leb (length source.routes) 1)) [
      | inl y ↦ ground (arith, alone-other_routes s.name source.routes y u)
      | inr n ↦ ground (arith, unused_by_others-other_routes s.name source.routes)
    ]

-- A known source that no other route uses goes off.
abbrev pub source_off : Bool → Name → Option Source → List Child
source_off undo name none = []
source_off undo name (some source) =
    if not (is_unknown_source source.state) && (other_routes name source.routes == 0)
    then set_source source ss_off undo ∷ []
    else []

abbrev pub segment_source_off : Bool → Segment → List Child
segment_source_off undo s = source_off undo s.name s.source

-- A route in a domain that no other connection holds is disconnected.
abbrev pub route_off : ℕ → Bool → Segment → List Child
route_off own undo s =
    if not (s.domain_id == 0) && (other_holders own s.id s.connections == 0)
    then disconnect_route s undo ∷ []
    else []

abbrev pub all_of : (Segment → List Child) → List Segment → List Child
all_of f [] = []
all_of f (s ∷ ss) = f s ++ all_of f ss

disconnect_routes-route_off :
    (own : ℕ) (undo : Bool) (ss : List Segment)
    → All (IsAttached own) ss
    → disconnect_routes own undo (map some ss) ≡ some (appended (all_of (route_off own undo) ss))
unfolding disconnect_routes
disconnect_routes-route_off own undo [] h = refl
disconnect_routes-route_off own undo (s ∷ ss) (h, hs) =
    rw
      (
        disconnect_routes-route_off own undo ss hs,
        check_shared_route_disconnected-other_holders own s h.3,
      )
      (ground arith)

source_step-source_off :
    (e : ℤ) (own : ℕ) (undo : Bool) (s : Segment)
    → IsAttached own s
    → source_step e ss_off undo s s.source ≡ appended (segment_source_off undo s)
source_step-source_off e own undo s h =
    subst (λ o. source_step e ss_off undo s o ≡ appended (source_off undo s.name o)) (sym h.1)
      (rw (check_shared_source_disconnected-other_routes h.0 s h.2) refl)

set_source_states-source_off :
    (e : ℤ) (own : ℕ) (undo : Bool) (ss : List Segment)
    → All (IsAttached own) ss
    → set_source_states e ss_off undo (map some ss)
      ≡ some (appended (all_of (segment_source_off undo) ss))
unfolding set_source_states
set_source_states-source_off e own undo [] h = refl
set_source_states-source_off e own undo (s ∷ ss) (h, hs) =
    rw (set_source_states-source_off e own undo ss hs, source_step-source_off e own undo s h) refl

-- A disconnect of a route whose parts are attached to each other and to the connection turns off
-- exactly the known sources that no route of another name uses, and then disconnects exactly the route
-- elements in a domain that no other main connection holds in a state other than disconnected, in the
-- order of the direction; it leaves the connection disconnecting.
pub execute-releases :
    (e : ℤ) (a : ConnectionAction) (x : Context) (ss : List Segment)
    → in_direction a.direction x.segments ≡ map some ss
    → All (IsAttached x.connection.id) ss
    → execute e a (some x)
      ≡ some (record {
        context = some (start_disconnecting a x);
        children =
            all_of (segment_source_off a.undo_required) ss
            ++ all_of (route_off x.connection.id a.undo_required) ss;
        result = e_ok;
      })
unfolding execute disconnect_steps planned
execute-releases e a x ss order h =
    rw
      (
        order,
        set_source_states-source_off e x.connection.id a.undo_required ss h,
        disconnect_routes-route_off x.connection.id a.undo_required ss h,
      )
      refl
