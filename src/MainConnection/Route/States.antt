-- ===== src/MainConnection/Route/States.antt =====
-- The availability and the state of a route, CAmMainConnectionElement.cpp.
use audio_manager_plugins.Base.{
  List, [], ◌∷◌, Option, none, some, Bool, true, false, ◌&&◌, ◌||◌, not, if◌then◌else◌, ◌≡◌, refl,
  arith, All, is_empty,
}
use audio_manager_plugins.MainConnection.{
  ConnectionState, cs_connected, cs_disconnected, Availability, a_unknown, a_available,
  a_unavailable, SourceState, RoutePoint, RouteElement, same_state,
}
use audio_manager_plugins.MainConnection.Route.{
  is_unknown, is_unavailable, segment_availability, availability_loop, get_route_availability,
  route_state, is_on, updated_state,
}

-- Both ends of the segment are there.
abbrev pub HasPoints : RouteElement → Type 0
HasPoints e = (p q : RoutePoint) × (e.source ≡ some p) × (e.sink ≡ some q)

-- Some end of a segment satisfies a test.
abbrev pub point_is : (Availability → Bool) → Option RoutePoint → Bool
point_is test none = false
point_is test (some p) = test p.availability

abbrev pub some_point : (Availability → Bool) → List RouteElement → Bool
some_point test [] = false
some_point test (e ∷ es) = (point_is test e.source || point_is test e.sink) || some_point test es

-- A route is unknown if it is empty or some end of it is, else unavailable if some end of it is.
abbrev pub availability_of : List RouteElement → Availability
availability_of es =
    if is_empty es || some_point is_unknown es
    then a_unknown
    else if some_point is_unavailable es
    then a_unavailable
    else a_available

segment :
    (e : RouteElement) (p q : RoutePoint)
    → e.source ≡ some p
    → e.sink ≡ some q
    → segment_availability e ≡ some (p.availability, q.availability)
unfolding segment_availability
segment e p q source sink = ground arith

loop_of :
    (es : List RouteElement) (so_far : Availability)
    → All HasPoints es
    → availability_loop es so_far
      ≡ some (
          if some_point is_unknown es
          then a_unknown
          else if some_point is_unavailable es
          then a_unavailable
          else so_far)
unfolding availability_loop
loop_of [] so_far h = refl
loop_of (e ∷ es) so_far ((p, q, source, sink), h) =
    rw (segment e p q source sink)
      (ground (arith, source, sink, loop_of es so_far h, loop_of es a_unavailable h))

-- getRouteAvailability of a route without null pointers is unknown if the route is empty or some
-- source or sink on it is unknown, else unavailable if some source or sink is, and else available.
pub get_route_availability-availability_of :
    (es : List RouteElement)
    → All HasPoints es
    → get_route_availability es ≡ some (availability_of es)
unfolding get_route_availability
get_route_availability-availability_of [] h = refl
get_route_availability-availability_of (e ∷ es) h = loop_of (e ∷ es) a_available h

abbrev pub all_connected : List RouteElement → Bool
all_connected [] = true
all_connected (e ∷ es) = same_state e.state cs_connected && all_connected es

abbrev pub is_not_off : Option SourceState → Bool
is_not_off none = true
is_not_off (some s) = is_on s

route_state-connected :
    (s : ConnectionState) (es : List RouteElement)
    → same_state (route_state s es) cs_connected
      ≡ all_connected es && (not (is_empty es) || same_state s cs_connected)
unfolding route_state
route_state-connected s [] = refl
route_state-connected s (e ∷ es) = ground (arith, route_state-connected e.state es)

-- updateState makes the connection connected exactly if its route has a segment, all its segments are
-- connected, and its main source, if there is one, is on.
pub updated_state-connected :
    (source : Option SourceState) (es : List RouteElement)
    → same_state (updated_state source es) cs_connected
      ≡ (not (is_empty es) && all_connected es) && is_not_off source
unfolding updated_state
updated_state-connected none es = ground (arith, route_state-connected cs_disconnected es)
updated_state-connected (some s) es = ground (arith, route_state-connected cs_disconnected es)
