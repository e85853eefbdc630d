-- ===== src/MainConnection/Route.antt =====
-- What a main connection reads off its route, CAmMainConnectionElement.cpp.
pub mod States
pub mod Volumes
pub mod Mutes
use audio_manager_plugins.Base.{
  ℕ, List, [], ◌∷◌, ◌++◌, Option, none, some, Bool, true, false, ◌&&◌, ◌||◌, not, if◌then◌else◌,
}
use audio_manager_plugins.Base.Int.{ℤ, pos, ◌+ℤ◌, int16}
use audio_manager_plugins.ControlSender.{MuteState, ms_muted, ms_unmuted, ms_unknown}
use audio_manager_plugins.MainConnection.{
  ConnectionState, cs_connected, cs_disconnected, cs_suspended, Availability, a_unknown,
  a_available, a_unavailable, SourceState, ss_on, RoutePoint, RouteElement, same_state,
}

abbrev pub is_unknown : Availability → Bool
is_unknown a_unknown = true
is_unknown _ = false

abbrev pub is_unavailable : Availability → Bool
is_unavailable a_unavailable = true
is_unavailable _ = false

-- The availabilities of a segment's source and sink; a null pointer has none.
pub segment_availability : RouteElement → Option (Availability × Availability)
segment_availability e = elim e.source [
  | none ↦ none
  | some source ↦ elim e.sink [
    | none ↦ none
    | some sink ↦ some (source.availability, sink.availability)
  ]
]

-- The round of the loop for one segment, with what the rounds after it make of either value of retVal.
abbrev pub availability_round :
    Option (Availability × Availability)
    → (Availability → Option Availability)
    → Availability
    → Option Availability
availability_round none later so_far = none
availability_round (some (a, b)) later so_far =
    if is_unknown a || is_unknown b
    then some a_unknown
    else later (if is_unavailable a || is_unavailable b then a_unavailable else so_far)

pub availability_loop : List RouteElement → Availability → Option Availability
unfolding segment_availability
availability_loop [] so_far = some so_far
availability_loop (e ∷ es) so_far =
    availability_round (segment_availability e) (availability_loop es) so_far

unfoldable pub get_route_availability : List RouteElement → Option Availability
unfolding availability_loop
get_route_availability [] = some a_unknown
get_route_availability (e ∷ es) = availability_loop (e ∷ es) a_available

-- The loop of updateState, up to the first segment that is not connected.
pub route_state : ConnectionState → List RouteElement → ConnectionState
route_state so_far [] = so_far
route_state so_far (e ∷ es) =
    let later = route_state e.state es in if same_state e.state cs_connected then later else e.state

abbrev pub is_on : SourceState → Bool
is_on ss_on = true
is_on _ = false

abbrev pub suspended_unless_on : Option SourceState → ConnectionState → ConnectionState
suspended_unless_on none s = s
suspended_unless_on (some source) s =
    if same_state s cs_connected && not (is_on source) then cs_suspended else s

-- The state that updateState sets, from the route and the state of the main source.
pub updated_state : Option SourceState → List RouteElement → ConnectionState
unfolding route_state
updated_state source es = suspended_unless_on source (route_state cs_disconnected es)

-- setState writes and notifies only a state that differs from the stored one.
unfoldable pub set_state :
    ConnectionState → ConnectionState → ConnectionState × List ConnectionState
set_state stored new = if same_state stored new then (stored, []) else (new, new ∷ [])

-- The local function `apply` of getVolume and getOffsetVolume, for the field that it adds up.
abbrev pub add_volume : (RoutePoint → ℤ) → ℤ → Option RoutePoint → ℤ
add_volume field sum none = sum
add_volume field sum (some p) = if p.volume_support then int16 (sum +ℤ field p) else sum

pub sum_volumes : (RoutePoint → ℤ) → ℤ → List RouteElement → ℤ
sum_volumes field sum [] = sum
sum_volumes field sum (e ∷ es) =
    sum_volumes field (add_volume field (add_volume field sum e.source) e.sink) es

pub get_volume : List RouteElement → ℤ
unfolding sum_volumes
get_volume es = sum_volumes (λ p. p.volume) (pos 0) es

pub get_offset_volume : List RouteElement → ℤ
unfolding sum_volumes
get_offset_volume es = sum_volumes (λ p. p.offset_volume) (pos 0) es

abbrev pub is_unknown_mute : MuteState → Bool
is_unknown_mute ms_unknown = true
is_unknown_mute _ = false

abbrev pub is_muted : MuteState → Bool
is_muted ms_muted = true
is_muted _ = false

-- The local function `apply` of getMuteState.
abbrev pub add_mute : MuteState → Option RoutePoint → MuteState
add_mute so_far none = so_far
add_mute so_far (some p) =
    if is_unknown_mute so_far
    then so_far
    else if not p.volume_support
    then so_far
    else if is_unknown_mute p.mute_state
    then ms_unknown
    else if is_muted p.mute_state
    then ms_muted
    else so_far

pub mute_loop : MuteState → List RouteElement → MuteState
mute_loop so_far [] = so_far
mute_loop so_far (e ∷ es) = mute_loop (add_mute (add_mute so_far e.source) e.sink) es

pub get_mute_state : List RouteElement → MuteState
unfolding mute_loop
get_mute_state es = mute_loop ms_unmuted es

-- push_front of a point that supports volume changes
abbrev pub push_supported : Option RoutePoint → List RoutePoint → List RoutePoint
push_supported none ps = ps
push_supported (some p) ps = if p.volume_support then p ∷ ps else ps

pub push_elements : List RouteElement → List RoutePoint → List RoutePoint
push_elements [] ps = ps
push_elements (e ∷ es) ps = push_elements es (push_supported e.sink (push_supported e.source ps))

-- gc_SetSourceStateDirection_e
pub data Direction : Type 0 where
  sd_mainsource_to_mainsink sd_mainsink_to_mainsource : Direction

abbrev pub reverse_onto : List RoutePoint → List RoutePoint → List RoutePoint
reverse_onto [] ps = ps
reverse_onto (x ∷ xs) ps = reverse_onto xs (x ∷ ps)

pub get_volume_change_elements : Direction → List RouteElement → List RoutePoint → List RoutePoint
unfolding push_elements
get_volume_change_elements sd_mainsource_to_mainsink es ps = reverse_onto (push_elements es ps) []
get_volume_change_elements sd_mainsink_to_mainsource es ps = push_elements es ps
