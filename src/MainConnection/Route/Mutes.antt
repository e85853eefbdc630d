-- ===== src/MainConnection/Route/Mutes.antt =====
-- The mute state of a route, CAmMainConnectionElement.cpp.
use audio_manager_plugins.Base.{
  List, [], ◌∷◌, Option, none, some, Bool, false, ◌&&◌, ◌||◌, if◌then◌else◌, ◌≡◌, refl, ap, ◌∙◌,
  arith,
}
use audio_manager_plugins.ControlSender.{MuteState, ms_muted, ms_unmuted, ms_unknown}
use audio_manager_plugins.MainConnection.{RoutePoint, RouteElement}
use audio_manager_plugins.MainConnection.Route.{
  is_unknown_mute, is_muted, add_mute, mute_loop, get_mute_state,
}

-- A point that supports volume changes has a mute state that satisfies the test.
abbrev pub mute_is : (MuteState → Bool) → Option RoutePoint → Bool
mute_is test none = false
mute_is test (some p) = p.volume_support && test p.mute_state

abbrev pub some_mute : (MuteState → Bool) → List RouteElement → Bool
some_mute test [] = false
some_mute test (e ∷ es) = (mute_is test e.source || mute_is test e.sink) || some_mute test es

-- What a mute state becomes by points of which some are unknown or muted.
abbrev pub mute_with : Bool → Bool → MuteState → MuteState
mute_with some_unknown some_muted s =
    if is_unknown_mute s || some_unknown then ms_unknown else if some_muted then ms_muted else s

add_mute-mute_with :
    (s : MuteState) (o : Option RoutePoint)
    → add_mute s o ≡ mute_with (mute_is is_unknown_mute o) (mute_is is_muted o) s
add_mute-mute_with ms_muted none = refl
add_mute-mute_with ms_unmuted none = refl
add_mute-mute_with ms_unknown none = refl
add_mute-mute_with s (some p) = ground arith

mute_with-mute_with :
    (a b c d : Bool) (s : MuteState)
    → mute_with c d (mute_with a b s) ≡ mute_with (a || c) (b || d) s
mute_with-mute_with a b c d s = ground arith

mute_loop-mute_with :
    (s : MuteState) (es : List RouteElement)
    → mute_loop s es ≡ mute_with (some_mute is_unknown_mute es) (some_mute is_muted es) s
unfolding mute_loop
mute_loop-mute_with ms_muted [] = refl
mute_loop-mute_with ms_unmuted [] = refl
mute_loop-mute_with ms_unknown [] = refl
mute_loop-mute_with s (e ∷ es) =
    mute_loop-mute_with (add_mute (add_mute s e.source) e.sink) es
    ∙ ap (mute_with (some_mute is_unknown_mute es) (some_mute is_muted es)) (
        add_mute-mute_with (add_mute s e.source) e.sink
        ∙ ap (mute_with (mute_is is_unknown_mute e.sink) (mute_is is_muted e.sink))
            (add_mute-mute_with s e.source)
        ∙ mute_with-mute_with (mute_is is_unknown_mute e.source) (mute_is is_muted e.source)
            (mute_is is_unknown_mute e.sink) (mute_is is_muted e.sink) s)
    ∙ mute_with-mute_with _ _ (some_mute is_unknown_mute es) (some_mute is_muted es) s

-- getMuteState of a route is unknown if some point of it that supports volume changes has an unknown
-- mute state, else muted if some such point is muted, and else unmuted.
pub get_mute_state-some_mute :
    (es : List RouteElement)
    → get_mute_state es ≡ (
        if some_mute is_unknown_mute es
        then ms_unknown
        else if some_mute is_muted es
        then ms_muted
        else ms_unmuted)
unfolding get_mute_state
get_mute_state-some_mute es = mute_loop-mute_with ms_unmuted es
