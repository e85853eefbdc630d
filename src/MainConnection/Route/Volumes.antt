-- ===== src/MainConnection/Route/Volumes.antt =====
-- The elements of a route that support volume changes, CAmMainConnectionElement.cpp.
use audio_manager_plugins.Base.{
  List, [], ◌∷◌, ◌++◌, Option, none, some, if◌then◌else◌, ◌≡◌, refl, ap, sym, ◌∙◌, arith,
}
use audio_manager_plugins.Base.Int.{ℤ, pos, ◌+ℤ◌, int16}
use audio_manager_plugins.MainConnection.{RoutePoint, RouteElement}
use audio_manager_plugins.MainConnection.Route.{
  add_volume, sum_volumes, get_volume, get_offset_volume, push_supported, push_elements,
  sd_mainsource_to_mainsink, sd_mainsink_to_mainsource, reverse_onto, get_volume_change_elements,
}

-- The points that support volume changes, from the main source to the main sink.
abbrev pub supported : Option RoutePoint → List RoutePoint
supported none = []
supported (some p) = if p.volume_support then p ∷ [] else []

abbrev pub supported_points : List RouteElement → List RoutePoint
supported_points [] = []
supported_points (e ∷ es) = supported e.source ++ (supported e.sink ++ supported_points es)

-- The sum of a field over points, as am_volume_t adds it up.
abbrev pub total : (RoutePoint → ℤ) → ℤ → List RoutePoint → ℤ
total field sum [] = sum
total field sum (p ∷ ps) = total field (int16 (sum +ℤ field p)) ps

add_volume-total :
    (field : RoutePoint → ℤ) (sum : ℤ) (o : Option RoutePoint) (ps : List RoutePoint)
    → total field sum (supported o ++ ps) ≡ total field (add_volume field sum o) ps
add_volume-total field sum none ps = refl
add_volume-total field sum (some p) ps = ground arith

sum_volumes-total :
    (field : RoutePoint → ℤ) (sum : ℤ) (es : List RouteElement)
    → sum_volumes field sum es ≡ total field sum (supported_points es)
unfolding sum_volumes
sum_volumes-total field sum [] = refl
sum_volumes-total field sum (e ∷ es) =
    sum_volumes-total field (add_volume field (add_volume field sum e.source) e.sink) es
    ∙ sym (
        add_volume-total field sum e.source (supported e.sink ++ supported_points es)
        ∙ add_volume-total field (add_volume field sum e.source) e.sink (supported_points es))

push_supported-reverse_onto :
    (o : Option RoutePoint) (ps qs : List RoutePoint)
    → reverse_onto (push_supported o ps) qs ≡ reverse_onto ps (supported o ++ qs)
push_supported-reverse_onto none ps qs = refl
push_supported-reverse_onto (some p) ps qs = ground arith

push_elements-reverse_onto :
    (es : List RouteElement) (ps : List RoutePoint)
    → reverse_onto (push_elements es ps) [] ≡ reverse_onto ps (supported_points es)
unfolding push_elements
push_elements-reverse_onto [] ps = refl
push_elements-reverse_onto (e ∷ es) ps =
    push_elements-reverse_onto es (push_supported e.sink (push_supported e.source ps))
    ∙ push_supported-reverse_onto e.sink (push_supported e.source ps) (supported_points es)
    ∙ push_supported-reverse_onto e.source ps (supported e.sink ++ supported_points es)

push_supported-supported :
    (o : Option RoutePoint) (ps : List RoutePoint)
    → push_supported o ps ≡ reverse_onto (supported o) ps
push_supported-supported none ps = refl
push_supported-supported (some p) ps = ground arith

reverse_onto-append :
    (xs ys zs : List RoutePoint) → reverse_onto (xs ++ ys) zs ≡ reverse_onto ys (reverse_onto xs zs)
reverse_onto-append [] ys zs = refl
reverse_onto-append (x ∷ xs) ys zs = reverse_onto-append xs ys (x ∷ zs)

push_elements-supported_points :
    (es : List RouteElement) (ps : List RoutePoint)
    → push_elements es ps ≡ reverse_onto (supported_points es) ps
unfolding push_elements
push_elements-supported_points [] ps = refl
push_elements-supported_points (e ∷ es) ps =
    push_elements-supported_points es (push_supported e.sink (push_supported e.source ps))
    ∙ ap (reverse_onto (supported_points es)) (
        push_supported-supported e.sink (push_supported e.source ps)
        ∙ ap (reverse_onto (supported e.sink)) (push_supported-supported e.source ps))
    ∙ sym (
        reverse_onto-append (supported e.source) (supported e.sink ++ supported_points es) ps
        ∙ reverse_onto-append (supported e.sink) (supported_points es)
            (reverse_onto (supported e.source) ps))

-- From the main source to the main sink getVolumeChangeElements lists, into an empty list, the points
-- that support volume changes in the order of the route, each segment's source before its sink; in the
-- other direction it lists them in reverse. getVolume and getOffsetVolume are the sums, with 16 bits,
-- over that list.
pub get_volume_change_elements-total :
    (es : List RouteElement)
    → let points = get_volume_change_elements sd_mainsource_to_mainsink es [] in
      (points ≡ supported_points es)
      × (get_volume_change_elements sd_mainsink_to_mainsource es [] ≡ reverse_onto points [])
      × (get_volume es ≡ total (λ p. p.volume) (pos 0) points)
      × (get_offset_volume es ≡ total (λ p. p.offset_volume) (pos 0) points)
unfolding get_volume_change_elements get_volume get_offset_volume
get_volume_change_elements-total es =
    let points = push_elements-reverse_onto es [] in
    (
      points,
      push_elements-supported_points es [] ∙ ap (λ ps. reverse_onto ps []) (sym points),
      sum_volumes-total (λ p. p.volume) (pos 0) es
          ∙ ap (total (λ p. p.volume) (pos 0)) (sym points),
      sum_volumes-total (λ p. p.offset_volume) (pos 0) es
          ∙ ap (total (λ p. p.offset_volume) (pos 0)) (sym points),
    )
