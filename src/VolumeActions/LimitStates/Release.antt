-- ===== src/VolumeActions/LimitStates/Release.antt =====
-- What the undo of the limit action releases.
use audio_manager_plugins.Base.{ℕ, List, [], Option, none, some, ◌≡◌, refl, ap, ◌∙◌}
use audio_manager_plugins.Base.Int.{ℤ}
use audio_manager_plugins.Base.Maps.{erase_if-all}
use audio_manager_plugins.Element.Limits.{
  Limits, LimitState, ls_limited, ls_unlimited, LimitVolume, default_limit_pattern, get_limit,
  set_limit_state, is_covered, is_within-ones,
}
use audio_manager_plugins.VolumeActions.LimitStates.{
  limits_of, put_limit, change_limit, restore, apply_limit, undo_limit, requested_limit,
}
use audio_manager_plugins.VolumeActions.LimitStates.Undo.{
  limit_at, limits_of-insert, get_limit-before_of, before_of, same_at, if_same,
}

released :
    (limit : LimitVolume) (m : Limits)
    → set_limit_state ls_unlimited limit default_limit_pattern m ≡ []
unfolding set_limit_state
released limit m =
    erase_if-all (is_covered default_limit_pattern) m (λ j. is_within-ones 32 j _ refl)

limits_of-released :
    (e : ℕ) (limit : LimitVolume) (s : List (ℕ × Limits))
    → limits_of e (put_limit e ls_unlimited limit default_limit_pattern s) ≡ []
unfolding put_limit
limits_of-released e limit s =
    limits_of-insert e e _ s ∙ if_same e _ _ ∙ released limit (limits_of e s)

no_limit_at :
    (p e : ℕ) (s : List (ℕ × Limits))
    → limit_at e p s ≡ none
    → get_limit p (limits_of e s) ≡ before_of none
no_limit_at p e s free = get_limit-before_of p (limits_of e s) ∙ ap before_of (same_at p e s ∙ free)

-- A limit action sets a limit under any pattern, under which the element had none. Its undo erases
-- every limit of that element, those of other patterns too.
pub undo_limit-apply_limit :
    (volume step : Option ℤ) (p e : ℕ) (s : List (ℕ × Limits))
    → limit_at e p s ≡ none
    → limits_of e
        (undo_limit (
          apply_limit
            (some ls_limited)
            volume
            step
            p
            (some e)
            (record { elements = s; undo_list = [] }))).elements
      ≡ []
unfolding undo_limit apply_limit change_limit restore
undo_limit-apply_limit volume step p e s free =
    erased (get_limit p (limits_of e s)) (no_limit_at p e s free)
  where
    t : List (ℕ × Limits)
    t = put_limit e ls_limited (requested_limit volume step) p s

    erased :
        (g : LimitState × LimitVolume)
        → g ≡ before_of none
        → limits_of e (put_limit e g.0 g.1 default_limit_pattern t) ≡ []
    erased g h = rw h (limits_of-released e _ t)
