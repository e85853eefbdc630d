-- ===== src/VolumeActions/LimitStates/Undo.antt =====
-- What the undo of the mute action brings back.
use audio_manager_plugins.Base.{
  ℕ, List, [], ◌∷◌, Option, none, some, true, false, ◌==◌, if◌then◌else◌, ◌≡◌, refl, ap, ◌∙◌, arith,
  Option-cases, Bool-cases, ==_iff, subst, inl, inr,
}
use audio_manager_plugins.Base.Int.{ℤ}
use audio_manager_plugins.Base.Maps.{lookup, insert, lookup-insert}
use audio_manager_plugins.ControlSender.{MuteState, ms_muted, ms_unmuted, ms_unknown}
use audio_manager_plugins.Element.Limits.{
  Limits, LimitState, ls_unknown, ls_limited, ls_unlimited, ls_max, LimitVolume, get_limit,
  lt_absolute, volume_no_limit, set_limit_state, is_covered, limit_after, lookup-set_limit_state,
  is_within_self,
}
use audio_manager_plugins.VolumeActions.LimitStates.{
  Limiting, UndoItem, limits_of, put_limit, change_limit, restore, update_limit_state,
  update_limit_states, undo_mute,
}

-- The limit of an element under a pattern.
unfoldable pub limit_at : ℕ → ℕ → List (ℕ × Limits) → Option LimitVolume
unfolding limits_of
limit_at e q s = lookup q (limits_of e s)

-- No element has a limit under another pattern whose bits are all bits of this one.
abbrev pub IsAlone : ℕ → List (ℕ × Limits) → Type 0
IsAlone p s = (e q : ℕ) → is_covered p q ≡ true → (p == q) ≡ false → limit_at e q s ≡ none

pub limits_of-insert :
    (e e' : ℕ) (m : Limits) (s : List (ℕ × Limits))
    → limits_of e (insert e' m s) ≡ (if e' == e then m else limits_of e s)
unfolding limits_of
limits_of-insert e e' m s = ground (arith, lookup-insert e' e m s)

limit_at-put_limit :
    (e e' q p : ℕ) (state : LimitState) (limit : LimitVolume) (s : List (ℕ × Limits))
    → limit_at e q (put_limit e' state limit p s)
      ≡ (if e' == e then limit_after state limit p q (limit_at e q s) else limit_at e q s)
unfolding limit_at put_limit
limit_at-put_limit e e' q p state limit s = ground (
  arith,
  limits_of-insert e e' (set_limit_state state limit p (limits_of e' s)) s,
  lookup-set_limit_state state limit p q (limits_of e s),
)

abbrev pub before_of : Option LimitVolume → LimitState × LimitVolume
before_of none = (ls_unlimited, record { limit_type = lt_absolute; limit_volume = volume_no_limit })
before_of (some limit) = (ls_limited, limit)

-- A limit changed under p, and the limit before put back under p.
put_back :
    (p q : ℕ) (state : LimitState) (limit : LimitVolume) (o x : Option LimitVolume)
    → (p ≡ q → o ≡ x)
    → (is_covered p q ≡ true → (p == q) ≡ false → x ≡ none)
    → limit_after (before_of o).0 (before_of o).1 p q (limit_after state limit p q x) ≡ x
put_back p q ls_unknown limit none x at alone = elim (Bool-cases (p == q)) [
  | inl e ↦ ground (arith, is_within_self 32 p)
  | inr n ↦ ground arith
]
put_back p q ls_limited limit none x at alone = ground (arith, is_within_self 32 p)
put_back p q ls_unlimited limit none x at alone = ground (arith, is_within_self 32 p)
put_back p q ls_max limit none x at alone = ground (arith, is_within_self 32 p)
put_back p q ls_unknown limit (some v) x at alone = ground arith
put_back p q ls_limited limit (some v) x at alone = ground arith
put_back p q ls_unlimited limit (some v) x at alone = ground arith
put_back p q ls_max limit (some v) x at alone = ground arith

-- Two stores that hold the same limits.
abbrev pub SameLimits : List (ℕ × Limits) → List (ℕ × Limits) → Type 0
SameLimits s t = (e q : ℕ) → limit_at e q s ≡ limit_at e q t

pub get_limit-before_of : (p : ℕ) (m : Limits) → get_limit p m ≡ before_of (lookup p m)
unfolding get_limit
get_limit-before_of p m = elim (Option-cases (lookup p m)) [
  | inl e ↦ ground arith
  | inr (v, e) ↦ ground arith
]

restore-SameLimits :
    (p : ℕ) (us : List UndoItem) (s t : List (ℕ × Limits))
    → SameLimits s t
    → SameLimits (restore p us s) (restore p us t)
unfolding restore
restore-SameLimits p [] s t same = same
restore-SameLimits p (u ∷ us) s t same =
    restore-SameLimits p us (put_limit u.element u.state u.limit p s)
      (put_limit u.element u.state u.limit p t)
      (λ e q. ground (
        arith,
        limit_at-put_limit e u.element q p u.state u.limit s,
        limit_at-put_limit e u.element q p u.state u.limit t,
        same e q,
      ))

pub same_at : (p e : ℕ) (s : List (ℕ × Limits)) → lookup p (limits_of e s) ≡ limit_at e p s
unfolding limit_at
same_at p e s = refl

pub if_same {ℓ} : {A : Type ℓ} (e : ℕ) (x y : A) → (if e == e then x else y) ≡ x
if_same e x y = rw ((==_iff e e).1 refl)

put_limit-put_limit_at :
    (p e q : ℕ) (state : LimitState) (limit : LimitVolume) (s : List (ℕ × Limits))
    → IsAlone p s
    → limit_at e q (
        put_limit e
          (get_limit p (limits_of e s)).0
          (get_limit p (limits_of e s)).1
          p
          (put_limit e state limit p s))
      ≡ limit_at e q s
put_limit-put_limit_at p e q state limit s alone = rw (get_limit-before_of p (limits_of e s)) (
    limit_at-put_limit e e q p _ _ (put_limit e state limit p s)
    ∙ if_same e _ _
    ∙ ap (limit_after (before_of o).0 (before_of o).1 p q)
        (limit_at-put_limit e e q p state limit s ∙ if_same e _ _)
    ∙ put_back p q state limit o (limit_at e q s) at (alone e q))
  where
    o : Option LimitVolume
    o = lookup p (limits_of e s)

    at : p ≡ q → o ≡ limit_at e q s
    at h = subst (λ k. o ≡ limit_at e k s) h (same_at p e s)

put_limit-put_limit :
    (p e : ℕ) (state : LimitState) (limit : LimitVolume) (s : List (ℕ × Limits))
    → IsAlone p s
    → SameLimits
        (put_limit e
          (get_limit p (limits_of e s)).0
          (get_limit p (limits_of e s)).1
          p
          (put_limit e state limit p s))
        s
put_limit-put_limit p e state limit s alone e' q = elim (Bool-cases (e == e')) [
  | inl same ↦
      subst
        (λ k.
          limit_at k q (
            put_limit e (get_limit p (limits_of e s)).0 (get_limit p (limits_of e s)).1 p
              (put_limit e state limit p s))
          ≡ limit_at k q s)
        ((==_iff e e').0 same) (put_limit-put_limit_at p e q state limit s alone)
  | inr other ↦ ground (
    arith,
    limit_at-put_limit e' e q p (get_limit p (limits_of e s)).0 (get_limit p (limits_of e s)).1
        (put_limit e state limit p s),
    limit_at-put_limit e' e q p state limit s,
  )
]

put_limit-IsAlone :
    (p e : ℕ) (state : LimitState) (limit : LimitVolume) (s : List (ℕ × Limits))
    → IsAlone p s
    → IsAlone p (put_limit e state limit p s)
put_limit-IsAlone p e ls_unknown limit s alone e' q covered other =
    ground (arith, limit_at-put_limit e' e q p ls_unknown limit s, alone e' q)
put_limit-IsAlone p e ls_limited limit s alone e' q covered other =
    ground (arith, limit_at-put_limit e' e q p ls_limited limit s, alone e' q)
put_limit-IsAlone p e ls_unlimited limit s alone e' q covered other =
    ground (arith, limit_at-put_limit e' e q p ls_unlimited limit s, alone e' q)
put_limit-IsAlone p e ls_max limit s alone e' q covered other =
    ground (arith, limit_at-put_limit e' e q p ls_max limit s, alone e' q)

change_limit-restore :
    (p e : ℕ) (state : LimitState) (limit : LimitVolume) (r : Limiting)
    → IsAlone p r.elements
    → SameLimits
        (restore p
          (change_limit e state limit p r).undo_list
          (change_limit e state limit p r).elements)
        (restore p r.undo_list r.elements)
unfolding change_limit restore
change_limit-restore p e state limit r alone =
    restore-SameLimits p r.undo_list _ r.elements
      (put_limit-put_limit p e state limit r.elements alone)

change_limit-IsAlone :
    (p e : ℕ) (state : LimitState) (limit : LimitVolume) (r : Limiting)
    → IsAlone p r.elements
    → IsAlone p (change_limit e state limit p r).elements
unfolding change_limit
change_limit-IsAlone p e state limit r alone = put_limit-IsAlone p e state limit r.elements alone

update_limit_state-restore :
    (am_mute : ℤ) (p : ℕ) (requested : MuteState) (e : Option ℕ) (r : Limiting)
    → IsAlone p r.elements
    → SameLimits
        (restore p
          (update_limit_state am_mute p requested e r).undo_list
          (update_limit_state am_mute p requested e r).elements)
        (restore p r.undo_list r.elements)
      × IsAlone p (update_limit_state am_mute p requested e r).elements
unfolding update_limit_state
update_limit_state-restore am_mute p requested none r alone = (λ e q. refl, alone)
update_limit_state-restore am_mute p ms_muted (some e) r alone =
    (change_limit-restore p e _ _ r alone, change_limit-IsAlone p e _ _ r alone)
update_limit_state-restore am_mute p ms_unmuted (some e) r alone =
    (change_limit-restore p e _ _ r alone, change_limit-IsAlone p e _ _ r alone)
update_limit_state-restore am_mute p ms_unknown (some e) r alone =
    (change_limit-restore p e _ _ r alone, change_limit-IsAlone p e _ _ r alone)

update_limit_states-restore :
    (am_mute : ℤ) (p : ℕ) (requested : MuteState) (es : List (Option ℕ)) (r : Limiting)
    → IsAlone p r.elements
    → SameLimits
        (restore p
          (update_limit_states am_mute p requested es r).undo_list
          (update_limit_states am_mute p requested es r).elements)
        (restore p r.undo_list r.elements)
unfolding update_limit_states
update_limit_states-restore am_mute p requested [] r alone e q = refl
update_limit_states-restore am_mute p requested (e ∷ es) r alone e' q =
    let one = update_limit_state-restore am_mute p requested e r alone in
    update_limit_states-restore am_mute p requested es (update_limit_state am_mute p requested e r)
      one.1 e' q
    ∙ one.0 e' q

-- After a mute action has changed the limits of the elements under its pattern, of one element more
-- than once perhaps, its undo brings every limit of every element back, if no element had a limit
-- under another pattern whose bits are all bits of the action's pattern.
pub undo_mute-update_limit_states :
    (am_mute : ℤ) (p : ℕ) (requested : MuteState) (es : List (Option ℕ)) (s : List (ℕ × Limits))
    → IsAlone p s
    → SameLimits
        (undo_mute p (
          update_limit_states am_mute p requested es
            (record { elements = s; undo_list = [] }))).elements
        s
unfolding undo_mute restore
undo_mute-update_limit_states am_mute p requested es s alone =
    update_limit_states-restore am_mute p requested es (record { elements = s; undo_list = [] })
      alone
