-- ===== src/VolumeActions/Limiting/Strictest.antt =====
-- The highest restriction wins: which limits the settings of a connection end up with.
use audio_manager_plugins.Base.{
  List, [], ◌∷◌, Bool, true, false, ◌&&◌, ◌||◌, not, if◌then◌else◌, ◌≡◌, refl, ap, ◌∙◌, arith, All,
  subst, sym, Bool-cases, inl, inr,
}
use audio_manager_plugins.Base.Int.{ℤ, pos, negsuc, less, is_same}
use audio_manager_plugins.ControlSender.{MuteState, ms_muted, ms_unmuted}
use audio_manager_plugins.Element.Limits.{LimitVolume, is_absolute, is_relative, volume_no_limit}
use audio_manager_plugins.MainConnection.{MainConnectionElement}
use audio_manager_plugins.MainConnection.Route.{get_volume}
use audio_manager_plugins.VolumeActions.{Elements, ConnectionInfo}
use audio_manager_plugins.VolumeActions.Limiting.{
  apply_limit, apply_limits, unlimited, get_connection_volumes, limits_of_connection,
}

-- An absolute limit of AM_MUTE, another absolute limit, and a relative limit.
abbrev pub mutes : ℤ → LimitVolume → Bool
mutes am_mute l = is_absolute l.limit_type && is_same l.limit_volume am_mute

abbrev pub offsets : ℤ → LimitVolume → Bool
offsets am_mute l = is_absolute l.limit_type && not (is_same l.limit_volume am_mute)

abbrev pub some_limit : (LimitVolume → Bool) → List LimitVolume → Bool
some_limit test [] = false
some_limit test (l ∷ ls) = test l || some_limit test ls

-- The least of a volume and of the limits that pass the test.
abbrev pub least : (LimitVolume → Bool) → ℤ → List LimitVolume → ℤ
least test v [] = v
least test v (l ∷ ls) =
    least test (if test l && less l.limit_volume v then l.limit_volume else v) ls

abbrev pub relative_limit : LimitVolume → Bool
relative_limit l = is_relative l.limit_type

-- What the limits make of the settings, field by field.
record Restricted (am_mute : ℤ) (ls : List LimitVolume) (s t : ConnectionInfo) : Type 0 where
  muted :
      t.target.mute_state
      ≡ (if some_limit (mutes am_mute) ls then ms_muted else s.target.mute_state)
  offset : t.target.offset ≡ least (offsets am_mute) s.target.offset ls
  relative : t.relative ≡ least relative_limit s.relative ls
  volume : t.target.volume ≡ s.target.volume
  adjustable : t.adjustable ≡ s.adjustable

apply_limit-Restricted :
    (am_mute : ℤ) (l : LimitVolume) (s : ConnectionInfo)
    → Restricted am_mute (l ∷ []) s (apply_limit am_mute l s)
unfolding apply_limit
apply_limit-Restricted am_mute l s = ground arith

apply_limits-Restricted :
    (am_mute : ℤ) (ls : List LimitVolume) (s : ConnectionInfo)
    → Restricted am_mute ls s (apply_limits am_mute ls s)
unfolding apply_limits
apply_limits-Restricted am_mute [] s = record {
  muted = refl;
  offset = refl;
  relative = refl;
  volume = refl;
  adjustable = refl;
}
apply_limits-Restricted am_mute (l ∷ ls) s =
    let one = apply_limit-Restricted am_mute l s in
    let more = apply_limits-Restricted am_mute ls (apply_limit am_mute l s) in
    record {
      muted = merge _ _ one.muted more.muted;
      offset = more.offset ∙ ap (λ v. least (offsets am_mute) v ls) one.offset;
      relative = more.relative ∙ ap (λ v. least relative_limit v ls) one.relative;
      volume = more.volume ∙ one.volume;
      adjustable = more.adjustable ∙ one.adjustable;
    }
  where
    merge :
        (a b : MuteState)
        → a ≡ (if mutes am_mute l || false then ms_muted else s.target.mute_state)
        → b ≡ (if some_limit (mutes am_mute) ls then ms_muted else a)
        → b ≡ (
            if mutes am_mute l || some_limit (mutes am_mute) ls
            then ms_muted
            else s.target.mute_state)
    merge a b h k = ground arith

less_trans : (x y z : ℤ) → less y x ≡ false → less z y ≡ false → less z x ≡ false
less_trans (pos a) (pos b) (pos c) h k = ground arith
less_trans (pos a) (pos b) (negsuc c) h k = ground arith
less_trans (pos a) (negsuc b) (pos c) h k = ground arith
less_trans (pos a) (negsuc b) (negsuc c) h k = ground arith
less_trans (negsuc a) (pos b) (pos c) h k = ground arith
less_trans (negsuc a) (pos b) (negsuc c) h k = ground arith
less_trans (negsuc a) (negsuc b) (pos c) h k = ground arith
less_trans (negsuc a) (negsuc b) (negsuc c) h k = ground arith

-- A volume is the least of a start and of the limits that pass the test: none of these is below it, and
-- it is one of them.
abbrev pub some_volume : (LimitVolume → Bool) → ℤ → List LimitVolume → Bool
some_volume test v [] = false
some_volume test v (l ∷ ls) = (test l && is_same v l.limit_volume) || some_volume test v ls

pub record IsLeast (test : LimitVolume → Bool) (v : ℤ) (ls : List LimitVolume) (x : ℤ)
    : Type 0 where
  pub below_start : less v x ≡ false
  pub below_limits : All (λ l. test l ≡ true → less l.limit_volume x ≡ false) ls
  pub attained : (is_same x v || some_volume test x ls) ≡ true

is_same_refl : (x : ℤ) → is_same x x ≡ true
is_same_refl (pos a) = ground arith
is_same_refl (negsuc a) = ground arith

less_refl : (x : ℤ) → less x x ≡ false
less_refl (pos a) = ground arith
less_refl (negsuc a) = ground arith

less-asym : (x y : ℤ) → less x y ≡ true → less y x ≡ false
less-asym (pos a) (pos b) h = ground arith
less-asym (pos a) (negsuc b) h = ground arith
less-asym (negsuc a) (pos b) h = ground arith
less-asym (negsuc a) (negsuc b) h = ground arith

and_right : (a : Bool) {b : Bool} → a && b ≡ true → b ≡ true
and_right a h = ground arith

and_false : (a : Bool) {b : Bool} → a ≡ true → a && b ≡ false → b ≡ false
and_false a t h = ground arith

least-IsLeast :
    (test : LimitVolume → Bool) (v : ℤ) (ls : List LimitVolume)
    → IsLeast test v ls (least test v ls)
least-IsLeast test v [] = record {
  below_start = less_refl v;
  below_limits = tt;
  attained = ground (arith, is_same_refl v);
}
least-IsLeast test v (l ∷ ls) = elim (Bool-cases (test l && less l.limit_volume v)) [
  | inl h ↦ rw h (taken (least-IsLeast test l.limit_volume ls) h)
  | inr h ↦ rw h (kept (least-IsLeast test v ls) h)
]
  where
    taken :
        {x : ℤ}
        → IsLeast test l.limit_volume ls x
        → test l && less l.limit_volume v ≡ true
        → IsLeast test v (l ∷ ls) x
    taken {x} ih h = record {
      below_start =
          less_trans x l.limit_volume v ih.below_start
            (less-asym l.limit_volume v (and_right (test l) h));
      below_limits = (λ _. ih.below_start, ih.below_limits);
      attained = ground (arith, ih.attained);
    }

    kept :
        {x : ℤ}
        → IsLeast test v ls x
        → test l && less l.limit_volume v ≡ false
        → IsLeast test v (l ∷ ls) x
    kept {x} ih h = record {
      below_start = ih.below_start;
      below_limits = (
        λ t. less_trans x v l.limit_volume ih.below_start (and_false (test l) t h),
        ih.below_limits,
      );
      attained = ground (arith, ih.attained);
    }

-- The settings of a connection keep its volume. They are muted exactly if one of the limits of its
-- class element or of its volume elements is an absolute limit of AM_MUTE; their offset is the least
-- of the other absolute limits and of no limit, and the relative limit the least of the relative ones.
pub get_connection_volumes-strictest :
    (w : Elements) (c : MainConnectionElement) (adjustable : Bool)
    → ((get_connection_volumes w c adjustable).target.mute_state ≡ (
        if some_limit (mutes w.am_mute) (limits_of_connection w c) then ms_muted else ms_unmuted))
      × IsLeast
          (offsets w.am_mute)
          volume_no_limit
          (limits_of_connection w c)
          (get_connection_volumes w c adjustable).target.offset
      × IsLeast relative_limit volume_no_limit
          (limits_of_connection w c)
          (get_connection_volumes w c adjustable).relative
      × ((get_connection_volumes w c adjustable).target.volume ≡ get_volume c.list_route_elements)
unfolding get_connection_volumes unlimited
get_connection_volumes-strictest w c adjustable =
    let r = apply_limits-Restricted w.am_mute (limits_of_connection w c) (unlimited c adjustable) in
    (
      r.muted,
      subst (IsLeast _ _ _) (sym r.offset)
          (least-IsLeast (offsets w.am_mute) volume_no_limit (limits_of_connection w c)),
      subst (IsLeast _ _ _) (sym r.relative)
          (least-IsLeast relative_limit volume_no_limit (limits_of_connection w c)),
      r.volume,
    )
