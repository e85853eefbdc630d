-- ===== src/Element/Limits.antt =====
-- The volume limits of an element: CAmLimitableElement of CAmElement.cpp. A limit is stored under a
-- pattern of 32 bits. AM_MUTE, which a header of the daemon defines, is a parameter.
use audio_manager_plugins.Base.{
  ℕ, zero, suc, ◌+◌, ◌-◌, ◌/◌, ◌%◌, ◌^◌, List, [], ◌∷◌, Option, none, some, Bool, true, false, ◌&&◌,
  ◌==◌, leb, if◌then◌else◌, ◌≡◌, refl, arith,
}
use audio_manager_plugins.Base.Int.{ℤ, pos, is_same}
use audio_manager_plugins.Base.Maps.{lookup, insert, erase_if, lookup-insert, lookup-erase_if}
use audio_manager_plugins.ControlSender.{MuteState, ms_muted, ms_unmuted}

-- gc_LimitType_e
pub data LimitType : Type 0 where
  lt_unknown lt_relative lt_absolute lt_max : LimitType

-- gc_LimitState_e
pub data LimitState : Type 0 where
  ls_unknown ls_limited ls_unlimited ls_max : LimitState

-- gc_LimitVolume_s
pub record LimitVolume : Type 0 where
  pub limit_type : LimitType
  pub limit_volume : ℤ

-- mMapLimitVolumes
abbrev pub Limits : Type 0
Limits = List (ℕ × LimitVolume)

abbrev pub volume_no_limit : ℤ
volume_no_limit = pos 0

abbrev pub default_limit_pattern : ℕ
default_limit_pattern = 2 ^ 32 - 1

-- `a & ~b` is zero over so many bits: every bit of a is one of b.
unfoldable pub is_within : ℕ → ℕ → ℕ → Bool
is_within zero a b = true
is_within (suc w) a b = leb (a % 2) (b % 2) && is_within w (a / 2) (b / 2)

abbrev pub is_covered : ℕ → ℕ → Bool
is_covered pattern k = is_within 32 k pattern

unfoldable pub set_limit_state : LimitState → LimitVolume → ℕ → Limits → Limits
set_limit_state ls_limited limit pattern m = insert pattern limit m
set_limit_state ls_unlimited limit pattern m = erase_if (is_covered pattern) m
set_limit_state _ limit pattern m = m

unfoldable pub get_limit : ℕ → Limits → LimitState × LimitVolume
get_limit pattern m = elim (lookup pattern m) [
  | none ↦ (ls_unlimited, record { limit_type = lt_absolute; limit_volume = volume_no_limit })
  | some limit ↦ (ls_limited, limit)
]

-- In the order of the patterns.
unfoldable pub get_limits : Limits → List LimitVolume
get_limits [] = []
get_limits ((k, limit) ∷ m) = limit ∷ get_limits m

abbrev pub is_absolute : LimitType → Bool
is_absolute lt_absolute = true
is_absolute _ = false

abbrev pub is_relative : LimitType → Bool
is_relative lt_relative = true
is_relative _ = false

-- CAmLimitableElement::getMuteState
pub get_mute_state : ℤ → Limits → MuteState
get_mute_state am_mute [] = ms_unmuted
get_mute_state am_mute ((k, limit) ∷ m) =
    if is_absolute limit.limit_type && is_same am_mute limit.limit_volume
    then ms_muted
    else get_mute_state am_mute m

pub is_within_self : (w a : ℕ) → is_within w a a ≡ true
unfolding is_within
is_within_self zero a = refl
is_within_self (suc w) a = ground (arith, is_within_self w (a / 2))

-- The default pattern covers every pattern.
pub is_within-ones : (w a b : ℕ) → b + 1 ≡ 2 ^ w → is_within w a b ≡ true
unfolding is_within
is_within-ones zero a b h = refl
is_within-ones (suc w) a b h = ground (arith, is_within-ones w (a / 2) (b / 2))

-- The limit under a pattern q after one has been set or released under p.
abbrev pub limit_after : LimitState → LimitVolume → ℕ → ℕ → Option LimitVolume → Option LimitVolume
limit_after ls_limited limit p q before = if p == q then some limit else before
limit_after ls_unlimited limit p q before = if is_covered p q then none else before
limit_after _ limit p q before = before

pub lookup-set_limit_state :
    (state : LimitState) (limit : LimitVolume) (p q : ℕ) (m : Limits)
    → lookup q (set_limit_state state limit p m) ≡ limit_after state limit p q (lookup q m)
unfolding set_limit_state
lookup-set_limit_state ls_unknown limit p q m = refl
lookup-set_limit_state ls_limited limit p q m = lookup-insert p q limit m
lookup-set_limit_state ls_unlimited limit p q m = lookup-erase_if (is_covered p) q m
lookup-set_limit_state ls_max limit p q m = refl
