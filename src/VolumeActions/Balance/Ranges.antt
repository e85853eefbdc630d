-- ===== src/VolumeActions/Balance/Ranges.antt =====
-- What the balance of the element volumes may change, and in which range.
use audio_manager_plugins.Base.{
  ℕ, List, [], ◌∷◌, Option, some, true, false, ◌==◌, ◌≡◌, refl, sym, ap, ◌∙◌, subst, ◌⊎◌, inl, inr,
  arith, All, Bool-cases, ==_iff, is_empty,
}
use audio_manager_plugins.Base.Int.{ℤ, pos, negsuc, less, int16, ◌+ℤ◌}
use audio_manager_plugins.Base.Maps.{lookup, lookup-insert, IsMap}
use audio_manager_plugins.MainConnection.Lists.Sorting.{All-stable_sort}
use audio_manager_plugins.MainConnection.Route.{Direction}
use audio_manager_plugins.VolumeActions.{
  Elements, VolumeInfo, null_volume_info, ConnectionInfo, MatrixColumn, SetVolumeCore,
}
use audio_manager_plugins.VolumeActions.Limiting.{resolve_relative_limits}
use audio_manager_plugins.VolumeActions.Balance.{
  qualifies_for_changes, is_done, clip, apply_diff, element_diff, change_column, balance, precedes,
  get_diffs, DiffMap, calculate_element_volumes,
}

abbrev pub IsWithin : ℤ → ℤ → ℤ → Type 0
IsWithin low high x = (less x low ≡ false) × (less high x ≡ false)

clip-IsWithin : (low high x : ℤ) → less high low ≡ false → IsWithin low high (clip low high x)
unfolding clip
clip-IsWithin (pos a) (pos b) (pos c) h = ground arith
clip-IsWithin (pos a) (pos b) (negsuc c) h = ground arith
clip-IsWithin (pos a) (negsuc b) x h = cc
clip-IsWithin (negsuc a) (pos b) (pos c) h = ground arith
clip-IsWithin (negsuc a) (pos b) (negsuc c) h = ground arith
clip-IsWithin (negsuc a) (negsuc b) (pos c) h = ground arith
clip-IsWithin (negsuc a) (negsuc b) (negsuc c) h = ground arith

-- The column of an element before and after: the same, or one that qualified and had its target set by
-- some difference.
abbrev Changed : Elements → List (ℕ × ConnectionInfo) → ℕ → MatrixColumn → MatrixColumn → Type 0
Changed w m k old new =
    (new ≡ old)
    ⊎ ((qualifies_for_changes m old ≡ true)
        × (d : VolumeInfo) × (new ≡ apply_diff (w.points k) d old))

abbrev StepsFrom :
    Elements
    → List (ℕ × ConnectionInfo)
    → List (ℕ × MatrixColumn)
    → List (ℕ × MatrixColumn)
    → Type 0
StepsFrom w m before after =
    (k : ℕ) (old : MatrixColumn)
    → lookup k before ≡ some old
    → (new : MatrixColumn) × (lookup k after ≡ some new) × Changed w m k old new

same_value {ℓ} : {A : Type ℓ} {a b : A} {o : Option A} → o ≡ some a → o ≡ some b → a ≡ b
same_value h k = cc

change_column-StepsFrom :
    (w : Elements) (m : List (ℕ × ConnectionInfo)) (before : List (ℕ × MatrixColumn)) (k : ℕ)
    (column : MatrixColumn) (s : List (ℕ × MatrixColumn) × DiffMap)
    → lookup k before ≡ some column
    → qualifies_for_changes m column ≡ true
    → StepsFrom w m before s.0
    → StepsFrom w m before (change_column w m k column s).0
unfolding change_column
change_column-StepsFrom w m before k column (matrix, ds) here q steps j old h =
    let d = element_diff column.connections ds null_volume_info in
    elim (Bool-cases (k == j)) [
      | inl e ↦
          let is_old =
            same_value here (subst (λ i. lookup i before ≡ some old) (sym ((==_iff k j).0 e)) h) in
          (
            apply_diff (w.points k) d column,
            lookup-insert k j _ matrix ∙ rw e,
            inr (
              subst (λ c. qualifies_for_changes m c ≡ true) is_old q,
              d,
              ap (apply_diff (w.points k) d) is_old
                  ∙ ap (λ i. apply_diff (w.points i) d old) ((==_iff k j).0 e),
            ),
          )
      | inr n ↦ let at = steps j old h in (at.0, lookup-insert k j _ matrix ∙ rw n at.1, at.2)
    ]

balance-StepsFrom :
    (w : Elements) (m : List (ℕ × ConnectionInfo)) (before : List (ℕ × MatrixColumn))
    (elements : List (ℕ × MatrixColumn)) (s : List (ℕ × MatrixColumn) × DiffMap)
    → All (λ e. lookup e.0 before ≡ some e.1) elements
    → StepsFrom w m before s.0
    → StepsFrom w m before (balance w m elements s).0
unfolding balance
balance-StepsFrom w m before [] s there steps = steps
balance-StepsFrom w m before ((k, column) ∷ elements) s there steps =
    elim (Bool-cases (is_done s.1)) [
      | inl done ↦ rw done steps
      | inr more ↦ rw more (elim (Bool-cases (qualifies_for_changes m column)) [
        | inl q ↦ rw q (
            balance-StepsFrom w m before elements (change_column w m k column s) there.1
              (change_column-StepsFrom w m before k column s there.0 q steps))
        | inr q ↦ rw q (balance-StepsFrom w m before elements s there.1 steps)
      ])
    ]

-- A set target lies in the range of its element.
Changed-IsWithin :
    (w : Elements) (m : List (ℕ × ConnectionInfo)) (k : ℕ) (old new : MatrixColumn)
    → less (w.points k).max_volume (w.points k).min_volume ≡ false
    → Changed w m k old new
    → (new.actual ≡ old.actual)
      × (new.connections ≡ old.connections)
      × ((new.target ≡ old.target)
          ⊎ ((qualifies_for_changes m old ≡ true)
              × IsWithin (w.points k).min_volume (w.points k).max_volume new.target.volume
              × IsWithin (w.points k).min_volume (w.points k).max_volume new.target.offset))
unfolding apply_diff
Changed-IsWithin w m k old new range (inl e) = rw e (refl, refl, inl refl)
Changed-IsWithin w m k old new range (inr (q, d, e)) = rw e (
  refl,
  refl,
  inr (
    q,
    clip-IsWithin (w.points k).min_volume (w.points k).max_volume
        (int16 (old.actual.volume +ℤ d.volume)) range,
    clip-IsWithin (w.points k).min_volume (w.points k).max_volume
        (int16 (old.actual.offset +ℤ d.offset)) range,
  ),
)

-- The settings of the connections by which the elements qualify.
abbrev pub settled : SetVolumeCore → List (ℕ × ConnectionInfo)
settled a = resolve_relative_limits a.connection_map

-- The balance keeps every column, its actual volumes and its connections. Where it changes the target of
-- an element whose range is not empty, the element is used by one connection alone, which may be
-- adjusted, and the volume and the offset of the new target lie within the range of the element.
pub calculate_element_volumes-IsWithin :
    (w : Elements) (direction : Direction) (a : SetVolumeCore) (k : ℕ) (old : MatrixColumn)
    → IsMap a.matrix
    → lookup k a.matrix ≡ some old
    → less (w.points k).max_volume (w.points k).min_volume ≡ false
    → (new : MatrixColumn) × (lookup k (calculate_element_volumes w direction a).matrix ≡ some new)
      × (new.actual ≡ old.actual)
      × (new.connections ≡ old.connections)
      × ((new.target ≡ old.target)
          ⊎ ((qualifies_for_changes (settled a) old ≡ true)
              × IsWithin (w.points k).min_volume (w.points k).max_volume new.target.volume
              × IsWithin (w.points k).min_volume (w.points k).max_volume new.target.offset))
unfolding calculate_element_volumes
calculate_element_volumes-IsWithin w direction a k old unique here range =
    elim (Bool-cases (is_empty a.connection_map)) [
      | inl h ↦ rw h (old, here, refl, refl, inl refl)
      | inr h ↦ rw h (
          let steps =
            balance-StepsFrom w (settled a) a.matrix _ (a.matrix, get_diffs (settled a) a.matrix)
              (All-stable_sort _ (precedes direction) a.matrix unique)
              (λ j column there. (column, there, inl refl)) k old here in
          let bounds = Changed-IsWithin w (settled a) k old steps.0 range steps.2 in
          (steps.0, steps.1, bounds.0, bounds.1, bounds.2))
    ]
