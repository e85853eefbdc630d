-- ===== src/MainConnection/Lists/Moving.antt =====
-- CAmMainConnectionFactory::moveToEnd, CAmMainConnectionElement.cpp.
use audio_manager_plugins.Base.{
  ℕ, List, [], ◌∷◌, ◌++◌, some, true, false, ◌==◌, ◌≡◌, ap, ◌∙◌, arith, All,
}
use audio_manager_plugins.MainConnection.{Name}
use audio_manager_plugins.MainConnection.{MainConnectionElement}
use audio_manager_plugins.MainConnection.Lists.{
  MainConnectionFactory, o_high_priority, o_low_priority, o_newest, o_oldest, get_element,
  take_entry, move_entry, move_to_end,
}

-- The entry has another pointer.
abbrev pub IsOther : ℕ → MainConnectionElement → Type 0
IsOther p c = (c.id == p) ≡ false

take_entry-split :
    (p : ℕ) (before after : List MainConnectionElement) (c : MainConnectionElement)
    → All (IsOther p) before
    → (c.id == p) ≡ true
    → take_entry p (before ++ c ∷ after) ≡ some (c, before ++ after)
unfolding take_entry
take_entry-split p [] after c others same = ground (arith, same)
take_entry-split p (x ∷ before) after c others same =
    ground (arith, others.0, take_entry-split p before after c others.1 same)

-- The element of the name, whose entry is the first with its pointer, goes to the back of the ordered
-- list by O_NEWEST and to the front by O_OLDEST; the other entries keep their order, and by the two
-- orders of priority nothing moves.
pub move_to_end-ordered_list :
    (n : Name) (f : MainConnectionFactory) (e c : MainConnectionElement)
    (before after : List MainConnectionElement)
    → get_element n f.map_elements ≡ some e
    → f.ordered_list ≡ before ++ c ∷ after
    → All (IsOther e.id) before
    → (c.id == e.id) ≡ true
    → ((move_to_end n o_newest f).ordered_list ≡ (before ++ after) ++ c ∷ [])
      × ((move_to_end n o_oldest f).ordered_list ≡ c ∷ before ++ after)
      × ((move_to_end n o_high_priority f).ordered_list ≡ f.ordered_list)
      × ((move_to_end n o_low_priority f).ordered_list ≡ f.ordered_list)
unfolding move_to_end
move_to_end-ordered_list n f e c before after found split others same =
    let taken : take_entry e.id f.ordered_list ≡ some (c, before ++ after) =
      ap (take_entry e.id) split ∙ take_entry-split e.id before after c others same in
    (
      rw (found, move_to_end) (ap (move_entry o_newest f.ordered_list) taken),
      rw (found, move_to_end) (ap (move_entry o_oldest f.ordered_list) taken),
      rw (found, move_to_end) (ap (move_entry o_high_priority f.ordered_list) taken),
      rw (found, move_to_end) (ap (move_entry o_low_priority f.ordered_list) taken),
    )
