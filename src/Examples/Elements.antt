-- ===== src/Examples/Elements.antt =====
-- The links between elements at concrete inputs.
use audio_manager_plugins.Base.{ℕ, [], ◌∷◌, none, some, ◌≡◌, List}
use audio_manager_plugins.Element.Attachment.{detach_all}
use audio_manager_plugins.Element.Attachment.Symmetry.{count, IsLinked}
use audio_manager_plugins.Element.Attachment.Calls.{
  Call, attaches, detaches, detaches_all, run_calls, no_links, run_calls-IsLinked,
}

-- A connection 1 and a route 2 attach to a source 3, twice; the route lets go of it.
abbrev calls : List Call
calls =
    attaches 1 (some 3)
    ∷ attaches 2 (some 3)
    ∷ attaches 1 (some 3)
    ∷ attaches 1 (some 2)
    ∷ detaches 2 (some 3)
    ∷ detaches 1 none
    ∷ detaches_all 2
    ∷ []

run_calls-IsLinked_example :
    IsLinked (run_calls calls no_links)
    × ((detach_all 1 (some 1) (run_calls calls no_links)).list_subjects 1 ≡ [])
    × ((s : ℕ) → count 1 ((detach_all 1 (some 1) (run_calls calls no_links)).list_observers s) ≡ 0)
run_calls-IsLinked_example = run_calls-IsLinked calls 1
