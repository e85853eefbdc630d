-- ===== src/Examples/Triggers.antt =====
-- The trigger queue and the table of handles at concrete inputs.
use audio_manager_plugins.Base.{ℕ, List, [], ◌∷◌, ◌++◌, length, some, none, true, false, ◌≡◌}
use audio_manager_plugins.TriggerQueue.{TriggerQueue, empty}
use audio_manager_plugins.TriggerQueue.Order.{
  Submission, submit_all, of_urgency, serve, serve-submit_all,
}

abbrev mixture : List (Submission ℕ ℕ)
mixture =
    record { urgent = false; pair = (1, some 10) }
    ∷ record { urgent = true; pair = (2, some 20) }
    ∷ record { urgent = false; pair = (3, none) }
    ∷ record { urgent = true; pair = (4, some 40) }
    ∷ []

abbrev pending : TriggerQueue ℕ ℕ
pending = record { list_trigger = (1, some 10) ∷ []; list_priority = (2, some 20) ∷ [] }

serve-submit_all_example :
    serve (length mixture) 0 (submit_all mixture empty)
    ≡ of_urgency true mixture ++ of_urgency false mixture
serve-submit_all_example = serve-submit_all 0 mixture
