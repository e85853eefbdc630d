-- ===== src/Examples/Loop.antt =====
-- The loop of the generic controller at concrete inputs.
use audio_manager_plugins.Base.{ℕ, ◌+◌, List, [], ◌∷◌, ◌≡◌, refl}
use audio_manager_plugins.Action.Command.{World, Command}
use audio_manager_plugins.Controller.{Controller, Policy, iterate_actions}
use audio_manager_plugins.Controller.Service.{iterate_actions-agree}
use audio_manager_plugins.Controller.Drain.{queue_of}
use audio_manager_plugins.Examples.Commands.{quiet}
use audio_manager_plugins.Examples.Containers.{reading, leaf_ops, e_aborted, halfway}

-- A policy that moves the count of clock readings by the trigger's data.
abbrev count : ℕ → ℕ → World ℕ → World ℕ
count t d w = record w { readings = w.readings + d }

abbrev one_urgent : List (ℕ × ℕ)
one_urgent = (7, 100) ∷ []

abbrev one_normal : List (ℕ × ℕ)
one_normal = (8, 200) ∷ []

abbrev ignoring : Policy (World ℕ) Command ℕ ℕ
ignoring t d c = c

abbrev waiting_root : Controller (World ℕ) Command ℕ ℕ
waiting_root = record { root = halfway; queue = queue_of one_urgent one_normal; world = quiet }

iterate_actions-agree_example :
    iterate_actions leaf_ops reading e_aborted ignoring 0 4 waiting_root
    ≡ iterate_actions leaf_ops reading e_aborted
        (λ t d c. record c { queue = c.queue })
        0
        4
        waiting_root
iterate_actions-agree_example =
    iterate_actions-agree ignoring (λ t d c. record c { queue = c.queue }) 0 (λ t d c idle. refl)
      leaf_ops reading e_aborted 4 waiting_root
