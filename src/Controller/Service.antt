-- ===== src/Controller/Service.antt =====
-- When iterateActions of CAmControllerPlugin.cpp asks the policy engine.
use audio_manager_plugins.Base.{
  ℕ, zero, suc, List, [], ◌∷◌, Option, none, some, true, is_empty, ◌≡◌, refl, ap, ◌∙◌, Bool-cases,
  arith, inl, inr,
}
use audio_manager_plugins.Base.Int.{ℤ}
use audio_manager_plugins.Action.{ActionState, not_started, ActionCommand, is_not_started}
use audio_manager_plugins.Action.Container.{Clock}
use audio_manager_plugins.TriggerQueue.{dequeue}
use audio_manager_plugins.Controller.{
  Controller, Policy, Pass, stops, goes_on, run_root, again_if_not_started, serve_element,
  serve_trigger, continue_with, pass_with, iterate_actions,
}

module _ {W C T D : Type 0} where
  -- The root action has not started and has no children.
  abbrev pub IsIdle : Controller W C T D → Type 0
  IsIdle c = (c.root.status ≡ not_started) × (c.root.children ≡ [])

  -- The two policies do the same for a controller whose root action is idle.
  abbrev pub Agree : Policy W C T D → Policy W C T D → Type 0
  Agree f g = (t : T) (d : D) (c : Controller W C T D) → IsIdle c → f t d c ≡ g t d c

not_started_status : (s : ActionState) → is_not_started s ≡ true → s ≡ not_started
not_started_status s h = ground arith

nothing_in : {C : Type 0} (cs : List C) → is_empty cs ≡ true → cs ≡ []
nothing_in [] h = refl
nothing_in (c ∷ cs) h = cc

module _ {W C T D : Type 0} (f g : Policy W C T D) (t0 : T) (agree : Agree f g) where
  serve_element-agree :
      (o : Option D) (t : T) (c : Controller W C T D)
      → IsIdle c
      → serve_element f t0 o t c ≡ serve_element g t0 o t c
  serve_element-agree none t c idle = refl
  serve_element-agree (some d) t c idle = ap (again_if_not_started f t0) (agree t d c idle)

  serve_trigger-agree : (c : Controller W C T D) → serve_trigger f t0 c ≡ serve_trigger g t0 c
  unfolding serve_trigger
  serve_trigger-agree c = elim (Bool-cases (is_not_started c.root.status)) [
    | inr busy ↦ rw (busy, serve_trigger) refl
    | inl fresh ↦ elim (Bool-cases (is_empty c.root.children)) [
      | inr waits ↦ rw (fresh, serve_trigger) (rw waits refl)
      | inl free ↦
          rw (fresh, serve_trigger)
            (rw free (
              serve_element-agree (dequeue t0 c.queue).element (dequeue t0 c.queue).trigger_type
                (record c { queue = (dequeue t0 c.queue).rest })
                (not_started_status c.root.status fresh, nothing_in c.root.children free)))
    ]
  ]

  module _ (ops : ActionCommand W C) (clock : Clock W) (e_aborted : ℤ) where
    continue_with-agree :
        (k h : Controller W C T D → Option (Controller W C T D))
        → ((c : Controller W C T D) → k c ≡ h c)
        → (p : Pass (Controller W C T D))
        → continue_with ops clock e_aborted f t0 k p ≡ continue_with ops clock e_aborted g t0 h p
    continue_with-agree k h same (stops c) = refl
    continue_with-agree k h same (goes_on c) = same c

    pass_with-agree :
        (k h : Controller W C T D → Option (Controller W C T D))
        → ((c : Controller W C T D) → k c ≡ h c)
        → (o : Option (Controller W C T D))
        → pass_with ops clock e_aborted f t0 k o ≡ pass_with ops clock e_aborted g t0 h o
    unfolding pass_with
    pass_with-agree k h same none = refl
    pass_with-agree k h same (some c) =
        continue_with-agree k h same (serve_trigger f t0 c)
        ∙ ap (continue_with ops clock e_aborted g t0 h) (serve_trigger-agree c)

    -- Two policies that do the same for every controller whose root action has not started and has no
    -- children run the loop alike, from any controller: the loop asks the policy for nothing while an
    -- action is under way or left over.
    pub iterate_actions-agree :
        (n : ℕ) (c : Controller W C T D)
        → iterate_actions ops clock e_aborted f t0 n c
          ≡ iterate_actions ops clock e_aborted g t0 n c
    unfolding iterate_actions
    iterate_actions-agree zero c = refl
    iterate_actions-agree (suc n) c =
        pass_with-agree (iterate_actions ops clock e_aborted f t0 n)
          (iterate_actions ops clock e_aborted g t0 n) (iterate_actions-agree n)
          (run_root ops clock e_aborted c)
