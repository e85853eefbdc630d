-- ===== src/Element/Attachment/Calls.antt =====
-- Sequences of attach, detach and _detachAll, CAmElement.cpp.
use audio_manager_plugins.Base.{
  ℕ, ◌-◌, List, [], ◌∷◌, Option, some, if◌then◌else◌, ◌==◌, ◌≡◌, refl, sym, subst, ap, ◌∙◌, arith,
  Bool-cases, inl, inr, ==_iff,
}
use audio_manager_plugins.Element.Attachment.{
  Links, set_at, deregister, attach, detach, detach_loop, detach_all,
}
use audio_manager_plugins.Element.Attachment.Symmetry.{
  count, at_pair, same_self, count-deregister, deregister-list_subjects, IsLinked, attach-IsLinked,
  lose-IsLinked, detach-IsLinked,
}

-- The first subject goes from the list.
count-rest :
    (this s : ℕ) (ss : List ℕ) (f : ℕ → List ℕ) (o s' : ℕ)
    → f this ≡ s ∷ ss
    → count s' (set_at this ss f o) ≡ count s' (f o) - at_pair this s o s'
count-rest this s ss f o s' first = elim (Bool-cases (o == this)) [
  | inr h ↦ rw h (omega arith)
  | inl h ↦
      subst (λ i. count s' (if o == this then ss else f o) ≡ count s' (f i) - at_pair this s o s')
        (sym ((==_iff o this).0 h)) (rw (h, first) (ground arith))
]

abbrev step : ℕ → ℕ → List ℕ → Links → Links
step this s ss l =
    let l' = deregister s (some this) l in
    record l' { list_subjects = set_at this ss l'.list_subjects }

step-IsLinked :
    (this s : ℕ) (ss : List ℕ) (l : Links)
    → IsLinked l
    → l.list_subjects this ≡ s ∷ ss
    → IsLinked (step this s ss l)
step-IsLinked this s ss l linked first =
    lose-IsLinked this s l (step this s ss l) linked (λ o s'. count-deregister s this l s' o)
      (λ o s'.
        rw (deregister-list_subjects s (some this) l)
          (count-rest this s ss l.list_subjects o s' first))

detach_loop-IsLinked :
    (this : ℕ) (ss : List ℕ) (l : Links)
    → IsLinked l
    → l.list_subjects this ≡ ss
    → IsLinked (detach_loop this (some this) ss l)
      × ((detach_loop this (some this) ss l).list_subjects this ≡ [])
unfolding detach_loop
detach_loop-IsLinked this [] l linked done = (linked, done)
detach_loop-IsLinked this (s ∷ ss) l linked first =
    detach_loop-IsLinked this ss (step this s ss l) (step-IsLinked this s ss l linked first)
      (rw (same_self this) refl)

-- The calls of attach, of detach and of _detachAll of an element that the factory holds.
pub data Call : Type 0 where
  attaches : ℕ → Option ℕ → Call
  detaches : ℕ → Option ℕ → Call
  detaches_all : ℕ → Call

abbrev pub run_call : Call → Links → Links
run_call (attaches this subject) l = (attach this (some this) subject l).1
run_call (detaches this subject) l = (detach this (some this) subject l).1
run_call (detaches_all this) l = detach_all this (some this) l

abbrev pub run_calls : List Call → Links → Links
run_calls [] l = l
run_calls (c ∷ cs) l = run_calls cs (run_call c l)

abbrev pub no_links : Links
no_links = record { list_observers = λ k. []; list_subjects = λ k. [] }

detach_all-IsLinked :
    (this : ℕ) (l : Links)
    → IsLinked l
    → IsLinked (detach_all this (some this) l)
      × ((detach_all this (some this) l).list_subjects this ≡ [])
unfolding detach_all
detach_all-IsLinked this l linked = detach_loop-IsLinked this (l.list_subjects this) l linked refl

run_call-IsLinked : (c : Call) (l : Links) → IsLinked l → IsLinked (run_call c l)
run_call-IsLinked (attaches this subject) l linked = attach-IsLinked this subject l linked
run_call-IsLinked (detaches this subject) l linked = detach-IsLinked this subject l linked
run_call-IsLinked (detaches_all this) l linked = (detach_all-IsLinked this l linked).0

run_calls_from : (cs : List Call) (l : Links) → IsLinked l → IsLinked (run_calls cs l)
run_calls_from [] l linked = linked
run_calls_from (c ∷ cs) l linked = run_calls_from cs (run_call c l) (run_call-IsLinked c l linked)

-- After any calls of attach, detach and _detachAll, on elements that their factories hold, an element
-- is among the observers of another exactly if that is among its subjects, and then once. After a
-- further _detachAll the element has no subjects and is among the observers of none.
pub run_calls-IsLinked :
    (cs : List Call) (this : ℕ)
    → IsLinked (run_calls cs no_links)
      × ((detach_all this (some this) (run_calls cs no_links)).list_subjects this ≡ [])
      × ((s : ℕ)
          → count this ((detach_all this (some this) (run_calls cs no_links)).list_observers s) ≡ 0)
run_calls-IsLinked cs this =
    let linked = run_calls_from cs no_links (λ o s. (refl, omega arith)) in
    let (after, empty) = detach_all-IsLinked this (run_calls cs no_links) linked in
    (linked, empty, λ s. (after this s).0 ∙ ap (λ xs. count s xs) empty)
