-- ===== src/Action/Container/Undo/Settled.antt =====
-- Children that need no undo, and one round of the loop of CAmActionContainer::undo.
use audio_manager_plugins.Base.{
  ℕ, zero, suc, ◌<◌, List, [], ◌∷◌, ◌++◌, Option, some, true, false, ◌≡◌, ◌⊎◌, refl, ap, ◌∙◌, arith,
  length, get_elem?,
}
use audio_manager_plugins.Base.Int.{ℤ, pos, negsuc}
use audio_manager_plugins.Action.{undoing, undo_complete, Reply, ActionCommand}
use audio_manager_plugins.Action.Container.{
  Container, Clock, Noted, update, deliver, at_least, child_at, set_at, reply, decrement,
  is_undo_complete,
}
use audio_manager_plugins.Action.Container.Undo.{needs_undo, step_down, after_undo, undo_children}

module _ {W C : Type 0} (ops : ActionCommand W C) (clock : Clock W) where
  open ops use {get_status}

  abbrev pub IsSettled : C → Type 0
  IsSettled c = needs_undo ops clock c ≡ false

  -- The children from a position on need no undo.
  abbrev pub SettledFrom : ℕ → List C → Type 0
  SettledFrom n [] = Unit
  SettledFrom zero (c ∷ cs) = IsSettled c × SettledFrom zero cs
  SettledFrom (suc n) (c ∷ cs) = SettledFrom n cs

  -- The children above the index, all of them if the index is negative.
  abbrev pub SettledAbove : ℤ → List C → Type 0
  SettledAbove (pos i) cs = SettledFrom (suc i) cs
  SettledAbove (negsuc i) cs = SettledFrom zero cs

  pub SettledFrom-set_at :
      (i : ℕ) (c : C) (cs : List C) → SettledFrom (suc i) cs → SettledFrom (suc i) (set_at i c cs)
  SettledFrom-set_at i c [] h = tt
  SettledFrom-set_at zero c (x ∷ xs) h = h
  SettledFrom-set_at (suc i) c (x ∷ xs) h = SettledFrom-set_at i c xs h

  pub SettledFrom-settled :
      (i : ℕ) (c : C) (cs : List C)
      → get_elem? cs i ≡ some c
      → IsSettled c
      → SettledFrom (suc i) cs
      → SettledFrom i cs
  SettledFrom-settled i c [] at h above = cc
  SettledFrom-settled zero c (x ∷ xs) at h above = (ground (arith, h), above)
  SettledFrom-settled (suc i) c (x ∷ xs) at h above = SettledFrom-settled i c xs at h above

  pub get_elem?-set_at :
      (i : ℕ) (c : C) (cs : List C) → i < length cs → get_elem? (set_at i c cs) i ≡ some c
  get_elem?-set_at i c [] h = absurd (omega arith)
  get_elem?-set_at zero c (x ∷ xs) h = refl
  get_elem?-set_at (suc i) c (x ∷ xs) h = get_elem?-set_at i c xs (omega arith)

  pub length-set_at : (i : ℕ) (c : C) (cs : List C) → length (set_at i c cs) ≡ length cs
  length-set_at i c [] = refl
  length-set_at zero c (x ∷ xs) = refl
  length-set_at (suc i) c (x ∷ xs) = omega (arith, length-set_at i c xs)

  pub get_elem?-some : (i : ℕ) (cs : List C) → i < length cs → (c : C) × (get_elem? cs i ≡ some c)
  get_elem?-some i [] h = absurd (omega arith)
  get_elem?-some zero (x ∷ xs) h = (x, refl)
  get_elem?-some (suc i) (x ∷ xs) h = get_elem?-some i xs (omega arith)

  -- While the container undoes, the updates by its children only write its error code.
  pub deliver-undoing :
      (es : List ℤ) (b : Container C) (i : ℕ)
      → b.status ≡ undoing
      → b.index ≡ pos i
      → (e : ℤ) × (deliver es b ≡ record { box = record b { error = e }; notes = [] })
  unfolding deliver update
  deliver-undoing [] b i un at_i = (b.error, refl)
  deliver-undoing (x ∷ es) b i un at_i =
      let (e, same) = deliver-undoing es (record b { error = x }) i un at_i in
      (e, ground (arith, same))

  abbrev pub undoing_rounds : ℕ → Container C → W → List ℤ → Option (Reply W (Container C))
  undoing_rounds = undo_children ops clock

  pub round-ends :
      (k n : ℕ) (b : Container C) (w : W) (notes : List ℤ)
      → b.status ≡ undoing
      → b.index ≡ negsuc n
      → undoing_rounds (suc k) b w notes
        ≡ some (reply (record b { status = undo_complete }) w (notes ++ b.error ∷ []))
  unfolding undo_children
  round-ends k n b w notes un at = ground arith

  pub round-skips :
      (k : ℕ) (b : Container C) (w : W) (notes : List ℤ) (c : C)
      → at_least b.index 0 ≡ true
      → child_at b.index b.children ≡ some c
      → IsSettled c
      → undoing_rounds (suc k) b w notes ≡ undoing_rounds k (step_down ops clock b) w notes
  unfolding undo_children
  round-skips k b w notes c up at settled =
      rw (up, undo_children) (rw (at, undo_children) (rw settled refl))

  abbrev pub finish : ℕ → Reply W C → List ℤ → Noted C → Option (Reply W (Container C))
  finish k r notes u = elim (is_undo_complete (get_status r.self)) [
    | true ↦ undoing_rounds k (step_down ops clock u.box) r.world (notes ++ u.notes)
    | false ↦ some (reply u.box r.world (notes ++ u.notes))
  ]

  pub round-undoes :
      (k : ℕ) (b : Container C) (w : W) (notes : List ℤ) (c : C) (r : Reply W C) (u : Noted C)
      → at_least b.index 0 ≡ true
      → child_at b.index b.children ≡ some c
      → needs_undo ops clock c ≡ true
      → ops.undo c w ≡ some r
      → after_undo ops clock b r ≡ u
      → undoing_rounds (suc k) b w notes ≡ finish k r notes u
  unfolding undo_children
  round-undoes k b w notes c r u up at needs done after =
      rw (up, undo_children)
        (rw (at, undo_children) (rw (needs, undo_children) (rw (done, undo_children) refl)))
      ∙ ap (finish k r notes) after

  -- The children that are left to be undone, and whether an index is that of a child.
  abbrev pub left : ℤ → ℕ
  left (pos i) = suc i
  left (negsuc i) = 0

  pub SettledAbove-decrement :
      (i : ℕ) (cs : List C) → SettledFrom i cs → SettledAbove (decrement (pos i)) cs
  SettledAbove-decrement zero cs h = h
  SettledAbove-decrement (suc i) cs h = h

  pub left-decrement : (i : ℕ) → left (decrement (pos i)) ≡ i
  left-decrement zero = refl
  left-decrement (suc i) = refl

  -- A container that still undoes has told its parent nothing, and the children above its index are
  -- settled; one that is done has told it once, and all its children are settled.
  abbrev pub Outcome : List ℤ → Reply W (Container C) → Type 0
  Outcome notes r =
      ((r.self.status ≡ undoing) × SettledAbove r.self.index r.self.children × (r.notes ≡ notes))
      ⊎ ((r.self.status ≡ undo_complete)
          × SettledFrom 0 r.self.children
          × (r.notes ≡ notes ++ r.self.error ∷ []))

  abbrev pub Returns : List ℤ → Option (Reply W (Container C)) → Type 0
  Returns notes o = (r : Reply W (Container C)) × (o ≡ some r) × Outcome notes r
