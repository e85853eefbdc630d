-- ===== src/Action/Container/Undo/Rollback.antt =====
-- CAmActionContainer::undo returns, and leaves no child behind that would need an undo.
use audio_manager_plugins.Base.{
  ℕ, zero, suc, ◌<◌, ◌≤◌, List, [], ◌∷◌, ◌++◌, some, true, false, ◌≡◌, ◌⊎◌, inl, inr, refl, ap, sym,
  subst, subst₂, ◌∙◌, if◌then◌else◌, arith, Bool-cases, length, append-nil,
}
use audio_manager_plugins.Base.Int.{ℤ, pos, negsuc}
use audio_manager_plugins.Action.{ActionState, undoing, undo_complete, Reply, ActionCommand}
use audio_manager_plugins.Action.Container.{
  Container, Clock, deliver, at_least, child_at, put_child, set_at, reply, decrement,
  is_undo_complete, is_undoing,
}
use audio_manager_plugins.Action.Container.Undo.{
  needs_undo, step_down, clamp_index, is_beyond, after_undo, start_undo, may_undo, proceed_undo,
  undo,
}
use audio_manager_plugins.Action.Container.Undo.Settled.{
  IsSettled, SettledAbove, SettledFrom-set_at, SettledFrom-settled, get_elem?-set_at, length-set_at,
  get_elem?-some, deliver-undoing, undoing_rounds, round-ends, round-skips, finish, round-undoes,
  left, SettledAbove-decrement, left-decrement, Outcome, Returns,
}

module _ {W C : Type 0} (ops : ActionCommand W C) (clock : Clock W)
    (undo_returns : (c : C) (w : W) → (r : Reply W C) × (ops.undo c w ≡ some r)) where
  open ops use {get_status}

  IsSettled-of_undone : (c : C) → get_status c ≡ undo_complete → IsSettled ops clock c
  IsSettled-of_undone c e = rw e refl

  status_of_undone : (s : ActionState) → is_undo_complete s ≡ true → s ≡ undo_complete
  status_of_undone s h = ground arith

  -- The container once its child at `i` has been undone, with the error code `e`.
  abbrev undone : Container C → ℕ → Reply W C → ℤ → Container C
  undone b i r e = record b { error = e; children = set_at i r.self b.children }

  after_undo-undone :
      (b : Container C) (i : ℕ) (r : Reply W C)
      → b.status ≡ undoing
      → b.index ≡ pos i
      → (e : ℤ) × (after_undo ops clock b r ≡ record { box = undone b i r e; notes = [] })
  unfolding after_undo
  after_undo-undone b i r un at_i =
      let (e, same) =
        deliver-undoing ops clock r.notes (record b { children = set_at i r.self b.children }) i un
          at_i in
      (
        e,
        ap (λ j. deliver r.notes (record b { children = put_child j r.self b.children })) at_i
            ∙ same,
      )

  module _ (k i : ℕ) (b : Container C) (w : W) (notes : List ℤ) (c : C) (r : Reply W C) (e : ℤ)
      (up : at_least b.index 0 ≡ true) (at : child_at b.index b.children ≡ some c)
      (needs : needs_undo ops clock c ≡ true) (done : ops.undo c w ≡ some r)
      (after : after_undo ops clock b r ≡ record { box = undone b i r e; notes = [] }) where
    round-goes_on :
        is_undo_complete (get_status r.self) ≡ true
        → undoing_rounds ops clock (suc k) b w notes
          ≡ undoing_rounds ops clock k (step_down ops clock (undone b i r e)) r.world notes
    round-goes_on over =
        round-undoes ops clock k b w notes c r _ up at needs done after
        ∙ rw (over, finish)
            (ap (undoing_rounds ops clock k (step_down ops clock (undone b i r e)) r.world)
              (append-nil notes))

    round-waits :
        is_undo_complete (get_status r.self) ≡ false
        → undoing_rounds ops clock (suc k) b w notes ≡ some (reply (undone b i r e) r.world notes)
    round-waits waits =
        round-undoes ops clock k b w notes c r _ up at needs done after
        ∙ rw (waits, finish) (ap (λ n. some (reply (undone b i r e) r.world n)) (append-nil notes))

  rounds-Returns :
      (k : ℕ) (index : ℤ) (b : Container C) (w : W) (notes : List ℤ)
      → b.status ≡ undoing
      → b.index ≡ index
      → left ops clock index ≤ length b.children
      → left ops clock index < k
      → SettledAbove ops clock index b.children
      → Returns ops clock notes (undoing_rounds ops clock k b w notes)
  rounds-Returns zero index b w notes un at bounded enough above = absurd (omega arith)
  rounds-Returns (suc k) (negsuc n) b w notes un at bounded enough above = (
    reply (record b { status = undo_complete }) w (notes ++ b.error ∷ []),
    round-ends ops clock k n b w notes un at,
    inr (refl, above, refl),
  )
  rounds-Returns (suc k) (pos i) b w notes un at_i bounded enough above =
      let (c, at) = get_elem?-some ops clock i b.children (omega arith) in
      let up : at_least b.index 0 ≡ true = ap (λ j. at_least j 0) at_i ∙ ground arith in
      let at' : child_at b.index b.children ≡ some c = ap (λ j. child_at j b.children) at_i ∙ at in
      elim (Bool-cases (needs_undo ops clock c)) [
        | inr settled ↦
            let (r, returned, out) =
              rounds-Returns k (decrement (pos i)) (step_down ops clock b) w notes un
                (ap decrement at_i) (omega (arith, left-decrement ops clock i))
                (omega (arith, left-decrement ops clock i))
                (SettledAbove-decrement ops clock i b.children
                  (SettledFrom-settled ops clock i c b.children at settled above)) in
            (r, round-skips ops clock k b w notes c up at' settled ∙ returned, out)
        | inl needs ↦
            let (r, done) = undo_returns c w in
            let (e, after) = after_undo-undone b i r un at_i in
            let above' = SettledFrom-set_at ops clock i r.self b.children above in
            elim (Bool-cases (is_undo_complete (get_status r.self))) [
              | inl over ↦
                  let settled =
                    SettledFrom-settled ops clock i r.self (set_at i r.self b.children)
                      (get_elem?-set_at ops clock i r.self b.children (omega arith))
                      (IsSettled-of_undone r.self (status_of_undone _ over)) above' in
                  let (r', returned, out) =
                    rounds-Returns k (decrement (pos i)) (step_down ops clock (undone b i r e))
                      r.world notes un (ap decrement at_i)
                      (omega (
                        arith,
                        left-decrement ops clock i,
                        length-set_at ops clock i r.self b.children,
                      ))
                      (omega (arith, left-decrement ops clock i))
                      (SettledAbove-decrement ops clock i _ settled) in
                  (
                    r',
                    round-goes_on k i b w notes c r e up at' needs done after over ∙ returned,
                    out,
                  )
              | inr waits ↦ (
                reply (undone b i r e) r.world notes,
                round-waits k i b w notes c r e up at' needs done after waits,
                inl (
                  un,
                  subst (λ j. SettledAbove ops clock j (set_at i r.self b.children)) (sym at_i)
                      above',
                  refl,
                ),
              )
            ]
      ]

  clamp-bounded :
      (j : ℤ) (n : ℕ)
      → left ops clock (if is_beyond ops clock j n then decrement (pos n) else j) ≤ n
  clamp-bounded (pos i) zero = ground arith
  clamp-bounded (pos i) (suc n) = ground arith
  clamp-bounded (negsuc i) zero = omega arith
  clamp-bounded (negsuc i) (suc n) = omega arith

  proceed_undo-undoing :
      (s : Reply W (Container C))
      → is_undoing s.self.status ≡ true
      → proceed_undo ops clock s
        ≡ undoing_rounds ops clock
            (suc (suc (length s.self.children)))
            (clamp_index ops clock s.self)
            s.world
            []
  unfolding proceed_undo
  proceed_undo-undoing s un = rw (un, proceed_undo) refl

  proceed_undo-Returns :
      (s : Reply W (Container C))
      → s.self.status ≡ undoing
      → SettledAbove ops clock (clamp_index ops clock s.self).index s.self.children
      → Returns ops clock [] (proceed_undo ops clock s)
  proceed_undo-Returns s un above =
      let bounded = clamp-bounded s.self.index (length s.self.children) in
      rw (proceed_undo-undoing s (ap is_undoing un)) (
        rounds-Returns (suc (suc (length s.self.children))) _ (clamp_index ops clock s.self) s.world
          [] un refl bounded (omega arith) above)

  start_undo-fields :
      (b : Container C) (w : W)
      → 0 < length b.children
      → let s = start_undo ops clock b w in
        (s.self.status ≡ undoing) × (s.self.index ≡ b.index) × (s.self.children ≡ b.children)
  unfolding start_undo
  start_undo-fields b w some_child = ground arith

  undo-anew :
      (b : Container C) (w : W)
      → may_undo ops clock b ≡ true
      → undo ops clock b w ≡ proceed_undo ops clock (start_undo ops clock b w)
  unfolding undo
  undo-anew b w may = rw (may, undo) refl

  undo-resumed :
      (b : Container C) (w : W)
      → may_undo ops clock b ≡ false
      → undo ops clock b w ≡ proceed_undo ops clock (reply b w [])
  unfolding undo
  undo-resumed b w may = rw (may, undo) refl

  not_may_undo : (b : Container C) → b.status ≡ undoing → may_undo ops clock b ≡ false
  not_may_undo b un = ground arith

  -- If the children's undo returns then so does the undo of a container with children that has
  -- stopped in error, has completed without one, or is undoing, and whose children above the
  -- (clamped) index need no undo. Either it still undoes, it has told its parent nothing, and the
  -- children above the new index need no undo; or its undo is complete, it has told its parent once,
  -- with its error code, and no child is left that needs one.
  pub undo-rolls_back :
      (b : Container C) (w : W)
      → (may_undo ops clock b ≡ true) ⊎ (b.status ≡ undoing)
      → 0 < length b.children
      → SettledAbove ops clock (clamp_index ops clock b).index b.children
      → (r : Reply W (Container C)) × (undo ops clock b w ≡ some r) × Outcome ops clock [] r
  undo-rolls_back b w (inl may) some_child above =
      let (un, same_index, same_children) = start_undo-fields b w some_child in
      rw (undo-anew b w may) (
        proceed_undo-Returns (start_undo ops clock b w) un (
          subst₂
            (λ j cs.
              SettledAbove ops clock
                (if is_beyond ops clock j (length cs) then decrement (pos (length cs)) else j) cs)
            (sym same_index) (sym same_children) above))
  undo-rolls_back b w (inr un) some_child above =
      rw (undo-resumed b w (not_may_undo b un)) (proceed_undo-Returns (reply b w []) un above)
