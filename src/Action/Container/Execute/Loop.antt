-- ===== src/Action/Container/Execute/Loop.antt =====
-- The loop of CAmActionContainer::execute returns if the children keep the contract of an action.
use audio_manager_plugins.Base.{
  ℕ, zero, suc, ◌+◌, ◌-◌, ◌<◌, List, [], ◌∷◌, ◌++◌, Option, some, true, false, ◌≡◌, ◌∙◌, ap, ◌⊎◌,
  inl, inr, refl, arith, ltb, tests, Bool-cases, All, length,
}
use audio_manager_plugins.Base.Int.{ℤ, pos}
use audio_manager_plugins.Action.{
  ActionState, executing, completed, is_executing, is_positive, Reply, ActionCommand, IsLive,
  IsFinal, IsLawful,
}
use audio_manager_plugins.Action.Container.{Container, Clock, at_least, child_at, reply}
use audio_manager_plugins.Action.Container.Execute.{budget, is_overdue, execution_time_of, run_loop}
use audio_manager_plugins.Action.Container.Execute.Layout.{
  Fresh, Layout, IsReady, focus, Layout-waits, Layout-next, length-set_at, Layout-lt,
}
use audio_manager_plugins.Action.Container.Execute.Rounds.{
  update-completes, called, children-of, child_rounds, round-overdue, round-waits, round-stops,
  round-completes, round-goes_on,
}

final_not_executing : (s : ActionState) → IsFinal s → is_executing s ≡ false
final_not_executing s h = ground arith

module _ {W C : Type 0} (ops : ActionCommand W C) (clock : Clock W) (Good : C → Type 0)
    (lawful : IsLawful ops Good) (e_aborted : ℤ) (aborts : is_positive e_aborted ≡ true) where
  open ops use {get_status}

  -- A reply with what was noted before, `notes`, and then the progress of a container.
  abbrev pub Outcome : List ℤ → Reply W (Container C) → Type 0
  Outcome notes r =
      IsReady ops Good r.self
      × (((r.self.status ≡ executing) × (r.notes ≡ notes))
          ⊎ (IsFinal r.self.status × (r.notes ≡ notes ++ r.self.error ∷ [])))

  abbrev pub Returns : List ℤ → Option (Reply W (Container C)) → Type 0
  Returns notes o = (r : Reply W (Container C)) × (o ≡ some r) × Outcome notes r

  abbrev rounds : ℕ → Container C → W → List ℤ → Option (Reply W (Container C))
  rounds = child_rounds ops clock e_aborted

  budget-IsLive :
      (b : Container C) (c : C)
      → IsLive (get_status c)
      → Good c
      → IsLive (get_status (budget ops clock b c)) × Good (budget ops clock b c)
  unfolding budget
  budget-IsLive b c live good = ground (
    arith,
    lawful.set_timeout_status (b.timeout - execution_time_of ops clock b) c,
    lawful.set_timeout_good (b.timeout - execution_time_of ops clock b) c,
  )

  module _ (k i : ℕ) (b : Container C) (w : W) (notes : List ℤ) (c : C) (ex : b.status ≡ executing)
      (at_i : b.index ≡ pos i) (l : Layout ops Good i b.children)
      (enough : length b.children < suc k + i)
      (later : (b' : Container C) (w' : W)
        → b'.status ≡ executing
        → b'.index ≡ pos (suc i)
        → Layout ops Good (suc i) b'.children
        → length b'.children < k + suc i
        → Returns notes (rounds k b' w' notes))
      (at : child_at b.index b.children ≡ some c) (over : is_overdue ops clock b ≡ false) where
    same_length : (r : Reply W C) → length (called b r).children ≡ length b.children
    same_length r = ap length (children-of b r i at_i) ∙ length-set_at ops Good i r.self b.children

    round_final :
        (r : Reply W C)
        → ops.execute (budget ops clock b c) w ≡ some r
        → IsFinal (get_status r.self)
        → r.notes ≡ ops.get_error r.self ∷ []
        → Returns notes (rounds (suc k) b w notes)
    round_final r done fin one =
        let over_ = final_not_executing (get_status r.self) fin in
        let e = ops.get_error r.self in
        elim (Bool-cases (is_positive e)) [
          | inl p ↦ (
            _,
            round-stops ops clock e_aborted k b w notes c r i at_i at over done e one over_ ex p,
            (tt, inr (inr refl, refl)),
          )
          | inr p ↦ elim (Bool-cases (ltb (suc i) (length b.children))) [
            | inl more ↦
                let further : suc i < length (called b r).children = omega (tests, same_length r) in
                let (r', returned, out) =
                  later _ r.world refl refl
                    (rw (children-of b r i at_i)
                      (Layout-next ops Good i b.children r.self l fin (omega tests)))
                    (omega (arith, same_length r)) in
                (
                  r',
                  round-goes_on ops clock e_aborted k b w notes c r i at_i at over done e one over_
                        ex p further
                      ∙ returned,
                  out,
                )
            | inr last ↦ (
              _,
              round-completes ops clock e_aborted k b w notes c r i at_i at over done e one over_ ex
                  p (ground (arith, same_length r)),
              (tt, inr (inl refl, refl)),
            )
          ]
        ]

    round-Returns : IsLive (get_status c) → Good c → Returns notes (rounds (suc k) b w notes)
    round-Returns live good =
        let (live', good') = budget-IsLive b c live good in
        let (r, done, good_r, progress) =
          lawful.execute_returns (budget ops clock b c) w live' good' in
        elim progress [
          | inl (waits, none_) ↦ (
            _,
            round-waits ops clock e_aborted k b w notes c r i at_i at over done none_ waits ex,
            (
              (
                i,
                at_i,
                rw (children-of b r i at_i)
                    (Layout-waits ops Good i b.children r.self l (inr waits) good_r),
              ),
              inl (refl, refl),
            ),
          )
          | inr (fin, one) ↦ round_final r done fin one
        ]

  -- From a well laid out state, with as many rounds as there are children left, the loop returns.
  rounds-Returns :
      (k i : ℕ) (b : Container C) (w : W) (notes : List ℤ)
      → b.status ≡ executing
      → b.index ≡ pos i
      → Layout ops Good i b.children
      → length b.children < k + i
      → Returns notes (rounds k b w notes)
  rounds-Returns zero i b w notes ex at_i l enough =
      absurd (omega (arith, Layout-lt ops Good i b.children l))
  rounds-Returns (suc k) i b w notes ex at_i l enough =
      let (c, at, live, good) = focus ops Good i b.children l in
      elim (Bool-cases (is_overdue ops clock b)) [
        | inl over ↦ (
          _,
          round-overdue ops clock e_aborted k b w notes c (rw at_i at) over ex aborts,
          (tt, inr (inr refl, refl)),
        )
        | inr under ↦
            round-Returns k i b w notes c ex at_i l enough
              (λ b' w'. rounds-Returns k (suc i) b' w' notes) (rw at_i at) under live good
      ]

  pub loop-Returns :
      (i : ℕ) (b : Container C) (w : W) (notes : List ℤ)
      → b.status ≡ executing
      → b.index ≡ pos i
      → Layout ops Good i b.children
      → Returns notes (run_loop ops clock e_aborted b w notes)
  unfolding run_loop
  loop-Returns i b w notes ex at_i l =
      let below = Layout-lt ops Good i b.children l in
      let not_done : at_least b.index (length b.children) ≡ false =
        ap (λ j. at_least j (length b.children)) at_i ∙ ground arith in
      rw (not_done, run_loop)
        (rounds-Returns (suc (length b.children)) i b w notes ex at_i l (omega arith))

  -- Without children the loop is not entered, and the container completes.
  empty-Returns :
      (b : Container C) (w : W) (notes : List ℤ)
      → b.status ≡ executing
      → b.index ≡ pos 0
      → b.error ≡ pos 0
      → length b.children ≡ 0
      → Returns notes (run_loop ops clock e_aborted b w notes)
  unfolding run_loop
  empty-Returns b w notes ex at_0 fine empty =
      let done : at_least b.index (length b.children) ≡ true =
        ap (λ j. at_least j (length b.children)) at_0 ∙ ground arith in
      let completes = update-completes b.error b 0 ex at_0 (ap is_positive fine) (omega arith) in
      (
        reply (record b { index = pos 1; status = completed }) w (notes ++ b.error ∷ []),
        rw (done, run_loop) (rw completes refl),
        (tt, inr (inl refl, refl)),
      )

  pub Fresh-loop :
      (cs : List C) (b : Container C) (w : W)
      → b.children ≡ cs
      → b.status ≡ executing
      → b.index ≡ pos 0
      → b.error ≡ pos 0
      → All (Fresh ops Good) cs
      → Returns [] (run_loop ops clock e_aborted b w [])
  Fresh-loop [] b w same ex at_0 fine h = empty-Returns b w [] ex at_0 fine (ap length same)
  Fresh-loop (c ∷ cs) b w same ex at_0 fine h =
      loop-Returns 0 b w [] ex at_0 (rw same ((inl h.0.0, h.0.1), h.1))
