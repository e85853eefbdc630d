-- ===== src/Action/Container/Execute/Rounds.antt =====
-- What one round of the loop of CAmActionContainer::execute does.
use audio_manager_plugins.Base.{
  ℕ, suc, ◌<◌, ◌≤◌, List, [], ◌∷◌, ◌++◌, Option, some, true, false, ◌≡◌, ◌∙◌, ap, ◌||◌, not, refl,
  arith, length, append-nil,
}
use audio_manager_plugins.Base.Int.{ℤ, pos}
use audio_manager_plugins.Action.{
  executing, completed, error_stopped, is_executing, is_positive, Reply, ActionCommand,
}
use audio_manager_plugins.Action.Container.{
  Container, Clock, Noted, update, deliver, child_at, put_child, set_at, reply,
}
use audio_manager_plugins.Action.Container.Execute.{budget, is_overdue, after_child, run_children}

module _ {C : Type 0} where
  pub update-stops :
      (e : ℤ) (b : Container C)
      → b.status ≡ executing
      → is_positive e ≡ true
      → update e b ≡ record { box = record b { error = e; status = error_stopped }; notes = e ∷ [] }
  unfolding update
  update-stops e b ex p = ground arith

  pub update-completes :
      (e : ℤ) (b : Container C) (i : ℕ)
      → b.status ≡ executing
      → b.index ≡ pos i
      → is_positive e ≡ false
      → length b.children ≤ suc i
      → update e b ≡ record {
        box = record b { error = e; index = pos (suc i); status = completed };
        notes = e ∷ [];
      }
  unfolding update
  update-completes e b i ex at p last = ground arith

  pub update-goes_on :
      (e : ℤ) (b : Container C) (i : ℕ)
      → b.status ≡ executing
      → b.index ≡ pos i
      → is_positive e ≡ false
      → suc i < length b.children
      → update e b ≡ record {
        box = record b { error = e; index = pos (suc i); status = executing };
        notes = [];
      }
  unfolding update
  update-goes_on e b i ex at p more = ground arith

module _ {W C : Type 0} where
  -- The container after the call of its child.
  abbrev pub called : Container C → Reply W C → Container C
  called b r = record b { children = put_child b.index r.self b.children }

  pub children-of :
      (b : Container C) (r : Reply W C) (i : ℕ)
      → b.index ≡ pos i
      → (called b r).children ≡ set_at i r.self b.children
  children-of b r i e = rw e refl

module _ {W C : Type 0} (ops : ActionCommand W C) (clock : Clock W) (e_aborted : ℤ) where
  open ops use {get_status}

  abbrev pub child_rounds : ℕ → Container C → W → List ℤ → Option (Reply W (Container C))
  child_rounds = λ k b w notes. run_children ops clock k e_aborted b w notes

  pub round-overdue :
      (k : ℕ) (b : Container C) (w : W) (notes : List ℤ) (c : C)
      → child_at b.index b.children ≡ some c
      → is_overdue ops clock b ≡ true
      → b.status ≡ executing
      → is_positive e_aborted ≡ true
      → child_rounds (suc k) b w notes
        ≡ some (
            reply
              (record b { error = e_aborted; status = error_stopped })
              w
              (notes ++ e_aborted ∷ []))
  unfolding run_children
  round-overdue k b w notes c at over ex aborts =
      rw (at, run_children) (rw (over, run_children) (rw (update-stops e_aborted b ex aborts)))

  -- How a round ends, given what its child's call made of the container.
  abbrev finish : ℕ → Reply W C → List ℤ → Noted C → Option (Reply W (Container C))
  finish k r notes u = elim (is_executing (get_status r.self) || not (is_executing u.box.status)) [
    | true ↦ some (reply u.box r.world (notes ++ u.notes))
    | false ↦ child_rounds k u.box r.world (notes ++ u.notes)
  ]

  round-called :
      (k : ℕ) (b : Container C) (w : W) (notes : List ℤ) (c : C) (r : Reply W C) (u : Noted C)
      → child_at b.index b.children ≡ some c
      → is_overdue ops clock b ≡ false
      → ops.execute (budget ops clock b c) w ≡ some r
      → after_child ops clock b r ≡ u
      → child_rounds (suc k) b w notes ≡ finish k r notes u
  unfolding run_children
  round-called k b w notes c r u at over done called_ =
      rw (at, run_children) (rw (over, run_children) (rw (done, run_children) refl))
      ∙ ap (finish k r notes) called_

  after_child-waits :
      (b : Container C) (r : Reply W C)
      → r.notes ≡ []
      → after_child ops clock b r ≡ record { box = called b r; notes = [] }
  unfolding after_child deliver
  after_child-waits b r e = rw (e, deliver) refl

  after_child-final :
      (b : Container C) (r : Reply W C) (e : ℤ)
      → r.notes ≡ e ∷ []
      → after_child ops clock b r ≡ update e (called b r)
  unfolding after_child deliver
  after_child-final b r e one = rw (one, deliver) (rw append-nil refl)

  module _ (k : ℕ) (b : Container C) (w : W) (notes : List ℤ) (c : C) (r : Reply W C) (i : ℕ)
      (at_index : b.index ≡ pos i) (at : child_at b.index b.children ≡ some c)
      (over : is_overdue ops clock b ≡ false)
      (done : ops.execute (budget ops clock b c) w ≡ some r) where
    pub round-waits :
        r.notes ≡ []
        → get_status r.self ≡ executing
        → b.status ≡ executing
        → child_rounds (suc k) b w notes
          ≡ some (reply (record (called b r) { status = executing }) r.world notes)
    round-waits none_ waits ex =
        round-called k b w notes c r _ at over done (after_child-waits b r none_)
        ∙ rw (waits, finish) (rw append-nil refl)
        ∙ ap (λ s. some (reply (record (called b r) { status = s }) r.world notes)) ex

    pub round-stops :
        (e : ℤ)
        → r.notes ≡ e ∷ []
        → is_executing (get_status r.self) ≡ false
        → b.status ≡ executing
        → is_positive e ≡ true
        → child_rounds (suc k) b w notes
          ≡ some (
              reply
                (record (called b r) { error = e; status = error_stopped })
                r.world
                (notes ++ e ∷ []))
    round-stops e one final ex p =
        round-called k b w notes c r _ at over done
          (after_child-final b r e one ∙ update-stops e (called b r) ex p)
        ∙ rw (final, finish) refl

    pub round-completes :
        (e : ℤ)
        → r.notes ≡ e ∷ []
        → is_executing (get_status r.self) ≡ false
        → b.status ≡ executing
        → is_positive e ≡ false
        → length (called b r).children ≤ suc i
        → child_rounds (suc k) b w notes
          ≡ some (
              reply
                (record (called b r) { error = e; index = pos (suc i); status = completed })
                r.world
                (notes ++ e ∷ []))
    round-completes e one final ex p last =
        round-called k b w notes c r _ at over done
          (after_child-final b r e one ∙ update-completes e (called b r) i ex at_index p last)
        ∙ rw (final, finish) refl

    pub round-goes_on :
        (e : ℤ)
        → r.notes ≡ e ∷ []
        → is_executing (get_status r.self) ≡ false
        → b.status ≡ executing
        → is_positive e ≡ false
        → suc i < length (called b r).children
        → child_rounds (suc k) b w notes
          ≡ child_rounds k
              (record (called b r) { error = e; index = pos (suc i); status = executing })
              r.world
              notes
    round-goes_on e one final ex p more =
        round-called k b w notes c r _ at over done
          (after_child-final b r e one ∙ update-goes_on e (called b r) i ex at_index p more)
        ∙ rw (final, finish) (ap (child_rounds k _ r.world) (append-nil notes))
