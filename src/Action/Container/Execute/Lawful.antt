-- ===== src/Action/Container/Execute/Lawful.antt =====
-- CAmActionContainer::execute keeps the contract of an action if the children keep it.
use audio_manager_plugins.Base.{
  ℕ, [], ◌∷◌, true, false, ◌≡◌, ap, subst, inl, inr, refl, arith, Bool-cases,
}
use audio_manager_plugins.Base.Int.{ℤ, pos}
use audio_manager_plugins.Action.{
  ActionState, not_started, executing, error_stopped, is_executing, is_not_started, is_negative,
  is_positive, is_zero, Reply, ActionCommand, IsLawful,
}
use audio_manager_plugins.Action.Container.{Container, Clock, reply}
use audio_manager_plugins.Action.Container.Execute.{begin, start, proceed, run_loop, execute}
use audio_manager_plugins.Action.Container.Execute.Layout.{GoodAt, IsReady}
use audio_manager_plugins.Action.Container.Execute.Rounds.{update-stops}
use audio_manager_plugins.Action.Container.Tree.{container_ops}
use audio_manager_plugins.Action.Container.Execute.Loop.{Returns, loop-Returns, Fresh-loop}

module _ {W C : Type 0} (ops : ActionCommand W C) (clock : Clock W) (Good : C → Type 0)
    (lawful : IsLawful ops Good) (e_aborted : ℤ) (aborts : is_positive e_aborted ≡ true) where
  open ops use {get_status}

  proceed-executing :
      (s : Reply W (Container C))
      → is_executing s.self.status ≡ true
      → proceed ops clock e_aborted s ≡ run_loop ops clock e_aborted s.self s.world s.notes
  unfolding proceed
  proceed-executing s ex = rw (ex, proceed) refl

  execute-started :
      (b : Container C) (w : W)
      → is_not_started b.status ≡ false
      → execute ops clock e_aborted b w ≡ proceed ops clock e_aborted (reply b w [])
  unfolding execute
  execute-started b w e = rw (e, execute) refl

  execute-fresh :
      (b : Container C) (w : W)
      → is_not_started b.status ≡ true
      → execute ops clock e_aborted b w ≡ proceed ops clock e_aborted (start ops clock b w)
  unfolding execute
  execute-fresh b w e = rw (e, execute) refl

  zero_of : (e : ℤ) → is_zero e ≡ true → e ≡ pos 0
  zero_of e h = ground arith

  positive_of : (e : ℤ) → is_zero e ≡ false → is_negative e ≡ false → is_positive e ≡ true
  positive_of e z n = ground arith

  start-zero :
      (b : Container C) (w : W)
      → is_zero b.script.execute_result ≡ true
      → start ops clock b w ≡ begin ops clock b w
  unfolding start begin
  start-zero b w z = rw (z, start) refl

  start-stops :
      (b : Container C) (w : W)
      → is_zero b.script.execute_result ≡ false
      → is_positive b.script.execute_result ≡ true
      → let s = begin ops clock b w in
        start ops clock b w
        ≡ reply (record s.self { status = error_stopped }) s.world (s.self.error ∷ [])
  unfolding start begin
  start-stops b w z p =
      rw (z, start)
        (rw (update-stops b.script.execute_result (begin ops clock b w).self refl p) refl)

  fresh-Returns :
      (b : Container C) (w : W)
      → b.status ≡ not_started
      → GoodAt ops Good not_started b
      → Returns ops clock Good lawful e_aborted aborts [] (execute ops clock e_aborted b w)
  unfolding begin proceed
  fresh-Returns b w fresh ready =
      let s = begin ops clock b w in
      rw (execute-fresh b w (ap is_not_started fresh))
        (elim (Bool-cases (is_zero b.script.execute_result)) [
          | inl z ↦ rw (start-zero b w z) (
              Fresh-loop ops clock Good lawful e_aborted aborts s.self.children s.self s.world refl
                refl ready.0 (zero_of _ z) ready.1)
          | inr z ↦ rw (start-stops b w z (positive_of _ z ready.2)) (
            reply (record s.self { status = error_stopped }) s.world (s.self.error ∷ []),
            refl,
            (tt, inr (inr refl, refl)),
          )
        ])

  started-Returns :
      (b : Container C) (w : W)
      → b.status ≡ executing
      → GoodAt ops Good executing b
      → Returns ops clock Good lawful e_aborted aborts [] (execute ops clock e_aborted b w)
  started-Returns b w ex (i, at_i, l) = rw (execute-started b w (ap is_not_started ex)) (
      rw (proceed-executing (reply b w []) (ap is_executing ex))
        (loop-Returns ops clock Good lawful e_aborted aborts i b w [] ex at_i l))

  GoodAt-set_timeout :
      (s : ActionState) (t : ℕ) (b : Container C)
      → GoodAt ops Good s b
      → GoodAt ops Good s (record b { timeout = t })
  GoodAt-set_timeout not_started t b h = h
  GoodAt-set_timeout executing t b h = h
  GoodAt-set_timeout _ t b h = tt

  -- If the children keep the contract of an action then so does the container, for the states in
  -- which its children are laid out around its index: executed while it is live it returns, it
  -- leaves the children laid out again, and it tells its parent once when it is over.
  pub container_ops-IsLawful : IsLawful (container_ops ops clock e_aborted) (IsReady ops Good)
  container_ops-IsLawful = record {
    execute_returns = λ b w live ready.
        let (r, returned, out) : Returns ops clock Good lawful e_aborted aborts []
            (execute ops clock e_aborted b w) =
          elim live [
            | inl fresh ↦ fresh-Returns b w fresh (subst (λ s. GoodAt ops Good s b) fresh ready)
            | inr ex ↦ started-Returns b w ex (subst (λ s. GoodAt ops Good s b) ex ready)
          ] in
        (r, returned, out.0, out.1);
    set_timeout_status = λ t b. refl;
    set_timeout_good = λ t b ready. GoodAt-set_timeout b.status t b ready;
  }
