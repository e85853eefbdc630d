-- ===== src/TriggerQueue/Order.antt =====
-- In which order the trigger queue of CAmTriggerQueue.cpp serves what was put into it.
use audio_manager_plugins.Base.{
  none, List, [], ◌∷◌, ◌++◌, ◌≡◌, refl, sym, Bool, true, false, arith, subst, if◌then◌else◌, ℕ,
  zero, suc, length, append_assoc, append-nil, length-append,
}
use audio_manager_plugins.TriggerQueue.{
  TriggerPair, TriggerQueue, Dequeued, empty, queue, queue_with_priority, dequeue, dequeue_lists,
  get_snap_shot,
}

module _ {ℓ} (T D : Type ℓ) where
  -- A trigger to submit: whether it has priority, its type and its data.
  pub record Submission : Type ℓ where
    pub urgent : Bool
    pub pair : TriggerPair T D

module _ {ℓ} {T D : Type ℓ} where
  -- The controller submits a trigger by one of the two functions.
  pub submit : Submission T D → TriggerQueue T D → TriggerQueue T D
  submit s q =
      if s.urgent then queue_with_priority s.pair.0 s.pair.1 q else queue s.pair.0 s.pair.1 q

  pub submit_all : List (Submission T D) → TriggerQueue T D → TriggerQueue T D
  submit_all [] q = q
  submit_all (s ∷ ss) q = submit_all ss (submit s q)

  -- The submissions of one urgency, in the order of submission.
  pub of_urgency : Bool → List (Submission T D) → List (TriggerPair T D)
  of_urgency b [] = []
  of_urgency true (s ∷ ss) =
      let later = of_urgency true ss in if s.urgent then s.pair ∷ later else later
  of_urgency false (s ∷ ss) =
      let later = of_urgency false ss in if s.urgent then later else s.pair ∷ later

  -- The entries that `n` calls of dequeue take out.
  pub serve : ℕ → T → TriggerQueue T D → List (TriggerPair T D)
  serve zero t0 q = []
  serve (suc n) t0 q = let d = dequeue t0 q in (d.trigger_type, d.element) ∷ serve n t0 d.rest

  -- What dequeue does to the snapshot `s`, and what it returns.
  abbrev pub Serves : T → List (TriggerPair T D) → Dequeued T D → Type ℓ
  Serves t0 [] r = (r.element ≡ none) × (r.trigger_type ≡ t0) × (get_snap_shot r.rest ≡ [])
  Serves t0 (p ∷ ps) r = (r.trigger_type ≡ p.0) × (r.element ≡ p.1) × (get_snap_shot r.rest ≡ ps)

  dequeue_lists-Serves :
      (t0 : T) (ps ns : List (TriggerPair T D)) → Serves t0 (ps ++ ns) (dequeue_lists t0 ps ns)
  unfolding dequeue_lists empty get_snap_shot
  dequeue_lists-Serves t0 ((t, d) ∷ ps) ns = (refl, refl, refl)
  dequeue_lists-Serves t0 [] ((t, d) ∷ ns) = (refl, refl, refl)
  dequeue_lists-Serves t0 [] [] = (refl, refl, refl)

  -- dequeue takes out the first entry of what getSnapShot lists, and on an empty queue it returns
  -- null, leaves the trigger type as it was and the queue empty.
  dequeue-get_snap_shot :
      (t0 : T) (q : TriggerQueue T D) → Serves t0 (get_snap_shot q) (dequeue t0 q)
  unfolding dequeue get_snap_shot
  dequeue-get_snap_shot t0 q = dequeue_lists-Serves t0 q.list_priority q.list_trigger

  submit_all-lists :
      (ss : List (Submission T D)) (q : TriggerQueue T D)
      → ((submit_all ss q).list_priority ≡ q.list_priority ++ of_urgency true ss)
        × ((submit_all ss q).list_trigger ≡ q.list_trigger ++ of_urgency false ss)
  unfolding submit_all of_urgency submit queue queue_with_priority
  submit_all-lists [] q = (sym (append-nil _), sym (append-nil _))
  submit_all-lists (s ∷ ss) q = ground (
    arith,
    submit_all-lists ss (submit s q),
    append_assoc q.list_priority (s.pair ∷ []) (of_urgency true ss),
    append_assoc q.list_trigger (s.pair ∷ []) (of_urgency false ss),
  )

  serve-get_snap_shot :
      (t0 : T) (q : TriggerQueue T D) (xs : List (TriggerPair T D))
      → get_snap_shot q ≡ xs
      → serve (length xs) t0 q ≡ xs
  unfolding serve
  serve-get_snap_shot t0 q [] e = refl
  serve-get_snap_shot t0 q (x ∷ xs) e =
      let r : Serves t0 (x ∷ xs) (dequeue t0 q) =
        subst (λ s. Serves t0 s (dequeue t0 q)) e (dequeue-get_snap_shot t0 q) in
      ground (arith, r, serve-get_snap_shot t0 (dequeue t0 q).rest xs)

  length-of_urgency :
      (ss : List (Submission T D)) → length (of_urgency true ss ++ of_urgency false ss) ≡ length ss
  unfolding of_urgency
  length-of_urgency [] = refl
  length-of_urgency (s ∷ ss) = ground (
    arith,
    length-of_urgency ss,
    length-append (of_urgency true ss) (of_urgency false ss),
    length-append (of_urgency true ss) (s.pair ∷ of_urgency false ss),
  )

  -- Whatever was submitted to an empty queue, and in whatever mixture of the two functions, as many
  -- calls of dequeue as there were submissions hand out first the submissions with priority, in the
  -- order of submission, and then the others, in the order of submission.
  pub serve-submit_all :
      (t0 : T) (ss : List (Submission T D))
      → serve (length ss) t0 (submit_all ss empty) ≡ of_urgency true ss ++ of_urgency false ss
  unfolding empty get_snap_shot
  serve-submit_all t0 ss = rw (← length-of_urgency ss) (
      serve-get_snap_shot t0 (submit_all ss empty) (of_urgency true ss ++ of_urgency false ss)
        (ground (arith, submit_all-lists ss empty)))
