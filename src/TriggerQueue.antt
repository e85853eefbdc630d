-- ===== src/TriggerQueue.antt =====
-- The queue of pending triggers: PluginControlInterfaceGeneric/src/CAmTriggerQueue.cpp. The two
-- std::list members are lists with the front first; a trigger's data is a pointer that may be null.
pub mod Order
use audio_manager_plugins.Base.{Option, none, some, List, [], ◌∷◌, ◌++◌, ◌≡◌, refl}

module _ {ℓ} (T D : Type ℓ) where
  -- std::pair<gc_Trigger_e, gc_TriggerElement_s *>
  abbrev pub TriggerPair : Type ℓ
  TriggerPair = T × Option D

  pub record TriggerQueue : Type ℓ where
    pub list_trigger : List TriggerPair
    pub list_priority : List TriggerPair

  -- What dequeue returns, with its out-parameter and the queue that it leaves.
  pub record Dequeued : Type ℓ where
    pub element : Option D
    pub trigger_type : T
    pub rest : TriggerQueue

module _ {ℓ} {T D : Type ℓ} where
  unfoldable pub empty : TriggerQueue T D
  empty = record { list_trigger = []; list_priority = [] }

  unfoldable pub queue : T → Option D → TriggerQueue T D → TriggerQueue T D
  queue t d q = record q { list_trigger = q.list_trigger ++ (t, d) ∷ [] }

  unfoldable pub queue_with_priority : T → Option D → TriggerQueue T D → TriggerQueue T D
  queue_with_priority t d q = record q { list_priority = q.list_priority ++ (t, d) ∷ [] }

  -- The priority list is served first; with both lists empty the out-parameter keeps its value `t0`.
  unfoldable pub dequeue_lists : T → List (TriggerPair T D) → List (TriggerPair T D) → Dequeued T D
  dequeue_lists t0 ((t, d) ∷ ps) ns = record {
    element = d;
    trigger_type = t;
    rest = record { list_trigger = ns; list_priority = ps };
  }
  dequeue_lists t0 [] ((t, d) ∷ ns) = record {
    element = d;
    trigger_type = t;
    rest = record { list_trigger = ns; list_priority = [] };
  }
  dequeue_lists t0 [] [] = record { element = none; trigger_type = t0; rest = empty }

  unfoldable pub dequeue : T → TriggerQueue T D → Dequeued T D
  unfolding dequeue_lists empty
  dequeue t0 q = dequeue_lists t0 q.list_priority q.list_trigger

  unfoldable pub get_snap_shot : TriggerQueue T D → List (TriggerPair T D)
  get_snap_shot q = q.list_priority ++ q.list_trigger
