-- ===== src/MainConnection/Lists/Disposal.antt =====
-- What keeps a main connection from being disposed, CAmMainConnectionElement.cpp with the queue of
-- CAmTriggerQueue.cpp.
use audio_manager_plugins.Base.{
  ℕ, ◌+◌, List, [], ◌∷◌, ◌++◌, Option, Bool, true, false, ◌&&◌, ◌≡◌, ap, arith, if◌then◌else◌,
  length-append, length, not,
}
use audio_manager_plugins.TriggerQueue.{
  TriggerPair, TriggerQueue, queue, queue_with_priority, get_snap_shot,
}
use audio_manager_plugins.MainConnection.{MainConnectionElement}
use audio_manager_plugins.MainConnection.Lists.{
  Trigger, ConnectTrigger, is_own_request, count_requests, permits_dispose,
}

count_requests-append :
    (c : MainConnectionElement) (ps qs : List (TriggerPair Trigger ConnectTrigger))
    → count_requests c (ps ++ qs) ≡ count_requests c ps + count_requests c qs
unfolding count_requests
count_requests-append c [] qs = omega arith
count_requests-append c (p ∷ ps) qs = ground (arith, count_requests-append c ps qs)

-- The queue with a trigger submitted, normal or urgent.
abbrev pub submitted :
    Bool
    → Trigger
    → Option ConnectTrigger
    → TriggerQueue Trigger ConnectTrigger
    → TriggerQueue Trigger ConnectTrigger
submitted false t d q = queue t d q
submitted true t d q = queue_with_priority t d q

count_requests-submitted :
    (c : MainConnectionElement) (urgent : Bool) (t : Trigger) (d : Option ConnectTrigger)
    (q : TriggerQueue Trigger ConnectTrigger)
    → count_requests c (get_snap_shot (submitted urgent t d q))
      ≡ count_requests c ((t, d) ∷ []) + count_requests c (get_snap_shot q)
unfolding queue queue_with_priority get_snap_shot
count_requests-submitted c false t d q = omega (
  arith,
  count_requests-append c q.list_priority (q.list_trigger ++ (t, d) ∷ []),
  count_requests-append c q.list_trigger ((t, d) ∷ []),
  count_requests-append c q.list_priority q.list_trigger,
)
count_requests-submitted c true t d q = omega (
  arith,
  count_requests-append c (q.list_priority ++ (t, d) ∷ []) q.list_trigger,
  count_requests-append c q.list_priority ((t, d) ∷ []),
  count_requests-append c q.list_priority q.list_trigger,
)

count_requests-one :
    (c : MainConnectionElement) (p : TriggerPair Trigger ConnectTrigger)
    → count_requests c (p ∷ []) ≡ (if is_own_request c p then 1 else 0)
unfolding count_requests
count_requests-one c p = ground arith

-- A trigger that is submitted, normally or urgently, keeps a connection from being disposed exactly if
-- it is a request to connect the connection's own source and sink; any other changes nothing.
pub permits_dispose-submitted :
    (c : MainConnectionElement) (urgent : Bool) (t : Trigger) (d : Option ConnectTrigger)
    (q : TriggerQueue Trigger ConnectTrigger)
    → permits_dispose c (get_snap_shot (submitted urgent t d q))
      ≡ not (is_own_request c (t, d)) && permits_dispose c (get_snap_shot q)
unfolding permits_dispose
permits_dispose-submitted c urgent t d q =
    ground (arith, count_requests-submitted c urgent t d q, count_requests-one c (t, d))

-- An entry in the list of transitions.
pub permits_dispose-transition :
    (c : MainConnectionElement) (snap_shot : List (TriggerPair Trigger ConnectTrigger))
    (xs ys : List ℕ) (a : ℕ)
    → c.ongoing_transitions ≡ xs ++ a ∷ ys
    → permits_dispose c snap_shot ≡ false
unfolding permits_dispose
permits_dispose-transition c snap_shot xs ys a h =
    ground (arith, length-append xs (a ∷ ys), ap (λ zs. length zs) h)
