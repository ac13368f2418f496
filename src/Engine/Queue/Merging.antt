-- ===== src/Engine/Queue/Merging.antt =====
-- The merge of a chunk: alignment with the current step, staleness, and the rejections.
use mathlib.Core.Option
use action_stream.Prelude.{
  ℕ, pos, suc, ◌+◌, ◌≤◌, ◌<◌, ◌≡◌, ◌≢◌, refl, String, Bool, true, false, ◌⊎◌, List, [], map, length,
  drop, get_elem?, get_elem?-drop, get_elem?-map, age, if◌then◌else◌, ◌≤ℤ◌, ◌<ℤ◌, arith, ap, ◌∙◌,
  ◌↔◌,
}
use action_stream.Engine.Types.{Identity, Metrics}
use action_stream.Engine.State.{Engine, TaskMethods, epoch_is_current}
use action_stream.Engine.Queue.{
  delivered, rejected_reset, rejected_out_of_order, queued_of, merge_chunk,
}
use action_stream.Engine.Queue.Holding.{packets, packets_same}

-- the elements of a mapped suffix
place :
    {A : Type 0} (actions : List A) (identity : Identity) (task : String) (n i : ℕ)
    → get_elem? (map (queued_of identity task) (drop n actions)) i
      ≡ Option.map (queued_of identity task) (get_elem? actions (n + i))
place actions identity task n i =
    rw (get_elem?-map (queued_of identity task) (drop n actions) i) (rw get_elem?-drop refl)

module _ {A O H : Type 0} (actions : List A) (identity : Identity) (task : String) where
  -- the number of steps by which the chunk is late
  abbrev pub lateness : Engine A O H → ℕ
  lateness e = age e.current_step identity.source_step

  -- a response that may be delivered: it was not scheduled, or it is newer than the last delivered
  abbrev pub IsInOrder : Bool → Engine A O H → Type 0
  IsInOrder false e = Unit {0}
  IsInOrder true e = e.latest_delivered_source_step <ℤ identity.source_step

  merge_aligned-queue :
      (scheduled : Bool) (e : Engine A O H)
      → epoch_is_current e identity.epoch ≡ true
      → IsInOrder scheduled e
      → lateness e < length actions
      → (merge_chunk actions identity task scheduled e).0.queue
        ≡ map (queued_of identity task) (drop (lateness e) actions)
  unfolding merge_chunk
  merge_aligned-queue true e current order late = ground arith
  merge_aligned-queue false e current order late = ground arith

  -- A chunk of the current episode that comes in order and is not wholly expired replaces the queue:
  -- place i of the new queue holds the action that the chunk planned for the current step plus i, and
  -- the expired prefix is counted as discarded.
  pub merge_aligned :
      (scheduled : Bool) (e : Engine A O H)
      → epoch_is_current e identity.epoch ≡ true
      → IsInOrder scheduled e
      → lateness e < length actions
      → let e' = (merge_chunk actions identity task scheduled e).0 in
        ((i : ℕ)
          → get_elem? e'.queue i
            ≡ Option.map (queued_of identity task) (get_elem? actions (lateness e + i)))
        × (e'.metrics.stale_actions_discarded ≡ e.metrics.stale_actions_discarded + lateness e)
        × (e'.metrics.chunks_accepted ≡ suc e.metrics.chunks_accepted)
        × (e'.hold_steps_used ≡ 0)
        × (e'.starved_pulls ≡ 0)
  unfolding merge_chunk
  merge_aligned true e current order late = (
    λ i.
        rw (merge_aligned-queue true e current order late)
          (place actions identity task (lateness e) i),
    ground arith,
    ground arith,
    ground arith,
    ground arith,
  )
  merge_aligned false e current order late = (
    λ i.
        rw (merge_aligned-queue false e current order late)
          (place actions identity task (lateness e) i),
    ground arith,
    ground arith,
    ground arith,
    ground arith,
  )

  -- the control loop has nothing left to dispatch, and the configuration allows a late chunk
  abbrev pub MayFallBack : Engine A O H → Type 0
  MayFallBack e =
      (e.config.latest_only_fallback ≡ true)
      × (e.queue ≡ [])
      × ((0 < e.starved_pulls) ⊎ (e.config.bounded_hold_steps ≤ℤ pos e.hold_steps_used))

  -- the whole chunk is expired, and the configuration and the control loop let it be taken all the same
  abbrev pub IsOverdue : Engine A O H → Type 0
  IsOverdue e = (length actions ≤ lateness e) × MayFallBack e

  merge_fallback_only :
      (scheduled : Bool) (e : Engine A O H)
      → epoch_is_current e identity.epoch ≡ true
      → IsInOrder scheduled e
      → let e' = (merge_chunk actions identity task scheduled e).0 in
        e'.metrics.fallback_chunks_accepted ≡ suc e.metrics.fallback_chunks_accepted → IsOverdue e
  unfolding merge_chunk
  merge_fallback_only true e current order counted = ground arith
  merge_fallback_only false e current order counted = ground arith

  merge_fallback_taken :
      (scheduled : Bool) (e : Engine A O H)
      → epoch_is_current e identity.epoch ≡ true
      → IsInOrder scheduled e
      → IsOverdue e
      → let e' = (merge_chunk actions identity task scheduled e).0 in
        (e'.metrics.fallback_chunks_accepted ≡ suc e.metrics.fallback_chunks_accepted)
        × ((e'.queue ≡ map (queued_of identity task) actions)
            × (e'.metrics.chunks_accepted ≡ suc e.metrics.chunks_accepted)
            × (e'.metrics.stale_actions_discarded ≡ e.metrics.stale_actions_discarded)
            × (e'.hold_steps_used ≡ 0))
  unfolding merge_chunk
  merge_fallback_taken true e current order may = ground arith
  merge_fallback_taken false e current order may = ground arith

  merge_fallback_not :
      (scheduled : Bool) (e : Engine A O H)
      → epoch_is_current e identity.epoch ≡ true
      → IsInOrder scheduled e
      → ¬ IsOverdue e
      → let e' = (merge_chunk actions identity task scheduled e).0 in
        (e'.metrics.fallback_chunks_accepted ≡ e.metrics.fallback_chunks_accepted)
        × ((e'.queue ≡ map (queued_of identity task) (drop (lateness e) actions))
            ⊎ ((e'.queue ≡ e.queue) × (e'.metrics.chunks_accepted ≡ e.metrics.chunks_accepted)))
  unfolding merge_chunk
  merge_fallback_not true e current order may_not = ground arith
  merge_fallback_not false e current order may_not = ground arith

  -- A chunk of the current episode that comes in order is counted as a fallback exactly if it is wholly
  -- expired, the fallback is enabled, the queue is empty, and the loop has used up its holds or is
  -- starving; then it is taken whole, and nothing is counted as discarded. Otherwise the new queue is
  -- the chunk without its expired prefix, or the chunk is not accepted and the queue stays.
  pub merge_fallback :
      (scheduled : Bool) (e : Engine A O H)
      → epoch_is_current e identity.epoch ≡ true
      → IsInOrder scheduled e
      → let e' = (merge_chunk actions identity task scheduled e).0 in
        ((e'.metrics.fallback_chunks_accepted ≡ suc e.metrics.fallback_chunks_accepted)
          ↔ IsOverdue e)
        × (IsOverdue e
            → (e'.queue ≡ map (queued_of identity task) actions)
              × (e'.metrics.chunks_accepted ≡ suc e.metrics.chunks_accepted)
              × (e'.metrics.stale_actions_discarded ≡ e.metrics.stale_actions_discarded)
              × (e'.hold_steps_used ≡ 0))
        × (¬ IsOverdue e
            → (e'.metrics.fallback_chunks_accepted ≡ e.metrics.fallback_chunks_accepted)
              × ((e'.queue ≡ map (queued_of identity task) (drop (lateness e) actions))
                  ⊎ ((e'.queue ≡ e.queue)
                      × (e'.metrics.chunks_accepted ≡ e.metrics.chunks_accepted))))
  merge_fallback scheduled e current order = (
    (
      λ counted. merge_fallback_only scheduled e current order counted,
      λ may. (merge_fallback_taken scheduled e current order may).0,
    ),
    λ may. let (counted, taken) = merge_fallback_taken scheduled e current order may in taken,
    λ may_not. merge_fallback_not scheduled e current order may_not,
  )

  -- the engine after a response that left no action: a scheduled one counts as delivered
  abbrev pub passed : Bool → Metrics → Engine A O H → Engine A O H
  passed scheduled m e = record e {
    metrics = m;
    latest_delivered_source_step =
        if scheduled then identity.source_step else e.latest_delivered_source_step;
  }

  merge_expired-passed :
      (scheduled : Bool) (e : Engine A O H)
      → epoch_is_current e identity.epoch ≡ true
      → IsInOrder scheduled e
      → length actions ≤ lateness e
      → ¬ MayFallBack e
      → let e' = (merge_chunk actions identity task scheduled e).0 in
        (e' ≡ passed scheduled e'.metrics e)
        × (e'.metrics.chunks_rejected_stale ≡ suc e.metrics.chunks_rejected_stale)
        × (e'.metrics.stale_actions_discarded ≡ e.metrics.stale_actions_discarded + length actions)
  unfolding merge_chunk
  merge_expired-passed true e current order late may_not = ground arith
  merge_expired-passed false e current order late may_not = ground arith

  -- A wholly expired chunk of the current episode that comes in order, where the fallback may not take
  -- it, changes nothing of the engine but its counters and, if it was scheduled, the step of the last
  -- delivered response. All its actions are counted as discarded, it counts as one stale chunk, and
  -- whatever number of pulls follows gives the actions that it would have given without the response.
  pub merge_expired :
      (methods : TaskMethods H) (scheduled : Bool) (e : Engine A O H)
      → epoch_is_current e identity.epoch ≡ true
      → IsInOrder scheduled e
      → length actions ≤ lateness e
      → ¬ MayFallBack e
      → let e' = (merge_chunk actions identity task scheduled e).0 in
        (e' ≡ passed scheduled e'.metrics e)
        × (e'.metrics.chunks_rejected_stale ≡ suc e.metrics.chunks_rejected_stale)
        × (e'.metrics.stale_actions_discarded ≡ e.metrics.stale_actions_discarded + length actions)
        × ((n : ℕ) → packets methods n e' ≡ packets methods n e)
  merge_expired methods scheduled e current order late may_not =
      let (same, stale, discarded) = merge_expired-passed scheduled e current order late may_not in
      (same, stale, discarded, λ n. ap (packets methods n) same ∙ packets_same methods n e _ _)

  -- A response of another episode, or one that comes while the engine resets, stops or has failed,
  -- changes nothing but the counters, and so does a scheduled response that is not newer than the
  -- last one delivered; the status tells the two apart.
  pub merge_blocked :
      (scheduled : Bool) (e : Engine A O H)
      → (epoch_is_current e identity.epoch ≡ false) ⊎ ¬ IsInOrder scheduled e
      → let (e', status, step) = merge_chunk actions identity task scheduled e in
        (e' ≡ record e { metrics = e'.metrics })
        × (e'.metrics.chunks_accepted ≡ e.metrics.chunks_accepted)
        × (status
            ≡ (if epoch_is_current e identity.epoch then rejected_out_of_order else rejected_reset))
  unfolding merge_chunk
  merge_blocked true e blocked = ground arith
  merge_blocked false e blocked = ground arith

  -- a scheduled response that is delivered becomes the newest delivered one
  pub merge_delivered :
      (e : Engine A O H)
      → (merge_chunk actions identity task true e).1 ≡ delivered
      → ((merge_chunk actions identity task true e).0.latest_delivered_source_step
          ≡ identity.source_step)
        × ((merge_chunk actions identity task true e).0.epoch ≡ e.epoch)
        × (identity.epoch ≡ e.epoch)
  unfolding merge_chunk
  merge_delivered e h = ground arith

  -- a scheduled response that is not newer than the newest delivered one is refused
  pub merge_not_newer :
      (e : Engine A O H)
      → identity.source_step ≤ℤ e.latest_delivered_source_step
      → ((merge_chunk actions identity task true e).1 ≢ delivered)
        × ((merge_chunk actions identity task true e).0.queue ≡ e.queue)
  unfolding merge_chunk
  merge_not_newer e old = (λ h. ground arith, ground arith)
