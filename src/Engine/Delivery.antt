-- ===== src/Engine/Delivery.antt =====
-- delivery_scheduler.py: delayed responses, in a heap ordered by delivery time and ordinal.
-- The heap is kept as the list of its entries in the order in which `heappop` returns them.
pub mod Order
pub mod Refines
pub mod Examples
use action_stream.Prelude.{
  ℕ, pos, negsuc, suc, ◌+◌, String, Bool, true, false, not, ◌&&◌, ◌||◌, Option, none, some, List,
  [], ◌∷◌, ltb, ◌==◌, if◌then◌else◌, Float, finite, not_finite,
}
use action_stream.Engine.Types.{Identity, PendingDelivery}
use action_stream.Engine.State.{Engine, epoch_is_current, note_rejected_epoch, emit, mark_fatal}
use action_stream.Engine.Queue.{
  MergeStatus, rejected_reset, rejected_out_of_order, merge_chunk_reported,
}

-- what the caller's delay provider does
pub data Delay : Type 0 where
  no_provider : Delay
  provided : Float → Delay
  provider_raised : Delay

-- the delay in ticks, or nothing if the provider failed or the delay is no non-negative number
unfoldable pub delay_ticks : Delay → Option ℕ
delay_ticks no_provider = some 0
delay_ticks (provided (finite (pos n))) = some n
delay_ticks (provided (finite (negsuc n))) = none
delay_ticks (provided not_finite) = none
delay_ticks provider_raised = none

-- the order of the heap's entries `(scheduled_delivery_timestamp, request_ordinal, pending)`
abbrev pub before : {A : Type 0} → PendingDelivery A → PendingDelivery A → Bool
before a b =
    ltb a.scheduled_delivery_timestamp b.scheduled_delivery_timestamp
    || a.scheduled_delivery_timestamp == b.scheduled_delivery_timestamp
      && ltb a.identity.request_ordinal b.identity.request_ordinal

-- `heapq.heappush`
unfoldable pub heap_push :
    {A : Type 0} → PendingDelivery A → List (PendingDelivery A) → List (PendingDelivery A)
heap_push pending [] = pending ∷ []
heap_push pending (first ∷ rest) =
    if before pending first then pending ∷ first ∷ rest else first ∷ heap_push pending rest

-- what the caller's delivery observer does
pub data Observer : Type 0 where
  no_observer observer_returned : Observer
  observer_raised : String → Observer

pub data DeliveryStatus : Type 0 where
  scheduled cancelled_stop : DeliveryStatus
  merged : MergeStatus → DeliveryStatus

-- the statuses that are reported by an event of their own
abbrev pub is_rejection : DeliveryStatus → Bool
is_rejection (merged rejected_reset) = true
is_rejection (merged rejected_out_of_order) = true
is_rejection status = false

-- what the delivery thread finds when it looks at the heap
pub data Turn (A : Type 0) : Type 0 where
  stopped waiting : Turn A
  popped : PendingDelivery A → Turn A

-- a response that left the model at the time `completed`
unfoldable pub pending_of : {A : Type 0} → Identity → String → List A → ℕ → ℕ → PendingDelivery A
pending_of identity task actions completed delay = record {
  identity = identity;
  task = task;
  actions = actions;
  model_completed_timestamp = completed;
  scheduled_delivery_timestamp = completed + delay;
}

module _ {A O H : Type 0} where
  -- `notify_delivery_observer`; `fails n` says whether the n-th telemetry write fails
  unfoldable pub notify_delivery_observer :
      (ℕ → Bool) → Observer → PendingDelivery A → DeliveryStatus → Engine A O H → Engine A O H
  unfolding emit mark_fatal
  notify_delivery_observer fails observer pending status e =
      let epoch = pending.identity.epoch in
      let e₁ = emit (fails 0) epoch e in
      let e₂ = if is_rejection status then emit (fails 1) epoch e₁ else e₁ in
      elim observer [
        | no_observer ↦ e₂
        | observer_returned ↦ e₂
        | observer_raised traceback ↦
            mark_fatal (fails 3) traceback (some epoch) false (emit (fails 2) epoch e₂)
      ]

  -- the locked part of `schedule_delivery`; the flag says whether the response was rejected
  unfoldable pub push_delivery : PendingDelivery A → Engine A O H → Engine A O H × Bool
  unfolding heap_push note_rejected_epoch
  push_delivery pending e =
      if not (epoch_is_current e pending.identity.epoch)
      then (note_rejected_epoch pending.identity.epoch e, true)
      else (
        record e {
          pending_deliveries = heap_push pending e.pending_deliveries;
          metrics = record e.metrics { responses_scheduled = suc e.metrics.responses_scheduled };
        },
        false,
      )

  -- `schedule_delivery`
  pub schedule_delivery :
      (ℕ → Bool) → Observer → Delay → ℕ → List A → Identity → String → Engine A O H → Engine A O H
  unfolding push_delivery notify_delivery_observer delay_ticks pending_of
  schedule_delivery fails observer delay completed actions identity task e =
      elim (delay_ticks delay) [
        | none ↦
            mark_fatal (fails 1) "delivery provider" (some identity.epoch) false
              (emit (fails 0) identity.epoch e)
        | some ticks ↦
            let pending = pending_of identity task actions completed ticks in
            let (e', rejected) = push_delivery pending e in
            if rejected
            then notify_delivery_observer fails observer pending (merged rejected_reset) e'
            else notify_delivery_observer fails observer pending scheduled
                (emit (fails 4) identity.epoch e')
      ]

  pop_first : ℕ → List (PendingDelivery A) → Engine A O H → Engine A O H × Turn A
  pop_first now [] e = (e, waiting)
  pop_first now (pending ∷ rest) e =
      if ltb now pending.scheduled_delivery_timestamp
      then (e, waiting)
      else (record e { pending_deliveries = rest }, popped pending)

  -- one look of `delivery_loop` at the heap, at the time `now`
  unfoldable pub delivery_turn : ℕ → Engine A O H → Engine A O H × Turn A
  unfolding pop_first
  delivery_turn now e =
      if e.shutdown || e.fatal_error
      then (e, stopped)
      else if e.resetting
      then (e, waiting)
      else pop_first now e.pending_deliveries e

  -- the rest of a round of `delivery_loop`, with the response that was popped
  pub deliver : (ℕ → Bool) → Observer → PendingDelivery A → Engine A O H → Engine A O H
  unfolding notify_delivery_observer
  deliver fails observer pending e =
      let (e', status, step) =
        merge_chunk_reported (fails 4) pending.actions pending.identity pending.task true e in
      notify_delivery_observer fails observer pending (merged status) e'
