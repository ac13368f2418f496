-- ===== src/Engine/Lifecycle.antt =====
-- inference_engine.py: start, stop, pause, resume, reset and set_task. Each is split where it
-- releases the engine's lock: what the transport does in between is the argument of the second part.
pub mod Refines
pub mod Effects
pub mod Examples
use action_stream.Prelude.{
  ℕ, suc, negsuc, String, Bool, true, false, ◌==◌, Option, none, some, List, [], ◌∷◌, length,
  if◌then◌else◌, str_eq, is_some,
}
use action_stream.Engine.Types.{PendingDelivery}
use action_stream.Engine.State.{Engine, TaskMethods, zero_metrics, emit, mark_fatal}
use action_stream.Engine.Delivery.{
  Observer, DeliveryStatus, cancelled_stop, merged, notify_delivery_observer,
}
use action_stream.Engine.Queue.{rejected_reset}

-- `RuntimeError`: a lifecycle method was called from a callback of the engine's own threads
pub data LifecycleError : Type 0 where
  inside_callback transport_failed : LifecycleError

-- what happens between the two locked parts of `stop`
pub data Teardown : Type 0 where
  teardown_raised : String → Teardown  -- `cancel`, a join or `close` raised
  threads_alive : Teardown  -- a thread did not end within the join timeout
  threads_ended : Teardown

-- what `transport.reset` does
pub data TransportReset : Type 0 where
  reset_raised : String → TransportReset
  reset_done : Bool → TransportReset

-- a teardown that raised ends `stop` by that exception
abbrev teardown_error : Teardown → Option LifecycleError
teardown_error (teardown_raised traceback) = some transport_failed
teardown_error teardown = none

abbrev reset_error : TransportReset → Option LifecycleError
reset_error (reset_raised traceback) = some transport_failed
reset_error (reset_done cancelled) = none

module _ {A O H : Type 0} where
  -- the locked part of `start`
  unfoldable pub start_locked : Engine A O H → Engine A O H
  start_locked e = if e.started then e else record e {
    metrics = if e.shutdown then zero_metrics else e.metrics;
    connected = if e.shutdown then true else e.connected;
    shutdown = false;
    fatal_error = false;
    failure_traceback = none;
    started = true;
    provider_reset_pending = true;
    delivery_worker = if e.config.delivery_scheduler_enabled then true else e.delivery_worker;
    worker = true;
  }

  -- `start`
  pub start : Bool → Bool → Engine A O H → Engine A O H × Option LifecycleError
  unfolding start_locked emit
  start in_callback write_fails e =
      if in_callback
      then (e, some inside_callback)
      else if e.started
      then (e, none)
      else (emit write_fails e.epoch (start_locked e), none)

  -- `_invalidate_episode_locked`: the next episode, and the responses that it cancels
  pub invalidate_episode : TaskMethods H → Engine A O H → Engine A O H × List (PendingDelivery A)
  invalidate_episode methods e = (
    record e {
      event_set = λ event. if event == e.epoch_cancelled then true else e.event_set event;
      epoch = suc e.epoch;
      epoch_cancelled = suc e.epoch_cancelled;
      current_step = negsuc 0;
      next_request_ordinal = 0;
      latest_observation = none;
      last_submitted_source_step = negsuc 0;
      provider_reset_pending = true;
      pending_deliveries = [];
      latest_delivered_source_step = negsuc 0;
      queue = [];
      last_action = none;
      hold_steps_used = 0;
      starved_pulls = 0;
      task_slot = methods.discard_task_change e.task_slot;
    },
    e.pending_deliveries,
  )

  -- `stop`, up to the release of the lock
  pub stop_begin : TaskMethods H → Engine A O H → Engine A O H × List (PendingDelivery A)
  unfolding invalidate_episode
  stop_begin methods e =
      invalidate_episode methods (record e { shutdown = true; active = false; resetting = true })

  -- `stop`, from the outcome of the teardown; `resetting` is cleared in the `finally` clause
  pub stop_end : Bool → Teardown → Engine A O H → Engine A O H
  stop_end write_fails (teardown_raised traceback) e =
      record (mark_fatal write_fails traceback none false e) { resetting = false }
  stop_end write_fails threads_alive e =
      record (mark_fatal write_fails "worker did not stop" none false e) { resetting = false }
  stop_end write_fails threads_ended e = record e {
    started = false;
    worker = false;
    delivery_worker = false;
    resetting = false;
  }

  -- the observer hears of every response that was cancelled
  notify_all :
      (ℕ → Bool)
      → Observer
      → DeliveryStatus
      → List (PendingDelivery A)
      → Engine A O H
      → Engine A O H
  notify_all fails _ status [] e = e
  notify_all fails observer status (pending ∷ rest) e =
      notify_all fails observer status rest
        (notify_delivery_observer fails observer pending status e)

  -- `stop`; `cancelled` is the result of the transport's `cancel`
  pub stop :
      TaskMethods H
      → Bool
      → (ℕ → Bool)
      → Observer
      → Bool
      → Teardown
      → Engine A O H
      → Engine A O H × Option LifecycleError
  unfolding stop_begin stop_end notify_all emit
  stop methods in_callback fails observer cancelled teardown e =
      let (e₁, pending) = stop_begin methods e in
      let e₂ = emit (fails 10) e₁.epoch e₁ in
      let e₃ = if cancelled then emit (fails 11) e₁.epoch e₂ else e₂ in
      let e₄ = stop_end (fails 12) teardown e₃ in
      if in_callback
      then (e, some inside_callback)
      else if is_some (teardown_error teardown)
      then (e₄, teardown_error teardown)
      else (emit (fails 13) e₁.epoch (notify_all fails observer cancelled_stop pending e₄), none)

  -- `pause` and `resume`
  pub pause : Bool → Engine A O H → Engine A O H
  unfolding emit
  pause write_fails e = emit write_fails e.epoch (record e { active = false })

  pub resume : Bool → Engine A O H → Engine A O H
  unfolding emit
  resume write_fails e = emit write_fails e.epoch (record e { active = true })

  -- `reset`, up to the release of the lock
  pub reset_begin : TaskMethods H → Engine A O H → Engine A O H × List (PendingDelivery A)
  unfolding invalidate_episode
  reset_begin methods e =
      let (e', pending) = invalidate_episode methods (record e { resetting = true }) in
      (
        record e' {
          connected = true;
          metrics = record zero_metrics { chunks_rejected_reset = length pending };
        },
        pending,
      )

  -- `reset`, from the outcome of the transport's reset; `resetting` is cleared in `finally`
  pub reset_end : Bool → TransportReset → Engine A O H → Engine A O H
  reset_end write_fails (reset_raised traceback) e =
      record (mark_fatal write_fails traceback (some e.epoch) true e) { resetting = false }
  reset_end write_fails (reset_done cancelled) e = record e { resetting = false }

  -- `reset`
  pub reset :
      TaskMethods H
      → Bool
      → (ℕ → Bool)
      → Observer
      → TransportReset
      → Engine A O H
      → Engine A O H × Option LifecycleError
  unfolding reset_begin reset_end notify_all emit
  reset methods in_callback fails observer outcome e =
      let (e₁, pending) = reset_begin methods e in
      let e₂ = reset_end (fails 10) outcome e₁ in
      if in_callback
      then (e, some inside_callback)
      else if is_some (reset_error outcome)
      then (e₂, reset_error outcome)
      else (
        emit (fails 11) e₁.epoch (notify_all fails observer (merged rejected_reset) pending e₂),
        none,
      )

  -- `set_task`
  pub set_task : String → Engine A O H → Engine A O H × Bool
  set_task task e = if str_eq task e.task_slot.task then (e, false) else (
    record e {
      task_slot = record e.task_slot { task = task; task_changed = true };
      task_revision = suc e.task_revision;
    },
    true,
  )
