-- ===== src/Engine/State.antt =====
-- inference_engine.py: the engine's fields, and the small locked operations that the others share.
-- A step that a Python thread makes under the engine's locks is one function on this record.
use action_stream.Prelude.{
  ℕ, ℤ, suc, negsuc, String, Bool, true, false, not, ◌&&◌, ◌||◌, Option, none, some, List, [], ◌==◌,
  if◌then◌else◌,
}
use action_stream.Engine.Types.{Config, ObservationEnvelope, QueuedAction, PendingDelivery, Metrics}

-- LeRobot's base class, which is not part of the repository: `hidden` is what else it keeps.
pub record TaskSlot (H : Type 0) : Type 0 where
  pub task : String
  pub task_changed : Bool
  pub hidden : H

-- its methods `_take_task`, `_discard_task_change` and `_set_dispatched_task`
pub record TaskMethods (H : Type 0) : Type 0 where
  pub take_task : TaskSlot H → String × TaskSlot H
  pub discard_task_change : TaskSlot H → TaskSlot H
  pub set_dispatched_task : String → TaskSlot H → TaskSlot H

pub record Engine (A O H : Type 0) : Type 0 where
  pub config : Config
  pub engine_id : String
  pub telemetry_sink : Bool  -- a sink is configured
  pub global_shutdown : Option Bool  -- the caller's shutdown event, if one was given
  pub task_slot : TaskSlot H
  pub task_revision : ℕ
  pub resetting : Bool
  pub epoch_cancelled : ℕ  -- the event object of the current episode
  pub event_set : ℕ → Bool  -- which event objects are set
  pub shutdown : Bool
  pub active : Bool
  pub started : Bool
  pub worker : Bool  -- a worker thread object is held
  pub delivery_worker : Bool
  pub epoch : ℕ
  pub current_step : ℤ
  pub next_request_ordinal : ℕ
  pub latest_observation : Option (ObservationEnvelope O)
  pub last_submitted_source_step : ℤ
  pub provider_reset_pending : Bool
  pub pending_deliveries : List (PendingDelivery A)  -- the heap, in the order in which it pops
  pub latest_delivered_source_step : ℤ
  pub queue : List (QueuedAction A)
  pub last_action : Option (QueuedAction A)
  pub hold_steps_used : ℕ
  pub starved_pulls : ℕ
  pub failure_traceback : Option String
  pub fatal_error : Bool
  pub connected : Bool
  pub metrics : Metrics

-- `_reset_metrics_locked`
abbrev pub zero_metrics : Metrics
zero_metrics = record {
  observations_received = 0;
  observations_superseded = 0;
  observations_skipped_by_budget = 0;
  inference_started = 0;
  inference_completed = 0;
  inference_timeouts = 0;
  inference_errors = 0;
  responses_scheduled = 0;
  responses_delivered = 0;
  responses_rejected_out_of_order = 0;
  disconnects = 0;
  recoveries = 0;
  consecutive_failures = 0;
  chunks_accepted = 0;
  chunks_rejected_stale = 0;
  chunks_rejected_reset = 0;
  stale_actions_discarded = 0;
  actions_dequeued = 0;
  hold_actions = 0;
  hold_exhausted = 0;
  fallback_activations = 0;
  fallback_chunks_accepted = 0;
  latest_inference_latency_ms = none;
  max_inference_latency_ms = none;
  telemetry_write_errors = 0;
}

-- `event.set()` on an event that may be missing
abbrev pub set_event : Option Bool → Option Bool
set_event none = none
set_event (some state) = some true

module _ {A O H : Type 0} where
  -- `__init__`: the state of a new engine
  unfoldable pub new_engine : Config → String → Bool → Option Bool → TaskSlot H → Engine A O H
  new_engine config engine_id sink global_shutdown slot = record {
    config = config;
    engine_id = engine_id;
    telemetry_sink = sink;
    global_shutdown = global_shutdown;
    task_slot = slot;
    task_revision = 0;
    resetting = false;
    epoch_cancelled = 0;
    event_set = λ event. false;
    shutdown = false;
    active = false;
    started = false;
    worker = false;
    delivery_worker = false;
    epoch = 0;
    current_step = negsuc 0;
    next_request_ordinal = 0;
    latest_observation = none;
    last_submitted_source_step = negsuc 0;
    provider_reset_pending = true;
    pending_deliveries = [];
    latest_delivered_source_step = negsuc 0;
    queue = [];
    last_action = none;
    hold_steps_used = 0;
    starved_pulls = 0;
    failure_traceback = none;
    fatal_error = false;
    connected = true;
    metrics = zero_metrics;
  }

  -- `_epoch_is_current_locked`
  abbrev pub epoch_is_current : Engine A O H → ℕ → Bool
  epoch_is_current e epoch =
      epoch == e.epoch && not e.shutdown && not e.resetting && not e.fatal_error

  -- the property `ready`
  abbrev pub ready : Engine A O H → Bool
  ready e = e.started && epoch_is_current e e.epoch

  -- `_note_rejected_epoch_locked`
  unfoldable pub note_rejected_epoch : ℕ → Engine A O H → Engine A O H
  note_rejected_epoch epoch e =
      if not (epoch == e.epoch) && not e.shutdown
      then record e {
        metrics = record e.metrics { chunks_rejected_reset = suc e.metrics.chunks_rejected_reset };
      }
      else e

  -- `_emit`: a failed write of the sink is counted against the episode that it reports
  unfoldable pub emit : Bool → ℕ → Engine A O H → Engine A O H
  emit write_fails epoch e =
      if e.telemetry_sink && write_fails && epoch == e.epoch && not e.shutdown
      then record e {
        metrics = record e.metrics {
          telemetry_write_errors = suc e.metrics.telemetry_write_errors;
        };
      }
      else e

  -- the first test of `_mark_fatal`: an error of an invalidated episode is ignored
  abbrev pub fatal_applies : Engine A O H → Option ℕ → Bool → Bool
  fatal_applies e none during_reset = true
  fatal_applies e (some epoch) during_reset =
      epoch == e.epoch && not e.shutdown && (not e.resetting || during_reset)

  -- the locked part of `_mark_fatal`
  unfoldable pub mark_fatal_locked : String → Option ℕ → Bool → Engine A O H → Engine A O H
  mark_fatal_locked traceback epoch during_reset e =
      if e.fatal_error || not (fatal_applies e epoch during_reset) then e else record e {
        failure_traceback = some traceback;
        fatal_error = true;
        global_shutdown = set_event e.global_shutdown;
      }

  -- `_mark_fatal`: the event is written after the lock is released
  unfoldable pub mark_fatal : Bool → String → Option ℕ → Bool → Engine A O H → Engine A O H
  unfolding mark_fatal_locked emit
  mark_fatal write_fails traceback epoch during_reset e =
      let e' = mark_fatal_locked traceback epoch during_reset e in
      if e.fatal_error || not (fatal_applies e epoch during_reset)
      then e'
      else emit write_fails e.epoch e'
