-- ===== src/Engine/Worker.antt =====
-- inference_engine.py: the worker thread. A round takes the mailbox, resets the provider if that is
-- due, runs the inference outside the locks, and commits its result or its failure.
pub mod Refines
pub mod Failures
pub mod Examples
use action_stream.Prelude.{
  ℕ, pos, suc, String, Bool, true, false, not, ◌&&◌, ◌||◌, Option, none, some, is_some, ltb, leb_ℤ,
  ◌==◌, if◌then◌else◌,
}
use action_stream.Engine.Types.{Identity, ObservationEnvelope}
use action_stream.Engine.State.{
  Engine, TaskMethods, epoch_is_current, note_rejected_epoch, emit, mark_fatal,
}

-- what a round of the worker keeps in its local variables
pub record Job (O : Type 0) : Type 0 where
  pub envelope : ObservationEnvelope O
  pub reset_provider : Bool
  pub cancelled : ℕ  -- the cancellation event of the episode
  pub task : String
  pub identity : Identity

-- what the worker finds when it looks at the mailbox
pub data Take (O : Type 0) : Type 0 where
  stopped waiting : Take O
  taken : Job O → Take O

-- how a request fails: a deadline, another exception, or one that no handler is meant to catch
pub data Failure : Type 0 where
  deadline_exceeded : Failure
  cancelled_request : Failure
  request_error : String → Failure
  base_exception : String → Failure

abbrev pub is_timeout : Failure → Bool
is_timeout deadline_exceeded = true
is_timeout failure = false

abbrev larger : Option ℕ → ℕ → Option ℕ
larger none latency = some latency
larger (some largest) latency = if ltb largest latency then some latency else some largest

module _ {A O H : Type 0} where
  take : TaskMethods H → ObservationEnvelope O → Engine A O H → Engine A O H × Take O
  take methods envelope e =
      let (task, slot) = methods.take_task e.task_slot in
      (
        record e {
          latest_observation = none;
          last_submitted_source_step = envelope.step;
          task_slot = slot;
          next_request_ordinal = suc e.next_request_ordinal;
          metrics = record e.metrics { inference_started = suc e.metrics.inference_started };
        },
        taken (record {
          envelope = envelope;
          reset_provider = e.provider_reset_pending;
          cancelled = e.epoch_cancelled;
          task = task;
          identity = record {
            epoch = envelope.epoch;
            source_step = envelope.step;
            request_ordinal = e.next_request_ordinal;
            task_revision = e.task_revision;
          };
        }),
      )

  take_mailbox :
      TaskMethods H → Option (ObservationEnvelope O) → Engine A O H → Engine A O H × Take O
  unfolding take
  take_mailbox methods none e = (e, waiting)
  take_mailbox methods (some envelope) e = take methods envelope e

  -- the head of a round, under the lock
  unfoldable pub worker_take : TaskMethods H → Engine A O H → Engine A O H × Take O
  unfolding take_mailbox
  worker_take methods e =
      if e.shutdown || e.fatal_error
      then (e, stopped)
      else if e.active && not e.resetting
      then take_mailbox methods e.latest_observation e
      else (e, waiting)

  -- after the provider's reset has returned; the flag says whether the round goes on
  unfoldable pub provider_reset_done : ℕ → Engine A O H → Engine A O H × Bool
  unfolding note_rejected_epoch
  provider_reset_done epoch e =
      if not (epoch_is_current e epoch)
      then (note_rejected_epoch epoch e, false)
      else (record e { provider_reset_pending = false }, true)

  -- a request is refused before the transport is entered if its episode has been invalidated
  unfoldable pub job_is_cancelled : Job O → Engine A O H → Bool
  job_is_cancelled job e = e.event_set job.cancelled

  -- `_record_latency`
  pub record_latency : ℕ → Engine A O H → Engine A O H
  record_latency latency e = record e {
    metrics = record e.metrics {
      latest_inference_latency_ms = some latency;
      max_inference_latency_ms = larger e.metrics.max_inference_latency_ms latency;
    };
  }

  record_optional_latency : Option ℕ → Engine A O H → Engine A O H
  unfolding record_latency
  record_optional_latency none e = e
  record_optional_latency (some latency) e = record_latency latency e

  count_failure : Bool → Engine A O H → Engine A O H
  count_failure timeout e = record e {
    connected = false;
    metrics = record e.metrics {
      inference_timeouts =
          if timeout then suc e.metrics.inference_timeouts else e.metrics.inference_timeouts;
      inference_errors =
          if timeout then e.metrics.inference_errors else suc e.metrics.inference_errors;
      disconnects = if e.connected then suc e.metrics.disconnects else e.metrics.disconnects;
      consecutive_failures = suc e.metrics.consecutive_failures;
    };
  }

  -- the locked part of `_record_transient_failure`: the number of failures in a row, if it counts
  pub record_failure : ℕ → Bool → Option ℕ → Engine A O H → Engine A O H × Option ℕ
  unfolding record_optional_latency count_failure note_rejected_epoch
  record_failure epoch timeout latency e =
      if not (epoch_is_current e epoch)
      then (note_rejected_epoch epoch e, none)
      else let e' = count_failure timeout (record_optional_latency latency e) in
        (e', some e'.metrics.consecutive_failures)

  -- the end of `_record_transient_failure`: too many failures in a row are fatal
  pub escalate : Bool → ℕ → Option ℕ → Engine A O H → Engine A O H
  unfolding mark_fatal
  escalate write_fails epoch none e = e
  escalate write_fails epoch (some failures) e =
      if leb_ℤ e.config.max_consecutive_failures (pos failures)
      then mark_fatal write_fails "too many failures" (some epoch) false e
      else e

  -- `_retry_failed_observation`
  pub retry_failed_observation : ObservationEnvelope O → Engine A O H → Engine A O H
  retry_failed_observation envelope e =
      if e.fatal_error
        || e.shutdown
        || not (envelope.epoch == e.epoch)
        || is_some e.latest_observation
      then e
      else record e { latest_observation = some envelope }

  -- the handler of the worker's `except` clause
  pub fail_request : (ℕ → Bool) → Job O → Failure → Option ℕ → Engine A O H → Engine A O H
  unfolding record_failure escalate retry_failed_observation emit mark_fatal
  fail_request fails job (base_exception traceback) latency e =
      mark_fatal (fails 1) traceback (some job.identity.epoch) false
        (emit (fails 0) job.identity.epoch e)
  fail_request fails job failure latency e =
      let epoch = job.identity.epoch in
      let (e', failures) =
        record_failure epoch (is_timeout failure) latency (emit (fails 0) epoch e) in
      retry_failed_observation job.envelope (escalate (fails 1) epoch failures e')

  -- the commit of a result, before it is merged or scheduled; the flag says whether it goes on
  unfoldable pub complete : ℕ → ℕ → Engine A O H → Engine A O H × Bool
  unfolding record_latency note_rejected_epoch
  complete epoch latency e =
      if not (epoch_is_current e epoch)
      then (note_rejected_epoch epoch e, false)
      else let e' = record_latency latency e in
        (
          record e' {
            connected = true;
            metrics = record e'.metrics {
              inference_completed = suc e'.metrics.inference_completed;
              recoveries = if e.connected then e'.metrics.recoveries else suc e'.metrics.recoveries;
              consecutive_failures = 0;
            };
          },
          true,
        )
