-- ===== src/Engine/Observing.antt =====
-- inference_engine.py: the mailbox of the latest observation, and the telemetry snapshot.
pub mod Refines
use action_stream.Prelude.{
  ℕ, ℤ, pos, suc, String, Bool, ◌&&◌, Option, none, some, List, [], ◌∷◌, length, is_some, leb_ℤ,
  ltb_ℤ, suc_ℤ, ◌+ℤ◌, age, if◌then◌else◌,
}
use action_stream.Engine.Types.{QueuedAction, Metrics}
use action_stream.Engine.State.{Engine, emit}

-- the transport's own counters, which the engine only reads
pub record TransportDiagnostics : Type 0 where
  pub deadline_enforced : Bool
  pub transport_process_restarts : ℕ
  pub transport_cancellations : ℕ
  pub transport_startup_latency_ms : Option ℕ
  pub transport_request_latency_ms : Option ℕ

pub record Telemetry : Type 0 where
  pub metrics : Metrics
  pub queue_depth : ℕ
  pub pending_responses : ℕ
  pub queue_age_steps : Option ℕ
  pub transport_mode : String
  pub transport : TransportDiagnostics
  pub delivery_scheduler_enabled : Bool
  pub failed : Bool

queue_age : {A : Type 0} → ℤ → List (QueuedAction A) → Option ℕ
queue_age step [] = none
queue_age step (queued ∷ rest) = some (age step queued.identity.source_step)

module _ {A O H : Type 0} where
  -- the request budget: too few steps since the last request
  abbrev pub over_budget : Engine A O H → ℤ → Bool
  over_budget e step =
      leb_ℤ (pos 0) e.last_submitted_source_step
      && ltb_ℤ step (e.last_submitted_source_step +ℤ e.config.minimum_request_interval_steps)

  -- an observation of the step `step` that the budget lets through
  put_observation : O → ℤ → Engine A O H → Engine A O H
  put_observation obs step e = record e {
    latest_observation = some (record { epoch = e.epoch; step = step; observation = obs });
    metrics = record e.metrics {
      observations_superseded =
          if is_some e.latest_observation
          then suc e.metrics.observations_superseded
          else e.metrics.observations_superseded;
    };
  }

  skip_observation : Engine A O H → Engine A O H
  skip_observation e = record e {
    metrics = record e.metrics {
      observations_skipped_by_budget = suc e.metrics.observations_skipped_by_budget;
    };
  }

  -- the locked part of `notify_observation`
  unfoldable pub notify_observation_locked : O → Engine A O H → Engine A O H
  unfolding put_observation skip_observation
  notify_observation_locked obs e =
      let step = suc_ℤ e.current_step in
      let e' : Engine A O H = record e {
        current_step = step;
        metrics = record e.metrics { observations_received = suc e.metrics.observations_received };
      } in
      if over_budget e step then skip_observation e' else put_observation obs step e'

  -- `notify_observation`
  pub notify_observation : Bool → O → Engine A O H → Engine A O H
  unfolding notify_observation_locked emit
  notify_observation write_fails obs e = emit write_fails e.epoch (notify_observation_locked obs e)

  -- the property `telemetry`
  pub telemetry : TransportDiagnostics → Engine A O H → Telemetry
  unfolding queue_age
  telemetry transport e = record {
    metrics = e.metrics;
    queue_depth = length e.queue;
    pending_responses = length e.pending_deliveries;
    queue_age_steps = queue_age e.current_step e.queue;
    transport_mode = e.config.transport_mode;
    transport = transport;
    delivery_scheduler_enabled = e.config.delivery_scheduler_enabled;
    failed = e.fatal_error;
  }
