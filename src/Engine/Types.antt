-- ===== src/Engine/Types.antt =====
-- inference_types.py: the configuration and its checks, and the values that the queues hold.
-- `A` is the type of one action (a row of the chunk), `O` that of an observation.
pub mod Checks
use action_stream.Prelude.{
  ℕ, ℤ, pos, String, Bool, true, false, not, ◌&&◌, ◌||◌, Option, none, some, List, is_some, ltb_ℤ,
  leb_ℤ, Float, is_positive, is_non_negative, Result, ok, err, ◌>>=◌, ◌>>◌, raise_if, str_eq,
}

pub record Config : Type 0 where
  pub inference_timeout_s : Float
  pub bounded_hold_steps : ℤ
  pub retry_backoff_s : Float
  pub max_consecutive_failures : ℤ
  pub join_timeout_s : Float
  pub latest_only_fallback : Bool
  pub transport_mode : String
  pub process_transport_factory : Option String
  pub process_transport_startup_timeout_s : Float
  pub process_transport_terminate_timeout_s : Float
  pub delivery_scheduler_enabled : Bool
  pub minimum_request_interval_steps : ℤ

pub data ConfigError : Type 0 where
  bad_inference_timeout bad_bounded_hold bad_retry_backoff bad_max_failures : ConfigError
  bad_join_timeout bad_transport_mode missing_factory unexpected_factory : ConfigError
  bad_startup_timeout bad_terminate_timeout bad_request_interval : ConfigError

-- Python's `not factory`: the factory is missing or empty
abbrev is_falsy : Option String → Bool
is_falsy none = true
is_falsy (some s) = str_eq s ""

-- the transport mode and its factory
check_transport : String → Option String → Result ConfigError (Unit {0})
check_transport mode factory = do
  raise_if (not (str_eq mode "direct" || str_eq mode "process")) bad_transport_mode
  raise_if (str_eq mode "process" && is_falsy factory) missing_factory
  raise_if (str_eq mode "direct" && is_some factory) unexpected_factory

-- `__post_init__`: the first failed check raises
pub check_config : Config → Result ConfigError Config
check_config c = do
  raise_if (not (is_positive c.inference_timeout_s)) bad_inference_timeout
  raise_if (ltb_ℤ c.bounded_hold_steps (pos 0)) bad_bounded_hold
  raise_if (not (is_non_negative c.retry_backoff_s)) bad_retry_backoff
  raise_if (leb_ℤ c.max_consecutive_failures (pos 0)) bad_max_failures
  raise_if (not (is_positive c.join_timeout_s)) bad_join_timeout
  check_transport c.transport_mode c.process_transport_factory
  raise_if (not (is_positive c.process_transport_startup_timeout_s)) bad_startup_timeout
  raise_if (not (is_positive c.process_transport_terminate_timeout_s)) bad_terminate_timeout
  raise_if (leb_ℤ c.minimum_request_interval_steps (pos 0)) bad_request_interval
  ok c

pub record ObservationEnvelope (O : Type 0) : Type 0 where
  pub epoch : ℕ
  pub step : ℤ
  pub observation : O

-- `identity` in the worker loop: what a response carries of its request
pub record Identity : Type 0 where
  pub epoch : ℕ
  pub source_step : ℤ
  pub request_ordinal : ℕ
  pub task_revision : ℕ

pub record QueuedAction (A : Type 0) : Type 0 where
  pub tensor : A
  pub identity : Identity
  pub task : String

-- the caller's copy of an action with its provenance
pub record ActionStreamAction (A : Type 0) : Type 0 where
  pub action : A
  pub engine_id : String
  pub identity : Identity
  pub task : String

pub record PendingDelivery (A : Type 0) : Type 0 where
  pub identity : Identity
  pub task : String
  pub actions : List A
  pub model_completed_timestamp : ℕ
  pub scheduled_delivery_timestamp : ℕ

-- the counters that `_reset_metrics_locked` clears; latencies are whole ticks
pub record Metrics : Type 0 where
  pub observations_received : ℕ
  pub observations_superseded : ℕ
  pub observations_skipped_by_budget : ℕ
  pub inference_started : ℕ
  pub inference_completed : ℕ
  pub inference_timeouts : ℕ
  pub inference_errors : ℕ
  pub responses_scheduled : ℕ
  pub responses_delivered : ℕ
  pub responses_rejected_out_of_order : ℕ
  pub disconnects : ℕ
  pub recoveries : ℕ
  pub consecutive_failures : ℕ
  pub chunks_accepted : ℕ
  pub chunks_rejected_stale : ℕ
  pub chunks_rejected_reset : ℕ
  pub stale_actions_discarded : ℕ
  pub actions_dequeued : ℕ
  pub hold_actions : ℕ
  pub hold_exhausted : ℕ
  pub fallback_activations : ℕ
  pub fallback_chunks_accepted : ℕ
  pub latest_inference_latency_ms : Option ℕ
  pub max_inference_latency_ms : Option ℕ
  pub telemetry_write_errors : ℕ
