-- ===== src/Engine/Samples.antt =====
-- Small inputs that the examples share.
use action_stream.Prelude.{pos, true, false, none, finite}
use action_stream.Engine.Types.{Config, Identity}
use action_stream.Engine.State.{TaskSlot, TaskMethods}

-- an observation and an action are numbers here
abbrev pub methods : TaskMethods (Unit {0})
methods = record {
  take_task = λ slot. (slot.task, record slot { task_changed = false });
  discard_task_change = λ slot. record slot { task_changed = false };
  set_dispatched_task = λ task slot. slot;
}

abbrev pub slot : TaskSlot (Unit {0})
slot = record { task = "pick"; task_changed = false; hidden = tt }

abbrev pub config : Config
config = record {
  inference_timeout_s = finite (pos 5);
  bounded_hold_steps = pos 1;
  retry_backoff_s = finite (pos 0);
  max_consecutive_failures = pos 3;
  join_timeout_s = finite (pos 5);
  latest_only_fallback = true;
  transport_mode = "direct";
  process_transport_factory = none;
  process_transport_startup_timeout_s = finite (pos 5);
  process_transport_terminate_timeout_s = finite (pos 5);
  delivery_scheduler_enabled = true;
  minimum_request_interval_steps = pos 1;
}

abbrev pub identity : Identity
identity = record { epoch = 0; source_step = pos 0; request_ordinal = 0; task_revision = 0 }
