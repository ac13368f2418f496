-- ===== src/Engine/Worker/Examples.antt =====
-- A deadline that is missed for the second time of three.
use action_stream.Prelude.{ℕ, pos, ◌≡◌, refl, true, false, none, some}
use action_stream.Engine.State.{Engine, new_engine}
use action_stream.Engine.Worker.{Job, deadline_exceeded, fail_request}
use action_stream.Engine.Worker.Failures.{health, fail_request_counts}
use action_stream.Engine.Samples.{config, slot, identity}

abbrev job : Job ℕ
job = record {
  envelope = record { epoch = 0; step = pos 0; observation = 7 };
  reset_provider = false;
  cancelled = 0;
  task = "pick";
  identity = identity;
}

abbrev failing : Engine ℕ ℕ (Unit {0})
failing =
    let e : Engine ℕ ℕ (Unit {0}) = new_engine config "engine" false none slot in
    record e {
      started = true;
      metrics = record e.metrics { consecutive_failures = 1; inference_timeouts = 1 };
    }

fail_request_counts_example :
    health (fail_request (λ n. false) job deadline_exceeded (some 3) failing)
    ≡ record (health failing) {
      in_a_row = 2;
      counted = 2;
      fatal = false;
      connected = false;
      mailbox = some job.envelope;
    }
unfolding new_engine
fail_request_counts_example =
    fail_request_counts (λ n. false) job deadline_exceeded (some 3) failing tt refl refl
