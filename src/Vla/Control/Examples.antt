-- ===== src/Vla/Control/Examples.antt =====
-- A run of the control loop with a budget of two steps, after which the checker says complete.
use action_stream.Prelude.{ℕ, ◌≢◌, true, false, some, none, List, replicate, pos, arith}
use action_stream.Vla.Contracts.{CheckDecision, text}
use action_stream.Vla.Execution.Examples.{rows, observation, execution, made}
use action_stream.Vla.Contracts.Examples.{task}
use action_stream.Vla.Control.{Round, rounds, first_run, out_of_rounds}
use action_stream.Vla.Control.Termination.{execute_ends}

abbrev decision : CheckDecision
decision = record {
  observation_id = text "one";
  status = text "complete";
  evidence = text "in the basket";
}

abbrev regular : Round ℕ
regular = record {
  inference = some (replicate 30 7);
  queued_at = 6;
  chunk_written = true;
  stepped = some (observation, false);
  step_written = true;
  refreshed = none;
  validated_at = 7;
  checked = some decision;
  check_written = true;
  applied_at = 8;
}

abbrev outside : List (Round ℕ)
outside = replicate 300 regular

execute_ends_example :
    (rounds rows none outside (first_run execution observation)).1 ≢ out_of_rounds
execute_ends_example =
    execute_ends task (pos 2) 30 execution rows none observation outside made (omega arith)
