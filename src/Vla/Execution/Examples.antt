-- ===== src/Vla/Execution/Examples.antt =====
-- An execution of two actions' budget.
use action_stream.Prelude.{
  ℕ, pos, ◌≤◌, ◌≡◌, ◌≤ℤ◌, refl, true, none, List, [], ◌∷◌, length, replicate, ok,
}
use action_stream.Vla.Contracts.{require_accepted}
use action_stream.Vla.Text.{text_length}
use action_stream.Vla.Contracts.Examples.{task}
use action_stream.Vla.Execution.{Execution, Observation, Rows, accepted, new_execution}
use action_stream.Vla.Execution.Bounds.{Call, queues, takes, run, issued, execution_bounded}

abbrev pub rows : Rows ℕ
rows = record { has_seven = λ r. true; is_finite = λ r. true; gripper_in_range = λ r. true }

abbrev pub observation : Observation
observation = record {
  request_id = "first";
  revision = 0;
  observation_id = "one";
  captured_monotonic = 5;
  frame_hashes = ("a", "b");
}

abbrev pub execution : Execution ℕ
execution = record {
  task = task;
  max_steps = pos 2;
  max_age = 30;
  revision = 0;
  steps = 0;
  recoveries = 0;
  status = accepted;
  pending = [];
  chunk_revision = none;
}

abbrev calls : List (Call ℕ)
calls = queues (replicate 30 7) observation 6 ∷ takes ∷ []

pub made : new_execution task (pos 2) 30 ≡ ok execution
unfolding new_execution require_accepted text_length
made = refl

execution_bounded_example :
    (pos (length (issued rows execution calls)) ≤ℤ pos 2)
    × (pos 2 ≤ℤ pos 300)
    × ((run rows execution calls).recoveries ≤ 1)
    × ((run rows execution calls).revision ≤ 1)
execution_bounded_example = execution_bounded rows task (pos 2) 30 execution calls made
