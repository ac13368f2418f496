-- ===== src/Runtime/Requests/Examples.antt =====
-- Checks at a valid request and a valid result.
use action_stream.Prelude.{ℕ, pos, true, none, some, [], ◌∷◌, ◌==◌}
use action_stream.Runtime.Requests.{InferenceRequest, InferenceResult, Commands}

abbrev pub request : InferenceRequest ℕ
request = record {
  observation = 7;
  task_instruction = "pick";
  episode_id = "first";
  observation_control_step = pos 0;
  request_timestamp = 1;
  queue_depth_at_request_steps = some (pos 2);
  queue_headroom_at_request_steps = none;
}

-- a command is a number, and the zero command is 0
abbrev pub commands : Commands ℕ
commands = record { has_seven = λ c. true; is_finite = λ c. true; is_zero = λ c. c == 0 }

abbrev pub result : InferenceResult ℕ
result = record {
  actions = 5 ∷ 6 ∷ [];
  episode_id = "first";
  observation_control_step = pos 0;
  request_timestamp = 1;
  start_timestamp = 2;
  end_timestamp = 3;
  delivery_timestamp = 4;
  queue_depth_at_request_steps = some (pos 2);
  queue_headroom_at_request_steps = none;
}
