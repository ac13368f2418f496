-- ===== src/Runtime/Requests.antt =====
-- runtime.py: requests, results and their checks. `C` is the type of a command (a row of a [T,7]
-- array), `O` that of an observation; time is counted in whole ticks of the monotonic clock.
pub mod Checks
pub mod Examples
use action_stream.Prelude.{
  ℕ, ℤ, pos, String, Bool, true, false, not, ◌&&◌, Option, none, some, List, is_empty, all, leb,
  ltb_ℤ, Result, ok, err, ◌>>=◌, ◌>>◌, raise_if,
}

pub record InferenceRequest (O : Type 0) : Type 0 where
  pub observation : O
  pub task_instruction : String
  pub episode_id : String
  pub observation_control_step : ℤ
  pub request_timestamp : ℕ
  pub queue_depth_at_request_steps : Option ℤ
  pub queue_headroom_at_request_steps : Option ℤ

pub record InferenceResult (C : Type 0) : Type 0 where
  pub actions : List C
  pub episode_id : String
  pub observation_control_step : ℤ
  pub request_timestamp : ℕ
  pub start_timestamp : ℕ
  pub end_timestamp : ℕ
  pub delivery_timestamp : ℕ
  pub queue_depth_at_request_steps : Option ℤ
  pub queue_headroom_at_request_steps : Option ℤ

pub data ValueError : Type 0 where
  negative_step negative_depth negative_headroom wrong_shape no_action : ValueError
  non_finite_action unordered_timestamps : ValueError

-- `value is not None and value < 0`
abbrev is_negative : Option ℤ → Bool
is_negative none = false
is_negative (some value) = ltb_ℤ value (pos 0)

-- `InferenceRequest.__post_init__`
pub check_request : {O : Type 0} → InferenceRequest O → Result ValueError (InferenceRequest O)
check_request r = do
  raise_if (ltb_ℤ r.observation_control_step (pos 0)) negative_step
  raise_if (is_negative r.queue_depth_at_request_steps) negative_depth
  raise_if (is_negative r.queue_headroom_at_request_steps) negative_headroom
  ok r

-- numpy's tests on the rows of an array
pub record Commands (C : Type 0) : Type 0 where
  pub has_seven : C → Bool  -- the row has seven entries
  pub is_finite : C → Bool
  pub is_zero : C → Bool  -- `np.allclose(action, 0.0)`

-- `InferenceResult.__post_init__`; the array's width is that of its rows
pub check_result :
    {C : Type 0} → Commands C → InferenceResult C → Result ValueError (InferenceResult C)
check_result commands r = do
  raise_if (not (all commands.has_seven r.actions)) wrong_shape
  raise_if (is_empty r.actions) no_action
  raise_if (not (all commands.is_finite r.actions)) non_finite_action
  raise_if
      (not (
        leb r.request_timestamp r.start_timestamp
        && leb r.start_timestamp r.end_timestamp
        && leb r.end_timestamp r.delivery_timestamp))
      unordered_timestamps
  raise_if (is_negative r.queue_depth_at_request_steps) negative_depth
  raise_if (is_negative r.queue_headroom_at_request_steps) negative_headroom
  ok r
