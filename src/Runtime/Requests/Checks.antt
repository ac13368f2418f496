-- ===== src/Runtime/Requests/Checks.antt =====
-- What the checks on requests and results let through.
use action_stream.Prelude.{
  ℤ, pos, ◌≤◌, ◌≡◌, ◌≢◌, ◌↔◌, ◌≤ℤ◌, Bool, true, List, [], ◌∷◌, All, OptionAll, all, ok, refl, arith,
}
use action_stream.Runtime.Requests.{
  InferenceRequest, InferenceResult, Commands, check_request, check_result,
}

-- a result passes the checks as it is
pub check_result-same :
    {C : Type 0} (commands : Commands C) (r s : InferenceResult C)
    → check_result commands r ≡ ok s
    → r ≡ s
unfolding check_result
check_result-same commands r s h = ground arith

abbrev NotNegative : ℤ → Type 0
NotNegative n = pos 0 ≤ℤ n

pub record IsRequest {O : Type 0} (r : InferenceRequest O) : Type 0 where
  pub step : NotNegative r.observation_control_step
  pub depth : OptionAll NotNegative r.queue_depth_at_request_steps
  pub headroom : OptionAll NotNegative r.queue_headroom_at_request_steps

-- A request is accepted exactly when its step and its recorded depths are not negative.
check_request_iff : {O : Type 0} (r : InferenceRequest O) → (check_request r ≡ ok r) ↔ IsRequest r
unfolding check_request
check_request_iff r = (λ h. ground arith, λ v. ground arith)

module _ {C : Type 0} where
  all-All : (test : C → Bool) (cs : List C) → (all test cs ≡ true) ↔ All (λ c. test c ≡ true) cs
  all-All test [] = (λ h. tt, λ h. refl)
  all-All test (c ∷ cs) =
      (λ h. ground (arith, all-All test cs), λ h. ground (arith, all-All test cs))

  pub record IsResult (commands : Commands C) (r : InferenceResult C) : Type 0 where
    pub shaped : All (λ c. commands.has_seven c ≡ true) r.actions
    pub not_empty : r.actions ≢ []
    pub finite : All (λ c. commands.is_finite c ≡ true) r.actions
    pub started : r.request_timestamp ≤ r.start_timestamp
    pub ended : r.start_timestamp ≤ r.end_timestamp
    pub delivered : r.end_timestamp ≤ r.delivery_timestamp
    pub depth : OptionAll NotNegative r.queue_depth_at_request_steps
    pub headroom : OptionAll NotNegative r.queue_headroom_at_request_steps

  -- A result is accepted exactly when it holds at least one command, every command has seven finite
  -- entries, its four timestamps are in order and its recorded depths are not negative.
  check_result_iff :
      (commands : Commands C) (r : InferenceResult C)
      → (check_result commands r ≡ ok r) ↔ IsResult commands r
  unfolding check_result
  check_result_iff commands r = (
    λ h. ground (arith, all-All commands.has_seven r.actions, all-All commands.is_finite r.actions),
    λ v. ground (arith, all-All commands.has_seven r.actions, all-All commands.is_finite r.actions),
  )
