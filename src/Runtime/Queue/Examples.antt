-- ===== src/Runtime/Queue/Examples.antt =====
-- A queue that is reset, filled and drained.
use action_stream.Prelude.{ℕ, pos, ◌≡◌, refl, false, List, [], ◌∷◌, ok}
use action_stream.Runtime.Requests.Examples.{commands, result}
use action_stream.Runtime.Queue.{
  Displacement, ActionQueue, new_queue, reset_episode, async_aligned, replace, next_action,
  check_commands,
}
use action_stream.Runtime.Queue.Merging.{IsSafe, IsAccepted}
use action_stream.Runtime.Queue.Accounting.{
  Call, resets, replaces, run, step, Accounts, counters_agree, next_action-IsSafe,
}

abbrev displacement : ℕ → ℕ → Displacement ℕ
displacement a b = record { position_l2 = 0; rotation_geodesic_radians = 0; gripper_switch = false }

abbrev calls : List (Call ℕ)
calls = resets "first" ∷ replaces result (pos 1) async_aligned ∷ []

abbrev started : ActionQueue ℕ
started = reset_episode "first" new_queue

counters_agree_example : Accounts (run commands displacement new_queue calls)
counters_agree_example = counters_agree commands displacement calls

next_is_six : (next_action commands (run commands displacement new_queue calls)).1 ≡ ok (6, false)
unfolding next_action run step new_queue reset_episode replace check_commands
next_is_six = refl

next_action-IsSafe_example : IsSafe commands displacement 6
next_action-IsSafe_example = next_action-IsSafe commands displacement calls 6 false next_is_six

wholly_expired :
    ¬ IsAccepted commands displacement
      (replace commands displacement result (pos 9) async_aligned started).1
unfolding replace new_queue reset_episode
wholly_expired = λ h. cc
