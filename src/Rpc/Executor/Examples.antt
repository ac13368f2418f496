-- ===== src/Rpc/Executor/Examples.antt =====
-- An executor that resets, then answers one of two inferences.
use action_stream.Prelude.{ℕ, ◌+◌, ◌≡◌, true, false, List, [], ◌∷◌, All, length}
use action_stream.Rpc.Executor.{
  Call, Event, submits, takes, finishes, collects, disconnects, returned, returned_other,
  new_executor, run,
}
use action_stream.Rpc.Executor.Accounting.{calls_accounted}
use action_stream.Rpc.Executor.Jobs.{submissions, busy, responses, resetting, IsReturned}

abbrev reset_call : Call ℕ
reset_call = record { request_id = 1; is_reset = true; input = 0 }

abbrev infer_call : ℕ → Call ℕ
infer_call id = record { request_id = id; is_reset = false; input = 7 }

abbrev events : List (Event ℕ ℕ)
events =
    submits reset_call 0 1
    ∷ submits (infer_call 2) 0 2
    ∷ submits (infer_call 3) 1 2
    ∷ takes 3
    ∷ finishes returned_other 3 4 4
    ∷ collects 0
    ∷ takes 5
    ∷ finishes (returned 9) 5 6 6
    ∷ collects 0
    ∷ disconnects 1
    ∷ takes 7
    ∷ []

calls_accounted_example :
    let s = run (new_executor true) events in
    (submissions events ≡ length s.jobs + busy s.running + length s.finished)
    × (length s.finished
        ≡ s.counters.dropped_obsolete_before_compute
          + s.counters.invalidated_results
          + responses s.finished)
    × (s.counters.invalidated_results + responses s.finished + busy s.running
        ≡ s.counters.inference_calls
          + s.counters.reset_successes
          + s.counters.reset_failures
          + resetting s.running)
    × All IsReturned s.returned_replies
calls_accounted_example = calls_accounted true events
