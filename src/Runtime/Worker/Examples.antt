-- ===== src/Runtime/Worker/Examples.antt =====
-- A worker that answers one request.
use action_stream.Prelude.{ℕ, ◌≤◌, ◌<◌, ◌≡◌, refl, List, [], ◌∷◌, ◌++◌, All, is_some, ok, arith}
use action_stream.Runtime.Requests.{InferenceResult}
use action_stream.Runtime.Requests.Examples.{request, commands, result}
use action_stream.Runtime.Worker.{Worker, new_worker, drain_results, returned}
use action_stream.Runtime.Worker.Draining.{drain_results_lem, IsDue}
use action_stream.Runtime.Worker.Episodes.{
  Event, resets, submits, starts, finishes, run, initial, Owns, IsWaiting, IsKnown, results_current,
}

abbrev events : List (Event ℕ ℕ)
events = resets "first" ∷ submits request ∷ starts ∷ finishes (returned (5 ∷ 6 ∷ []) 2 3) ∷ []

results_current_example :
    let s = run commands 1 (initial commands 1) events in
    Owns s.worker.episode_id s.worker.results
    × IsWaiting s.worker s.worker.pending
    × IsKnown s.worker s.job
    × (s.worker.active ≡ is_some s.job)
    × (s.worker.calls_completed ≤ s.worker.calls_started)
results_current_example = results_current commands 1 events

abbrev answered : Worker ℕ ℕ
answered = record new_worker { results = result ∷ record result { delivery_timestamp = 9 } ∷ [] }

drain_results_example :
    (due : List (InferenceResult ℕ)) × ((drain_results 5 answered).1 ≡ ok due)
    × (due ++ (drain_results 5 answered).0.results ≡ answered.results)
    × All (IsDue 5) due
    × All (λ (q : InferenceResult ℕ). 5 < q.delivery_timestamp) (drain_results 5 answered).0.results
unfolding new_worker
drain_results_example = drain_results_lem 5 answered refl ((omega arith, tt), (tt, tt))
