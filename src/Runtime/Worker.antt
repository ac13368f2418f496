-- ===== src/Runtime/Worker.antt =====
-- runtime.py: `LatestRequestWorker`, one inference thread behind a mailbox of one request. Each
-- function is a section under the worker's condition.
pub mod Draining
pub mod Episodes
pub mod Examples
use action_stream.Prelude.{
  ℕ, ℤ, suc, ◌+◌, ◌-◌, String, Bool, true, false, not, ◌&&◌, ◌||◌, Option, none, some, List, [],
  ◌∷◌, ◌++◌, is_some, is_empty, leb, ltb, min, ◌==◌, str_eq, if◌then◌else◌, Result, ok, err,
}
use action_stream.Runtime.Requests.{
  InferenceRequest, InferenceResult, Commands, ValueError, check_result,
}

pub data WorkerError : Type 0 where
  worker_failed worker_closed foreign_episode not_idle : WorkerError

pub record Worker (C O : Type 0) : Type 0 where
  pub pending : Option (ℕ × InferenceRequest O)
  pub results : List (InferenceResult C)
  pub error : Bool
  pub active : Bool
  pub closed : Bool
  pub episode_id : Option String
  pub generation : ℕ
  pub calls_started : ℕ
  pub calls_completed : ℕ
  pub pending_requests_replaced : ℕ
  pub pending_requests_cancelled : ℕ
  pub old_episode_results_discarded : ℕ

-- the episode is known, and it is this one
abbrev pub is_episode : Option String → String → Bool
is_episode none id = false
is_episode (some current) id = str_eq id current

-- what the thread finds when it looks at the mailbox
pub data Take (O : Type 0) : Type 0 where
  stops waits : Take O
  takes : ℕ → InferenceRequest O → Take O

-- what the inference function does: it raises, or returns at the time `ended`
pub data Inferred (C : Type 0) : Type 0 where
  raised : Inferred C
  returned : List C → ℕ → ℕ → Inferred C

-- one round of a waiting loop: its answer, or how long it may sleep (for ever without a limit)
pub data Round : Type 0 where
  answers : Bool → Round
  sleeps : Option ℕ → Round

module _ {C : Type 0} where
  -- `while self._results and self._results[0].delivery_timestamp <= now`
  pub due_prefix :
      ℕ → List (InferenceResult C) → List (InferenceResult C) × List (InferenceResult C)
  due_prefix now [] = ([], [])
  due_prefix now (r ∷ rs) =
      let (due, rest) = due_prefix now rs in
      if leb r.delivery_timestamp now then (r ∷ due, rest) else ([], r ∷ rs)

  -- the time until the first result is due, if there is one
  until_due : ℕ → List (InferenceResult C) → Option ℕ
  until_due now [] = none
  until_due now (r ∷ rs) = some (r.delivery_timestamp - now)

  first_is_due : ℕ → List (InferenceResult C) → Bool
  first_is_due now [] = false
  first_is_due now (r ∷ rs) = leb r.delivery_timestamp now

-- `min` of two waits, where no limit is the longest
abbrev shorter : Option ℕ → ℕ → Option ℕ
shorter none limit = some limit
shorter (some wait) limit = some (min wait limit)

abbrev limited : Option ℕ → ℕ → Option ℕ → Round
limited none now wait = sleeps wait
limited (some deadline) now wait =
    if leb deadline now then answers false else sleeps (shorter wait (deadline - now))

module _ {C O : Type 0} where
  -- `__init__`
  pub new_worker : Worker C O
  new_worker = record {
    pending = none;
    results = [];
    error = false;
    active = false;
    closed = false;
    episode_id = none;
    generation = 0;
    calls_started = 0;
    calls_completed = 0;
    pending_requests_replaced = 0;
    pending_requests_cancelled = 0;
    old_episode_results_discarded = 0;
  }

  -- `reset_episode`
  pub reset_episode : String → Worker C O → Worker C O
  reset_episode id w = record w {
    generation = suc w.generation;
    episode_id = some id;
    pending = none;
    results = [];
    error = false;
    calls_started = 0;
    calls_completed = 0;
    pending_requests_replaced = 0;
    pending_requests_cancelled = 0;
    old_episode_results_discarded = 0;
  }

  -- `submit`
  pub submit : InferenceRequest O → Worker C O → Worker C O × Option WorkerError
  submit request w =
      if w.error
      then (w, some worker_failed)
      else if w.closed
      then (w, some worker_closed)
      else if not (is_episode w.episode_id request.episode_id)
      then (w, some foreign_episode)
      else (
        record w {
          pending_requests_replaced =
              if is_some w.pending
              then suc w.pending_requests_replaced
              else w.pending_requests_replaced;
          pending = some (w.generation, request);
        },
        none,
      )

  -- `drain_results`
  pub drain_results : ℕ → Worker C O → Worker C O × Result WorkerError (List (InferenceResult C))
  drain_results now w =
      let (due, rest) = due_prefix now w.results in
      if w.error then (w, err worker_failed) else (record w { results = rest }, ok due)

  -- `drain_all_results`
  pub drain_all_results : Worker C O → Worker C O × Result WorkerError (List (InferenceResult C))
  drain_all_results w =
      if w.error
      then (w, err worker_failed)
      else if w.active || is_some w.pending
      then (w, err not_idle)
      else (record w { results = [] }, ok w.results)

  -- `cancel_pending`
  pub cancel_pending : Worker C O → Worker C O × Result WorkerError Bool
  cancel_pending w =
      if w.error
      then (w, err worker_failed)
      else if is_some w.pending
      then (
        record w { pending = none; pending_requests_cancelled = suc w.pending_requests_cancelled },
        ok true,
      )
      else (w, ok false)

  -- one round of `wait_for_result`, at the time `now`
  pub wait_for_result : Option ℕ → ℕ → Worker C O → Result WorkerError Round
  unfolding first_is_due until_due
  wait_for_result deadline now w =
      if w.error
      then err worker_failed
      else if first_is_due now w.results
      then ok (answers true)
      else if w.closed && not w.active && not (is_some w.pending)
      then ok (answers false)
      else ok (limited deadline now (until_due now w.results))

  -- one round of `wait_idle`
  pub wait_idle : Option ℕ → ℕ → Worker C O → Result WorkerError Round
  wait_idle deadline now w =
      if w.error
      then err worker_failed
      else if w.active || is_some w.pending
      then ok (limited deadline now none)
      else ok (answers true)

  -- `close`, up to the join of the thread
  pub close : Worker C O → Worker C O
  close w = record w { closed = true; pending = none }

  take_pending : Option (ℕ × InferenceRequest O) → Worker C O → Worker C O × Take O
  take_pending none w = (w, waits)
  take_pending (some (generation, request)) w = (
    record w { pending = none; active = true; calls_started = suc w.calls_started },
    takes generation request,
  )

  -- the head of a round of `_run`
  pub run_take : Worker C O → Worker C O × Take O
  unfolding take_pending
  run_take w = if w.closed then (w, stops) else take_pending w.pending w

  -- the result of a request that started and ended at these times
  result_of : ℕ → InferenceRequest O → List C → ℕ → ℕ → InferenceResult C
  result_of delay request actions started ended = record {
    actions = actions;
    episode_id = request.episode_id;
    observation_control_step = request.observation_control_step;
    request_timestamp = request.request_timestamp;
    start_timestamp = started;
    end_timestamp = ended;
    delivery_timestamp = ended + delay;
    queue_depth_at_request_steps = request.queue_depth_at_request_steps;
    queue_headroom_at_request_steps = request.queue_headroom_at_request_steps;
  }

  fail : Worker C O → Worker C O
  fail w = record w { error = true; active = false }

  commit : ℕ → InferenceRequest O → InferenceResult C → Worker C O → Worker C O
  commit generation request result w =
      if generation == w.generation && is_episode w.episode_id request.episode_id
      then record w {
        active = false;
        results = w.results ++ result ∷ [];
        calls_completed = suc w.calls_completed;
      }
      else record w {
        active = false;
        old_episode_results_discarded = suc w.old_episode_results_discarded;
      }

  commit_checked :
      ℕ → InferenceRequest O → Result ValueError (InferenceResult C) → Worker C O → Worker C O
  unfolding fail commit
  commit_checked generation request (err error) w = fail w
  commit_checked generation request (ok result) w = commit generation request result w

  -- the end of a round of `_run`: a result that fails its checks is an error too
  pub run_finish : Commands C → ℕ → ℕ → InferenceRequest O → Inferred C → Worker C O → Worker C O
  unfolding result_of fail commit_checked
  run_finish commands delay generation request raised w = fail w
  run_finish commands delay generation request (returned actions started ended) w =
      commit_checked generation request
        (check_result commands (result_of delay request actions started ended)) w
