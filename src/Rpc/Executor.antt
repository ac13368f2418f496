-- ===== src/Rpc/Executor.antt =====
-- rpc_executor.py: `RpcExecutor`, one thread that runs the calls of all connections, and the threads of
-- the connections that wait in `execute`. A step is what one thread does between two waits.
pub mod Accounting
pub mod Examples
pub mod Jobs
use action_stream.Prelude.{
  ℕ, zero, suc, ◌+◌, ◌-◌, String, Bool, true, false, not, ◌&&◌, ◌||◌, Option, none, some, List, [],
  ◌∷◌, ◌++◌, ◌==◌, if◌then◌else◌, length,
}

-- a request that the server passes on: a reset, or an inference
pub record Call (O : Type 0) : Type 0 where
  pub request_id : ℕ
  pub is_reset : Bool
  pub input : O

pub data Answer (A : Type 0) : Type 0 where
  ack : Answer A
  actions : A → Answer A
  -- the exception's type and text
  failure : String → String → Answer A

pub record Reply (A : Type 0) : Type 0 where
  pub request_id : ℕ
  pub answer : Answer A
  pub server_queue_wait_s : ℕ
  pub server_compute_s : ℕ
  pub server_service_s : ℕ
  pub server_inference_s : ℕ

-- `_ExecutorRequest`
pub record Job (O A : Type 0) : Type 0 where
  pub call : Call O
  pub connection : ℕ
  pub enqueued_at : ℕ
  pub obsolete : Bool
  pub response : Option (Reply A)

-- what the worker or the reset callback does
pub data Worked (A : Type 0) : Type 0 where
  returned : A → Worked A
  returned_other : Worked A
  raised : String → String → Worked A

pub record Counters : Type 0 where
  pub inference_calls : ℕ
  pub reset_calls : ℕ
  pub reset_successes : ℕ
  pub reset_failures : ℕ
  pub dropped_obsolete_before_compute : ℕ
  pub invalidated_results : ℕ

pub record Executor (O A : Type 0) : Type 0 where
  -- a reset callback was given
  pub has_reset : Bool
  pub stop : Bool
  pub disconnected : List ℕ
  pub counters : Counters
  pub jobs : List (Job O A)
  -- once it is closed, the jobs in front of the mark that ends the thread
  pub ahead : Option ℕ
  -- the job that the thread runs, and when it started
  pub running : Option (Job O A × ℕ)
  pub finished : List (Job O A)
  -- what `execute` has returned
  pub returned_replies : List (Call O × Reply A)

pub data Event (O A : Type 0) : Type 0 where
  submits : Call O → ℕ → ℕ → Event O A
  takes : ℕ → Event O A
  finishes : Worked A → ℕ → ℕ → ℕ → Event O A
  gives_up : ℕ → Event O A
  gives_up_running : Event O A
  collects : ℕ → Event O A
  disconnects : ℕ → Event O A
  stops closes : Event O A

abbrev is_in : ℕ → List ℕ → Bool
is_in n [] = false
is_in n (m ∷ ms) = n == m || is_in n ms

ahead_of : ℕ → Option ℕ → Option ℕ
ahead_of n none = some n
ahead_of n (some m) = some m

abbrev zero_counters : Counters
zero_counters = record {
  inference_calls = 0;
  reset_calls = 0;
  reset_successes = 0;
  reset_failures = 0;
  dropped_obsolete_before_compute = 0;
  invalidated_results = 0;
}

module _ {A : Type 0} where
  -- the call raised, or the worker returned no tensor
  pub answer_of : Bool → Bool → Worked A → Answer A
  answer_of true true (raised type text) = failure type text
  answer_of true has_reset worked = ack
  answer_of false has_reset (returned a) = actions a
  answer_of false has_reset returned_other =
      failure "TypeError" "RPC worker must return torch.Tensor"
  answer_of false has_reset (raised type text) = failure type text

  abbrev is_failure : Answer A → Bool
  is_failure (failure type text) = true
  is_failure answer = false

  count_reset : Bool → Answer A → Counters → Counters
  count_reset false answer c = c
  count_reset true answer c =
      if is_failure answer
      then record c { reset_failures = suc c.reset_failures }
      else record c { reset_successes = suc c.reset_successes }

module _ {O A : Type 0} where
  -- `__init__`
  pub new_executor : Bool → Executor O A
  new_executor has_reset = record {
    has_reset = has_reset;
    stop = false;
    disconnected = [];
    counters = zero_counters;
    jobs = [];
    ahead = none;
    running = none;
    finished = [];
    returned_replies = [];
  }

  -- `_obsolete`
  pub is_obsolete : Executor O A → Job O A → Bool
  is_obsolete s job = s.stop || job.obsolete || is_in job.connection s.disconnected

  -- the head of `execute`
  submit : Call O → ℕ → ℕ → Executor O A → Executor O A
  submit call connection now s = record s {
    jobs =
        s.jobs
        ++ record {
          call = call;
          connection = connection;
          enqueued_at = now;
          obsolete = false;
          response = none;
        }
          ∷ [];
  }

  pub count_call : Bool → Job O A → Counters → Counters
  count_call has_reset job c =
      if job.call.is_reset
      then (if has_reset then record c { reset_calls = suc c.reset_calls } else c)
      else record c { inference_calls = suc c.inference_calls }

  start_job : ℕ → Job O A → List (Job O A) → Executor O A → Executor O A
  unfolding count_call
  start_job now job rest s =
      if is_obsolete s job
      then record s {
        jobs = rest;
        finished = job ∷ s.finished;
        counters = record s.counters {
          dropped_obsolete_before_compute = suc s.counters.dropped_obsolete_before_compute;
        };
      }
      else record s {
        jobs = rest;
        running = some (job, now);
        counters = count_call s.has_reset job s.counters;
      }

  take_first : ℕ → List (Job O A) → Executor O A → Executor O A
  unfolding start_job
  take_first now [] s = s
  take_first now (job ∷ rest) s = start_job now job rest s

  -- the thread has met the mark, or takes the next job
  take_open : ℕ → Option ℕ → Executor O A → Executor O A
  unfolding take_first
  take_open now none s = take_first now s.jobs s
  take_open now (some zero) s = s
  take_open now (some (suc n)) s = take_first now s.jobs (record s { ahead = some n })

  -- the head of a round of `_loop`
  take_job : ℕ → Option (Job O A × ℕ) → Executor O A → Executor O A
  unfolding take_open
  take_job now (some busy) s = s
  take_job now none s = take_open now s.ahead s

  -- the response with its timing: the compute ran from `begun` to `computed`
  reply_of : Job O A → Answer A → ℕ → ℕ → ℕ → ℕ → Reply A
  reply_of job answer started begun computed now = record {
    request_id = job.call.request_id;
    answer = answer;
    server_queue_wait_s = started - job.enqueued_at;
    server_compute_s = if job.call.is_reset then 0 else computed - begun;
    server_service_s = now - started;
    server_inference_s = computed - job.enqueued_at;
  }

  conclude : Job O A → Reply A → Executor O A → Executor O A
  conclude job reply s =
      let c = count_reset job.call.is_reset reply.answer s.counters in
      if is_obsolete s job
      then record s {
        running = none;
        finished = job ∷ s.finished;
        counters = record c { invalidated_results = suc c.invalidated_results };
      }
      else record s {
        running = none;
        finished = record job { response = some reply } ∷ s.finished;
        counters = c;
      }

  -- the end of a round of `_loop`
  finish_job : Worked A → ℕ → ℕ → ℕ → Option (Job O A × ℕ) → Executor O A → Executor O A
  unfolding conclude answer_of count_reset reply_of
  finish_job worked begun computed now none s = s
  finish_job worked begun computed now (some (job, started)) s =
      conclude job
        (reply_of job (answer_of job.call.is_reset s.has_reset worked) started begun computed now) s

  mark : Executor O A → Job O A → Job O A
  mark s job = record job { obsolete = job.obsolete || is_obsolete s job }

  -- a thread of a connection that finds its job obsolete leaves, and marks it
  pub mark_at : Executor O A → ℕ → List (Job O A) → List (Job O A)
  unfolding mark
  mark_at s i [] = []
  mark_at s zero (job ∷ jobs) = mark s job ∷ jobs
  mark_at s (suc i) (job ∷ jobs) = job ∷ mark_at s i jobs

  mark_running : Executor O A → Option (Job O A × ℕ) → Option (Job O A × ℕ)
  unfolding mark
  mark_running s none = none
  mark_running s (some (job, started)) = some (mark s job, started)

  pub replies_of : Executor O A → Job O A → Option (Reply A) → List (Call O × Reply A)
  replies_of s job none = []
  replies_of s job (some reply) = if is_obsolete s job then [] else (job.call, reply) ∷ []

  -- the end of `execute`, for the job at a position of those that are done: what it returns
  pub collect_at : Executor O A → ℕ → List (Job O A) → List (Call O × Reply A) × List (Job O A)
  unfolding replies_of
  collect_at s i [] = ([], [])
  collect_at s zero (job ∷ jobs) =
      (replies_of s job job.response, record job { obsolete = true } ∷ jobs)
  collect_at s (suc i) (job ∷ jobs) =
      let (replies, rest) = collect_at s i jobs in (replies, job ∷ rest)

  -- `close`, up to the join of the thread
  close : Executor O A → Executor O A
  unfolding ahead_of
  close s = record s { ahead = ahead_of (length s.jobs) s.ahead }

  pub step : Executor O A → Event O A → Executor O A
  unfolding submit take_job finish_job mark_at mark_running collect_at close
  step s (submits call connection now) = submit call connection now s
  step s (takes now) = take_job now s.running s
  step s (finishes worked begun computed now) = finish_job worked begun computed now s.running s
  step s (gives_up i) = record s { jobs = mark_at s i s.jobs }
  step s gives_up_running = record s { running = mark_running s s.running }
  step s (collects i) =
      let (replies, finished) = collect_at s i s.finished in
      record s { finished = finished; returned_replies = replies ++ s.returned_replies }
  step s (disconnects connection) = record s { disconnected = connection ∷ s.disconnected }
  step s stops = record s { stop = true }
  step s closes = close s

  pub run : Executor O A → List (Event O A) → Executor O A
  run s [] = s
  run s (e ∷ es) = run (step s e) es
