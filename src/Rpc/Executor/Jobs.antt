-- ===== src/Rpc/Executor/Jobs.antt =====
-- rpc_executor.py: what is true of the executor's jobs, and how a step changes their lists.
use action_stream.Prelude.{
  ℕ, zero, suc, ◌+◌, ◌≡◌, refl, Bool, true, false, Option, none, some, List, [], ◌∷◌, All, length,
  is_some, if◌then◌else◌, arith, Bool-cases, inl, inr,
}
use action_stream.Rpc.Executor.{
  Call, Answer, ack, actions, failure, Reply, Job, Worked, Counters, Executor, Event, submits,
  is_obsolete, count_call, answer_of, mark_at, replies_of, collect_at,
}

module _ {A : Type 0} where
  -- the kind of answer that the call can have
  abbrev pub Fits : Bool → Answer A → Type 0
  Fits is_reset (failure type text) = Unit {0}
  Fits is_reset ack = is_reset ≡ true
  Fits is_reset (actions a) = is_reset ≡ false

  pub answer_of-Fits :
      (is_reset has_reset : Bool) (worked : Worked A)
      → Fits is_reset (answer_of is_reset has_reset worked)
  unfolding answer_of
  answer_of-Fits is_reset has_reset worked = ground arith

module _ {O A : Type 0} where
  abbrev pub IsReplyTo : Call O → Reply A → Type 0
  IsReplyTo call reply = (reply.request_id ≡ call.request_id) × Fits call.is_reset reply.answer

  abbrev pub IsReturned : Call O × Reply A → Type 0
  IsReturned p = IsReplyTo p.0 p.1

  abbrev pub IsFinished : Job O A → Option (Reply A) → Type 0
  IsFinished job none = Unit {0}
  IsFinished job (some reply) = IsReplyTo job.call reply

  abbrev pub IsDone : Job O A → Type 0
  IsDone job = IsFinished job job.response

  -- the job has no response yet
  abbrev pub IsOpen : Job O A → Type 0
  IsOpen job = job.response ≡ none

  abbrev pub IsOpenRunning : Option (Job O A × ℕ) → Type 0
  IsOpenRunning none = Unit {0}
  IsOpenRunning (some (job, started)) = IsOpen job

  abbrev pub responses : List (Job O A) → ℕ
  responses [] = 0
  responses (job ∷ jobs) = (if is_some job.response then 1 else 0) + responses jobs

  abbrev pub busy : Option (Job O A × ℕ) → ℕ
  busy none = 0
  busy (some job) = 1

  abbrev pub submission : Event O A → ℕ
  submission (submits call connection now) = 1
  submission event = 0

  abbrev pub submissions : List (Event O A) → ℕ
  submissions [] = 0
  submissions (e ∷ es) = submission e + submissions es

  -- the jobs that are waiting, running or done
  abbrev pub known : Executor O A → ℕ
  known s = length s.jobs + busy s.running + length s.finished

  -- the running job is a reset
  abbrev pub resetting : Option (Job O A × ℕ) → ℕ
  resetting none = 0
  resetting (some (job, started)) = if job.call.is_reset then 1 else 0

  pub record Inv (s : Executor O A) : Type 0 where
    pub opened : All IsOpen s.jobs
    pub opened_running : IsOpenRunning s.running
    pub done : All IsDone s.finished
    pub returned : All IsReturned s.returned_replies
    pub settled :
        length s.finished
        ≡ s.counters.dropped_obsolete_before_compute
          + s.counters.invalidated_results
          + responses s.finished
    pub executed :
        s.counters.invalidated_results + responses s.finished + busy s.running
        ≡ s.counters.inference_calls
          + s.counters.reset_successes
          + s.counters.reset_failures
          + resetting s.running

  pub IsOpen-IsDone : (job : Job O A) → IsOpen job → IsDone job
  IsOpen-IsDone job opened = rw opened tt

  pub count_call-kept :
      (has_reset : Bool) (job : Job O A) (c : Counters)
      → let c' = count_call has_reset job c in
        (c'.dropped_obsolete_before_compute ≡ c.dropped_obsolete_before_compute)
        × (c'.invalidated_results ≡ c.invalidated_results)
        × (c'.reset_successes ≡ c.reset_successes)
        × (c'.reset_failures ≡ c.reset_failures)
        × (c'.inference_calls + (if job.call.is_reset then 1 else 0) ≡ suc c.inference_calls)
  unfolding count_call
  count_call-kept has_reset job c = ground arith

  pub mark_at-length :
      (s : Executor O A) (i : ℕ) (jobs : List (Job O A)) → length (mark_at s i jobs) ≡ length jobs
  unfolding mark_at
  mark_at-length s i [] = refl
  mark_at-length s zero (job ∷ jobs) = refl
  mark_at-length s (suc i) (job ∷ jobs) = omega (arith, mark_at-length s i jobs)

  pub mark_at-IsOpen :
      (s : Executor O A) (i : ℕ) (jobs : List (Job O A))
      → All IsOpen jobs
      → All IsOpen (mark_at s i jobs)
  unfolding mark_at
  mark_at-IsOpen s i [] opened = tt
  mark_at-IsOpen s zero (job ∷ jobs) opened = opened
  mark_at-IsOpen s (suc i) (job ∷ jobs) opened = (opened.0, mark_at-IsOpen s i jobs opened.1)

  pub record Collected (before : List (Job O A))
      (collected : List (Call O × Reply A) × List (Job O A)) : Type 0 where
    pub same_length : length collected.1 ≡ length before
    pub same_responses : responses collected.1 ≡ responses before
    pub still_done : All IsDone collected.1
    pub own_replies : All IsReturned collected.0

  pub replies_of-IsReturned :
      (s : Executor O A) (job : Job O A) (response : Option (Reply A))
      → IsFinished job response
      → All IsReturned (replies_of s job response)
  unfolding replies_of
  replies_of-IsReturned s job none h = tt
  replies_of-IsReturned s job (some reply) h = elim (Bool-cases (is_obsolete s job)) [
    | inl old ↦ rw old tt
    | inr current ↦ rw current (h, tt)
  ]

  pub collect_at-Collected :
      (s : Executor O A) (i : ℕ) (jobs : List (Job O A))
      → All IsDone jobs
      → Collected jobs (collect_at s i jobs)
  unfolding collect_at
  collect_at-Collected s i [] done = record {
    same_length = refl;
    same_responses = refl;
    still_done = tt;
    own_replies = tt;
  }
  collect_at-Collected s zero (job ∷ jobs) done = record {
    same_length = refl;
    same_responses = refl;
    still_done = done;
    own_replies = replies_of-IsReturned s job job.response done.0;
  }
  collect_at-Collected s (suc i) (job ∷ jobs) done =
      let rest = collect_at-Collected s i jobs done.1 in
      let same = rest.same_length in
      let kept = rest.same_responses in
      record {
        same_length = omega arith;
        same_responses = omega arith;
        still_done = (done.0, rest.still_done);
        own_replies = rest.own_replies;
      }
