-- ===== src/Rpc/Executor/Accounting.antt =====
-- rpc_executor.py: every call is accounted for, and `execute` returns the answer to its own call.
use action_stream.Prelude.{
  ℕ, zero, suc, ◌+◌, ◌≡◌, refl, Bool, false, Option, none, some, List, [], ◌∷◌, subst, All,
  All-append, length, length-append, if◌then◌else◌, arith, Bool-cases, inl, inr,
}
use action_stream.Rpc.Executor.{
  Call, Reply, Job, Worked, Executor, Event, submits, takes, finishes, gives_up, gives_up_running,
  collects, disconnects, stops, new_executor, is_obsolete, submit, count_call, start_job,
  take_first, take_open, close, closes, take_job, answer_of, count_reset, reply_of, conclude,
  finish_job, mark_running, collect_at, step, run,
}
use action_stream.Rpc.Executor.Jobs.{
  answer_of-Fits, IsReplyTo, IsReturned, IsOpen, IsOpenRunning, responses, busy, submission,
  submissions, known, resetting, Inv, IsOpen-IsDone, count_call-kept, mark_at-length,
  mark_at-IsOpen, collect_at-Collected,
}

module _ {O A : Type 0} where
  submit-Inv :
      (call : Call O) (connection now : ℕ) (s : Executor O A)
      → Inv s
      → Inv (submit call connection now s)
  unfolding submit
  submit-Inv call connection now s v = record {
    opened = All-append IsOpen s.jobs _ v.opened (refl, tt);
    opened_running = v.opened_running;
    done = v.done;
    returned = v.returned;
    settled = v.settled;
    executed = v.executed;
  }

  start_job-Inv :
      (now : ℕ) (job : Job O A) (rest : List (Job O A)) (s : Executor O A)
      → s.running ≡ none
      → IsOpen job
      → All IsOpen rest
      → Inv s
      → Inv (start_job now job rest s)
  unfolding start_job count_call
  start_job-Inv now job rest s free fresh others v = elim (Bool-cases (is_obsolete s job)) [
    | inl old ↦ rw old (record {
      opened = others;
      opened_running = v.opened_running;
      done = (IsOpen-IsDone job fresh, v.done);
      returned = v.returned;
      settled = ground (arith, v.settled);
      executed = ground (arith, v.executed, fresh);
    })
    | inr current ↦ rw current (record {
      opened = others;
      opened_running = fresh;
      done = v.done;
      returned = v.returned;
      executed = ground (arith, v.executed, count_call-kept s.has_reset job s.counters, free);
      settled = ground (arith, v.settled, count_call-kept s.has_reset job s.counters);
    })
  ]

  conclude-Inv :
      (job : Job O A) (reply : Reply A) (s : Executor O A)
      → busy s.running + (if job.call.is_reset then 1 else 0) ≡ suc (resetting s.running)
      → IsOpen job
      → IsReplyTo job.call reply
      → Inv s
      → Inv (conclude job reply s)
  unfolding conclude count_reset
  conclude-Inv job reply s at fresh own v = elim (Bool-cases (is_obsolete s job)) [
    | inl old ↦ rw old (record {
      opened = v.opened;
      opened_running = tt;
      done = (IsOpen-IsDone job fresh, v.done);
      returned = v.returned;
      settled = ground (arith, v.settled);
      executed = ground (arith, v.executed, fresh, at);
    })
    | inr current ↦ rw current (record {
      opened = v.opened;
      opened_running = tt;
      done = (own, v.done);
      returned = v.returned;
      settled = ground (arith, v.settled);
      executed = ground (arith, v.executed, fresh, at);
    })
  ]

  take_first-Inv :
      (now : ℕ) (jobs : List (Job O A)) (s : Executor O A)
      → s.running ≡ none
      → All IsOpen jobs
      → Inv s
      → Inv (take_first now jobs s)
  unfolding take_first
  take_first-Inv now [] s free opened v = v
  take_first-Inv now (job ∷ rest) s free opened v =
      start_job-Inv now job rest s free opened.0 opened.1 v

  take_open-Inv :
      (now : ℕ) (ahead : Option ℕ) (s : Executor O A)
      → s.running ≡ none
      → Inv s
      → Inv (take_open now ahead s)
  unfolding take_open
  take_open-Inv now none s free v = take_first-Inv now s.jobs s free v.opened v
  take_open-Inv now (some zero) s free v = v
  take_open-Inv now (some (suc n)) s free v =
      take_first-Inv now s.jobs (record s { ahead = some n }) free v.opened
        (record {
          opened = v.opened;
          opened_running = v.opened_running;
          done = v.done;
          returned = v.returned;
          settled = v.settled;
          executed = v.executed;
        })

  take_job-Inv :
      (now : ℕ) (running : Option (Job O A × ℕ)) (s : Executor O A)
      → s.running ≡ running
      → Inv s
      → Inv (take_job now running s)
  unfolding take_job
  take_job-Inv now (some job) s at v = v
  take_job-Inv now none s at v = take_open-Inv now s.ahead s at v

  finish_job-Inv :
      (worked : Worked A) (begun computed now : ℕ) (running : Option (Job O A × ℕ))
      (s : Executor O A)
      → s.running ≡ running
      → Inv s
      → Inv (finish_job worked begun computed now running s)
  unfolding finish_job reply_of
  finish_job-Inv worked begun computed now none s at v = v
  finish_job-Inv worked begun computed now (some (job, started)) s at v =
      let fresh : IsOpen job = subst IsOpenRunning at v.opened_running in
      conclude-Inv job _ s (rw at (ground arith)) fresh
        (refl, answer_of-Fits job.call.is_reset s.has_reset worked) v

  mark_running-Inv : (s : Executor O A) → Inv s → Inv (step s gives_up_running)
  unfolding step mark_running
  mark_running-Inv s v = record {
    opened = v.opened;
    opened_running = ground (arith, v.opened_running);
    done = v.done;
    returned = v.returned;
    settled = v.settled;
    executed = ground (arith, v.executed);
  }

  collect-Inv : (i : ℕ) (s : Executor O A) → Inv s → Inv (step s (collects i))
  unfolding step
  collect-Inv i s v =
      let collected = collect_at-Collected s i s.finished v.done in
      let same = collected.same_length in
      let kept = collected.same_responses in
      let settled = v.settled in
      let executed = v.executed in
      record {
        opened = v.opened;
        opened_running = v.opened_running;
        done = collected.still_done;
        returned = All-append IsReturned _ s.returned_replies collected.own_replies v.returned;
        settled = omega arith;
        executed = omega arith;
      }

  step-Inv : (s : Executor O A) (e : Event O A) → Inv s → Inv (step s e)
  unfolding step close
  step-Inv s (submits call connection now) v = submit-Inv call connection now s v
  step-Inv s (takes now) v = take_job-Inv now s.running s refl v
  step-Inv s (finishes worked begun computed now) v =
      finish_job-Inv worked begun computed now s.running s refl v
  step-Inv s (gives_up i) v = record {
    opened = mark_at-IsOpen s i s.jobs v.opened;
    opened_running = v.opened_running;
    done = v.done;
    returned = v.returned;
    settled = v.settled;
    executed = v.executed;
  }
  step-Inv s gives_up_running v = mark_running-Inv s v
  step-Inv s (collects i) v = collect-Inv i s v
  step-Inv s (disconnects connection) v = record {
    opened = v.opened;
    opened_running = v.opened_running;
    done = v.done;
    returned = v.returned;
    settled = v.settled;
    executed = v.executed;
  }
  step-Inv s stops v = record {
    opened = v.opened;
    opened_running = v.opened_running;
    done = v.done;
    returned = v.returned;
    settled = v.settled;
    executed = v.executed;
  }
  step-Inv s closes v = record {
    opened = v.opened;
    opened_running = v.opened_running;
    done = v.done;
    returned = v.returned;
    settled = v.settled;
    executed = v.executed;
  }

  run-Inv : (s : Executor O A) (es : List (Event O A)) → Inv s → Inv (run s es)
  unfolding run
  run-Inv s [] v = v
  run-Inv s (e ∷ es) v = run-Inv (step s e) es (step-Inv s e v)

  collect_at-length :
      (s : Executor O A) (i : ℕ) (jobs : List (Job O A))
      → length (collect_at s i jobs).1 ≡ length jobs
  unfolding collect_at
  collect_at-length s i [] = refl
  collect_at-length s zero (job ∷ jobs) = refl
  collect_at-length s (suc i) (job ∷ jobs) = omega (arith, collect_at-length s i jobs)

  start_job-known :
      (now : ℕ) (job : Job O A) (rest : List (Job O A)) (s : Executor O A)
      → s.running ≡ none
      → known (start_job now job rest s) ≡ suc (length rest) + length s.finished
  unfolding start_job
  start_job-known now job rest s free = ground arith

  conclude-known :
      (job : Job O A) (reply : Reply A) (s : Executor O A)
      → known (conclude job reply s) ≡ suc (length s.jobs + length s.finished)
  unfolding conclude
  conclude-known job reply s = ground arith

  take_first-known :
      (now : ℕ) (jobs : List (Job O A)) (s : Executor O A)
      → s.running ≡ none
      → s.jobs ≡ jobs
      → known (take_first now jobs s) ≡ known s
  unfolding take_first
  take_first-known now [] s free all = refl
  take_first-known now (job ∷ rest) s free all =
      let waiting : length s.jobs ≡ suc (length rest) = rw all refl in
      let idle : busy s.running ≡ 0 = rw free refl in
      omega (arith, start_job-known now job rest s free)

  take_open-known :
      (now : ℕ) (ahead : Option ℕ) (s : Executor O A)
      → s.running ≡ none
      → known (take_open now ahead s) ≡ known s
  unfolding take_open
  take_open-known now none s free = take_first-known now s.jobs s free refl
  take_open-known now (some zero) s free = refl
  take_open-known now (some (suc n)) s free =
      take_first-known now s.jobs (record s { ahead = some n }) free refl

  take_job-known :
      (now : ℕ) (running : Option (Job O A × ℕ)) (s : Executor O A)
      → s.running ≡ running
      → known (take_job now running s) ≡ known s
  unfolding take_job
  take_job-known now (some job) s at = refl
  take_job-known now none s at = take_open-known now s.ahead s at

  finish_job-known :
      (worked : Worked A) (begun computed now : ℕ) (running : Option (Job O A × ℕ))
      (s : Executor O A)
      → s.running ≡ running
      → known (finish_job worked begun computed now running s) ≡ known s
  unfolding finish_job
  finish_job-known worked begun computed now none s at = refl
  finish_job-known worked begun computed now (some (job, started)) s at =
      let occupied : busy s.running ≡ 1 = rw at refl in
      omega (
        arith,
        conclude-known job
            (reply_of job (answer_of job.call.is_reset s.has_reset worked) started begun computed
              now)
            s,
      )

  step-known : (s : Executor O A) (e : Event O A) → known (step s e) ≡ known s + submission e
  unfolding step submit mark_running close
  step-known s (submits call connection now) = omega (
    arith,
    length-append s.jobs (
        record {
          call = call;
          connection = connection;
          enqueued_at = now;
          obsolete = false;
          response = none;
        }
        ∷ []),
  )
  step-known s (takes now) = omega (arith, take_job-known now s.running s refl)
  step-known s (finishes worked begun computed now) =
      omega (arith, finish_job-known worked begun computed now s.running s refl)
  step-known s (gives_up i) = omega (arith, mark_at-length s i s.jobs)
  step-known s gives_up_running = ground arith
  step-known s (collects i) = omega (arith, collect_at-length s i s.finished)
  step-known s (disconnects connection) = omega arith
  step-known s stops = omega arith
  step-known s closes = omega arith

  run-known :
      (s : Executor O A) (es : List (Event O A)) → known (run s es) ≡ known s + submissions es
  unfolding run
  run-known s [] = omega arith
  run-known s (e ∷ es) = omega (arith, step-known s e, run-known (step s e) es)

  -- In every interleaving of a new executor's thread with the threads of the connections: each call that
  -- was submitted is waiting, running or done; each that is done was dropped, was invalidated, or has a
  -- response; each that was run is counted as an inference, or as a reset that succeeded, failed or is
  -- running; and every reply that `execute` returned has the identifier of its own call and an answer of
  -- its kind.
  pub calls_accounted :
      (has_reset : Bool) (es : List (Event O A))
      → let s = run (new_executor has_reset) es in
        (submissions es ≡ length s.jobs + busy s.running + length s.finished)
        × (length s.finished
            ≡ s.counters.dropped_obsolete_before_compute
              + s.counters.invalidated_results
              + responses s.finished)
        × (s.counters.invalidated_results + responses s.finished + busy s.running
            ≡ s.counters.inference_calls
              + s.counters.reset_successes
              + s.counters.reset_failures
              + resetting s.running)
        × All IsReturned s.returned_replies
  unfolding new_executor
  calls_accounted has_reset es =
      let all = run-known (new_executor has_reset) es in
      let v = run-Inv (new_executor has_reset) es (record {
        opened = tt;
        opened_running = tt;
        done = tt;
        returned = tt;
        settled = refl;
        executed = refl;
      }) in
      (omega arith, v.settled, v.executed, v.returned)
