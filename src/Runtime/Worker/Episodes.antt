-- ===== src/Runtime/Worker/Episodes.antt =====
-- The worker with its thread, in every interleaving of their sections: results keep to their episode,
-- and no call is lost from the counters.
use action_stream.Prelude.{
  ℕ, ◌+◌, ◌≤◌, ◌<◌, ◌≡◌, refl, ap, ◌&&◌, ◌⊎◌, inl, inr, String, true, Option, none, some, List, [],
  ◌∷◌, All, All-append, OptionAll, is_some, leb, Bool-cases, sym, ◌==◌, if◌then◌else◌, Result, ok,
  err, subst, arith, eq_iff,
}
use action_stream.Runtime.Requests.{InferenceRequest, InferenceResult, Commands, ValueError}
use action_stream.Runtime.Requests.Checks.{check_result-same}
use action_stream.Runtime.Worker.{
  Worker, Take, takes, Inferred, raised, returned, new_worker, reset_episode, submit, drain_results,
  drain_all_results, cancel_pending, close, run_take, run_finish, commit_checked, due_prefix,
  is_episode,
}

-- all results are of this episode
abbrev pub Owns : {C : Type 0} → Option String → List (InferenceResult C) → Type 0
Owns {C} id = All (λ (r : InferenceResult C). id ≡ some r.episode_id)

due_prefix-Owns :
    {C : Type 0} (now : ℕ) (id : Option String) (rs : List (InferenceResult C))
    → Owns id rs
    → Owns id (due_prefix now rs).1
unfolding due_prefix
due_prefix-Owns now id [] own = tt
due_prefix-Owns now id (r ∷ rs) own = elim (Bool-cases (leb r.delivery_timestamp now)) [
  | inl due ↦ rw due (due_prefix-Owns now id rs own.1)
  | inr late ↦ rw late own
]

is_episode_lem :
    (current : Option String) (id : String) → is_episode current id ≡ true → current ≡ some id
is_episode_lem none id h = cc
is_episode_lem (some current) id h = ground (arith, eq_iff id current)

same-Owns :
    {C : Type 0} {i i' : Option String} {rs rs' : List (InferenceResult C)}
    → i' ≡ i
    → rs' ≡ rs
    → Owns i rs
    → Owns i' rs'
same-Owns {i} {rs'} id results own =
    subst (λ (j : Option String). Owns j rs') (sym id) (subst (Owns i) (sym results) own)

commit_checked-Owns :
    {C O : Type 0} (generation : ℕ) (request : InferenceRequest O)
    (checked : Result ValueError (InferenceResult C)) (w : Worker C O)
    → ((r : InferenceResult C) → checked ≡ ok r → r.episode_id ≡ request.episode_id)
    → Owns w.episode_id w.results
    → Owns
        (commit_checked generation request checked w).episode_id
        (commit_checked generation request checked w).results
unfolding commit_checked
commit_checked-Owns generation request (err error) w same own = own
commit_checked-Owns generation request (ok result) w same own =
    elim (Bool-cases (generation == w.generation && is_episode w.episode_id request.episode_id)) [
      | inl current ↦ rw current (
          All-append _ w.results (result ∷ []) own
            (ground (arith, same result refl, is_episode_lem w.episode_id request.episode_id), tt))
      | inr old ↦ rw old own
    ]

run_finish-Owns :
    {C O : Type 0} (commands : Commands C) (delay generation : ℕ) (request : InferenceRequest O)
    (inferred : Inferred C) (w : Worker C O)
    → Owns w.episode_id w.results
    → Owns
        (run_finish commands delay generation request inferred w).episode_id
        (run_finish commands delay generation request inferred w).results
unfolding run_finish
run_finish-Owns commands delay generation request raised w own = own
run_finish-Owns {C} commands delay generation request (returned actions started ended) w own =
    commit_checked-Owns generation request _ w
      (λ r h. ap (λ (x : InferenceResult C). x.episode_id) (sym (check_result-same commands _ r h)))
      own

-- the worker, and the request that its thread is busy with
pub record System (C O : Type 0) : Type 0 where
  pub worker : Worker C O
  pub job : Option (ℕ × InferenceRequest O)

-- a call of the control thread, or a section of the worker's thread
pub data Event (C O : Type 0) : Type 0 where
  resets : String → Event C O
  submits : InferenceRequest O → Event C O
  drains : ℕ → Event C O
  drains_all cancels closes starts : Event C O
  finishes : Inferred C → Event C O

abbrev job_of : {O : Type 0} → Take O → Option (ℕ × InferenceRequest O)
job_of (takes generation request) = some (generation, request)
job_of take = none

module _ {C O : Type 0} where
  -- the mailbox holds a request of the current generation, whose episode is the current one
  abbrev pub IsWaiting : Worker C O → Option (ℕ × InferenceRequest O) → Type 0
  IsWaiting w =
      OptionAll (λ (p : ℕ × InferenceRequest O).
        (p.0 ≡ w.generation) × (w.episode_id ≡ some p.1.episode_id))

  -- the thread has a request of an earlier generation, or one of the current episode
  abbrev pub IsKnown : Worker C O → Option (ℕ × InferenceRequest O) → Type 0
  IsKnown w =
      OptionAll (λ (p : ℕ × InferenceRequest O).
        (p.0 < w.generation) ⊎ (w.episode_id ≡ some p.1.episode_id))

module _ {C O : Type 0} (commands : Commands C) (delay : ℕ) where
  start_job : Option (ℕ × InferenceRequest O) → Worker C O → System C O
  start_job (some job) w = record { worker = w; job = some job }
  start_job none w = let (w', take) = run_take w in record { worker = w'; job = job_of take }

  finish_job : Inferred C → Option (ℕ × InferenceRequest O) → Worker C O → System C O
  finish_job inferred none w = record { worker = w; job = none }
  finish_job inferred (some (generation, request)) w = record {
    worker = run_finish commands delay generation request inferred w;
    job = none;
  }

  -- the thread starts a call only when it has none, and finishes only the one that it has
  pub step : System C O → Event C O → System C O
  unfolding start_job finish_job
  step s (resets id) = record s { worker = reset_episode id s.worker }
  step s (submits request) = record s { worker = (submit request s.worker).0 }
  step s (drains now) = record s { worker = (drain_results now s.worker).0 }
  step s drains_all = record s { worker = (drain_all_results s.worker).0 }
  step s cancels = record s { worker = (cancel_pending s.worker).0 }
  step s closes = record s { worker = close s.worker }
  step s starts = start_job s.job s.worker
  step s (finishes inferred) = finish_job inferred s.job s.worker

  pub run : System C O → List (Event C O) → System C O
  run s [] = s
  run s (e ∷ es) = run (step s e) es

  abbrev pub initial : System C O
  initial = record { worker = new_worker; job = none }

  -- the calls of this generation that are under way
  abbrev current_calls : ℕ → Option (ℕ × InferenceRequest O) → ℕ
  current_calls generation none = 0
  current_calls generation (some (g, request)) = if g == generation then 1 else 0

  abbrev IsEarlier : ℕ → Option (ℕ × InferenceRequest O) → Type 0
  IsEarlier generation none = Unit {0}
  IsEarlier generation (some (g, request)) = g ≤ generation

  pub record Inv (s : System C O) : Type 0 where
    pub busy : s.worker.active ≡ is_some s.job
    pub earlier : IsEarlier s.worker.generation s.job
    pub waiting : IsWaiting s.worker s.worker.pending
    pub known : IsKnown s.worker s.job
    pub counted :
        s.worker.calls_completed + current_calls s.worker.generation s.job ≤ s.worker.calls_started
    pub own : Owns s.worker.episode_id s.worker.results

  step-busy :
      (s : System C O) (e : Event C O)
      → s.worker.active ≡ is_some s.job
      → (step s e).worker.active ≡ is_some (step s e).job
  unfolding step reset_episode submit drain_results drain_all_results cancel_pending close run_take
      run_finish
  step-busy s e h = ground arith

  step-IsEarlier :
      (s : System C O) (e : Event C O)
      → Inv s
      → IsEarlier (step s e).worker.generation (step s e).job
  unfolding step reset_episode submit drain_results drain_all_results cancel_pending close run_take
      run_finish
  step-IsEarlier s e v = ground arith

  submit-IsWaiting :
      (request : InferenceRequest O) (w : Worker C O)
      → IsWaiting w w.pending
      → IsWaiting (submit request w).0 (submit request w).0.pending
  unfolding submit
  submit-IsWaiting request w h = elim (Bool-cases (is_episode w.episode_id request.episode_id)) [
    | inl own ↦ ground (arith, is_episode_lem w.episode_id request.episode_id own)
    | inr foreign ↦ ground arith
  ]

  step-IsWaiting :
      (s : System C O) (e : Event C O)
      → Inv s
      → IsWaiting (step s e).worker (step s e).worker.pending
  unfolding step reset_episode drain_results drain_all_results cancel_pending close run_take
      run_finish
  step-IsWaiting s (resets id) v = ground arith
  step-IsWaiting s (submits request) v = submit-IsWaiting request s.worker v.waiting
  step-IsWaiting s (drains now) v = ground arith
  step-IsWaiting s drains_all v = ground arith
  step-IsWaiting s cancels v = ground arith
  step-IsWaiting s closes v = ground arith
  step-IsWaiting s starts v = ground arith
  step-IsWaiting s (finishes inferred) v = ground arith

  step-known : (s : System C O) (e : Event C O) → Inv s → IsKnown (step s e).worker (step s e).job
  unfolding step reset_episode submit drain_results drain_all_results cancel_pending close run_take
      run_finish
  step-known s (resets id) v = ground arith
  step-known s (submits request) v = ground arith
  step-known s (drains now) v = ground arith
  step-known s drains_all v = ground arith
  step-known s cancels v = ground arith
  step-known s closes v = ground arith
  step-known s starts v = ground arith
  step-known s (finishes inferred) v = ground arith

  step-counted :
      (s : System C O) (e : Event C O)
      → Inv s
      → (step s e).worker.calls_completed
          + current_calls (step s e).worker.generation (step s e).job
        ≤ (step s e).worker.calls_started
  unfolding step reset_episode submit drain_results drain_all_results cancel_pending close run_take
      run_finish
  step-counted s e v = ground arith

  drain_results-results :
      (now : ℕ) (w : Worker C O)
      → ((drain_results now w).0.episode_id ≡ w.episode_id)
        × (((drain_results now w).0.results ≡ w.results)
            ⊎ ((drain_results now w).0.results ≡ (due_prefix now w.results).1))
  unfolding drain_results
  drain_results-results now w = ground arith

  drain_all_results-results :
      (w : Worker C O)
      → ((drain_all_results w).0.episode_id ≡ w.episode_id)
        × (((drain_all_results w).0.results ≡ w.results) ⊎ ((drain_all_results w).0.results ≡ []))
  unfolding drain_all_results
  drain_all_results-results w = ground arith

  submit-results :
      (request : InferenceRequest O) (w : Worker C O)
      → ((submit request w).0.results ≡ w.results)
        × ((submit request w).0.episode_id ≡ w.episode_id)
  unfolding submit
  submit-results request w = ground arith

  cancel_pending-results :
      (w : Worker C O)
      → ((cancel_pending w).0.results ≡ w.results)
        × ((cancel_pending w).0.episode_id ≡ w.episode_id)
  unfolding cancel_pending
  cancel_pending-results w = ground arith

  finish_job-Owns :
      (inferred : Inferred C) (job : Option (ℕ × InferenceRequest O)) (w : Worker C O)
      → Owns w.episode_id w.results
      → Owns
          (finish_job inferred job w).worker.episode_id
          (finish_job inferred job w).worker.results
  unfolding finish_job
  finish_job-Owns inferred none w own = own
  finish_job-Owns inferred (some (generation, request)) w own =
      run_finish-Owns commands delay generation request inferred w own

  start_job-results :
      (job : Option (ℕ × InferenceRequest O)) (w : Worker C O)
      → ((start_job job w).worker.results ≡ w.results)
        × ((start_job job w).worker.episode_id ≡ w.episode_id)
  unfolding start_job run_take
  start_job-results job w = ground arith

  step-own :
      (s : System C O) (e : Event C O)
      → Owns s.worker.episode_id s.worker.results
      → Owns (step s e).worker.episode_id (step s e).worker.results
  unfolding step reset_episode close
  step-own s (resets id) own = tt
  step-own s (submits request) own =
      let (results, id) = submit-results request s.worker in same-Owns id results own
  step-own s (drains now) own =
      let (id, results) = drain_results-results now s.worker in
      elim results [
        | inl same ↦ same-Owns id same own
        | inr rest ↦ same-Owns id rest (due_prefix-Owns now _ s.worker.results own)
      ]
  step-own s drains_all own =
      let (id, results) = drain_all_results-results s.worker in
      elim results [ inl same ↦ same-Owns id same own | inr gone ↦ same-Owns id gone tt ]
  step-own s cancels own =
      let (results, id) = cancel_pending-results s.worker in same-Owns id results own
  step-own s closes own = own
  step-own s starts own =
      let (results, id) = start_job-results s.job s.worker in same-Owns id results own
  step-own s (finishes inferred) own = finish_job-Owns inferred s.job s.worker own

  step-Inv : (s : System C O) (e : Event C O) → Inv s → Inv (step s e)
  step-Inv s e v = record {
    busy = step-busy s e v.busy;
    earlier = step-IsEarlier s e v;
    waiting = step-IsWaiting s e v;
    known = step-known s e v;
    counted = step-counted s e v;
    own = step-own s e v.own;
  }

  run-Inv : (s : System C O) (es : List (Event C O)) → Inv s → Inv (run s es)
  unfolding run
  run-Inv s [] v = v
  run-Inv s (e ∷ es) v = run-Inv (step s e) es (step-Inv s e v)

  -- After any calls and any progress of the thread, every result that waits for a drain and every request
  -- that waits for the thread is of the current episode, and the request also of the current generation;
  -- the request that the thread is busy with is of the current episode or of an earlier generation; the
  -- worker is active exactly while its thread has a request, and no more calls are completed than were
  -- started.
  pub results_current :
      (es : List (Event C O))
      → let s = run initial es in
        Owns s.worker.episode_id s.worker.results
        × IsWaiting s.worker s.worker.pending
        × IsKnown s.worker s.job
        × (s.worker.active ≡ is_some s.job)
        × (s.worker.calls_completed ≤ s.worker.calls_started)
  results_current es =
      let v = run-Inv initial es (
        unfold new_worker in
        record {
          busy = refl;
          earlier = tt;
          waiting = tt;
          known = tt;
          counted = omega arith;
          own = tt;
        }) in
      let counted = v.counted in (v.own, v.waiting, v.known, v.busy, omega arith)
