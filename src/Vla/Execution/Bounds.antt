-- ===== src/Vla/Execution/Bounds.antt =====
-- An execution's budget, its one recovery, and the chunk that its actions come from.
use action_stream.Prelude.{
  ℕ, ℤ, pos, ◌+◌, ◌≤◌, ◌≡◌, ◌≤ℤ◌, ◌<ℤ◌, refl, sym, ap, ◌∙◌, ◌++◌, length-append, subst, Bool, true,
  false, none, some, List, [], ◌∷◌, ◌⊎◌, inl, inr, ok, err, arith, length,
}
use action_stream.Vla.Contracts.{TaskSpec, CheckDecision}
use action_stream.Vla.Execution.{
  Execution, Observation, Rows, Status, is_running, new_execution, queue_chunk, take_action,
  interrupt, apply_check, decide, accepted, executing, interrupted,
}

-- the calls of a controller
pub data Call (R : Type 0) : Type 0 where
  queues : List R → Observation → ℕ → Call R
  takes interrupts : Call R
  checks : CheckDecision → Observation → Observation → Bool → ℕ → Call R

-- how often the execution has been interrupted and has recovered, by its status
abbrev pub IsGeneration : Status → ℕ → ℕ → Type 0
IsGeneration accepted revision recoveries = (revision ≡ recoveries) × (recoveries ≤ 1)
IsGeneration executing revision recoveries = (revision ≡ recoveries) × (recoveries ≤ 1)
IsGeneration interrupted revision recoveries = (revision ≡ 1) × (recoveries ≡ 0)
IsGeneration status revision recoveries = (revision ≤ 1) × (recoveries ≤ 1)

pub IsGeneration-at_most :
    (status : Status) (revision recoveries : ℕ)
    → IsGeneration status revision recoveries
    → (revision ≤ 1) × (recoveries ≤ 1)
IsGeneration-at_most status revision recoveries v = ground arith

module _ {R : Type 0} (rows : Rows R) where
  unfoldable pub step : Execution R → Call R → Execution R
  step e (queues actions o now) = (queue_chunk rows actions o now e).0
  step e takes = (take_action e).0
  step e interrupts = (interrupt e).0
  step e (checks d submitted current boundary now) =
      (apply_check d submitted current boundary now e).0

  unfoldable pub run : Execution R → List (Call R) → Execution R
  run e [] = e
  run e (c ∷ cs) = run (step e c) cs

  -- what every call keeps
  pub record IsBounded (e : Execution R) : Type 0 where
    pub budget : e.max_steps ≤ℤ pos 300
    pub steps : pos e.steps ≤ℤ e.max_steps
    pub generation : IsGeneration e.status e.revision e.recoveries
    pub chunk : (e.pending ≡ []) ⊎ (e.chunk_revision ≡ some e.revision)
    pub short : length e.pending ≤ 30

  pub apply_check-decide :
      (d : CheckDecision) (submitted current : Observation) (boundary : Bool) (now : ℕ)
      (e : Execution R)
      → ((apply_check d submitted current boundary now e).0 ≡ e)
        ⊎ ((is_running e.status ≡ true)
            × ((apply_check d submitted current boundary now e).0
                ≡ (decide d boundary (record e { pending = []; chunk_revision = none })).0))
  unfolding apply_check
  apply_check-decide d submitted current boundary now e = ground arith

  decide-IsBounded :
      (d : CheckDecision) (boundary : Bool) (e : Execution R)
      → is_running e.status ≡ true
      → IsBounded e
      → IsBounded (decide d boundary e).0
  unfolding decide
  decide-IsBounded d boundary e running v = ground arith

  pub step-IsBounded : (e : Execution R) (c : Call R) → IsBounded e → IsBounded (step e c)
  unfolding step queue_chunk take_action interrupt
  step-IsBounded e (queues actions o now) v = ground arith
  step-IsBounded e takes v = ground arith
  step-IsBounded e interrupts v = ground arith
  step-IsBounded e (checks d submitted current boundary now) v =
      elim (apply_check-decide d submitted current boundary now e) [
        | inl same ↦ subst IsBounded (sym same) v
        | inr (running, moved) ↦ subst IsBounded (sym moved) (
            decide-IsBounded d boundary (record e { pending = []; chunk_revision = none }) running
              (record {
                budget = v.budget;
                steps = v.steps;
                generation = v.generation;
                chunk = inl refl;
                short = omega arith;
              }))
      ]

  run-IsBounded : (e : Execution R) (cs : List (Call R)) → IsBounded e → IsBounded (run e cs)
  unfolding run
  run-IsBounded e [] v = v
  run-IsBounded e (c ∷ cs) v = run-IsBounded (step e c) cs (step-IsBounded e c v)

  pub new_execution-IsBounded :
      (task : TaskSpec) (max_steps : ℤ) (max_age : ℕ) (e : Execution R)
      → new_execution task max_steps max_age ≡ ok e
      → IsBounded e × (e.steps ≡ 0) × (e.max_steps ≡ max_steps)
  unfolding new_execution
  new_execution-IsBounded task max_steps max_age e h = ground arith

  max_steps_kept : (e : Execution R) (c : Call R) → (step e c).max_steps ≡ e.max_steps
  unfolding step queue_chunk take_action interrupt apply_check decide
  max_steps_kept e (queues actions o now) = ground arith
  max_steps_kept e takes = ground arith
  max_steps_kept e interrupts = ground arith
  max_steps_kept e (checks d submitted current boundary now) = ground arith

  pub run-max_steps : (e : Execution R) (cs : List (Call R)) → (run e cs).max_steps ≡ e.max_steps
  unfolding run
  run-max_steps e [] = refl
  run-max_steps e (c ∷ cs) = run-max_steps (step e c) cs ∙ max_steps_kept e c

  -- the action that a call hands out, if it hands out one
  unfoldable pub handed : Execution R → Call R → List R
  handed e takes = elim (take_action e).1 [ ok action ↦ action ∷ [] | err error ↦ [] ]
  handed e c = []

  -- all that a run hands out
  unfoldable pub issued : Execution R → List (Call R) → List R
  issued e [] = []
  issued e (c ∷ cs) = handed e c ++ issued (step e c) cs

  decide-steps :
      (d : CheckDecision) (boundary : Bool) (e : Execution R)
      → (decide d boundary e).0.steps ≡ e.steps
  unfolding decide
  decide-steps d boundary e = ground arith

  step-steps : (e : Execution R) (c : Call R) → (step e c).steps ≡ length (handed e c) + e.steps
  unfolding step handed queue_chunk take_action interrupt
  step-steps e (queues actions o now) = ground arith
  step-steps e takes = ground arith
  step-steps e interrupts = ground arith
  step-steps e (checks d submitted current boundary now) =
      let kept : (apply_check d submitted current boundary now e).0.steps ≡ e.steps =
        elim (apply_check-decide d submitted current boundary now e) [
          | inl same ↦ ap (λ (f : Execution R). f.steps) same
          | inr (running, moved) ↦
              ap (λ (f : Execution R). f.steps) moved
              ∙ decide-steps d boundary (record e { pending = []; chunk_revision = none })
        ] in
      omega (arith, kept)

  run-steps :
      (e : Execution R) (cs : List (Call R)) → (run e cs).steps ≡ length (issued e cs) + e.steps
  unfolding run issued
  run-steps e [] = omega arith
  run-steps e (c ∷ cs) = omega (
    arith,
    run-steps (step e c) cs,
    step-steps e c,
    length-append (handed e c) (issued (step e c) cs),
  )

  -- Whatever is called on a new execution, it hands out no more actions than its budget, which is at most
  -- 300, recovers at most once and is interrupted at most once.
  pub execution_bounded :
      (task : TaskSpec) (max_steps : ℤ) (max_age : ℕ) (e : Execution R) (cs : List (Call R))
      → new_execution task max_steps max_age ≡ ok e
      → (pos (length (issued e cs)) ≤ℤ max_steps)
        × (max_steps ≤ℤ pos 300)
        × ((run e cs).recoveries ≤ 1)
        × ((run e cs).revision ≤ 1)
  execution_bounded task max_steps max_age e cs h =
      let (v, none_yet, budget) = new_execution-IsBounded task max_steps max_age e h in
      let w = run-IsBounded e cs v in
      let count = run-steps e cs in
      let same = run-max_steps e cs in
      let within = w.steps in
      let cap = v.budget in
      let (revisions, recoveries) = IsGeneration-at_most (run e cs).status _ _ w.generation in
      let fits = subst (λ (m : ℤ). pos (run e cs).steps ≤ℤ m) (same ∙ budget) within in
      let total : (run e cs).steps ≡ length (issued e cs) = omega (arith, count, none_yet) in
      (
        subst (λ (n : ℕ). pos n ≤ℤ max_steps) total fits,
        subst (λ (m : ℤ). m ≤ℤ pos 300) budget cap,
        recoveries,
        revisions,
      )

  pub take_action-ok :
      (e : Execution R) (action : R)
      → (take_action e).1 ≡ ok action
      → (e.status ≡ executing)
        × (e.chunk_revision ≡ some e.revision)
        × (pos e.steps <ℤ e.max_steps)
        × (e.pending ≡ action ∷ (take_action e).0.pending)
  unfolding take_action
  take_action-ok e action taken = ground arith

  stopped_step : (e : Execution R) (c : Call R) → is_running e.status ≡ false → step e c ≡ e
  unfolding step queue_chunk take_action interrupt
  stopped_step e (queues actions o now) stopped = ground arith
  stopped_step e takes stopped = ground arith
  stopped_step e interrupts stopped = ground arith
  stopped_step e (checks d submitted current boundary now) stopped =
      elim (apply_check-decide d submitted current boundary now e) [
        | inl same ↦ same
        | inr (running, moved) ↦ absurd (cc (running, stopped))
      ]

  -- Once the status is neither accepted, executing nor interrupted, no call changes the execution
  -- any more.
  stopped_for_good :
      (e : Execution R) (cs : List (Call R)) → is_running e.status ≡ false → run e cs ≡ e
  unfolding run
  stopped_for_good e [] stopped = refl
  stopped_for_good e (c ∷ cs) stopped =
      let same = stopped_step e c stopped in
      ap (λ (f : Execution R). run f cs) same ∙ stopped_for_good e cs stopped
