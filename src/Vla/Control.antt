-- ===== src/Vla/Control.antt =====
-- llm_vla/integration.py: `execute`, the control loop over one execution. What the port, the checker, the
-- clock and the event writer do in each round is a value of `Round`; `none` and a failed write are
-- exceptions, which end the loop. Waiting for the rest of a control period is left out.
pub mod Termination
pub mod Safety
pub mod Examples
use action_stream.Prelude.{
  ℕ, ℤ, pos, suc, ◌%◌, Bool, true, false, not, ◌&&◌, ◌||◌, Option, none, some, List, [], ◌∷◌, leb_ℤ,
  ltb_ℤ, ◌==◌, is_empty, is_some, if◌then◌else◌, Result, ok, err,
}
use action_stream.Vla.Contracts.{TaskSpec, CheckDecision}
use action_stream.Vla.Execution.{
  Observation, Status, complete, failed, Execution, ExecutionError, Rows, new_execution,
  queue_chunk, take_action, interrupt, apply_check, is_ready, is_current,
}

pub record Round (R : Type 0) : Type 0 where
  pub inference : Option (List R)  -- `port.infer`
  pub queued_at : ℕ
  pub chunk_written : Bool  -- the event "chunk" was written
  pub stepped : Option (Observation × Bool)  -- "step_requested" and `port.step`
  pub step_written : Bool
  pub refreshed : Option Observation  -- `port.refresh` and its event
  pub validated_at : ℕ
  pub checked : Option CheckDecision  -- the checker
  pub check_written : Bool
  pub applied_at : ℕ

-- the local variables of the loop
pub record Run (R : Type 0) : Type 0 where
  pub execution : Execution R
  pub observation : Observation
  pub checks : ℕ
  pub inference_calls : ℕ
  pub native_boundary : Bool

-- how the loop ends, when these are all the rounds that are given
pub data Ending : Type 0 where
  ended raised out_of_rounds : Ending

-- `interruption_step == run.steps and not boundary`
abbrev pub is_interrupted : Option ℕ → ℕ → Bool → Bool
is_interrupted none steps boundary = false
is_interrupted (some step) steps boundary = step == steps && not boundary

module _ {R : Type 0} where
  -- the flag says whether the part of a round returned; an exception leaves the loop
  keep_execution : Run R → Execution R × Option ExecutionError → Run R × Bool
  keep_execution s (e, error) = (record s { execution = e }, not (is_some error))

  -- the loop's condition
  abbrev pub may_go : Run R → Bool
  may_go s = is_ready s.execution.status && ltb_ℤ (pos s.execution.steps) s.execution.max_steps

  -- the inference, when no action is pending
  fetch : Rows R → Round R → Run R → Run R × Bool
  fetch rows r s = if not (is_empty s.execution.pending) then (s, true) else elim r.inference [
    | none ↦ (s, false)
    | some actions ↦
        let (e, error) = queue_chunk rows actions s.observation r.queued_at s.execution in
        if is_some error
        then (record s { execution = e }, false)
        else (record s { execution = e; inference_calls = suc s.inference_calls }, r.chunk_written)
  ]

  -- one action, and the step of the robot
  act : Round R → Run R → Run R × Bool
  act r s =
      let (e, action) = take_action s.execution in
      let s' : Run R = record s { execution = e } in
      elim action [
        | err error ↦ (s', false)
        | ok row ↦ elim r.stepped [
          | none ↦ (s', false)
          | some (observation, boundary) ↦
              (record s' { observation = observation; native_boundary = boundary }, r.step_written)
        ]
      ]

  -- the software interruption
  pause_for : Round R → Run R → Run R × Bool
  pause_for r s =
      let (e, discarded) = interrupt s.execution in
      let s' : Run R = record s { execution = e } in
      elim discarded [
        | err error ↦ (s', false)
        | ok count ↦ elim r.refreshed [
          | none ↦ (s', false)
          | some observation ↦ (record s' { observation = observation }, true)
        ]
      ]

  -- the checker's decision on the current observation
  check : Round R → Run R → Run R × Bool
  check r s =
      if not (is_current s.observation r.validated_at s.execution)
      then (s, false)
      else elim r.checked [
        | none ↦ (s, false)
        | some decision ↦
            let s' : Run R = record s { checks = suc s.checks } in
            let (e, result) =
              apply_check decision s.observation s.observation s.native_boundary r.applied_at
                s.execution in
            if not r.check_written then (s', false) else elim result [
              | err error ↦ (record s' { execution = e }, false)
              | ok status ↦ (record s' { execution = e }, true)
            ]
      ]

  abbrev must_check : Bool → Run R → Bool
  must_check interrupted s =
      interrupted
      || s.native_boundary
      || s.execution.steps % 30 == 0
      || leb_ℤ s.execution.max_steps (pos s.execution.steps)
        && leb_ℤ (pos s.execution.steps) s.execution.max_steps

  -- the second half of a round, after the step
  settle : Option ℕ → Round R → Run R → Run R × Bool
  unfolding pause_for check
  settle interruption r s =
      let interrupted = is_interrupted interruption s.execution.steps s.native_boundary in
      let (s', returned) = if interrupted then pause_for r s else (s, true) in
      if not returned
      then (s', false)
      else if must_check interrupted s'
      then check r s'
      else (s', true)

  -- one round of the loop
  unfoldable pub round : Rows R → Option ℕ → Round R → Run R → Run R × Bool
  unfolding fetch act settle
  round rows interruption r s =
      let (s₁, fetched) = fetch rows r s in
      let (s₂, acted) = act r s₁ in
      if not fetched
      then (s₁, false)
      else if not acted
      then (s₂, false)
      else settle interruption r s₂

  -- the handler: an exception drops the chunk
  fail_run : Run R → Run R
  fail_run s = record s { execution = record s.execution { pending = []; status = failed } }

  -- the loop
  pub rounds : Rows R → Option ℕ → List (Round R) → Run R → Run R × Ending
  unfolding round fail_run
  rounds rows interruption [] s = (s, if may_go s then out_of_rounds else ended)
  rounds rows interruption (r ∷ rs) s =
      let (s', returned) = round rows interruption r s in
      let rest = rounds rows interruption rs s' in
      if not (may_go s) then (s, ended) else if not returned then (fail_run s', raised) else rest

  -- the state before the first round, with the observation of `port.start`
  pub first_run : Execution R → Observation → Run R
  first_run e observation = record {
    execution = e;
    observation = observation;
    checks = 0;
    inference_calls = 0;
    native_boundary = false;
  }
