-- ===== src/Vla/Execution.antt =====
-- llm_vla/contracts.py: `Execution`, the bounded execution of one accepted task. `R` is the type of an
-- action (a row of the chunk); a method that raises leaves the state that stands beside the error.
pub mod Bounds
pub mod Chunks
pub mod Examples
use action_stream.Prelude.{
  ℕ, ℤ, pos, suc, ◌+◌, ◌-◌, String, Bool, true, false, not, ◌&&◌, ◌||◌, Option, none, some, List,
  [], ◌∷◌, length, all, leb, ltb, leb_ℤ, ltb_ℤ, ◌==◌, is_empty, is_some, str_eq, if◌then◌else◌,
  Result, ok, err, ◌>>=◌, ◌>>◌, raise_if,
}
use action_stream.Vla.Contracts.{
  Json, text, TaskSpec, CheckDecision, ContractError, require_accepted, parse_decision,
  document_of_decision, json_eq,
}

-- what `binding` has of an observation; the pixels and the robot's state are not read here
pub record Observation : Type 0 where
  pub request_id : String
  pub revision : ℕ
  pub observation_id : String
  pub captured_monotonic : ℕ
  pub frame_hashes : String × String

pub data Status : Type 0 where
  accepted executing interrupted complete unknown_stop native_boundary_stop control_cap_stop :
      Status
  failed : Status  -- "ERROR", which only the controller writes

pub data ExecutionError : Type 0 where
  bad_budget stale_observation not_ready bad_chunk not_authorized second_interruption :
      ExecutionError
  foreign_check already_stopped recovery_cap : ExecutionError
  contract : ContractError → ExecutionError

pub record Execution (R : Type 0) : Type 0 where
  pub task : TaskSpec
  pub max_steps : ℤ
  pub max_age : ℕ
  pub revision : ℕ
  pub steps : ℕ
  pub recoveries : ℕ
  pub status : Status
  pub pending : List R
  pub chunk_revision : Option ℕ

-- numpy's tests on the rows of a chunk
pub record Rows (R : Type 0) : Type 0 where
  pub has_seven : R → Bool
  pub is_finite : R → Bool
  pub gripper_in_range : R → Bool

abbrev pub is_ready : Status → Bool
is_ready accepted = true
is_ready executing = true
is_ready status = false

abbrev pub is_executing : Status → Bool
is_executing executing = true
is_executing status = false

abbrev pub is_running : Status → Bool
is_running accepted = true
is_running executing = true
is_running interrupted = true
is_running status = false

abbrev pub is_revision : Option ℕ → ℕ → Bool
is_revision none n = false
is_revision (some m) n = m == n

abbrev same_hashes : String × String → String × String → Bool
same_hashes (a, b) (c, d) = str_eq a c && str_eq b d

-- `submitted.binding() == current.binding()`
abbrev same_binding : Observation → Observation → Bool
same_binding a b =
    str_eq a.request_id b.request_id
    && a.revision == b.revision
    && str_eq a.observation_id b.observation_id
    && same_hashes a.frame_hashes b.frame_hashes
    && a.captured_monotonic == b.captured_monotonic

abbrev contract_error : {A : Type 0} → Result ContractError A → Option ExecutionError
contract_error (ok a) = none
contract_error (err e) = some (contract e)

abbrev says : CheckDecision → String → Bool
says d status = json_eq d.status (text status)

module _ {R : Type 0} where
  -- `__init__` and `__post_init__`
  unfoldable pub new_execution : TaskSpec → ℤ → ℕ → Result ExecutionError (Execution R)
  new_execution task max_steps max_age = elim (contract_error (require_accepted task)) [
    | some e ↦ err e
    | none ↦
        if leb_ℤ max_steps (pos 0) || ltb_ℤ (pos 300) max_steps
        then err bad_budget
        else ok (record {
          task = task;
          max_steps = max_steps;
          max_age = max_age;
          revision = 0;
          steps = 0;
          recoveries = 0;
          status = accepted;
          pending = [];
          chunk_revision = none;
        })
  ]

  -- `validate_current` does not raise
  abbrev pub is_current : Observation → ℕ → Execution R → Bool
  is_current o now e =
      json_eq (text o.request_id) e.task.request_id
      && o.revision == e.revision
      && leb o.captured_monotonic now
      && leb (now - o.captured_monotonic) e.max_age

  -- the shape and the range of a processed chunk
  abbrev pub is_chunk : Rows R → List R → Bool
  is_chunk rows actions =
      length actions == 30
      && all rows.has_seven actions
      && all rows.is_finite actions
      && all rows.gripper_in_range actions

  -- `queue`
  unfoldable pub queue_chunk :
      Rows R → List R → Observation → ℕ → Execution R → Execution R × Option ExecutionError
  queue_chunk rows actions o now e =
      if not (is_current o now e)
      then (e, some stale_observation)
      else if not (is_ready e.status) || not (is_empty e.pending)
      then (e, some not_ready)
      else if not (is_chunk rows actions)
      then (e, some bad_chunk)
      else (
        record e { pending = actions; chunk_revision = some e.revision; status = executing },
        none,
      )

  pop_action : List R → Execution R → Execution R × Result ExecutionError R
  pop_action [] e = (e, err not_authorized)
  pop_action (action ∷ rest) e = (record e { steps = suc e.steps; pending = rest }, ok action)

  -- `take_action`
  unfoldable pub take_action : Execution R → Execution R × Result ExecutionError R
  unfolding pop_action
  take_action e =
      if not (is_executing e.status)
        || not (is_revision e.chunk_revision e.revision)
        || leb_ℤ e.max_steps (pos e.steps)
      then (e, err not_authorized)
      else pop_action e.pending e

  -- `interrupt`
  unfoldable pub interrupt : Execution R → Execution R × Result ExecutionError ℕ
  interrupt e =
      if not (is_executing e.status) || ltb 0 e.recoveries then (e, err second_interruption) else (
        record e {
          pending = [];
          chunk_revision = none;
          revision = suc e.revision;
          status = interrupted;
        },
        ok (length e.pending),
      )

  -- the end of `apply_check`, when the chunk has been dropped
  unfoldable pub decide :
      CheckDecision → Bool → Execution R → Execution R × Result ExecutionError Status
  decide d native_boundary e =
      if says d "complete"
      then (record e { status = complete }, ok complete)
      else if says d "unknown"
      then (record e { status = unknown_stop }, ok unknown_stop)
      else if native_boundary
      then (record e { status = native_boundary_stop }, ok native_boundary_stop)
      else if leb_ℤ e.max_steps (pos e.steps)
      then (record e { status = control_cap_stop }, ok control_cap_stop)
      else elim e.status [
        | interrupted ↦
            if leb 1 e.recoveries
            then (e, err recovery_cap)
            else (record e { recoveries = suc e.recoveries; status = executing }, ok executing)
        | _ ↦ (record e { status = executing }, ok executing)
      ]

  -- `apply_check`, at the time `now`
  unfoldable pub apply_check :
      CheckDecision
      → Observation
      → Observation
      → Bool
      → ℕ
      → Execution R
      → Execution R × Result ExecutionError Status
  unfolding decide
  apply_check d submitted current native_boundary now e =
      if not (is_current current now e)
      then (e, err stale_observation)
      else if not (same_binding submitted current)
          || not (json_eq d.observation_id (text current.observation_id))
      then (e, err foreign_check)
      else elim (contract_error
          (parse_decision (document_of_decision d) (text current.observation_id))) [
            | some error ↦ (e, err error)
            | none ↦
                if not (is_running e.status)
                then (e, err already_stopped)
                else decide d native_boundary (record e { pending = []; chunk_revision = none })
          ]
