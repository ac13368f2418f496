-- ===== src/Vla/Coverage/Permits.antt =====
-- The permits of llm_vla/coverage.py: what authorizes a request, and what is looked at before it is executed.
pub mod Examples
pub mod Soundness
use action_stream.Prelude.{
  String, Bool, true, false, not, ◌&&◌, Option, none, some, List, str_eq, if◌then◌else◌, Result, ok,
  err,
}
use action_stream.Vla.Grounding.{
  OriginalRequest, GroundedTask, Contract, Tools, Kind, accept, Verdict, adjudicate, materialize,
  GroundingError, request_eq,
}
use action_stream.Vla.Coverage.{Coverage, CoverTools, inspect_coverage}

abbrev is_accepted : Kind → Bool
is_accepted accept = true
is_accepted kind = false

-- the verdict of the text, unless its coverage is not complete
merge_coverage : Verdict → Coverage → Verdict
merge_coverage old coverage =
    if is_accepted old.decision && not coverage.complete
    then record { is_valid = old.is_valid; decision = coverage.decision; task = none }
    else old

pub data CoverageError : Type 0 where
  no_complete_authorization mismatched_permit changed_permit : CoverageError
  ungrounded : GroundingError → CoverageError

pub record CoveragePermit : Type 0 where
  pub original : OriginalRequest
  pub raw : String
  pub proof_sha256 : String
  pub grammar_sha256 : String
  pub contract_sha256 : String

task_or_error : Result GroundingError GroundedTask → Result CoverageError GroundedTask
task_or_error (err e) = err (ungrounded e)
task_or_error (ok task) = ok task

module _ (T : Tools) (C : CoverTools) (grammar : List String) where
  -- `adjudicate_covered`
  pub adjudicate_covered : OriginalRequest → String → Contract → Option (Verdict × Coverage)
  unfolding merge_coverage
  adjudicate_covered request raw contract = elim (inspect_coverage C grammar request contract) [
    | none ↦ none
    | some coverage ↦ some (merge_coverage (adjudicate T request raw contract) coverage, coverage)
  ]

  permit_of :
      OriginalRequest → String → Contract → Verdict × Coverage → Result CoverageError CoveragePermit
  permit_of request raw contract (verdict, coverage) =
      if not (is_accepted verdict.decision)
      then err no_complete_authorization
      else ok (record {
        original = request;
        raw = raw;
        proof_sha256 = C.proof_hash verdict coverage;
        grammar_sha256 = C.grammar_hash grammar;
        contract_sha256 = T.contract_hash contract;
      })

  -- `authorize`
  pub authorize : OriginalRequest → String → Contract → Option (Result CoverageError CoveragePermit)
  unfolding permit_of
  authorize request raw contract = elim (adjudicate_covered request raw contract) [
    | none ↦ none
    | some result ↦ some (permit_of request raw contract result)
  ]

  -- the equality of two permits, field by field
  abbrev permit_eq : CoveragePermit → CoveragePermit → Bool
  permit_eq a b =
      request_eq T a.original b.original
      && str_eq a.raw b.raw
      && str_eq a.proof_sha256 b.proof_sha256
      && str_eq a.grammar_sha256 b.grammar_sha256
      && str_eq a.contract_sha256 b.contract_sha256

  compare_permit :
      OriginalRequest
      → CoveragePermit
      → Contract
      → Result CoverageError CoveragePermit
      → Result CoverageError GroundedTask
  unfolding task_or_error
  compare_permit request permit contract (err e) = err e
  compare_permit request permit contract (ok fresh) =
      if not (permit_eq fresh permit)
      then err changed_permit
      else task_or_error (materialize T request permit.raw contract)

  -- `execute_covered`, up to the task whose control it hands to `execute`; none is a loop without an end
  pub execute_covered :
      OriginalRequest → CoveragePermit → Contract → Option (Result CoverageError GroundedTask)
  unfolding compare_permit
  execute_covered request permit contract =
      if not (request_eq T permit.original request)
      then some (err mismatched_permit)
      else elim (authorize request permit.raw contract) [
        | none ↦ none
        | some result ↦ some (compare_permit request permit contract result)
      ]
