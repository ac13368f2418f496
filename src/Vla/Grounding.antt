-- ===== src/Vla/Grounding.antt =====
-- llm_vla/grounding.py: whether the text of a request supports the task that a language model made of
-- it. Regular expressions, case folding, hashing and the reading of JSON are the caller's Tools.
pub mod Authorization
pub mod Examples
use action_stream.Prelude.{
  ℕ, String, Bool, true, false, not, ◌&&◌, ◌||◌, Option, none, some, List, [], ◌∷◌, map, ◌==◌,
  str_eq, if◌then◌else◌, Result, ok, err, ◌>>=◌,
}
use action_stream.Vla.Contracts.{
  Json, text, Document, invalid_json, not_an_object, object, ContractError, strict_object, contains,
  get, has_duplicate, keys,
}

pub data GroundingError : Type 0 where
  malformed missing_or_nonunique unsupported_reference no_authorization foreign_request
        changed_authorization :
      GroundingError

pub record OriginalRequest : Type 0 where
  pub request_id : String
  pub text : String

pub record Mention : Type 0 where
  pub quote : String
  pub start : ℕ
  pub end : ℕ
  pub entity : String

pub record GroundedTask : Type 0 where
  pub original : OriginalRequest
  pub original_sha256 : String
  pub raw_model_output : String
  pub model_output_sha256 : String
  pub contract_sha256 : String
  pub target : Mention
  pub destination : Mention

pub record Contract : Type 0 where
  pub reject_reasons : List String
  pub unknown_reasons : List String
  pub target_aliases : List String
  pub destination_aliases : List String
  -- a pattern, and the reason to reject
  pub text_guards : List (String × String)

pub record Tools : Type 0 where
  pub load : String → Document
  pub is_blank : String → Bool
  -- where the quote stands in the text, as whole words
  pub find_mentions : String → String → List (ℕ × ℕ)
  pub normalize_alias : String → String
  pub search : String → String → Bool
  pub digest_text : String → String
  pub contract_hash : Contract → String

pub data Kind : Type 0 where
  accept reject unknown explicit_failure : Kind

-- a decision of the model that passes its checks: the quotes, or a reason
pub data Parsed : Type 0 where
  accepts : String → String → Parsed
  declines : Kind → String → Parsed

pub record Verdict : Type 0 where
  pub is_valid : Bool
  pub decision : Kind
  pub task : Option GroundedTask

-- the entities of `CAPABILITY`
abbrev pub target_entity : String
target_entity = "tomato_sauce"

abbrev pub destination_entity : String
destination_entity = "basket"

abbrev malformed_unless : {A : Type 0} → Result ContractError A → Result GroundingError A
malformed_unless (ok a) = ok a
malformed_unless (err e) = err malformed

module _ (T : Tools) where
  quotes_of : Json → Json → Result GroundingError Parsed
  quotes_of (text target) (text destination) =
      if T.is_blank target || T.is_blank destination
      then err malformed
      else ok (accepts target destination)
  quotes_of target destination = err malformed

  reason_of : Kind → List String → Json → Result GroundingError Parsed
  reason_of kind allowed (text reason) =
      if contains reason allowed then ok (declines kind reason) else err malformed
  reason_of kind allowed reason = err malformed

  parse_accepted : Document → Result GroundingError Parsed
  unfolding quotes_of
  parse_accepted document =
      malformed_unless
        (strict_object document ("decision" ∷ "target_quote" ∷ "destination_quote" ∷ []))
      >>= λ pairs. quotes_of (get pairs "target_quote") (get pairs "destination_quote")

  parse_declined : Kind → List String → Document → Result GroundingError Parsed
  unfolding reason_of
  parse_declined kind allowed document =
      malformed_unless (strict_object document ("decision" ∷ "reason" ∷ [])) >>= λ pairs.
      reason_of kind allowed (get pairs "reason")

  -- the arm of the union that the discriminator chooses
  parse_arm : Contract → Document → Json → Result GroundingError Parsed
  unfolding parse_accepted parse_declined
  parse_arm contract document (text decision) =
      if str_eq decision "accept"
      then parse_accepted document
      else if str_eq decision "reject"
      then parse_declined reject contract.reject_reasons document
      else if str_eq decision "unknown"
      then parse_declined unknown contract.unknown_reasons document
      else err malformed
  parse_arm contract document decision = err malformed

  -- `parse_decision`
  unfoldable pub parse_decision : Contract → Document → Result GroundingError Parsed
  unfolding parse_arm
  parse_decision contract (object pairs) =
      if has_duplicate (keys pairs)
      then err malformed
      else parse_arm contract (object pairs) (get pairs "decision")
  parse_decision contract document = err malformed

  single_mention : List (ℕ × ℕ) → String → List String → String → Result GroundingError Mention
  single_mention ((start, end) ∷ []) quote aliases entity =
      if contains (T.normalize_alias quote) aliases
      then ok (record { quote = quote; start = start; end = end; entity = entity })
      else err unsupported_reference
  single_mention mentions quote aliases entity = err missing_or_nonunique

  -- `resolve_mention`
  unfoldable pub resolve_mention :
      OriginalRequest → String → List String → String → Result GroundingError Mention
  unfolding single_mention
  resolve_mention request quote aliases entity =
      single_mention (T.find_mentions quote request.text) quote aliases entity

  -- a guard that the text sets off
  unfoldable pub is_guarded : List (String × String) → String → Bool
  is_guarded [] s = false
  is_guarded ((pattern_text, reason) ∷ guards) s = T.search pattern_text s || is_guarded guards s

  abbrev fails : Bool → Verdict
  fails is_valid = record { is_valid = is_valid; decision = explicit_failure; task = none }

  abbrev declined : Kind → Verdict
  declined kind = record { is_valid = true; decision = kind; task = none }

  -- the verdict on an accepted decision, once its quotes are looked up
  ground_task :
      OriginalRequest
      → String
      → Contract
      → Result GroundingError Mention
      → Result GroundingError Mention
      → Verdict
  ground_task request raw contract (ok target) (ok destination) =
      if is_guarded contract.text_guards request.text then declined reject else record {
        is_valid = true;
        decision = accept;
        task = some (record {
          original = request;
          original_sha256 = T.digest_text request.text;
          raw_model_output = raw;
          model_output_sha256 = T.digest_text raw;
          contract_sha256 = T.contract_hash contract;
          target = target;
          destination = destination;
        });
      }
  ground_task request raw contract target destination = fails true

  adjudicate_parsed : OriginalRequest → String → Contract → Result GroundingError Parsed → Verdict
  unfolding ground_task
  adjudicate_parsed request raw contract (err e) = fails false
  adjudicate_parsed request raw contract (ok (declines kind reason)) = declined kind
  adjudicate_parsed request raw contract (ok (accepts target destination)) =
      ground_task request raw contract
        (resolve_mention request target contract.target_aliases target_entity)
        (resolve_mention request destination contract.destination_aliases destination_entity)

  -- `adjudicate`
  unfoldable pub adjudicate : OriginalRequest → String → Contract → Verdict
  unfolding adjudicate_parsed
  adjudicate request raw contract =
      adjudicate_parsed request raw contract (parse_decision contract (T.load raw))

  task_of : Kind → Option GroundedTask → Result GroundingError GroundedTask
  task_of accept (some task) = ok task
  task_of kind task = err no_authorization

  -- `materialize`
  unfoldable pub materialize :
      OriginalRequest → String → Contract → Result GroundingError GroundedTask
  unfolding task_of
  materialize request raw contract =
      let verdict = adjudicate request raw contract in task_of verdict.decision verdict.task

  abbrev pub request_eq : OriginalRequest → OriginalRequest → Bool
  request_eq a b = str_eq a.request_id b.request_id && str_eq a.text b.text

  abbrev mention_eq : Mention → Mention → Bool
  mention_eq a b =
      str_eq a.quote b.quote && a.start == b.start && a.end == b.end && str_eq a.entity b.entity

  -- the equality of two tasks, field by field
  abbrev pub task_eq : GroundedTask → GroundedTask → Bool
  task_eq a b =
      request_eq a.original b.original
      && str_eq a.original_sha256 b.original_sha256
      && str_eq a.raw_model_output b.raw_model_output
      && str_eq a.model_output_sha256 b.model_output_sha256
      && str_eq a.contract_sha256 b.contract_sha256
      && mention_eq a.target b.target
      && mention_eq a.destination b.destination

  compare_task :
      GroundedTask → Result GroundingError GroundedTask → Result GroundingError (Unit {0})
  compare_task task (err e) = err e
  compare_task task (ok expected) =
      if task_eq expected task then ok tt else err changed_authorization

  -- `validate_authorization`
  pub validate_authorization :
      OriginalRequest → GroundedTask → Contract → Result GroundingError (Unit {0})
  unfolding compare_task
  validate_authorization request task contract =
      if not (request_eq task.original request)
      then err foreign_request
      else compare_task task (materialize request task.raw_model_output contract)
