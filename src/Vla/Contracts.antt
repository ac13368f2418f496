-- ===== src/Vla/Contracts.antt =====
-- llm_vla/contracts.py: the JSON contracts of a task and of a checker's decision.
pub mod Parsing
pub mod Examples
use action_stream.Prelude.{
  ℕ, String, Bool, true, false, not, ◌&&◌, ◌||◌, Option, none, some, List, [], ◌∷◌, map, all, leb,
  str_eq, if◌then◌else◌, Result, ok, err, ◌>>=◌, ◌>>◌, raise_if,
}
use action_stream.Vla.Text.{text_length, word_count}

-- a value of a JSON object: null, a text, or anything else, by its print
pub data Json : Type 0 where
  null : Json
  text : String → Json
  other_value : String → Json

-- what `json.loads` makes of a raw text: an object's pairs in their order, or something else
pub data Document : Type 0 where
  invalid_json : Document
  not_an_object : Document
  object : List (String × Json) → Document

pub data ContractError : Type 0 where
  bad_json duplicate_key wrong_fields task_mismatch bad_decision bad_reason capability_mismatch :
      ContractError
  not_accepted observation_mismatch bad_status bad_evidence : ContractError

abbrev pub json_eq : Json → Json → Bool
json_eq null null = true
json_eq (text s) (text t) = str_eq s t
json_eq (other_value s) (other_value t) = str_eq s t
json_eq a b = false

abbrev pub contains : String → List String → Bool
contains key [] = false
contains key (k ∷ ks) = str_eq key k || contains key ks

abbrev pub keys : List (String × Json) → List String
keys pairs = map (λ (p : String × Json). p.0) pairs

abbrev pub has_duplicate : List String → Bool
has_duplicate [] = false
has_duplicate (k ∷ ks) = contains k ks || has_duplicate ks

-- the value at a key, `null` if there is none
abbrev pub get : List (String × Json) → String → Json
get [] key = null
get ((k, value) ∷ pairs) key = if str_eq key k then value else get pairs key

-- `strict_object`
unfoldable pub strict_object : Document → List String → Result ContractError (List (String × Json))
strict_object invalid_json fields = err bad_json
strict_object not_an_object fields = err wrong_fields
strict_object (object pairs) fields =
    if has_duplicate (keys pairs)
    then err duplicate_key
    else if all (λ k. contains k fields) (keys pairs) && all (λ k. contains k (keys pairs)) fields
    then ok pairs
    else err wrong_fields

pub record TaskSpec : Type 0 where
  pub version : Json
  pub request_id : Json
  pub decision : Json
  pub skill : Json
  pub target : Json
  pub destination : Json
  pub canonical_instruction : Json
  pub reason : Json

abbrev pub task_fields : List String
task_fields =
    "version" ∷ "request_id" ∷ "decision" ∷ "skill" ∷ "target" ∷ "destination"
    ∷ "canonical_instruction" ∷ "reason" ∷ []

abbrev pub is_one_of : Json → List String → Bool
is_one_of (text s) names = contains s names
is_one_of value names = false

-- a text of 1 to 1000 characters
abbrev pub is_reason : Json → Bool
is_reason (text s) = leb 1 (text_length s) && leb (text_length s) 1000
is_reason value = false

abbrev pub accepted_instruction : String
accepted_instruction = "pick up the tomato sauce and place it in the basket"

-- the four values of CAPABILITY for an accepted task, and null ones for the others
abbrev pub fits_capability : TaskSpec → Bool
fits_capability t =
    if json_eq t.decision (text "accept")
    then json_eq t.skill (text "pick_place")
      && json_eq t.target (text "tomato_sauce")
      && json_eq t.destination (text "basket")
      && json_eq t.canonical_instruction (text accepted_instruction)
    else json_eq t.skill null
      && json_eq t.target null
      && json_eq t.destination null
      && json_eq t.canonical_instruction null

-- `TaskSpec.parse`, from the object's pairs
check_task : Json → TaskSpec → Result ContractError TaskSpec
check_task request_id t = do
  raise_if (not (json_eq t.version (text "1.0")) || not (json_eq t.request_id request_id))
      task_mismatch
  raise_if (not (is_one_of t.decision ("accept" ∷ "reject" ∷ "unknown" ∷ []))) bad_decision
  raise_if (not (is_reason t.reason)) bad_reason
  raise_if (not (fits_capability t)) capability_mismatch
  ok t

abbrev pub task_of : List (String × Json) → TaskSpec
task_of pairs = record {
  version = get pairs "version";
  request_id = get pairs "request_id";
  decision = get pairs "decision";
  skill = get pairs "skill";
  target = get pairs "target";
  destination = get pairs "destination";
  canonical_instruction = get pairs "canonical_instruction";
  reason = get pairs "reason";
}

-- `TaskSpec.parse`
pub parse_task : Document → Json → Result ContractError TaskSpec
unfolding strict_object check_task
parse_task document request_id =
    strict_object document task_fields >>= λ pairs. check_task request_id (task_of pairs)

-- `asdict`, printed and read back
abbrev pub document_of : TaskSpec → Document
document_of t = object (
    ("version", t.version)
    ∷ ("request_id", t.request_id)
    ∷ ("decision", t.decision)
    ∷ ("skill", t.skill)
    ∷ ("target", t.target)
    ∷ ("destination", t.destination)
    ∷ ("canonical_instruction", t.canonical_instruction)
    ∷ ("reason", t.reason)
    ∷ [])

-- `require_accepted`
unfoldable pub require_accepted : TaskSpec → Result ContractError (Unit {0})
unfolding parse_task
require_accepted t = do
  parse_task (document_of t) t.request_id
  raise_if (not (json_eq t.decision (text "accept"))) not_accepted

pub record CheckDecision : Type 0 where
  pub observation_id : Json
  pub status : Json
  pub evidence : Json

abbrev check_fields : List String
check_fields = "observation_id" ∷ "status" ∷ "evidence" ∷ []

abbrev is_evidence : Json → Bool
is_evidence (text s) = leb 1 (word_count s) && leb (word_count s) 30
is_evidence value = false

check_decision : Json → CheckDecision → Result ContractError CheckDecision
check_decision observation_id d = do
  raise_if (not (json_eq d.observation_id observation_id)) observation_mismatch
  raise_if (not (is_one_of d.status ("complete" ∷ "incomplete" ∷ "unknown" ∷ []))) bad_status
  raise_if (not (is_evidence d.evidence)) bad_evidence
  ok d

abbrev decision_of : List (String × Json) → CheckDecision
decision_of pairs = record {
  observation_id = get pairs "observation_id";
  status = get pairs "status";
  evidence = get pairs "evidence";
}

-- `CheckDecision.parse`
unfoldable pub parse_decision : Document → Json → Result ContractError CheckDecision
unfolding strict_object check_decision
parse_decision document observation_id = strict_object document check_fields >>= λ pairs.
    check_decision observation_id (decision_of pairs)

abbrev pub document_of_decision : CheckDecision → Document
document_of_decision d =
    object
      (("observation_id", d.observation_id) ∷ ("status", d.status) ∷ ("evidence", d.evidence) ∷ [])
