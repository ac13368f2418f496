-- ===== src/Vla/Coverage/Permits/Examples.antt =====
-- A request that one production of a grammar covers.
use action_stream.Prelude.{
  ℕ, ◌≡◌, refl, true, false, some, List, [], ◌∷◌, String, str_eq, ok, if◌then◌else◌,
}
use action_stream.Vla.Contracts.{text, object, contains, strict_object}
use action_stream.Vla.Grounding.{
  OriginalRequest, GroundedTask, Contract, Tools, request_eq, adjudicate, materialize,
  parse_decision, resolve_mention, is_guarded, target_entity, destination_entity,
}
use action_stream.Vla.Coverage.{
  Token, Coverage, CoverTools, cover, has_negation, all_aliases, inspect_coverage,
}
use action_stream.Vla.Coverage.Permits.{
  CoveragePermit, is_accepted, permit_eq, adjudicate_covered, authorize, execute_covered,
}
use action_stream.Vla.Coverage.Permits.Soundness.{IsDerived, execution_covered}
use action_stream.Vla.Coverage.Termination.{inspection_ends, are_wordy}

abbrev request : OriginalRequest
request = record { request_id = "a"; text = "put sauce in basket" }

abbrev contract : Contract
contract = record {
  reject_reasons = [];
  unknown_reasons = [];
  target_aliases = "sauce" ∷ [];
  destination_aliases = "basket" ∷ [];
  text_guards = ("not", "negated") ∷ [];
}

abbrev tools : Tools
tools = record {
  load = λ raw. object (
      ("decision", text "accept")
      ∷ ("target_quote", text "sauce")
      ∷ ("destination_quote", text "basket")
      ∷ []);
  is_blank = λ s. str_eq s "";
  find_mentions = λ quote s. if str_eq quote "sauce" then (4, 9) ∷ [] else (13, 19) ∷ [];
  normalize_alias = λ s. s;
  search = λ pattern_text s. false;
  digest_text = λ s. s;
  contract_hash = λ c. "c";
}

abbrev token : String → ℕ → ℕ → Token
token word start end = record { word = word; start = start; end = end }

abbrev split : String → List Token
split s =
    if str_eq s "put sauce in basket"
    then token "put" 0 3 ∷ token "sauce" 4 9 ∷ token "in" 10 12 ∷ token "basket" 13 19 ∷ []
    else token s 0 6 ∷ []

abbrev cover_tools : CoverTools
cover_tools = record {
  tokens = split;
  is_gapless = λ s found. true;
  normalize = λ symbols. if contains "T" symbols then "put T in B" else "";
  full_match = λ rule s. str_eq rule s;
  proof_hash = λ verdict coverage. coverage.normalized;
  grammar_hash = λ rules. "g";
}

abbrev rules : List String
rules = "carry T to B" ∷ "put T in B" ∷ []

abbrev permit : CoveragePermit
permit = record {
  original = request;
  raw = "{}";
  proof_sha256 = "put T in B";
  grammar_sha256 = "g";
  contract_sha256 = "c";
}

abbrev task : GroundedTask
task = record {
  original = request;
  original_sha256 = "put sauce in basket";
  raw_model_output = "{}";
  model_output_sha256 = "{}";
  contract_sha256 = "c";
  target = record { quote = "sauce"; start = 4; end = 9; entity = target_entity };
  destination = record { quote = "basket"; start = 13; end = 19; entity = destination_entity };
}

inspection_ends_example :
    (coverage : Coverage) × (inspect_coverage cover_tools rules request contract ≡ some coverage)
unfolding are_wordy
inspection_ends_example = inspection_ends cover_tools rules request contract refl

execution_covered_example :
    (request_eq tools permit.original request ≡ true)
    × ((fresh : CoveragePermit) × (authorize tools cover_tools rules request permit.raw contract
          ≡ some (ok fresh))
        × (permit_eq tools cover_tools rules fresh permit ≡ true))
    × (is_accepted (adjudicate tools request permit.raw contract).decision ≡ true)
    × (materialize tools request permit.raw contract ≡ ok task)
    × IsDerived tools cover_tools rules request contract
unfolding execute_covered authorize adjudicate_covered inspect_coverage cover all_aliases adjudicate
    materialize parse_decision resolve_mention is_guarded strict_object has_negation
execution_covered_example =
    execution_covered tools cover_tools rules request permit contract task refl
