-- ===== src/Vla/Grounding/Examples.antt =====
-- A request that names the sauce and the basket once each.
use action_stream.Prelude.{◌≡◌, refl, true, false, [], ◌∷◌, str_eq, if◌then◌else◌}
use action_stream.Vla.Contracts.{text, object, strict_object}
use action_stream.Vla.Grounding.{
  OriginalRequest, GroundedTask, Contract, Tools, request_eq, task_eq, parse_decision,
  resolve_mention, is_guarded, adjudicate, materialize, validate_authorization, target_entity,
  destination_entity,
}
use action_stream.Vla.Grounding.Authorization.{IsGrounded, authorization_sound}

abbrev request : OriginalRequest
request = record { request_id = "a"; text = "put sauce in basket" }

abbrev contract : Contract
contract = record {
  reject_reasons = [];
  unknown_reasons = [];
  target_aliases = "sauce" ∷ [];
  destination_aliases = "basket" ∷ [];
  text_guards = ("not", "negated") ∷ [];
}

abbrev tools : Tools
tools = record {
  load = λ raw. object (
      ("decision", text "accept")
      ∷ ("target_quote", text "sauce")
      ∷ ("destination_quote", text "basket")
      ∷ []);
  is_blank = λ s. str_eq s "";
  find_mentions = λ quote s. if str_eq quote "sauce" then (4, 9) ∷ [] else (13, 19) ∷ [];
  normalize_alias = λ s. s;
  search = λ pattern_text s. false;
  digest_text = λ s. s;
  contract_hash = λ c. "c";
}

abbrev task : GroundedTask
task = record {
  original = request;
  original_sha256 = "put sauce in basket";
  raw_model_output = "{}";
  model_output_sha256 = "{}";
  contract_sha256 = "c";
  target = record { quote = "sauce"; start = 4; end = 9; entity = target_entity };
  destination = record { quote = "basket"; start = 13; end = 19; entity = destination_entity };
}

authorization_sound_example :
    (request_eq tools task.original request ≡ true)
    × ((expected : GroundedTask) × (task_eq tools expected task ≡ true)
        × IsGrounded tools request "{}" contract expected)
unfolding validate_authorization materialize adjudicate parse_decision resolve_mention is_guarded
    strict_object
authorization_sound_example = authorization_sound tools request task contract refl
