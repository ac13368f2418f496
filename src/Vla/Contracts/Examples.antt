-- ===== src/Vla/Contracts/Examples.antt =====
-- A task that may be executed.
use action_stream.Prelude.{◌≡◌, ◌↔◌, ok}
use action_stream.Vla.Contracts.{TaskSpec, text, require_accepted, accepted_instruction}
use action_stream.Vla.Contracts.Parsing.{IsAcceptedTask, require_accepted_iff}

abbrev pub task : TaskSpec
task = record {
  version = text "1.0";
  request_id = text "first";
  decision = text "accept";
  skill = text "pick_place";
  target = text "tomato_sauce";
  destination = text "basket";
  canonical_instruction = text accepted_instruction;
  reason = text "ok";
}

require_accepted_iff_example : (require_accepted task ≡ ok tt) ↔ IsAcceptedTask task
require_accepted_iff_example = require_accepted_iff task
