-- ===== src/Engine/Lifecycle/Examples.antt =====
-- A reset and a stop of a started engine with a queued action.
use action_stream.Prelude.{ℕ, pos, true, none, [], ◌∷◌}
use action_stream.Engine.State.{Engine, new_engine}
use action_stream.Engine.Queue.{queued_of}
use action_stream.Engine.Samples.{config, slot, identity}

abbrev engine : Engine ℕ ℕ (Unit {0})
engine = record (new_engine config "engine" true none slot) {
  started = true;
  current_step = pos 1;
  queue = queued_of identity "pick" 9 ∷ [];
}
