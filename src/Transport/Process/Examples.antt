-- ===== src/Transport/Process/Examples.antt =====
-- A transport that is reset while its child starts, and asks again.
use action_stream.Prelude.{ℕ, ◌≡◌, refl, true, false, none, some, List, [], ◌∷◌}
use action_stream.Transport.Process.{
  World, Request, prepared, nothing, new_process, request_step, clear_event, set_event,
  reset_locked, is_child,
}
use action_stream.Transport.Process.Freshness.{
  Event, begins, serves, sets, resets, step, run, initial, sent_to_fresh,
}

abbrev world : ℕ → World ℕ
world child = record {
  now = 3;
  is_set = false;
  is_alive = true;
  child = child;
  first_message = prepared;
  is_sent = true;
  polled = nothing;
}

-- the first request is reset while its child starts, the second starts another child
abbrev events : List (Event ℕ)
events =
    begins 1 9 0
    ∷ serves (world 5)
    ∷ serves (world 5)
    ∷ sets
    ∷ resets
    ∷ serves (world 5)
    ∷ serves (world 5)
    ∷ begins 2 9 1
    ∷ serves (world 6)
    ∷ serves (world 6)
    ∷ serves (world 6)
    ∷ serves (world 6)
    ∷ []

abbrev request : Request
request = record {
  request_id = 2;
  generation = 1;
  timeout_s = 9;
  startup_started = 1;
  request_started = none;
}

sent_to_fresh_example :
    let s = run initial events in
    (s.process.connection ≡ s.process.process)
    × (s.process.process ≡ some 6)
    × (s.born 6 ≡ s.process.generation)
unfolding run step new_process request_step clear_event set_event reset_locked is_child
sent_to_fresh_example = sent_to_fresh events (world 7) request 6 6 refl
