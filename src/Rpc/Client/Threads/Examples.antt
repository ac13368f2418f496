-- ===== src/Rpc/Client/Threads/Examples.antt =====
-- A client that is reset and answers one request.
use action_stream.Prelude.{
  ℕ, ◌+◌, ◌≤◌, ◌≡◌, refl, pos, finite, Float, String, true, false, none, some, List, [], ◌∷◌, ◌++◌,
  ok, arith, drop,
}
use action_stream.Rpc.Client.{
  Client, Response, new_client, number, begin_reset, acknowledge_reset, publish_socket,
  lookup_socket,
}
use action_stream.Rpc.Client.Requests.{
  World, Request, Phase, starts, replies, infer_step, commit, check_response, server_time,
}
use action_stream.Rpc.Client.Resets.{
  Reset, ResetPhase, waits, settles, reset_step, settle, check_acknowledgement,
}
use action_stream.Rpc.Client.Threads.{
  Threads, Event, enters, admits, infers, begins, resets_on, step, run, initial, try_step,
  step_resets,
}
use action_stream.Rpc.Client.Threads.Counting.{requests_accounted}
use action_stream.Rpc.Client.Threads.Counts.{uncounted_requests, unsettled_resets, is_serving}
use action_stream.Rpc.Client.Threads.Currency.{
  completed_current, acknowledged_current, invalidations,
}
use action_stream.Rpc.Client.Threads.Exclusion.{
  io_exclusive, users, IsAlike, uses_connection, reset_uses_connection,
}
use action_stream.Rpc.Client.Threads.Order.{IsUntouched}
use action_stream.Rpc.Client.Threads.Readiness.{stale_resets_harmless, blocked_until_reset}

abbrev second : Float
second = finite (pos 100)

abbrev client : Client
client = new_client second second second none none

abbrev reply : ℕ → String → Response ℕ
reply id kind = record {
  version = some 1;
  request_id = some id;
  kind = some kind;
  actions = some 7;
  fields = ("server_inference_s", number 3) ∷ [];
}

abbrev world : Response ℕ → World ℕ
world response = record {
  now = 2;
  is_set = false;
  connected = ok (5, 1);
  sent = ok 10;
  received = ok (response, 20);
}

abbrev reset_turn : Event ℕ
reset_turn = resets_on 0 (world (reply 1 "ack"))

abbrev infer_turn : Event ℕ
infer_turn = infers (world (reply 2 "ok"))

-- a reset up to its acknowledgement
abbrev resetting : List (Event ℕ)
resetting =
    begins 1 0 ∷ reset_turn ∷ reset_turn ∷ reset_turn ∷ reset_turn ∷ reset_turn ∷ reset_turn ∷ []

abbrev readying : List (Event ℕ)
readying =
    begins 1 0
    ∷ reset_turn
    ∷ reset_turn
    ∷ reset_turn
    ∷ reset_turn
    ∷ reset_turn
    ∷ reset_turn
    ∷ reset_turn
    ∷ []

abbrev admitting : List (Event ℕ)
admitting = enters second ∷ admits 0 2 1 ∷ infer_turn ∷ []

abbrev turns : List (Event ℕ)
turns = infer_turn ∷ infer_turn ∷ infer_turn ∷ infer_turn ∷ []

abbrev fresh : Threads ℕ
fresh = initial client

abbrev first_reset : Reset
first_reset = record { generation = 1; request_id = 1; deadline = finite (pos 100) }

-- after the first section of the reset
abbrev begun : Threads ℕ
begun = record (initial (record client { generation = 1; reset_requests = 1 })) {
  resets = (first_reset, waits) ∷ [];
}

-- the client in its ready state, with one admitted request
abbrev request : Request
request = record {
  generation = 1;
  request_id = 2;
  startup = false;
  started = 1;
  deadline = finite (pos 101);
}

abbrev served : Client
served = record client {
  generation = 1;
  reset_required = false;
  socket = some 5;
  inflight = true;
  requests_started = 1;
}

abbrev serving : Threads ℕ
serving = record (initial served) { request = some (request, starts) }

requests_accounted_example :
    let s = run fresh (readying ++ admitting) in
    (s.client.requests_started
      ≡ s.client.requests_completed
        + s.client.server_errors
        + s.client.transport_errors
        + s.client.invalidated_requests
        + uncounted_requests s.request)
    × (s.client.reset_requests
        ≡ s.client.reset_successes + s.client.reset_failures + unsettled_resets s.resets)
    × (s.client.deadlines ≡ s.client.startup_deadlines + s.client.steady_deadlines)
    × (s.client.inflight ≡ is_serving s.request)
unfolding server_time
requests_accounted_example =
    requests_accounted second second second none none (readying ++ admitting)
      (tt, (tt, (tt, (tt, (tt, (tt, (tt, (tt, (tt, (tt, (refl, tt)))))))))))

stale_resets_harmless_example :
    let s = run fresh readying in
    IsUntouched s.client (step s (resets_on 0 (world (reply 1 "ack")))).client
unfolding run step new_client begin_reset try_step step_resets reset_step settle acknowledge_reset
    publish_socket lookup_socket check_acknowledgement
stale_resets_harmless_example =
    stale_resets_harmless second second second none none readying 0 (world (reply 1 "ack")) refl

blocked_until_reset_example :
    ((run fresh resetting).client.reset_required ≡ true)
    × ((run fresh resetting).client.requests_started ≡ 0)
unfolding run step new_client begin_reset try_step step_resets reset_step settle acknowledge_reset
    publish_socket lookup_socket check_acknowledgement
blocked_until_reset_example = blocked_until_reset fresh resetting refl refl

completed_current_example :
    (invalidations turns ≡ 0)
    × ((run serving turns).client.generation ≡ 1)
    × (request.generation ≡ 1)
unfolding run step new_client lookup_socket infer_step check_response commit server_time
completed_current_example =
    completed_current serving turns (world (reply 2 "ok")) request (replies (reply 2 "ok")) refl
      (omega arith) (omega arith)

acknowledged_current_example :
    (invalidations (drop 1 resetting) ≡ 0)
    × ((run begun (drop 1 resetting)).client.generation ≡ 1)
    × (first_reset.generation ≡ 1)
unfolding run step new_client begin_reset try_step step_resets reset_step settle acknowledge_reset
    publish_socket lookup_socket check_acknowledgement
acknowledged_current_example =
    acknowledged_current begun (drop 1 resetting) 0 (world (reply 1 "ack")) first_reset
      (settles none) refl (omega arith) (omega arith)

io_exclusive_example :
    (users (run fresh (readying ++ admitting)) ≤ 1)
    × ((w w' : World ℕ) (r : Request) (phase : Phase ℕ) (d : Client)
        → IsAlike w w'
        → uses_connection phase ≡ false
        → infer_step w' r phase d ≡ infer_step w r phase d)
    × ((w w' : World ℕ) (r : Reset) (phase : ResetPhase ℕ) (d : Client)
        → IsAlike w w'
        → reset_uses_connection phase ≡ false
        → reset_step w' r phase d ≡ reset_step w r phase d)
io_exclusive_example = io_exclusive client (readying ++ admitting)
